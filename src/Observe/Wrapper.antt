-- ===== src/Observe/Wrapper.antt =====
-- src/ecu_simulator/observe/wrapper.py: the handler of a transport, watched. `S` is the state that
-- the handler changes, `inner` the handler, and `class_name` the name of an exception's class; the
-- clock is read twice.
pub mod Laws
use ecu_simulator.Prelude.{
  ℕ, zero, suc, ◌+◌, ◌-◌, ◌*◌, ◌/◌, ◌%◌, ◌^◌, ◌≤◌, ◌<◌, bit_and, bit_or, String, ◌≡◌, refl, sym, ap,
  ◌∙◌, ◌≢◌, ◌↔◌, ◌⊎◌, inl, inr, Bool, true, false, not, ◌&&◌, ◌||◌, Option, none, some, List, [],
  ◌∷◌, ◌++◌, map, arith, str_eq, eq_iff, ltb, leb, ◌==◌, if◌then◌else◌, ltb→lt, lt→ltb, leb→le,
  le→leb, ==_iff, Bool-cases, Option-cases, Result-cases, ok-injective, &&-true, length, get_elem?,
  take, drop, replicate, any, all, select, All, length-append, length-take, length-replicate,
  length-map, All-append, contains, ℤ, pos, negsuc, clamp, ◌+ℤ◌, ◌*ℤ◌, sub_ℕ, ltb_ℤ, Error,
  value_error, key_error, type_error, overflow_error, index_error, traverse, as_some,
  not_implemented, unknown_signal, service_conflict, route_conflict, provider_conflict,
  assertion_error, Result, ok, err, ◌>>=◌, ◌>>◌, raise_if, or_raise, >>=-eq-ok,
}
use ecu_simulator.Transport.Messages.{DiagnosticRequest, DiagnosticResponse}
use ecu_simulator.Observe.HandOff.{ExchangeRecord, HandOff, append}

pub record Observed {ℓ} (S : Type ℓ) : Type ℓ where
  pub state : S
  pub handoff : HandOff
  pub issued : ℕ
  -- whether `wake` was called
  pub woken : Bool

abbrev pub Answer : Type 0
Answer = Result (Option DiagnosticResponse)

abbrev pub response_of : Answer → Option DiagnosticResponse
response_of (err e) = none
response_of (ok response) = response

abbrev pub error_of : (Error → String) → Answer → Option String
error_of class_name (err e) = some (class_name e)
error_of class_name (ok response) = none

-- the record that is appended, whichever way the handler ends
unfoldable pub record_of :
    (Error → String) → ℕ → ℕ → ℕ → DiagnosticRequest → Answer → ExchangeRecord
record_of class_name seq t0 t1 request answer = record {
  seq = seq;
  t0_ns = t0;
  elapsed_ns = t1 - t0;
  request = request;
  response = response_of answer;
  error = error_of class_name answer;
}

-- A request with the readings of the clock before and after it.
abbrev pub Timed : Type 0
Timed = DiagnosticRequest × (ℕ × ℕ)

-- one request after another, not watched
module _ {ℓ} {S : Type ℓ} (inner : S → DiagnosticRequest → Answer × S) where
  unfoldable pub plain : S → List Timed → List Answer × S
  plain s [] = ([], s)
  plain s ((request, times) ∷ rest) =
      let out = inner s request in let more = plain out.1 rest in (out.0 ∷ more.0, more.1)

module _ {ℓ} {S : Type ℓ} (inner : S → DiagnosticRequest → Answer × S)
    (class_name : Error → String) where
  -- `ObservedDispatcher.__call__`
  unfoldable pub observed_call : Observed S → DiagnosticRequest → ℕ → ℕ → Answer × Observed S
  observed_call o request t0 t1 =
      let out = inner o.state request in
      let seq = o.issued + 1 in
      (
        out.0,
        record o {
          state = out.1;
          handoff = (append o.handoff (record_of class_name seq t0 t1 request out.0)).1;
          issued = seq;
          woken = true;
        },
      )

  -- one request after another, watched
  unfoldable pub watched : Observed S → List Timed → List Answer × Observed S
  watched o [] = ([], o)
  watched o ((request, (t0, t1)) ∷ rest) =
      let out = observed_call o request t0 t1 in
      let more = watched out.1 rest in (out.0 ∷ more.0, more.1)
