-- ===== src/Obd/Dtc.antt =====
-- src/ecu_simulator/protocols/obd/dtc.py: the confirmed codes as a count byte and two bytes each.
pub mod Laws
use ecu_simulator.Prelude.{
  ℕ, zero, suc, ◌+◌, ◌-◌, ◌*◌, ◌/◌, ◌%◌, ◌^◌, ◌≤◌, ◌<◌, bit_and, bit_or, String, ◌≡◌, refl, sym, ap,
  ◌∙◌, ◌≢◌, ◌↔◌, ◌⊎◌, inl, inr, Bool, true, false, not, ◌&&◌, ◌||◌, Option, none, some, List, [],
  ◌∷◌, ◌++◌, map, arith, str_eq, eq_iff, ltb, leb, ◌==◌, if◌then◌else◌, ltb→lt, lt→ltb, leb→le,
  le→leb, ==_iff, Bool-cases, Option-cases, Result-cases, ok-injective, &&-true, length, get_elem?,
  take, drop, replicate, any, all, select, All, length-append, length-take, length-replicate,
  length-map, All-append, contains, ℤ, pos, negsuc, clamp, ◌+ℤ◌, ◌*ℤ◌, sub_ℕ, ltb_ℤ, Error,
  value_error, key_error, type_error, overflow_error, index_error, traverse, not_implemented,
  unknown_signal, service_conflict, route_conflict, provider_conflict, Result, ok, err, ◌>>=◌, ◌>>◌,
  raise_if, or_raise, >>=-eq-ok,
}
use ecu_simulator.Bytes.{Bytes, to_bytes, zeros}
use ecu_simulator.Dtc.Codes.{is_valid, code_number}
use ecu_simulator.Dtc.Store.{DtcState}

abbrev pub max_dtcs_in_response : ℕ
max_dtcs_in_response = 255

-- the states of the comprehension's `if`
abbrev pub encodable : List DtcState → List DtcState
encodable = select (λ (s : DtcState). is_valid s.code)

-- `b"".join(number.to_bytes(2, "big") for number in numbers)`
unfoldable pub joined : List ℕ → Result Bytes
joined [] = ok []
joined (n ∷ rest) = do head ← to_bytes 2 n; tail ← joined rest; ok (head ++ tail)

-- the end of `encode`
unfoldable pub framed : List ℕ → Result Bytes
framed numbers =
    if ltb 0 (length numbers) && leb (length numbers) max_dtcs_in_response
    then (do body ← joined numbers; ok (length numbers ∷ body))
    else ok (zeros 1)

unfoldable pub encode : List DtcState → Result Bytes
encode states = do
  numbers ← traverse (λ (s : DtcState). code_number s.code) (encodable states)
  framed numbers
