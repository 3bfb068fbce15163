-- ===== src/Observe/Wrapper/Laws.antt =====
-- What watching a handler changes, and what it does not.
use ecu_simulator.Prelude.{
  ℕ, suc, ◌+◌, ◌≤◌, ◌<◌, String, ◌≡◌, refl, sym, ap, inl, inr, List, [], ◌∷◌, ◌++◌, arith,
  Bool-cases, length, All, length-append, Error,
}
use mathlib.Core.Path.{subst}
use ecu_simulator.Transport.Messages.{DiagnosticRequest}
use ecu_simulator.Observe.HandOff.{ExchangeRecord, HandOff, append, is_full}
use ecu_simulator.Observe.Wrapper.{
  Observed, Answer, record_of, observed_call, Timed, watched, plain,
}

-- Ascending numbers, none above `last`.
abbrev pub IsNumbered : ℕ → List ExchangeRecord → Type 0
IsNumbered last [] = Unit {0}
IsNumbered last (r ∷ rest) =
    (r.seq ≤ last) × All (λ (s : ExchangeRecord). r.seq < s.seq) rest × IsNumbered last rest

IsNumbered-later :
    (last more : ℕ) (rs : List ExchangeRecord)
    → last ≤ more
    → IsNumbered last rs
    → IsNumbered more rs
IsNumbered-later last more [] h n = tt
IsNumbered-later last more (r ∷ rest) h n =
    (omega (arith, n.0), n.1, IsNumbered-later last more rest h n.2)

all-below :
    (last k : ℕ) (rs : List ExchangeRecord) (r : ExchangeRecord)
    → k ≤ last
    → r.seq ≡ suc last
    → All (λ (s : ExchangeRecord). k < s.seq) rs
    → All (λ (s : ExchangeRecord). k < s.seq) (rs ++ r ∷ [])
all-below last k [] r h e a = (omega (arith, e), tt)
all-below last k (s ∷ rest) r h e a = (a.0, all-below last k rest r h e a.1)

IsNumbered-append :
    (last : ℕ) (rs : List ExchangeRecord) (r : ExchangeRecord)
    → r.seq ≡ suc last
    → IsNumbered last rs
    → IsNumbered (suc last) (rs ++ r ∷ [])
IsNumbered-append last [] r e n = (omega (arith, e), tt, tt)
IsNumbered-append last (s ∷ rest) r e n =
    (omega (arith, n.0), all-below last s.seq rest r n.0 e n.1, IsNumbered-append last rest r e n.2)

append-IsNumbered :
    (last : ℕ) (h : HandOff) (r : ExchangeRecord)
    → r.seq ≡ suc last
    → IsNumbered last h.records
    → IsNumbered (suc last) (append h r).1.records
unfolding append
append-IsNumbered last h r e n = elim (Bool-cases (is_full h r)) [
  | inl full ↦ rw full (IsNumbered-later last (suc last) h.records (omega arith) n)
  | inr fits ↦ rw fits (IsNumbered-append last h.records r e n)
]

append-count :
    (h : HandOff) (r : ExchangeRecord)
    → length (append h r).1.records + (append h r).1.dropped ≡ suc (length h.records + h.dropped)
unfolding append
append-count h r = ground (arith, length-append h.records (r ∷ []))

module _ {ℓ} {S : Type ℓ} (inner : S → DiagnosticRequest → Answer × S)
    (class_name : Error → String) where
  -- Watching changes neither the answer to any request nor the state that the handler leaves, also
  -- where it raises.
  pub watched-plain :
      (o : Observed S) (requests : List Timed)
      → let out = watched inner class_name o requests in
        (out.0 ≡ (plain inner o.state requests).0)
        × (out.1.state ≡ (plain inner o.state requests).1)
  unfolding watched plain observed_call
  watched-plain o [] = (refl, refl)
  watched-plain o ((request, (t0, t1)) ∷ rest) =
      let out = observed_call inner class_name o request t0 t1 in
      let ih = watched-plain out.1 rest in (ap (λ (l : List Answer). out.0 ∷ l) ih.0, ih.1)

  -- Where the records in the hand-off have ascending numbers, at most the number of requests issued,
  -- and are with the dropped ones as many, so they are after any further requests.
  pub watched-records :
      (o : Observed S) (requests : List Timed)
      → IsNumbered o.issued o.handoff.records
      → length o.handoff.records + o.handoff.dropped ≡ o.issued
      → let out = (watched inner class_name o requests).1 in
        IsNumbered out.issued out.handoff.records
        × (length out.handoff.records + out.handoff.dropped ≡ out.issued)
        × (out.issued ≡ o.issued + length requests)
  unfolding watched observed_call record_of
  watched-records o [] n c = (n, c, omega arith)
  watched-records o ((request, (t0, t1)) ∷ rest) n c =
      let out = (observed_call inner class_name o request t0 t1).1 in
      let r : ExchangeRecord =
        record_of class_name (o.issued + 1) t0 t1 request (inner o.state request).0 in
      let e : r.seq ≡ suc o.issued = omega arith in
      let next : o.issued + 1 ≡ suc o.issued = omega arith in
      let n' : IsNumbered (o.issued + 1) out.handoff.records =
        subst (λ (k : ℕ). IsNumbered k out.handoff.records) (sym next)
          (append-IsNumbered o.issued o.handoff r e n) in
      let ih = watched-records out rest n' (omega (arith, append-count o.handoff r, c)) in
      (ih.0, ih.1, omega (arith, ih.2))
