-- ===== src/Observe/HandOff/Laws.antt =====
-- What a hand-off keeps over any sequence of calls.
use ecu_simulator.Prelude.{
  ℕ, suc, ◌+◌, ◌≤◌, ◌≡◌, refl, sym, ap, ◌∙◌, inl, inr, Bool, true, false, List, [], ◌∷◌, ◌++◌,
  arith, Bool-cases, length, length-append, Result, ok, err,
}
use mathlib.Core.List.{append-nil, append_assoc}
use ecu_simulator.Observe.HandOff.{
  ExchangeRecord, HandOff, new, size, append, popleft, popped, is_full, handoff_max_records,
  handoff_max_bytes,
}

-- bytes of the payloads of these records
unfoldable pub total : List ExchangeRecord → ℕ
total [] = 0
total (r ∷ rest) = size r + total rest

pub total-append : (a b : List ExchangeRecord) → total (a ++ b) ≡ total a + total b
unfolding total
total-append [] b = omega arith
total-append (r ∷ rest) b = omega (arith, total-append rest b)

-- The byte count is that of the queued payloads, and both bounds hold.
pub record IsBounded (h : HandOff) : Type 0 where
  pub counted : h.bytes ≡ total h.records
  pub few : length h.records ≤ h.max_records
  pub small : h.bytes ≤ h.max_bytes

pub append-IsBounded : (h : HandOff) (r : ExchangeRecord) → IsBounded h → IsBounded (append h r).1
unfolding append
append-IsBounded h r b =
    let sum = total-append h.records (r ∷ []) in
    let one : total (r ∷ []) ≡ size r + 0 = unfold total in refl in
    let len = length-append h.records (r ∷ []) in
    elim (Bool-cases (is_full h r)) [
      | inl full ↦ rw full (record { counted = b.counted; few = b.few; small = b.small })
      | inr fits ↦ rw fits (record {
        counted = omega (arith, sum, one, b.counted);
        few = ground (arith, len);
        small = ground arith;
      })
    ]

-- What the publisher and the request handler do to the hand-off.
pub data Call : Type 0 where
  put : ExchangeRecord → Call
  pull : Call

-- What came of some calls: the records that were kept, and those that were taken out.
pub record Outcome : Type 0 where
  pub kept : List ExchangeRecord
  pub taken : List ExchangeRecord
  pub after : HandOff

abbrev kept_by : Bool → ExchangeRecord → List ExchangeRecord
kept_by true r = r ∷ []
kept_by false r = []

abbrev pulled : HandOff → Result (ExchangeRecord × HandOff) → List ExchangeRecord × HandOff
pulled h (err e) = ([], h)
pulled h (ok (r, h')) = (r ∷ [], h')

-- The calls one after another; a `popleft` of an empty hand-off raises and changes nothing.
unfoldable pub perform : HandOff → List Call → Outcome
perform h [] = record { kept = []; taken = []; after = h }
perform h (put r ∷ rest) =
    let out = perform (append h r).1 rest in
    record { kept = kept_by (append h r).0 r ++ out.kept; taken = out.taken; after = out.after }
perform h (pull ∷ rest) =
    let step = pulled h (popleft h) in
    let out = perform step.1 rest in
    record { kept = out.kept; taken = step.0 ++ out.taken; after = out.after }

abbrev pub puts : List Call → ℕ
puts [] = 0
puts (put r ∷ rest) = suc (puts rest)
puts (pull ∷ rest) = puts rest

-- One call: what it keeps, takes and counts.
append_step :
    (h : HandOff) (r : ExchangeRecord)
    → ((append h r).1.records ≡ h.records ++ kept_by (append h r).0 r)
      × ((append h r).1.dropped + length (kept_by (append h r).0 r) ≡ suc h.dropped)
unfolding append
append_step h r = elim (Bool-cases (is_full h r)) [
  | inl full ↦ rw full (sym (append-nil h.records), omega arith)
  | inr fits ↦ rw fits (refl, omega arith)
]

popped-step :
    (h : HandOff) (rs : List ExchangeRecord)
    → h.records ≡ rs
    → let step = pulled h (popped h rs) in
      (step.0 ++ step.1.records ≡ rs)
      × (step.1.dropped ≡ h.dropped)
      × (IsBounded h → IsBounded step.1)
popped-step h [] e = (e, refl, λ b. b)
popped-step h (r ∷ rest) e = (
  refl,
  refl,
  λ b.
      let sum : h.bytes ≡ size r + total rest = b.counted ∙ ap total e ∙ (unfold total in refl) in
      let len : length h.records ≡ suc (length rest) = ap length e in
      record {
        counted = omega (arith, sum);
        few = omega (arith, len, b.few);
        small = omega (arith, sum, b.small);
      },
)

pull_step :
    (h : HandOff)
    → let step = pulled h (popleft h) in
      (step.0 ++ step.1.records ≡ h.records)
      × (step.1.dropped ≡ h.dropped)
      × (IsBounded h → IsBounded step.1)
unfolding popleft
pull_step h = popped-step h h.records refl

-- Whatever the calls are, in whatever order, the bounds hold after them.
perform-IsBounded :
    (h : HandOff) (calls : List Call) → IsBounded h → IsBounded (perform h calls).after
unfolding perform
perform-IsBounded h [] b = b
perform-IsBounded h (put r ∷ rest) b =
    perform-IsBounded (append h r).1 rest (append-IsBounded h r b)
perform-IsBounded h (pull ∷ rest) b =
    perform-IsBounded (pulled h (popleft h)).1 rest ((pull_step h).2 b)

-- The records that were kept come out in the order in which they were kept; what has not come out
-- is still queued.
perform-fifo :
    (h : HandOff) (calls : List Call)
    → let out = perform h calls in out.taken ++ out.after.records ≡ h.records ++ out.kept
unfolding perform
perform-fifo h [] = sym (append-nil h.records)
perform-fifo h (put r ∷ rest) =
    let out = perform (append h r).1 rest in
    perform-fifo (append h r).1 rest
    ∙ ap (λ (l : List ExchangeRecord). l ++ out.kept) (append_step h r).0
    ∙ append_assoc h.records (kept_by (append h r).0 r) out.kept
perform-fifo h (pull ∷ rest) =
    let step = pulled h (popleft h) in
    let out = perform step.1 rest in
    append_assoc step.0 out.taken out.after.records
    ∙ ap (λ (l : List ExchangeRecord). step.0 ++ l) (perform-fifo step.1 rest)
    ∙ sym (append_assoc step.0 step.1.records out.kept)
    ∙ ap (λ (l : List ExchangeRecord). l ++ out.kept) (pull_step h).0

-- Each record is kept or counted as dropped.
perform-count :
    (h : HandOff) (calls : List Call)
    → let out = perform h calls in out.after.dropped + length out.kept ≡ h.dropped + puts calls
unfolding perform
perform-count h [] = refl
perform-count h (put r ∷ rest) =
    let out = perform (append h r).1 rest in
    omega (
      arith,
      perform-count (append h r).1 rest,
      (append_step h r).1,
      length-append (kept_by (append h r).0 r) out.kept,
    )
perform-count h (pull ∷ rest) =
    let step = pulled h (popleft h) in omega (arith, perform-count step.1 rest, (pull_step h).1)

append_limits :
    (h : HandOff) (r : ExchangeRecord)
    → ((append h r).1.max_records ≡ h.max_records) × ((append h r).1.max_bytes ≡ h.max_bytes)
unfolding append
append_limits h r = ground arith

popped_limits :
    (h : HandOff) (rs : List ExchangeRecord)
    → let after = (pulled h (popped h rs)).1 in
      (after.max_records ≡ h.max_records) × (after.max_bytes ≡ h.max_bytes)
popped_limits h [] = (refl, refl)
popped_limits h (r ∷ rest) = (refl, refl)

perform_limits :
    (h : HandOff) (calls : List Call)
    → let out = perform h calls in
      (out.after.max_records ≡ h.max_records) × (out.after.max_bytes ≡ h.max_bytes)
unfolding perform popleft
perform_limits h [] = (refl, refl)
perform_limits h (put r ∷ rest) =
    let e = perform_limits (append h r).1 rest in
    (e.0 ∙ (append_limits h r).0, e.1 ∙ (append_limits h r).1)
perform_limits h (pull ∷ rest) =
    let e = perform_limits (pulled h (popleft h)).1 rest in
    let f = popped_limits h h.records in (e.0 ∙ f.0, e.1 ∙ f.1)

empty-IsBounded : IsBounded new
unfolding total
empty-IsBounded = record { counted = refl; few = omega arith; small = omega arith }

-- From a new hand-off, after any sequence of `append` and `popleft` calls (a `popleft` of an empty
-- one raises and changes nothing): the records taken out, followed by those still queued, are the
-- ones that `append` kept, in the order of the calls; the drop count and the kept records together
-- are as many as the appends; at most 4096 records and at most 1 MiB of payload are queued, and
-- `bytes` is the sum of the payload sizes of what is queued.
pub perform_lem :
    (calls : List Call)
    → let out = perform new calls in
      (out.taken ++ out.after.records ≡ out.kept)
      × (out.after.dropped + length out.kept ≡ puts calls)
      × (length out.after.records ≤ handoff_max_records)
      × (out.after.bytes ≤ handoff_max_bytes)
      × (out.after.bytes ≡ total out.after.records)
perform_lem calls =
    let b = perform-IsBounded new calls empty-IsBounded in
    let limits = perform_limits new calls in
    (
      perform-fifo new calls,
      omega (arith, perform-count new calls),
      omega (arith, b.few, limits.0),
      omega (arith, b.small, limits.1),
      b.counted,
    )
