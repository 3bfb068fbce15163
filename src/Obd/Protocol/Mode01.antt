-- ===== src/Obd/Protocol/Mode01.antt =====
-- Mode 01: which parameters a request selects, and what a tester reads back from the response.
use ecu_simulator.Prelude.{
  ℕ, ◌≡◌, refl, sym, ap, ◌∙◌, inl, inr, true, false, not, ◌||◌, Option, none, some, List, [], ◌∷◌,
  ◌++◌, map, arith, ◌==◌, if◌then◌else◌, ==_iff, Bool-cases, Option-cases, length, take, select,
  contains, as_some, Result, ok, err,
}
use mathlib.Core.List.{append-nil, append_assoc}
use ecu_simulator.Bytes.{Bytes}
use ecu_simulator.Vehicle.Floats.{Floats}
use ecu_simulator.Vehicle.State.{VehicleState}
use ecu_simulator.Obd.Masks.{is_range_request, is_advertised_range}
use ecu_simulator.Obd.Masks.Bits.{supported_mask_total}
use ecu_simulator.Obd.Pids.{PidDefinition, read, mode01_definitions, find_pid, supported_pids}
use ecu_simulator.Obd.Pids.Laws.{Sized, find_pid-Encodes}
use ecu_simulator.Obd.Protocol.{
  dedupe, parameters_to_answer, definition_of, range_answer, mode01_parameter,
}

-- The first occurrences in a list, in their order.
abbrev pub others : ℕ → List ℕ → List ℕ
others x = select (λ y. not (y == x))

pub nub : List ℕ → List ℕ
nub [] = []
nub (x ∷ xs) = x ∷ others x (nub xs)

fresh : List ℕ → List ℕ → List ℕ
fresh answered = select (λ y. not (contains y answered))

fresh-nil : (xs : List ℕ) → fresh [] xs ≡ xs
unfolding fresh
fresh-nil [] = refl
fresh-nil (x ∷ xs) = ap (λ (r : List ℕ). x ∷ r) (fresh-nil xs)

contains-snoc : (y x : ℕ) (xs : List ℕ) → contains y (xs ++ x ∷ []) ≡ (contains y xs || (x == y))
contains-snoc y x [] = ground arith
contains-snoc y x (z ∷ xs) = ground (arith, contains-snoc y x xs)

fresh-snoc :
    (answered : List ℕ) (x : ℕ) (xs : List ℕ)
    → fresh (answered ++ x ∷ []) xs ≡ fresh answered (others x xs)
unfolding fresh
fresh-snoc answered x [] = refl
fresh-snoc answered x (y ∷ ys) =
    ground (arith, fresh-snoc answered x ys, contains-snoc y x answered)

fresh-old :
    (answered : List ℕ) (x : ℕ) (xs : List ℕ)
    → contains x answered ≡ true
    → fresh answered (others x xs) ≡ fresh answered xs
unfolding fresh
fresh-old answered x [] h = refl
fresh-old answered x (y ∷ ys) h = ground (arith, fresh-old answered x ys h, ==_iff y x)

dedupe-fresh :
    (answered : List ℕ) (xs : List ℕ) → dedupe answered xs ≡ answered ++ fresh answered (nub xs)
unfolding dedupe nub
dedupe-fresh answered [] = unfold fresh in sym (append-nil answered)
dedupe-fresh answered (x ∷ xs) = elim (Bool-cases (contains x answered)) [
  | inl old ↦ rw old (dedupe-fresh answered xs ∙ ap (λ (r : List ℕ). answered ++ r) (seen old))
  | inr new ↦ rw new (
      dedupe-fresh (answered ++ x ∷ []) xs
      ∙ append_assoc answered (x ∷ []) (fresh (answered ++ x ∷ []) (nub xs))
      ∙ ap (λ (r : List ℕ). answered ++ r) (unseen new))
]
  where
    seen :
        contains x answered ≡ true
        → fresh answered (nub xs) ≡ fresh answered (x ∷ others x (nub xs))
    seen old = unfold fresh in rw old (sym (fresh-old answered x (nub xs) old))

    unseen :
        contains x answered ≡ false
        → x ∷ fresh (answered ++ x ∷ []) (nub xs) ≡ fresh answered (x ∷ others x (nub xs))
    unseen new =
        unfold fresh in rw new (ap (λ (r : List ℕ). x ∷ r) (fresh-snoc answered x (nub xs)))

-- A request is answered for the first occurrences among its first six parameter bytes, in order.
pub parameters_to_answer-nub :
    (requested : Bytes) → parameters_to_answer requested ≡ nub (take 6 requested)
unfolding parameters_to_answer
parameters_to_answer-nub requested =
    dedupe-fresh [] (take 6 requested) ∙ fresh-nil (nub (take 6 requested))

-- How many data bytes follow a parameter identifier: what a tester has to know of the table.
unfoldable pub size_of : List (ℕ × ℕ) → ℕ → ℕ
size_of [] pid = 4
size_of ((p, n) ∷ rest) pid = if p == pid then n else size_of rest pid

module _ ⦃F : Floats⦄ where
  abbrev sizes : List PidDefinition → List (ℕ × ℕ)
  sizes = map (λ (d : PidDefinition). (d.pid, d.length))

  -- The bytes behind each identifier: four for a range, the table's length for a parameter.
  unfoldable pub data_size : ℕ → ℕ
  unfolding size_of
  data_size pid = if is_range_request pid then 4 else size_of (sizes mode01_definitions) pid

  size_of-find_pid :
      (table : List PidDefinition) (pid : ℕ) (d : PidDefinition)
      → find_pid table pid ≡ some d
      → size_of (sizes table) pid ≡ d.length
  unfolding size_of find_pid
  size_of-find_pid [] pid d e = cc
  size_of-find_pid (x ∷ rest) pid d e = elim (Bool-cases (x.pid == pid)) [
    | inl hit ↦
        let same : some x ≡ some d = rw hit at e in
        let it : x ≡ d = cc same in rw hit (ap (λ (q : PidDefinition). q.length) it)
    | inr miss ↦ rw miss (size_of-find_pid rest pid d (rw miss at e))
  ]

  -- the length of an answer
  abbrev pub SizedAnswer : ℕ → Result (Option Bytes) → Type 0
  SizedAnswer n (ok (some bs)) = length bs ≡ n
  SizedAnswer n (ok none) = Unit {0}
  SizedAnswer n (err e) = Unit {0}

  range_answer-Sized : (pid : ℕ) (supported : List ℕ) → SizedAnswer 4 (range_answer pid supported)
  unfolding range_answer
  range_answer-Sized pid supported = elim (Bool-cases (is_advertised_range pid supported)) [
    | inl reached ↦
        let (mask, produced, four, _) = supported_mask_total pid supported in
        rw (reached, produced) four
    | inr hidden ↦ rw hidden tt
  ]

  definition-found :
      (vehicle : VehicleState) (pid : ℕ) (d : PidDefinition)
      → definition_of vehicle pid ≡ some d
      → find_pid mode01_definitions pid ≡ some d
  unfolding definition_of
  definition-found vehicle pid d e = ground arith

  read-Sized :
      (vehicle : VehicleState) (pid : ℕ) (d : PidDefinition)
      → definition_of vehicle pid ≡ some d
      → Sized (size_of (sizes mode01_definitions) pid) (read d vehicle)
  read-Sized vehicle pid d e =
      let found = definition-found vehicle pid d e in
      let (same, sized) = find_pid-Encodes vehicle pid d found in
      rw (same, size_of-find_pid mode01_definitions pid d found) sized

  as_some-Sized : (n : ℕ) (r : Result Bytes) → Sized n r → SizedAnswer n (as_some r)
  as_some-Sized n (ok bs) h = h.0
  as_some-Sized n (err e) h = tt

  pub mode01_parameter-Sized :
      (vehicle : VehicleState) (pid : ℕ)
      → SizedAnswer (data_size pid) (mode01_parameter vehicle pid)
  unfolding mode01_parameter data_size
  mode01_parameter-Sized vehicle pid = elim (Bool-cases (is_range_request pid)) [
    | inl range ↦ rw (range, data_size) (range_answer-Sized pid (supported_pids vehicle))
    | inr single ↦ elim (Option-cases (definition_of vehicle pid)) [
      | inl unknown ↦ rw (single, unknown) tt
      | inr (d, found) ↦
          rw (single, found)
            (as_some-Sized (size_of (sizes mode01_definitions) pid) (read d vehicle)
              (read-Sized vehicle pid d found))
    ]
  ]
