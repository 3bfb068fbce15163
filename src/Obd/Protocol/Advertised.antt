-- ===== src/Obd/Protocol/Advertised.antt =====
-- What Mode 01 advertises, beside what it answers.
use ecu_simulator.Prelude.{
  ℕ, ◌+◌, ◌<◌, String, ◌≡◌, refl, ◌∙◌, ◌⊎◌, inl, inr, Bool, true, false, not, ◌&&◌, Option, none,
  some, List, [], ◌∷◌, ◌++◌, map, arith, if◌then◌else◌, Bool-cases, Option-cases, contains, as_some,
  Result, ok, err, ◌>>=◌,
}
use mathlib.Core.List.{append-nil}
use ecu_simulator.Dtc.Store.{DtcStore}
use ecu_simulator.Prelude.Bits.{bit}
use ecu_simulator.Bytes.{Bytes, from_bytes}
use ecu_simulator.Vehicle.Floats.{Floats}
use ecu_simulator.Vehicle.State.{VehicleState}
use ecu_simulator.Obd.Masks.{is_range_request, supported_mask}
use ecu_simulator.Obd.Masks.Bits.{supported_mask-bit}
use ecu_simulator.Obd.Pids.{
  PidDefinition, supported_by, read, mode01_definitions, find_pid, supported_of, supported_pids,
}
use ecu_simulator.Obd.Protocol.{
  definition_of, mode01_parameter, echoed, unless_empty, mode01, mode01_body, parameters_to_answer,
  dedupe, serve, handle,
}

abbrev distinct : List ℕ → Bool
distinct [] = true
distinct (x ∷ xs) = not (contains x xs) && distinct xs

abbrev is_none {ℓ} : {A : Type ℓ} → Option A → Bool
is_none none = true
is_none (some a) = false

single :
    (base o : ℕ)
    → is_range_request base ≡ true
    → 0 < o
    → o < 32
    → is_range_request (base + o) ≡ false
unfolding is_range_request
single base o range p q = ground arith

module _ ⦃F : Floats⦄ where
  pids : List PidDefinition → List ℕ
  pids = map (λ (d : PidDefinition). d.pid)

  -- the lookup of a supported definition
  supported_find : VehicleState → Option PidDefinition → Bool
  supported_find vehicle none = false
  supported_find vehicle (some d) = supported_by d vehicle

  absent :
      (vehicle : VehicleState) (table : List PidDefinition) (pid : ℕ)
      → contains pid (pids table) ≡ false
      → contains pid (supported_of table vehicle) ≡ false
  unfolding pids supported_of
  absent vehicle [] pid h = refl
  absent vehicle (d ∷ rest) pid h = ground (arith, absent vehicle rest pid)

  supported-find :
      (vehicle : VehicleState) (table : List PidDefinition) (pid : ℕ)
      → distinct (pids table) ≡ true
      → contains pid (supported_of table vehicle) ≡ supported_find vehicle (find_pid table pid)
  unfolding pids supported_of supported_find find_pid
  supported-find vehicle [] pid h = refl
  supported-find vehicle (d ∷ rest) pid h =
      ground (arith, supported-find vehicle rest pid, absent vehicle rest pid)

  table_distinct : distinct (pids mode01_definitions) ≡ true
  unfolding pids mode01_definitions
  table_distinct = refl

  of_found :
      (vehicle : VehicleState) (found : Option PidDefinition)
      → supported_find vehicle found
        ≡ not (
            is_none {A = PidDefinition} (elim found [
              | none ↦ none
              | some d ↦ if supported_by d vehicle then some d else none
            ]))
  unfolding supported_find
  of_found vehicle none = refl
  of_found vehicle (some d) = ground arith

  supported-definition :
      (vehicle : VehicleState) (pid : ℕ)
      → contains pid (supported_pids vehicle) ≡ not (is_none (definition_of vehicle pid))
  unfolding supported_pids definition_of
  supported-definition vehicle pid =
      supported-find vehicle mode01_definitions pid table_distinct
      ∙ of_found vehicle (find_pid mode01_definitions pid)

  -- What 01 and one parameter is answered, by what the parameter gives.
  alone : ℕ → Result (Option Bytes) → Result (Option Bytes)
  alone pid (ok none) = ok none
  alone pid (ok (some bs)) = ok (some (0x41 ∷ pid ∷ bs))
  alone pid (err e) = err e

  body_alone :
      (pid : ℕ) (r : Result (Option Bytes))
      → (r >>= (λ answer. ok (echoed pid answer ++ []))) >>= (λ body. ok (unless_empty body))
        ≡ alone pid r
  unfolding alone
  body_alone pid (ok none) = refl
  body_alone pid (ok (some bs)) = rw append-nil refl
  body_alone pid (err e) = refl

  handle-alone :
      (vehicle : VehicleState) (ecu_name : String) (store : DtcStore) (pid : ℕ)
      → (handle vehicle ecu_name store (0x01 ∷ pid ∷ [])).0
        ≡ alone pid (mode01_parameter vehicle pid)
  unfolding handle serve mode01 mode01_body parameters_to_answer dedupe
  handle-alone vehicle ecu_name store pid = body_alone pid (mode01_parameter vehicle pid)

  -- What a reading of a parameter becomes: its bytes behind 41 and the parameter, or the exception.
  abbrev pub replied : ℕ → Result Bytes → Result (Option Bytes)
  replied pid (ok bs) = ok (some (0x41 ∷ pid ∷ bs))
  replied pid (err e) = err e

  alone-replied : (pid : ℕ) (r : Result Bytes) → alone pid (as_some r) ≡ replied pid r
  unfolding alone
  alone-replied pid (ok bs) = refl
  alone-replied pid (err e) = refl

  -- A clear bit tells of silence; a set one, of a parameter of the table that is read.
  abbrev pub Tells : VehicleState → ℕ → Result (Option Bytes) → ℕ → Type 0
  Tells vehicle pid answer told =
      ((told ≡ 0) × (answer ≡ ok none))
      ⊎ ((told ≡ 1)
          × (d : PidDefinition) × (find_pid mode01_definitions pid ≡ some d)
          × (answer ≡ replied pid (read d vehicle)))

  found :
      (vehicle : VehicleState) (lookup : Option PidDefinition) (d : PidDefinition)
      → ◌≡◌ {A = Option PidDefinition}
          (elim lookup [ none ↦ none | some e ↦ if supported_by e vehicle then some e else none ])
          (some d)
      → lookup ≡ some d
  found vehicle none d h = cc
  found vehicle (some e) d h = elim (Bool-cases (supported_by e vehicle)) [
    | inl there ↦ rw there at h
    | inr missing ↦ absurd (cc (rw missing at h))
  ]

  found_definition :
      (vehicle : VehicleState) (pid : ℕ) (d : PidDefinition)
      → definition_of vehicle pid ≡ some d
      → find_pid mode01_definitions pid ≡ some d
  unfolding definition_of
  found_definition vehicle pid d h = found vehicle (find_pid mode01_definitions pid) d h

  told :
      (vehicle : VehicleState) (pid : ℕ)
      → is_range_request pid ≡ false
      → Tells vehicle pid
          (alone pid (mode01_parameter vehicle pid))
          (if contains pid (supported_pids vehicle) then 1 else 0)
  unfolding mode01_parameter
  told vehicle pid h = elim (Option-cases (definition_of vehicle pid)) [
    | inl unknown ↦
        rw (supported-definition vehicle pid, h, unknown) (inl (refl, unfold alone in refl))
    | inr (d, known) ↦
        rw (supported-definition vehicle pid, h, known)
          (inr (refl, d, found_definition vehicle pid d known, alone-replied pid (read d vehicle)))
  ]

  -- Bits 31 to 1 of the mask of a range stand for the parameters base + 1 to base + 31. Where the bit
  -- is clear, 01 and the parameter gets no response. Where it is set, the parameter is one of the
  -- table, and the answer is 41, the parameter and the bytes that are read for it, or the exception
  -- that reading it raises.
  pub mask-answers :
      (vehicle : VehicleState) (ecu_name : String) (store : DtcStore) (base o j : ℕ) (mask : Bytes)
      → supported_mask base (supported_pids vehicle) ≡ ok mask
      → is_range_request base ≡ true
      → j + o ≡ 32
      → 0 < o
      → 0 < j
      → Tells vehicle
          (base + o)
          (handle vehicle ecu_name store (0x01 ∷ (base + o) ∷ [])).0
          (bit j (from_bytes mask))
  mask-answers vehicle ecu_name store base o j mask e range sums p q =
      rw
        (
          (supported_mask-bit base o j (supported_pids vehicle) mask e sums p q).0,
          handle-alone vehicle ecu_name store (base + o),
        )
        (told vehicle (base + o) (single base o range p (omega (arith, sums, q))))
