-- ===== src/Obd/Protocol/Modes.antt =====
-- The services beside Mode 01: what changes the store, and the shape of every answer.
use ecu_simulator.Prelude.{
  ℕ, ◌+◌, String, ◌≡◌, refl, inl, inr, Bool, true, false, ◌&&◌, Option, none, some, [], ◌∷◌, arith,
  ltb, leb, ◌==◌, if◌then◌else◌, Bool-cases, drop, as_some, Result, ok, err, ◌>>=◌,
}
use ecu_simulator.Bytes.{Bytes}
use ecu_simulator.Dtc.Store.{DtcStore, clear, confirmed}
use ecu_simulator.Vehicle.Floats.{Floats}
use ecu_simulator.Vehicle.State.{VehicleState}
use ecu_simulator.Obd.Dtc.{encode}
use ecu_simulator.Obd.Protocol.{
  prefix, second, range_answer, mode01, mode01_body, mode03, mode09, vin_field, ecu_name_field,
  serve, handle, parameters_to_answer, unless_empty, framed_answer,
}

-- The service of a request, or none that this protocol serves.
abbrev pub service : Bytes → ℕ
service [] = 0
service (sid ∷ rest) = sid

-- An answer repeats the service identifier with bit 6 set; silence and exceptions are no answer.
abbrev pub is_answer_to : ℕ → Result (Option Bytes) → Bool
is_answer_to sid (ok none) = true
is_answer_to sid (ok (some [])) = false
is_answer_to sid (ok (some (first ∷ rest))) = first == sid + 0x40
is_answer_to sid (err e) = true

module _ ⦃F : Floats⦄ where
  serve_store :
      (vehicle : VehicleState) (ecu_name : String) (store : DtcStore) (sid : ℕ) (payload : Bytes)
      → (serve vehicle ecu_name store sid payload).1 ≡ (if sid == 0x04 then clear store else store)
  unfolding serve
  serve_store vehicle ecu_name store sid payload = ground arith

  -- Whatever follows the service identifier, an OBD request changes the store exactly if the service
  -- is 0x04, and then it clears it.
  pub handle_store :
      (vehicle : VehicleState) (ecu_name : String) (store : DtcStore) (payload : Bytes)
      → (handle vehicle ecu_name store payload).1
        ≡ (if service payload == 0x04 then clear store else store)
  unfolding handle
  handle_store vehicle ecu_name store [] = refl
  handle_store vehicle ecu_name store (sid ∷ rest) =
      elim (Bool-cases (leb 0x01 sid && ltb sid 0x0B)) [
        | inl claimed ↦ rw claimed (serve_store vehicle ecu_name store sid (sid ∷ rest))
        | inr other ↦ rw other (ground arith)
      ]

  of_body : (r : Result Bytes) → is_answer_to 0x01 (r >>= λ body. ok (unless_empty body)) ≡ true
  of_body (ok []) = refl
  of_body (ok (b ∷ bs)) = refl
  of_body (err e) = refl

  of_codes :
      (pid : Option ℕ) (r : Result Bytes)
      → is_answer_to 0x03 (as_some (r >>= λ codes. ok (prefix 0x03 pid codes))) ≡ true
  unfolding prefix
  of_codes none (ok codes) = refl
  of_codes (some p) (ok codes) = refl
  of_codes pid (err e) = refl

  mode01-answers :
      (vehicle : VehicleState) (requested : Bytes)
      → is_answer_to 0x01 (mode01 vehicle requested) ≡ true
  unfolding mode01
  mode01-answers vehicle requested = of_body (mode01_body vehicle (parameters_to_answer requested))

  mode03-answers :
      (store : DtcStore) (pid : Option ℕ) → is_answer_to 0x03 (as_some (mode03 store pid)) ≡ true
  unfolding mode03 prefix
  mode03-answers store pid = of_codes pid (encode (confirmed store))

  framed-answers :
      (pid : ℕ) (r : Result (Option Bytes)) → is_answer_to 0x09 (framed_answer pid r) ≡ true
  unfolding prefix
  framed-answers pid (ok none) = refl
  framed-answers pid (ok (some bs)) = refl
  framed-answers pid (err e) = refl

  mode09-answers :
      (vehicle : VehicleState) (ecu_name : String) (pid : Option ℕ)
      → is_answer_to 0x09 (mode09 vehicle ecu_name pid) ≡ true
  unfolding mode09
  mode09-answers vehicle ecu_name none = refl
  mode09-answers vehicle ecu_name (some pid) = ground (
    arith,
    framed-answers pid (range_answer pid (0x02 ∷ 0x0A ∷ [])),
    framed-answers pid (as_some (vin_field vehicle)),
    framed-answers pid (ok (some (ecu_name_field ecu_name))),
  )

  serve-answers :
      (vehicle : VehicleState) (ecu_name : String) (store : DtcStore) (sid : ℕ) (payload : Bytes)
      → is_answer_to sid (serve vehicle ecu_name store sid payload).0 ≡ true
  unfolding serve
  serve-answers vehicle ecu_name store sid payload = ground (
    arith,
    mode01-answers vehicle (drop 1 payload),
    mode03-answers store (second payload),
    mode09-answers vehicle ecu_name (second payload),
  )

  -- An OBD answer is never empty: it begins with the service identifier plus 0x40.
  pub handle-answers :
      (vehicle : VehicleState) (ecu_name : String) (store : DtcStore) (sid : ℕ) (rest : Bytes)
      → is_answer_to sid (handle vehicle ecu_name store (sid ∷ rest)).0 ≡ true
  unfolding handle
  handle-answers vehicle ecu_name store sid rest =
      elim (Bool-cases (leb 0x01 sid && ltb sid 0x0B)) [
        | inl claimed ↦ rw claimed (serve-answers vehicle ecu_name store sid (sid ∷ rest))
        | inr other ↦ rw other refl
      ]
