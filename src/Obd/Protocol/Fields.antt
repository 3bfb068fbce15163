-- ===== src/Obd/Protocol/Fields.antt =====
-- The two fields of fixed length of Mode 09.
use ecu_simulator.Prelude.{
  ℕ, zero, suc, ◌-◌, String, ◌≡◌, refl, some, ◌∷◌, ◌++◌, arith, length, take, drop, replicate,
  length-append, length-take, length-replicate, ok,
}
use ecu_simulator.Bytes.{Bytes, utf8, zeros}
use ecu_simulator.Dtc.Store.{DtcStore}
use ecu_simulator.Vehicle.Floats.{Floats, text}
use ecu_simulator.Vehicle.State.{VehicleState, get}
use ecu_simulator.Obd.Masks.{is_range_request}
use ecu_simulator.Obd.Protocol.{prefix, mode09, vin_bytes, vin_field, ecu_name_field, serve, handle}

-- A text of `n` bytes, cut or filled up with zeros in front.
abbrev pub padded : ℕ → Bytes → Bytes
padded n bs = zeros (n - length bs) ++ bs

padded-length : (n : ℕ) (bs : Bytes) → length (padded n (take n bs)) ≡ n
padded-length n bs = omega (
  arith,
  length-append (zeros (n - length (take n bs))) (take n bs),
  length-replicate {A = ℕ} (n - length (take n bs)) 0,
  length-take n bs,
)

drop-padded : (k : ℕ) (bs : Bytes) → drop k (zeros k ++ bs) ≡ bs
drop-padded zero bs = refl
drop-padded (suc k) bs = drop-padded k bs

module _ ⦃F : Floats⦄ where
  -- For a VIN that is a text, 09 02 is answered by 49 02 01 and 17 bytes: the first 17 bytes of the
  -- VIN in UTF-8, after as many zeros as there are bytes fewer than 17.
  pub handle-vin :
      (vehicle : VehicleState) (ecu_name vin : String) (store : DtcStore) (rest : Bytes)
      → get vehicle "vehicle.vin" ≡ ok (text vin)
      → (field : Bytes) × (handle vehicle ecu_name store (0x09 ∷ 0x02 ∷ rest)
          ≡ (ok (some (0x49 ∷ 0x02 ∷ 0x01 ∷ field)), store))
        × (length field ≡ 17)
        × (field ≡ replicate (17 - length (take 17 (utf8 vin))) 0 ++ take 17 (utf8 vin))
  unfolding handle serve mode09 vin_field vin_bytes prefix is_range_request
  handle-vin vehicle ecu_name vin store rest stored =
      (padded 17 (take 17 (utf8 vin)), rw stored, padded-length 17 (utf8 vin), refl)

  -- 09 0A is answered by 49 0A and 20 bytes: zeros, and then as many bytes of the ECU's name as there
  -- are, at most 20.
  pub handle-ecu_name :
      (vehicle : VehicleState) (ecu_name : String) (store : DtcStore) (rest : Bytes)
      → (field : Bytes) × (handle vehicle ecu_name store (0x09 ∷ 0x0A ∷ rest)
          ≡ (ok (some (0x49 ∷ 0x0A ∷ field)), store))
        × (length field ≡ 20)
        × (drop (20 - length (take 20 (utf8 ecu_name))) field ≡ take 20 (utf8 ecu_name))
  unfolding handle serve mode09 ecu_name_field prefix is_range_request
  handle-ecu_name vehicle ecu_name store rest = (
    padded 20 (take 20 (utf8 ecu_name)),
    refl,
    padded-length 20 (utf8 ecu_name),
    drop-padded (20 - length (take 20 (utf8 ecu_name))) (take 20 (utf8 ecu_name)),
  )
