-- ===== src/Uds/Protocol/Cleared.antt =====
-- What both protocols report once either of them has cleared the store that they share.
use ecu_simulator.Prelude.{
  ℕ, ◌<◌, String, ◌≡◌, refl, ◌∙◌, none, some, [], ◌∷◌, arith, if◌then◌else◌, ok,
}
use ecu_simulator.Bytes.{AreBytes}
use ecu_simulator.Dtc.Store.{DtcStore, clear_state, clear, confirmed}
use ecu_simulator.Vehicle.Floats.{Floats}
use ecu_simulator.Vehicle.State.{VehicleState}
use ecu_simulator.Uds.Dtc.{dtc_store_provider}
use ecu_simulator.Uds.Protocol.{handle as uds_handle}
use ecu_simulator.Uds.Protocol.Clear.{handle-store, is_clear_request}
use ecu_simulator.Uds.Protocol.Records.{reported, header-alone}
use ecu_simulator.Obd.Protocol.Modes.{handle_store}
use ecu_simulator.Obd.Dtc.{framed, encode}
use ecu_simulator.Obd.Protocol.{prefix, mode03, serve, handle as obd_handle}

none_reported : (mask : ℕ) (store : DtcStore) → reported mask (clear store) ≡ []
unfolding clear clear_state
none_reported mask [] = refl
none_reported mask (s ∷ rest) = ground (arith, none_reported mask rest)

none_confirmed : (store : DtcStore) → confirmed (clear store) ≡ []
unfolding clear clear_state confirmed
none_confirmed [] = refl
none_confirmed (s ∷ rest) = none_confirmed rest

clear_bytes : AreBytes (0x14 ∷ 0xFF ∷ 0xFF ∷ 0xFF ∷ [])
clear_bytes = (omega arith, (omega arith, (omega arith, (omega arith, tt))))

clear_requested :
    (store : DtcStore)
    → (if is_clear_request (0x14 ∷ 0xFF ∷ 0xFF ∷ 0xFF ∷ []) then clear store else store)
      ≡ clear store
unfolding is_clear_request
clear_requested store = refl

module _ ⦃F : Floats⦄ where
  mode03-empty : (store : DtcStore) → mode03 (clear store) none ≡ ok (0x43 ∷ 0x00 ∷ [])
  unfolding mode03 prefix encode framed
  mode03-empty store = rw (none_confirmed store) refl

  mode03_answer :
      (vehicle : VehicleState) (ecu_name : String) (store : DtcStore)
      → mode03 store none ≡ ok (0x43 ∷ 0x00 ∷ [])
      → obd_handle vehicle ecu_name store (0x03 ∷ []) ≡ (ok (some (0x43 ∷ 0x00 ∷ [])), store)
  unfolding obd_handle serve
  mode03_answer vehicle ecu_name store e = rw e

  -- After 14 FF FF FF over UDS or a Mode 04 request over OBD the shared store is the same; then Mode 03
  -- is answered 43 00, and 19 02 with any mask by the header 59 02 8C alone.
  pub cleared_everywhere :
      (vehicle : VehicleState) (ecu_name name : String) (store : DtcStore) (mask : ℕ)
      → mask < 256
      → (after : DtcStore) × ((uds_handle
            (dtc_store_provider name ∷ [])
            store
            (0x14 ∷ 0xFF ∷ 0xFF ∷ 0xFF ∷ [])).1
          ≡ after)
        × ((obd_handle vehicle ecu_name store (0x04 ∷ [])).1 ≡ after)
        × (obd_handle vehicle ecu_name after (0x03 ∷ []) ≡ (ok (some (0x43 ∷ 0x00 ∷ [])), after))
        × (uds_handle (dtc_store_provider name ∷ []) after (0x19 ∷ 0x02 ∷ mask ∷ [])
            ≡ (ok (some (0x59 ∷ 0x02 ∷ 0x8C ∷ [])), after))
  cleared_everywhere vehicle ecu_name name store mask h = (
    clear store,
    handle-store (dtc_store_provider name ∷ []) store (0x14 ∷ 0xFF ∷ 0xFF ∷ 0xFF ∷ []) clear_bytes
        ∙ clear_requested store,
    handle_store vehicle ecu_name store (0x04 ∷ []),
    mode03_answer vehicle ecu_name (clear store) (mode03-empty store),
    header-alone name (clear store) mask h (none_reported mask store),
  )
