-- ===== src/Examples/Uds.antt =====
-- UDS requests.
use ecu_simulator.Prelude.{◌≡◌, refl, true, some, List, [], ◌∷◌, arith, if◌then◌else◌, traverse, ok}
use ecu_simulator.Bytes.{Bytes, AreBytes}
use ecu_simulator.Dtc.Store.{DtcStore, clear}
use ecu_simulator.Uds.Providers.{DtcRegistry}
use ecu_simulator.Uds.Dtc.{record_of, dtc_store_provider}
use ecu_simulator.Uds.Protocol.{handle as uds_handle}
use ecu_simulator.Uds.Protocol.Framing.{only_negative, handle-suppressed}
use ecu_simulator.Uds.Protocol.Clear.{is_clear_request, handle-store}
use ecu_simulator.Uds.Protocol.Answers.{asks_silence, is_reply, handle-reply}
use ecu_simulator.Uds.Protocol.Records.{reported, read_records, report-read}
use ecu_simulator.Uds.Protocol.Cleared.{cleared_everywhere}
use ecu_simulator.Obd.Protocol.{handle as obd_handle}
use ecu_simulator.Examples.Data.{whole_floats, car, faults}

abbrev registry : DtcRegistry DtcStore
registry = dtc_store_provider "engine" ∷ []

-- 3E 80 is 3E 00 without its positive answer.
handle-suppressed_example : uds_handle registry faults (0x3E ∷ 0x80 ∷ []) ≡ (
  only_negative (uds_handle registry faults (0x3E ∷ 0x00 ∷ [])).0,
  (uds_handle registry faults (0x3E ∷ 0x00 ∷ [])).1,
)
handle-suppressed_example = handle-suppressed registry faults 0x3E 0x00 [] refl (omega arith)

abbrev clear_all_codes : Bytes
clear_all_codes = 0x14 ∷ 0xFF ∷ 0xFF ∷ 0xFF ∷ []

clear_all_codes-AreBytes : AreBytes clear_all_codes
clear_all_codes-AreBytes = (omega arith, (omega arith, (omega arith, (omega arith, tt))))

handle-store_example :
    (uds_handle registry faults clear_all_codes).1
    ≡ (if is_clear_request clear_all_codes then clear faults else faults)
handle-store_example = handle-store registry faults clear_all_codes clear_all_codes-AreBytes

handle-reply_example :
    is_reply
      (asks_silence (0x10 ∷ 0x81 ∷ []))
      0x10
      (uds_handle registry faults (0x10 ∷ 0x81 ∷ [])).0
    ≡ true
handle-reply_example = handle-reply "engine" faults 0x10 (0x81 ∷ []) refl (omega arith, tt)

report-read_example :
    (kept : List _) × (bs : Bytes) × (traverse record_of (reported 0x08 faults) ≡ ok kept)
    × (uds_handle registry faults (0x19 ∷ 0x02 ∷ 0x08 ∷ [])
        ≡ (ok (some (0x59 ∷ 0x02 ∷ 0x8C ∷ bs)), faults))
    × (read_records bs ≡ kept)
report-read_example = report-read "engine" faults 0x08 (omega arith)

cleared_everywhere_example :
    (after : DtcStore) × ((uds_handle registry faults clear_all_codes).1 ≡ after)
    × ((obd_handle car "ECM" faults (0x04 ∷ [])).1 ≡ after)
    × (obd_handle car "ECM" after (0x03 ∷ []) ≡ (ok (some (0x43 ∷ 0x00 ∷ [])), after))
    × (uds_handle registry after (0x19 ∷ 0x02 ∷ 0xFF ∷ [])
        ≡ (ok (some (0x59 ∷ 0x02 ∷ 0x8C ∷ [])), after))
cleared_everywhere_example = cleared_everywhere car "ECM" "engine" faults 0xFF (omega arith)
