-- ===== src/Examples/Obd.antt =====
-- OBD requests and the vehicle that they read.
use ecu_simulator.Prelude.{
  ◌++◌, replicate, ℕ, ◌-◌, ◌<◌, String, ◌≡◌, refl, true, ◌&&◌, some, List, [], ◌∷◌, arith, str_eq,
  ltb, leb, ◌==◌, if◌then◌else◌, length, take, any, All, contains, pos, traverse, ok,
}
use ecu_simulator.Prelude.Bits.{bit}
use ecu_simulator.Bytes.{Bytes, big_endian, from_bytes, utf8}
use ecu_simulator.Dtc.Codes.{code_number}
use ecu_simulator.Dtc.Store.{DtcState, clear}
use ecu_simulator.Vehicle.Floats.{int, text}
use ecu_simulator.Vehicle.State.{VehicleState, make_vehicle, common_state, has, get, set, store}
use ecu_simulator.Vehicle.State.Laws.{get-set}
use ecu_simulator.Obd.Masks.{is_range_request, last_range_base, supported_mask, is_advertised_range}
use ecu_simulator.Obd.Masks.Bits.{supported_mask-bit, supported_mask_total}
use ecu_simulator.Obd.Masks.Chain.{advertised-iff-continued}
use ecu_simulator.Obd.Dtc.{encodable, encode}
use ecu_simulator.Obd.Dtc.Laws.{read_codes, encode-read}
use ecu_simulator.Obd.Pids.{mode01_definitions, supported_pids, find_pid, supported_by, read, byte}
use ecu_simulator.Obd.Pids.Laws.{Encodes, read-Encodes}
use ecu_simulator.Obd.Protocol.{
  parameters_to_answer, dedupe, definition_of, mode01_parameter, mode01_body, mode01, handle,
}
use ecu_simulator.Obd.Protocol.Reading.{read_answers, answers, mode01-read}
use ecu_simulator.Obd.Protocol.Advertised.{Tells, mask-answers}
use ecu_simulator.Obd.Protocol.Modes.{service, is_answer_to, handle_store, handle-answers}
use ecu_simulator.Obd.Protocol.Fields.{handle-vin}
use ecu_simulator.Examples.Data.{whole_floats, car, faults}

-- 01 0D, the speed.
speed_answered : mode01 car (0x0D ∷ []) ≡ ok (some (0x41 ∷ 0x0D ∷ 0x00 ∷ []))
unfolding mode01 mode01_body parameters_to_answer dedupe mode01_parameter is_range_request
    definition_of find_pid mode01_definitions supported_by has make_vehicle common_state read get
    byte
speed_answered = refl

mode01-read_example :
    (body : Bytes) × (0x41 ∷ 0x0D ∷ 0x00 ∷ [] ≡ 0x41 ∷ body)
    × (0 < length body)
    × (read_answers (length body) body ≡ some (answers car (parameters_to_answer (0x0D ∷ []))))
mode01-read_example = mode01-read car (0x0D ∷ []) (0x41 ∷ 0x0D ∷ 0x00 ∷ []) speed_answered

-- The mask of an empty range whose successor holds 0x21.
abbrev mask : Bytes
mask = 0x00 ∷ 0x08 ∷ 0x00 ∷ 0x01 ∷ []

mask_made : supported_mask 0x00 (0x0D ∷ 0x21 ∷ []) ≡ ok mask
unfolding supported_mask big_endian
mask_made = refl

supported_mask-bit_example :
    (bit 19 (from_bytes mask) ≡ (if contains 0x0D (0x0D ∷ 0x21 ∷ []) then 1 else 0))
    × (bit 0 (from_bytes mask) ≡ (
        if ltb 0x00 last_range_base && any (λ pid. ltb 0x20 pid) (0x0D ∷ 0x21 ∷ []) then 1 else 0))
supported_mask-bit_example =
    supported_mask-bit 0x00 13 19 (0x0D ∷ 0x21 ∷ []) mask mask_made refl (omega arith) (omega arith)

advertised-iff-continued_example :
    is_advertised_range 0x20 (0x0D ∷ 0x21 ∷ [])
    ≡ (is_advertised_range 0x00 (0x0D ∷ 0x21 ∷ []) && (bit 0 (from_bytes mask) == 1))
advertised-iff-continued_example =
    advertised-iff-continued 0 (0x0D ∷ 0x21 ∷ []) mask (omega arith) mask_made

read-Encodes_example : All (Encodes car) mode01_definitions
read-Encodes_example = read-Encodes car

abbrev car_mask : Bytes
car_mask = (supported_mask_total 0x00 (supported_pids car)).0

car_mask_made : supported_mask 0x00 (supported_pids car) ≡ ok car_mask
car_mask_made = (supported_mask_total 0x00 (supported_pids car)).1

zero_range : is_range_request 0x00 ≡ true
unfolding is_range_request
zero_range = refl

mask-answers_example :
    Tells car 0x0D (handle car "ECM" faults (0x01 ∷ 0x0D ∷ [])).0 (bit 19 (from_bytes car_mask))
mask-answers_example =
    mask-answers car "ECM" faults 0x00 13 19 car_mask car_mask_made zero_range refl (omega arith)
      (omega arith)

encode-read_example :
    (ns : List ℕ) × (bs : Bytes) × (traverse
        (λ (s : DtcState). code_number s.code)
        (encodable faults)
      ≡ ok ns)
    × (encode faults ≡ ok bs)
    × (read_codes bs ≡ some (if ltb 0 (length ns) && leb (length ns) 255 then ns else []))
encode-read_example = encode-read faults

handle_store_example :
    (handle car "ECM" faults (0x04 ∷ [])).1
    ≡ (if service (0x04 ∷ []) == 0x04 then clear faults else faults)
handle_store_example = handle_store car "ECM" faults (0x04 ∷ [])

handle-answers_example : is_answer_to 0x09 (handle car "ECM" faults (0x09 ∷ 0x02 ∷ [])).0 ≡ true
handle-answers_example = handle-answers car "ECM" faults 0x09 (0x02 ∷ [])

abbrev vin : String
vin = "1G1JC5444R7252367"

vin_stored : get car "vehicle.vin" ≡ ok (text vin)
unfolding get make_vehicle common_state
vin_stored = refl

handle-vin_example :
    (field : Bytes) × (handle car "ECM" faults (0x09 ∷ 0x02 ∷ [])
      ≡ (ok (some (0x49 ∷ 0x02 ∷ 0x01 ∷ field)), faults))
    × (length field ≡ 17)
    × (field ≡ replicate (17 - length (take 17 (utf8 vin))) 0 ++ take 17 (utf8 vin))
handle-vin_example = handle-vin car "ECM" vin faults [] vin_stored

-- A car that drives at 50.
abbrev driving : VehicleState
driving = record car { components = store car.components "vehicle" "speed" (int (pos 50)) }

speed_set : set car "vehicle.speed" (int (pos 50)) ≡ ok driving
unfolding set make_vehicle common_state
speed_set = refl

get-set_example :
    get driving "engine.rpm"
    ≡ (if str_eq "vehicle.speed" "engine.rpm" then ok (int (pos 50)) else get car "engine.rpm")
get-set_example = get-set car driving "vehicle.speed" "engine.rpm" (int (pos 50)) speed_set
