-- ===== src/Obd/Protocol.antt =====
-- src/ecu_simulator/protocols/obd/protocol.py: `ObdProtocol` of one ECU. The vehicle and the DTC
-- store that it shares with the other protocols are arguments; a request returns the store, which
-- only Mode 04 changes.
pub mod Mode01
pub mod Reading
pub mod Advertised
pub mod Modes
pub mod Fields
use ecu_simulator.Prelude.{
  ℕ, zero, suc, ◌+◌, ◌-◌, ◌*◌, ◌/◌, ◌%◌, ◌^◌, ◌≤◌, ◌<◌, bit_and, bit_or, String, ◌≡◌, refl, sym, ap,
  ◌∙◌, ◌≢◌, ◌↔◌, ◌⊎◌, inl, inr, Bool, true, false, not, ◌&&◌, ◌||◌, Option, none, some, List, [],
  ◌∷◌, ◌++◌, map, arith, str_eq, eq_iff, ltb, leb, ◌==◌, if◌then◌else◌, ltb→lt, lt→ltb, leb→le,
  le→leb, ==_iff, Bool-cases, Option-cases, Result-cases, ok-injective, &&-true, length, get_elem?,
  take, drop, replicate, any, all, select, All, length-append, length-take, length-replicate,
  length-map, All-append, contains, ℤ, pos, negsuc, clamp, ◌+ℤ◌, ◌*ℤ◌, sub_ℕ, ltb_ℤ, Error,
  value_error, key_error, type_error, overflow_error, index_error, traverse, as_some,
  not_implemented, unknown_signal, service_conflict, route_conflict, provider_conflict, Result, ok,
  err, ◌>>=◌, ◌>>◌, raise_if, or_raise, >>=-eq-ok,
}
use ecu_simulator.Bytes.{Bytes, utf8, zeros}
use ecu_simulator.Dtc.Store.{DtcStore, confirmed, clear}
use ecu_simulator.Vehicle.Floats.{Floats, Value, int, float, bool, text}
use ecu_simulator.Vehicle.State.{VehicleState, get}
use ecu_simulator.Obd.Masks.{is_range_request, is_advertised_range, supported_mask}
use ecu_simulator.Obd.Dtc.{encode}
use ecu_simulator.Obd.Pids.{
  PidDefinition, supported_by, read, mode01_definitions, find_pid, supported_pids,
}

abbrev pub max_mode01_parameters : ℕ
max_mode01_parameters = 6

abbrev pub vin_length : ℕ
vin_length = 17

abbrev pub vin_item_count : ℕ
vin_item_count = 1

abbrev pub ecu_name_length : ℕ
ecu_name_length = 20

abbrev pub info_vin : ℕ
info_vin = 0x02

abbrev pub info_ecu_name : ℕ
info_ecu_name = 0x0A

-- the loop of `_parameters_to_answer`
unfoldable pub dedupe : List ℕ → Bytes → List ℕ
dedupe answered [] = answered
dedupe answered (pid ∷ rest) =
    dedupe (if contains pid answered then answered else answered ++ pid ∷ []) rest

unfoldable pub parameters_to_answer : Bytes → List ℕ
parameters_to_answer requested = dedupe [] (take max_mode01_parameters requested)

-- `_prefix`
unfoldable pub prefix : ℕ → Option ℕ → Bytes → Bytes
prefix sid none data_bytes = (sid + 0x40) ∷ data_bytes
prefix sid (some pid) data_bytes = (sid + 0x40) ∷ pid ∷ data_bytes

-- `payload[1] if len(payload) >= 2 else None`
abbrev pub second : Bytes → Option ℕ
second (sid ∷ pid ∷ rest) = some pid
second _ = none

-- the mask of a range, if the range is advertised
unfoldable pub range_answer : ℕ → List ℕ → Result (Option Bytes)
range_answer pid supported =
    if is_advertised_range pid supported then as_some (supported_mask pid supported) else ok none

-- `self._prefix(MODE_VEHICLE_INFO, pid, …)` around an answer
abbrev pub framed_option : ℕ → Option Bytes → Option Bytes
framed_option pid none = none
framed_option pid (some bs) = some (prefix 0x09 (some pid) bs)

abbrev pub framed_answer : ℕ → Result (Option Bytes) → Result (Option Bytes)
framed_answer pid m = m >>= λ answer. ok (framed_option pid answer)

-- `_mode04`: the answer is the service identifier plus 0x40
abbrev pub mode04 : DtcStore → Result (Option Bytes) × DtcStore
mode04 store = (ok (some (0x44 ∷ [])), clear store)

module _ ⦃F : Floats⦄ where
  -- `ObdProtocol.definition`
  unfoldable pub definition_of : VehicleState → ℕ → Option PidDefinition
  definition_of vehicle pid = elim (find_pid mode01_definitions pid) [
    | none ↦ none
    | some d ↦ if supported_by d vehicle then some d else none
  ]

  -- `_mode01_parameter`
  unfoldable pub mode01_parameter : VehicleState → ℕ → Result (Option Bytes)
  mode01_parameter vehicle pid =
      if is_range_request pid
      then range_answer pid (supported_pids vehicle)
      else elim (definition_of vehicle pid) [ none ↦ ok none | some d ↦ as_some (read d vehicle) ]

  abbrev pub echoed : ℕ → Option Bytes → Bytes
  echoed pid none = []
  echoed pid (some bs) = pid ∷ bs

  -- the loop of `_mode01`
  unfoldable pub mode01_body : VehicleState → List ℕ → Result Bytes
  mode01_body vehicle [] = ok []
  mode01_body vehicle (pid ∷ rest) = do
    answer ← mode01_parameter vehicle pid
    body ← mode01_body vehicle rest
    ok (echoed pid answer ++ body)

  abbrev pub unless_empty : Bytes → Option Bytes
  unless_empty [] = none
  unless_empty (b ∷ bs) = some (0x41 ∷ b ∷ bs)

  unfoldable pub mode01 : VehicleState → Bytes → Result (Option Bytes)
  mode01 vehicle requested = do
    body ← mode01_body vehicle (parameters_to_answer requested)
    ok (unless_empty body)

  -- `_mode03`
  unfoldable pub mode03 : DtcStore → Option ℕ → Result Bytes
  mode03 store pid = do codes ← encode (confirmed store); ok (prefix 0x03 pid codes)

  -- `str(self.vehicle.get("vehicle.vin")).encode()[:VIN_LENGTH]`: the annotation makes it a text
  unfoldable pub vin_bytes : Value → Result Bytes
  vin_bytes (text s) = ok (take vin_length (utf8 s))
  vin_bytes (int z) = err type_error
  vin_bytes (float x) = err type_error
  vin_bytes (bool b) = err type_error

  -- `_vin`
  unfoldable pub vin_field : VehicleState → Result Bytes
  vin_field vehicle = do
    value ← get vehicle "vehicle.vin"
    vin ← vin_bytes value
    ok (vin_item_count ∷ (zeros (vin_length - length vin) ++ vin))

  -- `_ecu_name_field`
  unfoldable pub ecu_name_field : String → Bytes
  ecu_name_field ecu_name =
      let name = take ecu_name_length (utf8 ecu_name) in
      zeros (ecu_name_length - length name) ++ name

  -- `_mode09`
  unfoldable pub mode09 : VehicleState → String → Option ℕ → Result (Option Bytes)
  mode09 vehicle ecu_name none = ok none
  mode09 vehicle ecu_name (some pid) =
      if is_range_request pid
      then framed_answer pid (range_answer pid (info_vin ∷ info_ecu_name ∷ []))
      else if pid == info_vin
      then framed_answer pid (as_some (vin_field vehicle))
      else if pid == info_ecu_name
      then framed_answer pid (ok (some (ecu_name_field ecu_name)))
      else ok none

  -- what `handle` does once the service is known, with the bytes behind it
  unfoldable pub serve :
      VehicleState → String → DtcStore → ℕ → Bytes → Result (Option Bytes) × DtcStore
  serve vehicle ecu_name store sid payload =
      if sid == 0x01
      then (mode01 vehicle (drop 1 payload), store)
      else if sid == 0x04
      then mode04 store
      else if sid == 0x03
      then (as_some (mode03 store (second payload)), store)
      else if sid == 0x09
      then (mode09 vehicle ecu_name (second payload), store)
      else (ok none, store)

  -- `ObdProtocol.handle`
  unfoldable pub handle :
      VehicleState → String → DtcStore → Bytes → Result (Option Bytes) × DtcStore
  handle vehicle ecu_name store [] = (err index_error, store)
  handle vehicle ecu_name store (sid ∷ rest) =
      if leb 0x01 sid && ltb sid 0x0B
      then serve vehicle ecu_name store sid (sid ∷ rest)
      else (ok none, store)
