-- ===== src/Uds/Protocol.antt =====
-- src/ecu_simulator/protocols/uds/protocol.py: `UdsProtocol` of one ECU. The state is the store that
-- it shares with OBD; its providers read the same store.
pub mod Framing
pub mod Clear
pub mod Records
pub mod Cleared
pub mod Answers
use ecu_simulator.Prelude.{
  ℕ, zero, suc, ◌+◌, ◌-◌, ◌*◌, ◌/◌, ◌%◌, ◌^◌, ◌≤◌, ◌<◌, bit_and, bit_or, String, ◌≡◌, refl, sym, ap,
  ◌∙◌, ◌≢◌, ◌↔◌, ◌⊎◌, inl, inr, Bool, true, false, not, ◌&&◌, ◌||◌, Option, none, some, List, [],
  ◌∷◌, ◌++◌, map, arith, str_eq, eq_iff, ltb, leb, ◌==◌, if◌then◌else◌, ltb→lt, lt→ltb, leb→le,
  le→leb, ==_iff, Bool-cases, Option-cases, Result-cases, ok-injective, &&-true, length, get_elem?,
  take, drop, replicate, any, all, select, All, length-append, length-take, length-replicate,
  length-map, All-append, contains, ℤ, pos, negsuc, clamp, ◌+ℤ◌, ◌*ℤ◌, sub_ℕ, ltb_ℤ, Error,
  value_error, key_error, type_error, overflow_error, index_error, traverse, as_some,
  not_implemented, unknown_signal, service_conflict, route_conflict, provider_conflict, Result, ok,
  err, ◌>>=◌, ◌>>◌, raise_if, or_raise, >>=-eq-ok,
}
use ecu_simulator.Bytes.{Bytes, from_bytes}
use ecu_simulator.Base.{
  negative_response_sid, nrc_sub_function_not_supported,
  nrc_incorrect_message_length_or_invalid_format, nrc_request_out_of_range, positive_response_sid,
  negative_response, ServiceRequest, DiagnosticProtocol,
}
use ecu_simulator.Dtc.Store.{DtcStore, clear}
use ecu_simulator.Uds.Providers.{DtcRecord, DtcRegistry, record_bytes, read}
use ecu_simulator.Uds.Dtc.{availability_mask}

abbrev pub service_ids : List ℕ
service_ids = 0x10 ∷ 0x11 ∷ 0x14 ∷ 0x19 ∷ 0x3E ∷ []

abbrev pub session_parameter_record : Bytes
session_parameter_record = 0x00 ∷ 0x1E ∷ 0x0B ∷ 0xB8 ∷ []

abbrev pub session_types : List ℕ
session_types = 0x01 ∷ 0x02 ∷ 0x03 ∷ 0x04 ∷ []

abbrev pub reset_types : List ℕ
reset_types = 0x01 ∷ 0x02 ∷ 0x03 ∷ 0x04 ∷ 0x05 ∷ []

abbrev pub group_of_dtc_all : ℕ
group_of_dtc_all = 0xFFFFFF

abbrev pub sub_function_services : List ℕ
sub_function_services = 0x10 ∷ 0x11 ∷ 0x19 ∷ 0x3E ∷ []

-- `bytes([positive_response_sid(sid)]) + data`
abbrev pub positive : ℕ → Bytes → Result Bytes
positive sid data_bytes = positive_response_sid sid >>= λ first. ok (first ∷ data_bytes)

-- `_session_control`
unfoldable pub session_control : Bytes → Result Bytes
session_control (sid ∷ session ∷ []) =
    if contains session session_types
    then positive 0x10 (session ∷ session_parameter_record)
    else negative_response 0x10 nrc_sub_function_not_supported
session_control _ = negative_response 0x10 nrc_incorrect_message_length_or_invalid_format

-- `_ecu_reset`
unfoldable pub ecu_reset : Bytes → Result Bytes
ecu_reset (sid ∷ reset_type ∷ []) =
    if contains reset_type reset_types
    then positive 0x11 (if reset_type == 0x04 then reset_type ∷ 0x0F ∷ [] else reset_type ∷ [])
    else negative_response 0x11 nrc_sub_function_not_supported
ecu_reset _ = negative_response 0x11 nrc_incorrect_message_length_or_invalid_format

-- `_clear_diagnostic_information`
unfoldable pub clear_diagnostic_information : DtcStore → Bytes → Result Bytes × DtcStore
clear_diagnostic_information store payload =
    if length payload == 4
    then (if from_bytes (drop 1 payload) == group_of_dtc_all
        then (positive 0x14 [], clear store)
        else (negative_response 0x14 nrc_request_out_of_range, store))
    else (negative_response 0x14 nrc_incorrect_message_length_or_invalid_format, store)

-- `b"".join(record.to_bytes() for record in records)`
unfoldable pub joined : List DtcRecord → Result Bytes
joined [] = ok []
joined (r ∷ rest) = do head ← record_bytes r; tail ← joined rest; ok (head ++ tail)

unfoldable pub report : DtcRegistry DtcStore → DtcStore → ℕ → Result Bytes
report registry store status_mask = do
  header ← positive 0x19 (0x02 ∷ availability_mask ∷ [])
  records ← read registry store status_mask
  body ← joined records
  ok (header ++ body)

-- `_read_dtc_information`, from the sub-function on
unfoldable pub read_by : DtcRegistry DtcStore → DtcStore → ℕ → Bytes → Result Bytes
read_by registry store report_type parameters =
    if report_type == 0x02
    then elim parameters [
      | status_mask ∷ [] ↦ report registry store status_mask
      | _ ↦ negative_response 0x19 nrc_incorrect_message_length_or_invalid_format
    ]
    else negative_response 0x19 nrc_sub_function_not_supported

-- `_read_dtc_information`
unfoldable pub read_dtc_information : DtcRegistry DtcStore → DtcStore → Bytes → Result Bytes
read_dtc_information registry store (sid ∷ report_type ∷ parameters) =
    read_by registry store report_type parameters
read_dtc_information registry store _ =
    negative_response 0x19 nrc_incorrect_message_length_or_invalid_format

-- `_tester_present`
unfoldable pub tester_present : Bytes → Result Bytes
tester_present (sid ∷ sub_function ∷ rest) =
    if not (sub_function == 0x00)
    then negative_response 0x3E nrc_sub_function_not_supported
    else if not (length rest == 0)
    then negative_response 0x3E nrc_incorrect_message_length_or_invalid_format
    else positive 0x3E (sub_function ∷ [])
tester_present _ = negative_response 0x3E nrc_incorrect_message_length_or_invalid_format

-- `_serve`
unfoldable pub serve :
    DtcRegistry DtcStore → DtcStore → ℕ → Bytes → Result (Option Bytes) × DtcStore
serve registry store sid payload =
    if sid == 0x10
    then (as_some (session_control payload), store)
    else if sid == 0x11
    then (as_some (ecu_reset payload), store)
    else if sid == 0x14
    then (
      as_some (clear_diagnostic_information store payload).0,
      (clear_diagnostic_information store payload).1,
    )
    else if sid == 0x19
    then (as_some (read_dtc_information registry store payload), store)
    else if sid == 0x3E
    then (as_some (tester_present payload), store)
    else (ok none, store)

-- the end of `handle`: `response[0]` of an empty response is an IndexError
unfoldable pub withheld : Bool → Option Bytes → Result (Option Bytes)
withheld suppress none = ok none
withheld suppress (some []) = if suppress then err index_error else ok (some [])
withheld suppress (some (first ∷ rest)) =
    if suppress && not (first == negative_response_sid) then ok none else ok (some (first ∷ rest))

-- `payload[1] & SUPPRESS_POS_RSP_MSG_INDICATION_BIT`, as a condition, and the masked value
abbrev pub is_suppressed : ℕ → Bool
is_suppressed sub_function = not (bit_and sub_function 0x80 == 0)

abbrev pub masked : ℕ → ℕ
masked sub_function = bit_and sub_function 0x7F

-- `response = self._serve(sid, payload)`, and what goes out
abbrev pub respond : Bool → Result (Option Bytes) × DtcStore → Result (Option Bytes) × DtcStore
respond suppress (response, store) = (response >>= withheld suppress, store)

-- `UdsProtocol.handle`, of the payload
unfoldable pub handle : DtcRegistry DtcStore → DtcStore → Bytes → Result (Option Bytes) × DtcStore
handle registry store [] = (err index_error, store)
handle registry store (sid ∷ []) = respond false (serve registry store sid (sid ∷ []))
handle registry store (sid ∷ sub_function ∷ rest) =
    if contains sid sub_function_services
    then respond (is_suppressed sub_function)
        (serve registry store sid (sid ∷ masked sub_function ∷ rest))
    else respond false (serve registry store sid (sid ∷ sub_function ∷ rest))

-- `UdsProtocol(dtc_providers=registry, dtcs=store)`, the store being the state
unfoldable pub uds_protocol : DtcRegistry DtcStore → DiagnosticProtocol DtcStore
uds_protocol registry = record {
  name = "uds";
  service_ids = service_ids;
  handle = λ store request. handle registry store request.payload;
}
