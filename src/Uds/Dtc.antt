-- ===== src/Uds/Dtc.antt =====
-- src/ecu_simulator/protocols/uds/dtc.py: the trouble codes of a store as three-byte numbers with a
-- status byte.
pub mod Laws
use ecu_simulator.Prelude.{
  ℕ, zero, suc, ◌+◌, ◌-◌, ◌*◌, ◌/◌, ◌%◌, ◌^◌, ◌≤◌, ◌<◌, bit_and, bit_or, String, ◌≡◌, refl, sym, ap,
  ◌∙◌, ◌≢◌, ◌↔◌, ◌⊎◌, inl, inr, Bool, true, false, not, ◌&&◌, ◌||◌, Option, none, some, List, [],
  ◌∷◌, ◌++◌, map, arith, str_eq, eq_iff, ltb, leb, ◌==◌, if◌then◌else◌, ltb→lt, lt→ltb, leb→le,
  le→leb, ==_iff, Bool-cases, Option-cases, Result-cases, ok-injective, &&-true, length, get_elem?,
  take, drop, replicate, any, all, select, All, length-append, length-take, length-replicate,
  length-map, All-append, contains, ℤ, pos, negsuc, clamp, ◌+ℤ◌, ◌*ℤ◌, sub_ℕ, ltb_ℤ, Error,
  value_error, key_error, type_error, overflow_error, index_error, traverse, as_some,
  not_implemented, unknown_signal, service_conflict, route_conflict, provider_conflict, Result, ok,
  err, ◌>>=◌, ◌>>◌, raise_if, or_raise, >>=-eq-ok,
}
use ecu_simulator.Dtc.Codes.{is_valid, code_number}
use ecu_simulator.Dtc.Store.{DtcState, DtcStore}
use ecu_simulator.Uds.Providers.{DtcRecord, dtc_record, DtcProvider}

abbrev pub failure_type_byte : ℕ
failure_type_byte = 0x01

abbrev pub pending_dtc : ℕ
pending_dtc = 0x04

abbrev pub confirmed_dtc : ℕ
confirmed_dtc = 0x08

abbrev pub warning_indicator_requested : ℕ
warning_indicator_requested = 0x80

abbrev pub availability_mask : ℕ
availability_mask = bit_or (bit_or pending_dtc confirmed_dtc) warning_indicator_requested

-- `if flag: byte |= value`
abbrev pub raised : Bool → ℕ → ℕ → ℕ
raised true value byte = bit_or byte value
raised false value byte = byte

unfoldable pub status_byte : DtcState → ℕ
status_byte s =
    raised s.indicator_requested warning_indicator_requested
      (raised s.confirmed confirmed_dtc (raised s.pending pending_dtc 0))

-- what the generator yields for a state
unfoldable pub record_of : DtcState → Result DtcRecord
record_of s = do
  number ← code_number s.code
  dtc_record (bit_or (number * 2 ^ 8) failure_type_byte) (status_byte s)

-- `DtcStoreProvider.dtc_records`
unfoldable pub dtc_records : DtcStore → Result (List DtcRecord)
dtc_records store = traverse record_of (select (λ (s : DtcState). is_valid s.code) store)

-- `DtcStoreProvider(name, store)` of the store that is the state
abbrev pub dtc_store_provider : String → DtcProvider DtcStore
dtc_store_provider name = record { name = name; dtc_records = dtc_records }
