-- ===== src/Observe/Events.antt =====
-- src/ecu_simulator/observe/events.py: what an event says of an exchange.
pub mod Laws
use ecu_simulator.Prelude.{
  ℕ, zero, suc, ◌+◌, ◌-◌, ◌*◌, ◌/◌, ◌%◌, ◌^◌, ◌≤◌, ◌<◌, bit_and, bit_or, String, ◌≡◌, refl, sym, ap,
  ◌∙◌, ◌≢◌, ◌↔◌, ◌⊎◌, inl, inr, Bool, true, false, not, ◌&&◌, ◌||◌, Option, none, some, List, [],
  ◌∷◌, ◌++◌, map, arith, str_eq, eq_iff, ltb, leb, ◌==◌, if◌then◌else◌, ltb→lt, lt→ltb, leb→le,
  le→leb, ==_iff, Bool-cases, Option-cases, Result-cases, ok-injective, &&-true, length, get_elem?,
  take, drop, replicate, any, all, select, All, length-append, length-take, length-replicate,
  length-map, All-append, contains, ℤ, pos, negsuc, clamp, ◌+ℤ◌, ◌*ℤ◌, sub_ℕ, ltb_ℤ, Error,
  value_error, key_error, type_error, overflow_error, index_error, traverse, as_some,
  not_implemented, unknown_signal, service_conflict, route_conflict, provider_conflict,
  assertion_error, Result, ok, err, ◌>>=◌, ◌>>◌, raise_if, or_raise, >>=-eq-ok,
}
use ecu_simulator.Bytes.{Bytes}
use ecu_simulator.Transport.Messages.{DiagnosticRequest, DiagnosticResponse}
use ecu_simulator.Ecu.Router.{Route, AddressRouter, resolve, is_some}
use ecu_simulator.Observe.HandOff.{ExchangeRecord}

abbrev pub retained_payload_bytes : ℕ
retained_payload_bytes = 512

-- "error", "responded", "no_response" and "unrouted"
pub data ExchangeOutcome : Type 0 where
  error responded no_response unrouted : ExchangeOutcome

abbrev pub ecu_of : List Route → Option String
ecu_of [] = none
ecu_of (route ∷ rest) = some route.ecu

abbrev pub silent : List Route → ExchangeOutcome × Option String
silent [] = (unrouted, none)
silent (route ∷ rest) = (no_response, some route.ecu)

-- `classify`
unfoldable pub classify : ExchangeRecord → AddressRouter → ExchangeOutcome × Option String
classify r router =
    let routes = resolve router r.request in
    if is_some r.error
    then (error, ecu_of routes)
    else if is_some r.response
    then (responded, ecu_of routes)
    else silent routes

-- `_retained`, before the bytes become text: what is kept, the length, and whether it was cut
unfoldable pub retained : Option Bytes → Option Bytes × (ℕ × Bool)
retained none = (none, (0, false))
retained (some payload) = (
  some (take retained_payload_bytes payload),
  (length payload, ltb retained_payload_bytes (length payload)),
)
