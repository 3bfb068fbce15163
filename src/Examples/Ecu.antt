-- ===== src/Examples/Ecu.antt =====
-- An ECU that answers UDS on its own address, and its routing table.
use ecu_simulator.Prelude.{
  ◌≡◌, refl, true, false, not, ◌&&◌, none, some, [], ◌∷◌, ◌++◌, arith, ◌==◌, if◌then◌else◌,
  contains, ok, Result,
}
use ecu_simulator.Base.{DiagnosticProtocol}
use ecu_simulator.Dtc.Store.{DtcStore, clear}
use ecu_simulator.Transport.Messages.{normal_11bit, DiagnosticRequest}
use ecu_simulator.Uds.Dtc.{dtc_store_provider}
use ecu_simulator.Uds.Protocol.{uds_protocol}
use ecu_simulator.Ecu.Router.{
  Route, permits, AddressRouter, empty_router, add_physical, put_physical, make_route,
  add_functional, put_functional, is_some, route_of, routes_at, resolve,
}
use ecu_simulator.Ecu.Router.Laws.{made, add_functional-resolve}
use ecu_simulator.Ecu.Router.Built.{nothing, physical, is_sound, Built-sound}
use ecu_simulator.Ecu.Ecu.{Ecu, protocol_for, register, handle}
use ecu_simulator.Ecu.Ecu.Laws.{
  register_lem, request_of, IsUnserved, handle-unserved, handle-served, sent,
}
use ecu_simulator.Ecu.Dispatcher.{
  Dispatcher, make_dispatcher, has_duplicate, is_unknown, is_missing, no_fan_out, ecu_named,
  reject_fan_out,
}
use ecu_simulator.Ecu.Dispatcher.Laws.{Dispatched, make_dispatcher-Dispatched}
use ecu_simulator.Examples.Data.{faults}

abbrev uds : DiagnosticProtocol DtcStore
uds = uds_protocol (dtc_store_provider "engine" ∷ [])

abbrev bare : Ecu DtcStore
bare = record { name = "ECM"; protocols = []; by_sid = [] }

abbrev engine : Ecu DtcStore
engine = record {
  name = "ECM";
  protocols = uds ∷ [];
  by_sid = (0x10, uds) ∷ (0x11, uds) ∷ (0x14, uds) ∷ (0x19, uds) ∷ (0x3E, uds) ∷ [];
}

uds_registered : register bare uds ≡ ok engine
unfolding register uds_protocol
uds_registered = refl

register_lem_example :
    (protocol_for engine 0x3E
      ≡ (if contains 0x3E uds.service_ids then some uds else protocol_for bare 0x3E))
    × (contains 0x3E uds.service_ids && is_some (protocol_for bare 0x3E) ≡ false)
    × (engine.protocols ≡ bare.protocols ++ uds ∷ [])
    × (engine.name ≡ bare.name)
register_lem_example = register_lem bare engine uds 0x3E uds_registered

declared : contains 0x3E uds.service_ids ≡ true
unfolding uds_protocol
declared = refl

served : protocol_for engine 0x3E ≡ some uds
unfolding protocol_for
served = refl

abbrev on_uds : Route
on_uds = made "ECM" ("uds" ∷ []) true

permitted : permits on_uds uds.name ≡ true
unfolding permits uds_protocol
permitted = refl

handle-served_example :
    handle engine faults (request_of (0x3E ∷ 0x00 ∷ []) 0x7E0 false normal_11bit) on_uds
    ≡ sent (uds.handle faults (record { payload = 0x3E ∷ 0x00 ∷ []; functional = false }))
handle-served_example =
    handle-served engine faults 0x3E (0x00 ∷ []) 0x7E0 false normal_11bit on_uds uds refl served
      permitted

abbrev on_obd : Route
on_obd = made "ECM" ("obd" ∷ []) true

unserved : IsUnserved (protocol_for engine 0x3E) on_obd
unfolding protocol_for uds_protocol
unserved = refl

handle-unserved_example :
    handle engine faults (request_of (0x3E ∷ 0x00 ∷ []) 0x7E0 false normal_11bit) on_obd
    ≡ (if true then ok (some (record { payload = 0x7F ∷ 0x3E ∷ 0x11 ∷ [] })) else ok none, faults)
handle-unserved_example =
    handle-unserved engine faults 0x3E (0x00 ∷ []) 0x7E0 false normal_11bit on_obd refl unserved
      (omega arith)

abbrev routed : AddressRouter
routed = record { physical = (0x7E0, on_uds) ∷ []; functional = [] }

route_added : add_physical empty_router 0x7E0 "ECM" ("uds" ∷ []) true ≡ ok routed
unfolding add_physical make_route put_physical
route_added = refl

abbrev probe : DiagnosticRequest
probe = request_of (0x3E ∷ 0x00 ∷ []) 0x7E0 false normal_11bit

abbrev shared : AddressRouter
shared = record {
  physical = (0x7E0, on_uds) ∷ [];
  functional = (0x7DF, made "ECM" ("uds" ∷ []) false ∷ []) ∷ [];
}

functional_added : add_functional routed 0x7DF "ECM" ("uds" ∷ []) false ≡ ok shared
unfolding add_functional make_route put_functional
functional_added = refl

abbrev broadcast : DiagnosticRequest
broadcast = request_of (0x3E ∷ 0x00 ∷ []) 0x7DF true normal_11bit

add_functional-resolve_example : resolve shared broadcast ≡ (
    if broadcast.functional
      && ((0x7DF == broadcast.target_address)
          && not (is_some (route_of (routes_at routed.functional 0x7DF) "ECM")))
    then routes_at routed.functional 0x7DF ++ made "ECM" ("uds" ∷ []) false ∷ []
    else resolve routed broadcast)
add_functional-resolve_example =
    add_functional-resolve routed shared 0x7DF "ECM" ("uds" ∷ []) false broadcast functional_added

Built-sound_example : is_sound routed 0x7E0 ≡ true
Built-sound_example =
    Built-sound routed 0x7E0 (physical 0x7E0 "ECM" ("uds" ∷ []) true nothing route_added)

-- What the state is brought up to date by: here every request starts from cleared codes.
abbrev clearing : DtcStore → Result (Unit {0}) × DtcStore
clearing store = (ok tt, clear store)

abbrev dispatcher : Dispatcher DtcStore
dispatcher = record { router = shared; ecus = engine ∷ []; sync = some clearing }

dispatcher_made : make_dispatcher shared (engine ∷ []) (some clearing) ≡ ok dispatcher
unfolding make_dispatcher has_duplicate is_unknown is_missing no_fan_out ecu_named reject_fan_out
    uds_protocol
dispatcher_made = refl

make_dispatcher-Dispatched_example : Dispatched dispatcher faults probe
make_dispatcher-Dispatched_example =
    make_dispatcher-Dispatched shared (engine ∷ []) (some clearing) dispatcher faults probe
      dispatcher_made
