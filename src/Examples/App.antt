-- ===== src/Examples/App.antt =====
-- A profile with one ECU on a physical and a functional address, and profiles that are refused late.
use ecu_simulator.Prelude.{
  ℕ, ◌+◌, String, ◌≡◌, refl, true, false, Option, none, some, List, [], ◌∷◌, map, ℤ, value_error,
  route_conflict, Result, ok, err, ◌>>◌,
}
use ecu_simulator.Transport.Messages.{normal_11bit}
use ecu_simulator.Transport.IsoTp.{iso_tp_address, iso_tp_options}
use ecu_simulator.Transport.Endpoints.{EndpointConfig}
use ecu_simulator.Ecu.Router.{
  AddressRouter, add_physical, add_functional, put_physical, put_functional, make_route,
}
use ecu_simulator.Config.Schema.{
  each, EndpointConfigModel, EcuConfig, Ecus, physical, functional, check_ecus, check_ecu,
  check_endpoint, answers_unsupported, protocols_are_known, has_repeat, dtc_codes_are_unique,
  endpoints_are_consistent, repeats_pair, events_name_codes, claim_addresses, claim_all,
}
use ecu_simulator.App.Routing.{
  endpoint_name, endpoint_named, build_endpoint, build_endpoints, add_endpoint, add_endpoints,
  add_ecus, build_router, check_routes,
}
use ecu_simulator.Dtc.Store.{DtcStore}
use ecu_simulator.Ecu.Ecu.{Ecu}
use ecu_simulator.Ecu.Dispatcher.{no_fan_out}
use ecu_simulator.App.Ecus.{World, build_ecus}
use ecu_simulator.App.Ecus.Serving.{AllServe, build_ecus-AllServe}
use ecu_simulator.App.Runtime.{build_dispatcher}
use ecu_simulator.App.Runtime.Served.{keys}
use ecu_simulator.App.Runtime.Built.{build_dispatcher_lem}
use ecu_simulator.Examples.Data.{whole_floats}
use ecu_simulator.App.Routing.Checked.{build_router-checked}

abbrev narrow : String → ℕ → EndpointConfigModel
narrow name rx = record {
  name = name;
  rx = rx;
  tx = rx + 8;
  addressing = physical;
  protocols = "obd" ∷ "uds" ∷ [];
  answer_unsupported = none;
  tx_padding = false;
  pad_byte = 0;
  reply_via = none;
}

abbrev wide : String → ℕ → Option String → EndpointConfigModel
wide name rx reply_via = record {
  name = name;
  rx = rx;
  tx = 0x7E8;
  addressing = functional;
  protocols = "obd" ∷ [];
  answer_unsupported = none;
  tx_padding = false;
  pad_byte = 0;
  reply_via = reply_via;
}

abbrev ecu : List EndpointConfigModel → EcuConfig
ecu endpoints = record {
  name = "ECM";
  endpoints = endpoints;
  dtcs = [];
  event_codes = [];
  dids = [];
}

abbrev profile : Ecus
profile =
    ("ECM", ecu (narrow "physical" 0x7E0 ∷ wide "functional" 0x7DF (some "physical") ∷ [])) ∷ []

abbrev sockets : List EndpointConfig
sockets =
    record {
      name = "ECM.physical";
      address = record { rx_id = 0x7E0; tx_id = 0x7E8; mode = normal_11bit };
      functional = false;
      options = record { tx_padding = false; pad_byte = 0; block_size = 0; st_min = 0 };
      reply_via = none;
      receive = true;
    }
    ∷ record {
      name = "ECM.functional";
      address = record { rx_id = 0x7DF; tx_id = 0x7E8; mode = normal_11bit };
      functional = true;
      options = record { tx_padding = false; pad_byte = 0; block_size = 0; st_min = 0 };
      reply_via = some "ECM.physical";
      receive = true;
    }
    ∷ []

abbrev table : AddressRouter
table = record {
  physical =
      (0x7E0, record { ecu = "ECM"; protocols = "obd" ∷ "uds" ∷ []; answer_unsupported = true })
      ∷ [];
  functional =
      (0x7DF, record { ecu = "ECM"; protocols = "obd" ∷ []; answer_unsupported = false } ∷ []) ∷ [];
}

sockets_built : build_endpoints profile ≡ ok sockets
unfolding build_endpoints build_endpoint iso_tp_address iso_tp_options endpoint_named endpoint_name
sockets_built = refl

table_built : build_router profile ≡ ok table
unfolding add_ecus add_endpoints add_endpoint add_physical make_route put_physical add_functional
    put_functional answers_unsupported
table_built = refl

build_router-checked_example : check_routes table sockets ≡ ok tt
build_router-checked_example = build_router-checked profile sockets table sockets_built table_built

abbrev no_dids : String → Result ℤ
no_dids key = err value_error

sections_checked : each (λ (entry : String × EcuConfig). check_ecu no_dids entry.1) profile ≡ ok tt
unfolding check_ecu check_endpoint protocols_are_known has_repeat dtc_codes_are_unique
    endpoints_are_consistent repeats_pair events_name_codes
sections_checked = refl

keys_distinct : has_repeat (keys profile) ≡ false
unfolding has_repeat
keys_distinct = refl

build_ecus-AllServe_example :
    (outs : List (Ecu World × (String × DtcStore))) × (build_ecus profile ≡ ok outs)
    × AllServe profile outs
build_ecus-AllServe_example = build_ecus-AllServe no_dids profile sections_checked refl

build_dispatcher_lem_example :
    (es : List (Ecu World)) × (map (λ (e : Ecu World). e.name) es ≡ keys profile)
    × (build_dispatcher profile none
        ≡ (no_fan_out table.functional >> ok (record { router = table; ecus = es; sync = none })))
build_dispatcher_lem_example =
    build_dispatcher_lem no_dids profile table none sections_checked refl keys_distinct table_built

-- A broadcast address of one ECU that is the physical one of another, which stands before it.
abbrev shared : Ecus
shared =
    ("ECM", ecu (narrow "physical" 0x7E0 ∷ []))
    ∷ ("TCM", ecu (narrow "physical" 0x7E1 ∷ wide "functional" 0x7E0 none ∷ []))
    ∷ []

shared_accepted : check_ecus (λ key. err value_error) shared ≡ ok tt
unfolding check_ecus check_ecu check_endpoint protocols_are_known has_repeat dtc_codes_are_unique
    endpoints_are_consistent repeats_pair events_name_codes claim_all claim_addresses
shared_accepted = refl

shared_refused : build_router shared ≡ err route_conflict
unfolding add_ecus add_endpoints add_endpoint add_physical make_route put_physical add_functional
    put_functional
shared_refused = refl
