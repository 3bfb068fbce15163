-- ===== src/App/Ecus.antt =====
-- src/ecu_simulator/app.py: the ECUs of a profile with their protocols and trouble codes. The objects
-- that requests change, the vehicle and the stores of all ECUs, are the state of the simulator; a
-- store stands under its ECU's key.
pub mod Wanted
pub mod Validated
pub mod Serving
use ecu_simulator.Prelude.{
  ℕ, zero, suc, ◌+◌, ◌-◌, ◌*◌, ◌/◌, ◌%◌, ◌^◌, ◌≤◌, ◌<◌, bit_and, bit_or, String, ◌≡◌, refl, sym, ap,
  ◌∙◌, ◌≢◌, ◌↔◌, ◌⊎◌, inl, inr, Bool, true, false, not, ◌&&◌, ◌||◌, Option, none, some, List, [],
  ◌∷◌, ◌++◌, map, arith, str_eq, eq_iff, ltb, leb, ◌==◌, if◌then◌else◌, ltb→lt, lt→ltb, leb→le,
  le→leb, ==_iff, Bool-cases, Option-cases, Result-cases, ok-injective, &&-true, length, get_elem?,
  take, drop, replicate, any, all, select, All, length-append, length-take, length-replicate,
  length-map, All-append, contains, ℤ, pos, negsuc, clamp, ◌+ℤ◌, ◌*ℤ◌, sub_ℕ, ltb_ℤ, Error,
  value_error, key_error, type_error, overflow_error, index_error, traverse, as_some,
  not_implemented, unknown_signal, service_conflict, route_conflict, provider_conflict,
  assertion_error, Result, ok, err, ◌>>=◌, ◌>>◌, raise_if, or_raise, >>=-eq-ok,
}
use Prim.Native.String.{compare}
use Prim.Native.Nat.{Ordering}
use ecu_simulator.Bytes.{Bytes}
use ecu_simulator.Base.{ServiceRequest, DiagnosticProtocol}
use ecu_simulator.Config.Schema.{EndpointConfigModel, EcuConfig, Ecus}
use ecu_simulator.Dtc.Store.{DtcStore, make_store}
use ecu_simulator.Vehicle.Floats.{Floats}
use ecu_simulator.Vehicle.State.{VehicleState}
use ecu_simulator.Obd.Protocol.{handle as obd_handle}
use ecu_simulator.Uds.Protocol.{handle as uds_handle, service_ids as uds_service_ids}
use ecu_simulator.Uds.Dtc.{dtc_store_provider}
use ecu_simulator.Uds.Providers.{DtcRegistry, register_dtc}
use ecu_simulator.Ecu.Ecu.{Ecu, make_ecu, register}

-- `CLAIMED_SERVICE_IDS`
abbrev pub claimed_service_ids : List ℕ
claimed_service_ids = 1 ∷ 2 ∷ 3 ∷ 4 ∷ 5 ∷ 6 ∷ 7 ∷ 8 ∷ 9 ∷ 10 ∷ []

abbrev pub Stores : Type 0
Stores = List (String × DtcStore)

abbrev pub store_of : Stores → String → DtcStore
store_of [] name = []
store_of ((n, store) ∷ rest) name = if str_eq n name then store else store_of rest name

abbrev pub put_store : Stores → String → DtcStore → Stores
put_store [] name store = []
put_store ((n, old) ∷ rest) name store =
    if str_eq n name then (n, store) ∷ rest else (n, old) ∷ put_store rest name store

-- one text into a sorted list without repeats, and `sorted({...})`
unfoldable pub insert_sorted : String → List String → List String
insert_sorted s [] = s ∷ []
insert_sorted s (t ∷ rest) = elim (compare s t) [
  | Ordering.lt ↦ s ∷ t ∷ rest
  | Ordering.eq ↦ t ∷ rest
  | Ordering.gt ↦ t ∷ insert_sorted s rest
]

unfoldable pub sorted_set : List String → List String
sorted_set [] = []
sorted_set (s ∷ rest) = insert_sorted s (sorted_set rest)

-- `p for endpoint in endpoints for p in endpoint.protocols`
abbrev pub mentioned : List EndpointConfigModel → List String
mentioned [] = []
mentioned (e ∷ rest) = e.protocols ++ mentioned rest

module _ ⦃F : Floats⦄ where
  pub record World : Type 0 where
    pub vehicle : VehicleState
    pub stores : Stores

  abbrev pub stored :
      World → String → Result (Option Bytes) × DtcStore → Result (Option Bytes) × World
  stored w key (answer, store) = (answer, record w { stores = put_store w.stores key store })

  -- `ObdProtocol(vehicle, ecu_name=..., dtcs=ecu.dtc_store)`
  unfoldable pub obd_of : String → String → DiagnosticProtocol World
  obd_of key ecu_name = record {
    name = "obd";
    service_ids = claimed_service_ids;
    handle = λ w request.
        stored w key (obd_handle w.vehicle ecu_name (store_of w.stores key) request.payload);
  }

  -- `UdsProtocol(dtc_providers=ecu.dtc_providers, dtcs=ecu.dtc_store)`
  unfoldable pub uds_of : String → DtcRegistry DtcStore → DiagnosticProtocol World
  uds_of key registry = record {
    name = "uds";
    service_ids = uds_service_ids;
    handle =
        λ w request. stored w key (uds_handle registry (store_of w.stores key) request.payload);
  }

  -- the branches in the inner loop of `build_ecus`
  unfoldable pub protocol_named :
      String → EcuConfig → DtcRegistry DtcStore → String → Result (DiagnosticProtocol World)
  protocol_named key config registry name =
      if str_eq name "obd"
      then ok (obd_of key config.name)
      else if str_eq name "uds"
      then ok (uds_of key registry)
      else err value_error

  -- the inner loop
  unfoldable pub register_all :
      String → EcuConfig → DtcRegistry DtcStore → Ecu World → List String → Result (Ecu World)
  register_all key config registry e [] = ok e
  register_all key config registry e (name ∷ rest) =
      protocol_named key config registry name >>= λ protocol.
      register e protocol >>= λ after. register_all key config registry after rest

  -- one round of the outer loop: the ECU, and its store under its key
  unfoldable pub build_ecu : String → EcuConfig → Result (Ecu World × (String × DtcStore))
  build_ecu key config = make_store config.dtcs >>= λ store. make_ecu key >>= λ e.
      register_dtc [] (dtc_store_provider key) >>= λ registry.
      register_all key config registry e (sorted_set (mentioned config.endpoints)) >>= λ built.
      ok (built, (key, store))

  -- `build_ecus`
  unfoldable pub build_ecus : Ecus → Result (List (Ecu World × (String × DtcStore)))
  build_ecus = traverse (λ (entry : String × EcuConfig). build_ecu entry.0 entry.1)
