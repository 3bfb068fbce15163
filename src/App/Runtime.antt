-- ===== src/App/Runtime.antt =====
-- src/ecu_simulator/app.py: the dispatcher of a runtime.
pub mod Served
pub mod Dispatched
pub mod Built
use ecu_simulator.Prelude.{
  ℕ, zero, suc, ◌+◌, ◌-◌, ◌*◌, ◌/◌, ◌%◌, ◌^◌, ◌≤◌, ◌<◌, bit_and, bit_or, String, ◌≡◌, refl, sym, ap,
  ◌∙◌, ◌≢◌, ◌↔◌, ◌⊎◌, inl, inr, Bool, true, false, not, ◌&&◌, ◌||◌, Option, none, some, List, [],
  ◌∷◌, ◌++◌, map, arith, str_eq, eq_iff, ltb, leb, ◌==◌, if◌then◌else◌, ltb→lt, lt→ltb, leb→le,
  le→leb, ==_iff, Bool-cases, Option-cases, Result-cases, ok-injective, &&-true, length, get_elem?,
  take, drop, replicate, any, all, select, All, length-append, length-take, length-replicate,
  length-map, All-append, contains, ℤ, pos, negsuc, clamp, ◌+ℤ◌, ◌*ℤ◌, sub_ℕ, ltb_ℤ, Error,
  value_error, key_error, type_error, overflow_error, index_error, traverse, as_some,
  not_implemented, unknown_signal, service_conflict, route_conflict, provider_conflict,
  assertion_error, Result, ok, err, ◌>>=◌, ◌>>◌, raise_if, or_raise, >>=-eq-ok,
}
use ecu_simulator.Config.Schema.{EcuConfig, Ecus}
use ecu_simulator.Dtc.Store.{DtcStore}
use ecu_simulator.Ecu.Ecu.{Ecu}
use ecu_simulator.Ecu.Dispatcher.{Dispatcher, make_dispatcher}
use ecu_simulator.Vehicle.Floats.{Floats}
use ecu_simulator.App.Ecus.{World, build_ecus}
use ecu_simulator.App.Routing.{build_router}

module _ ⦃F : Floats⦄ where
  abbrev pub ecus_of : List (Ecu World × (String × DtcStore)) → List (Ecu World)
  ecus_of = map (λ (out : Ecu World × (String × DtcStore)). out.0)

  -- the ECUs, the routing table and the dispatcher of `build_runtime`, with the `sync` made there
  unfoldable pub build_dispatcher :
      Ecus → Option (World → Result (Unit {0}) × World) → Result (Dispatcher World)
  build_dispatcher ecus sync = build_ecus ecus >>= λ outs.
      build_router ecus >>= λ router. make_dispatcher router (ecus_of outs) sync
