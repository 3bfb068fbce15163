-- ===== src/Examples/Scenario.antt =====
-- A scenario that raises the speed and confirms a trouble code after five seconds.
use ecu_simulator.Prelude.{
  none, ◌≡◌, refl, true, false, some, [], ◌∷◌, map, select, pos, Result, ok,
}
use ecu_simulator.Dtc.Store.{DtcState, update}
use ecu_simulator.Vehicle.Floats.{int}
use ecu_simulator.Vehicle.State.{VehicleState, make_vehicle, common_state, get, has, set, store}
use ecu_simulator.Scenario.Generators.{constant, value_at}
use ecu_simulator.Scenario.Events.{raise_confirmed, code_actions}
use ecu_simulator.Dtc.Store.{carries}
use ecu_simulator.Scenario.Runner.Reached.{built, timed, apply-reached}
use ecu_simulator.Scenario.Runner.{
  Scenario, make_runner, check_signals, check_events, driven, ScenarioRunner, World, apply, Stores,
  store_of, put_store, Entry, Driven, drive, driven_value, converted, apply_signals, apply_event,
  apply_to, apply_events,
}
use ecu_simulator.Scenario.Runner.Laws.{is_due, mark, replay, apply_events_once}
use ecu_simulator.Scenario.Runner.Typed.{signal_of, expected}
use ecu_simulator.Examples.Data.{whole_floats, car, misfire, faults}

abbrev stores : Stores
stores = ("ECM", faults) ∷ []

abbrev confirm_lean : Entry
confirm_lean = record {
  ecu = "ECM";
  event = record { at = pos 5; action = raise_confirmed; code = some "P0171" };
  applied = false;
}

abbrev lean_confirmed : DtcState
lean_confirmed = record {
  code = "P0171";
  pending = true;
  confirmed = true;
  indicator_requested = false;
}

abbrev later : Stores
later = ("ECM", misfire ∷ lean_confirmed ∷ []) ∷ []

abbrev done : Entry
done = record confirm_lean { applied = true }

event_applied : apply_events (confirm_lean ∷ []) stores (pos 6) ≡ (ok tt, (done ∷ [], later))
unfolding apply_events apply_event store_of apply_to code_actions update put_store
event_applied = refl

apply_events_once_example :
    (done ∷ [] ≡ map (mark (pos 6)) (confirm_lean ∷ []))
    × (replay (select (is_due (pos 6)) (confirm_lean ∷ [])) stores ≡ ok later)
    × (apply_events (done ∷ []) later (pos 6) ≡ (ok tt, (done ∷ [], later)))
apply_events_once_example =
    apply_events_once (confirm_lean ∷ []) stores (pos 6) (done ∷ []) later event_applied

abbrev speed : Driven
speed = record {
  signal = record { path = "vehicle.speed"; generator = constant (pos 50) };
  integral = true;
}

abbrev driving : VehicleState
driving = record car { components = store car.components "vehicle" "speed" (int (pos 50)) }

abbrev scenario : Scenario
scenario = record { signals = speed.signal ∷ []; events = ("ECM", confirm_lean.event) ∷ [] }

abbrev runner : ScenarioRunner
runner = record { signals = speed ∷ []; events = confirm_lean ∷ []; last_applied = none }

runner_made : make_runner scenario car stores ≡ ok runner
unfolding make_runner check_signals check_events driven get has store_of carries make_vehicle
    common_state
runner_made = refl

abbrev world : World
world = record { vehicle = car; stores = stores }

abbrev reached_runner : ScenarioRunner
reached_runner = record { signals = speed ∷ []; events = done ∷ []; last_applied = some (pos 6) }

abbrev reached_world : World
reached_world = record { vehicle = driving; stores = later }

abbrev Applied : Type 0
Applied = Result (Unit {0}) × (ScenarioRunner × World)

all_applied :
    ◌≡◌ {A = Applied} (apply runner world (pos 6)) (ok tt, (reached_runner, reached_world))
unfolding apply apply_signals drive driven_value value_at converted set make_vehicle common_state
    apply_events apply_event store_of apply_to code_actions update put_store
all_applied = refl

apply-reached_example :
    (reached_runner.last_applied ≡ some (pos 6))
    × (get reached_world.vehicle "vehicle.speed"
        ≡ expected car
            (signal_of scenario.signals "vehicle.speed")
            (pos 6)
            (get world.vehicle "vehicle.speed"))
    × (map timed reached_runner.events ≡ scenario.events)
    × (reached_runner.events ≡ map (mark (pos 6)) runner.events)
    × (replay (select (is_due (pos 6)) runner.events) world.stores ≡ ok reached_world.stores)
apply-reached_example =
    apply-reached scenario car runner reached_runner world reached_world (pos 6) "vehicle.speed"
      (built stores runner_made) tt all_applied
