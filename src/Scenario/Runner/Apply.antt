-- ===== src/Scenario/Runner/Apply.antt =====
-- `apply` as a whole: what a runner has reached when it returns.
use ecu_simulator.Prelude.{
  String, ◌≡◌, refl, sym, ap, false, some, List, map, select, Result, ok, err,
}
use ecu_simulator.Vehicle.Floats.{Floats}
use ecu_simulator.Vehicle.State.{VehicleState, get}
use ecu_simulator.Scenario.Runner.{
  Stores, Entry, ScenarioRunner, World, is_backwards, apply_signals, apply_events, released,
  after_signals, apply,
}
use ecu_simulator.Scenario.Runner.Laws.{is_due, mark, replay, apply_events_once}
use ecu_simulator.Scenario.Runner.Signals.{driver, reading, apply_signals-get}

module _ ⦃F : Floats⦄ where
  open F use {Float}

  abbrev Outcome : Type 0
  Outcome = Result (Unit {0}) × (ScenarioRunner × World)

  -- The parts of a call that returns.
  released-ok :
      (runner after : ScenarioRunner) (world reached : World) (t : Float)
      (r : Result (Unit {0}) × (List Entry × Stores))
      → released runner world t r ≡ (ok tt, (after, reached))
      → (r ≡ (ok tt, (after.events, reached.stores)))
        × (after.signals ≡ runner.signals)
        × (after.last_applied ≡ some t)
        × (reached.vehicle ≡ world.vehicle)
  released-ok runner after world reached t (ok tt, (entries, stores)) h =
      let same_runner : record runner { events = entries; last_applied = some t } ≡ after = cc in
      let same_world : record world { stores = stores } ≡ reached = cc in
      (
        rw (← same_runner, ← same_world) refl,
        rw (← same_runner) refl,
        rw (← same_runner) refl,
        rw (← same_world) refl,
      )
  released-ok runner after world reached t (err e, (entries, stores)) h = cc

  after_signals-ok :
      (runner after : ScenarioRunner) (world reached : World) (t : Float)
      (r : Result (Unit {0}) × VehicleState)
      → after_signals runner world t r ≡ (ok tt, (after, reached))
      → (r ≡ (ok tt, reached.vehicle))
        × (apply_events runner.events world.stores t ≡ (ok tt, (after.events, reached.stores)))
        × (after.signals ≡ runner.signals)
        × (after.last_applied ≡ some t)
  after_signals-ok runner after world reached t (ok tt, vehicle) h =
      let (e, f, g, k) =
        released-ok runner after (record world { vehicle = vehicle }) reached t
          (apply_events runner.events world.stores t) h in
      (ap (λ (v : VehicleState). (ok tt, v)) (sym k), e, f, g)
  after_signals-ok runner after world reached t (err e, vehicle) h = cc

  -- The parts of a call of `apply` that returns, on the entries of the runner.
  pub apply-parts :
      (runner after : ScenarioRunner) (world reached : World) (t : Float) (path : String)
      → is_backwards runner.last_applied t ≡ false
      → apply runner world t ≡ (ok tt, (after, reached))
      → (after.last_applied ≡ some t)
        × (get reached.vehicle path
            ≡ reading (driver runner.signals path) t (get world.vehicle path))
        × (after.events ≡ map (mark t) runner.events)
        × (replay (select (is_due t) runner.events) world.stores ≡ ok reached.stores)
  unfolding apply
  apply-parts runner after world reached t path forward h =
      let (e, f, _, g) =
        after_signals-ok runner after world reached t (apply_signals runner.signals world.vehicle t)
          (rw forward at h) in
      let (marked, order, _) =
        apply_events_once runner.events world.stores t after.events reached.stores f in
      (g, apply_signals-get runner.signals world.vehicle reached.vehicle t path e, marked, order)
