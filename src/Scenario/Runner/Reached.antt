-- ===== src/Scenario/Runner/Reached.antt =====
-- A runner after any calls of `apply`, and what its next call reaches.
use ecu_simulator.Prelude.{
  none, Option, String, ◌≡◌, refl, sym, ap, ◌∙◌, inl, inr, false, ◌||◌, some, List, [], ◌∷◌, map,
  Bool-cases, Result-cases, ok-injective, select, Result, ok, err, >>=-eq-ok,
}
use mathlib.Core.Path.{subst}
use ecu_simulator.Vehicle.Floats.{Floats}
use ecu_simulator.Vehicle.State.{VehicleState, get}
use ecu_simulator.Scenario.Events.{DtcEvent}
use ecu_simulator.Scenario.Runner.{
  Stores, Scenario, Entry, ScenarioRunner, World, driven, make_runner, check_signals, check_events,
  is_backwards, apply_event, apply_signals, apply_events, released, after_signals, apply,
}
use ecu_simulator.Scenario.Runner.Laws.{is_due, mark, replay}
use ecu_simulator.Scenario.Runner.Typed.{signal_of, expected, driven-expected}
use ecu_simulator.Scenario.Runner.Apply.{apply-parts}

module _ ⦃F : Floats⦄ where
  open F use {Float}

  -- A runner that was made for a scenario, with the vehicle `first`, and was then called any number
  -- of times, with whatever the vehicle and the stores had become, returning or raising.
  pub data Reachable (scenario : Scenario) (first : VehicleState) : ScenarioRunner → Type 0 where
    built :
        (stores : Stores) {runner : ScenarioRunner}
        → make_runner scenario first stores ≡ ok runner
        → Reachable scenario first runner
    applied :
        {runner after : ScenarioRunner} (world reached : World) (t : Float) (r : Result (Unit {0}))
        → Reachable scenario first runner
        → apply runner world t ≡ (r, (after, reached))
        → Reachable scenario first after

  -- The event of an entry, with its ECU.
  abbrev pub timed : Entry → String × DtcEvent
  timed entry = (entry.ecu, entry.event)

  events_kept :
      (entries : List Entry) (stores : Stores) (t : Float)
      → map timed (apply_events entries stores t).1.0 ≡ map timed entries
  unfolding apply_events
  events_kept [] stores t = refl
  events_kept (entry ∷ rest) stores t = elim (Bool-cases (entry.applied || F.lt t entry.event.at)) [
    | inl skipped ↦
        rw (apply_events, skipped)
          (ap (λ (l : List (String × DtcEvent)). timed entry ∷ l) (events_kept rest stores t))
    | inr due ↦ elim (Result-cases (apply_event entry stores)) [
      | inl (e, raised) ↦ rw (apply_events, due, raised) refl
      | inr (later, done) ↦
          rw (apply_events, due, done)
            (ap (λ (l : List (String × DtcEvent)). timed entry ∷ l) (events_kept rest later t))
    ]
  ]

  -- What no call changes.
  record Keeps (runner after : ScenarioRunner) : Type 0 where
    signals : after.signals ≡ runner.signals
    events : map timed after.events ≡ map timed runner.events

  released-Keeps :
      (runner : ScenarioRunner) (world : World) (t : Float)
      (r : Result (Unit {0}) × (List Entry × Stores))
      → map timed r.1.0 ≡ map timed runner.events
      → Keeps runner (released runner world t r).1.0
  released-Keeps runner world t (ok _, (entries, stores)) h = record { signals = refl; events = h }
  released-Keeps runner world t (err e, (entries, stores)) h = record { signals = refl; events = h }

  after_signals-Keeps :
      (runner : ScenarioRunner) (world : World) (t : Float) (r : Result (Unit {0}) × VehicleState)
      → Keeps runner (after_signals runner world t r).1.0
  after_signals-Keeps runner world t (err e, vehicle) = record { signals = refl; events = refl }
  after_signals-Keeps runner world t (ok _, vehicle) =
      released-Keeps runner (record world { vehicle = vehicle }) t
        (apply_events runner.events world.stores t) (events_kept runner.events world.stores t)

  apply-Keeps :
      (runner : ScenarioRunner) (world : World) (t : Float)
      → Keeps runner (apply runner world t).1.0
  unfolding apply
  apply-Keeps runner world t = elim (Bool-cases (is_backwards runner.last_applied t)) [
    | inl backwards ↦ rw backwards (record { signals = refl; events = refl })
    | inr forward ↦
        rw forward
          (after_signals-Keeps runner world t (apply_signals runner.signals world.vehicle t))
  ]

  abbrev fresh : String × DtcEvent → Entry
  fresh pair = record { ecu = pair.0; event = pair.1; applied = false }

  timed-fresh : (events : List (String × DtcEvent)) → map timed (map fresh events) ≡ events
  timed-fresh [] = refl
  timed-fresh (pair ∷ rest) = ap (λ (l : List (String × DtcEvent)). pair ∷ l) (timed-fresh rest)

  -- What every runner of a scenario shows of it.
  record IsOf (scenario : Scenario) (first : VehicleState) (runner : ScenarioRunner) : Type 0 where
    signals : driven first scenario.signals ≡ ok runner.signals
    events : map timed runner.events ≡ scenario.events

  made-IsOf :
      (scenario : Scenario) (first : VehicleState) (stores : Stores) (runner : ScenarioRunner)
      → make_runner scenario first stores ≡ ok runner
      → IsOf scenario first runner
  unfolding make_runner
  made-IsOf scenario first stores runner h =
      let (_, _, h1) = >>=-eq-ok (check_signals [] scenario.signals first) _ h in
      let (_, _, h2) = >>=-eq-ok (check_events scenario.events stores) _ h1 in
      let (ds, made, h3) = >>=-eq-ok (driven first scenario.signals) _ h2 in
      let is = ok-injective h3 in
      subst (IsOf scenario first) is
        (record { signals = made; events = timed-fresh scenario.events })

  Reachable-IsOf :
      (scenario : Scenario) (first : VehicleState) {runner : ScenarioRunner}
      → Reachable scenario first runner
      → IsOf scenario first runner
  Reachable-IsOf scenario first (built stores {runner} h) = made-IsOf scenario first stores runner h
  Reachable-IsOf scenario first (applied {runner} {after} world reached t r before h) =
      let b = Reachable-IsOf scenario first before in
      let k =
        subst (λ (x : Result (Unit {0}) × (ScenarioRunner × World)). Keeps runner x.1.0) h
          (apply-Keeps runner world t) in
      record { signals = b.signals ∙ ap ok (sym k.signals); events = k.events ∙ b.events }

  -- A time that is not before the last one that was noted.
  abbrev pub IsForward : Option Float → Float → Type 0
  IsForward none t = Unit {0}
  IsForward (some last) t = F.lt t last ≡ false

  forward-false : (last : Option Float) (t : Float) → IsForward last t → is_backwards last t ≡ false
  forward-false none t h = refl
  forward-false (some last) t h = h

  -- Take a runner that was made for a scenario and called any number of times. If its next call, for
  -- a time that is not before the last one noted, returns, then the time is noted; every path that
  -- the scenario drives reads as its generator's value for that time, cut to an integer where the
  -- path held an integer when the runner was made and else as a float, and every other path as
  -- before; the entries are still the events of the scenario, in order; those that were due are now
  -- marked, and they alone were applied to the stores, in order.
  pub apply-reached :
      (scenario : Scenario) (first : VehicleState) (runner after : ScenarioRunner)
      (world reached : World) (t : Float) (path : String)
      → Reachable scenario first runner
      → IsForward runner.last_applied t
      → apply runner world t ≡ (ok tt, (after, reached))
      → (after.last_applied ≡ some t)
        × (get reached.vehicle path
            ≡ expected first (signal_of scenario.signals path) t (get world.vehicle path))
        × (map timed after.events ≡ scenario.events)
        × (after.events ≡ map (mark t) runner.events)
        × (replay (select (is_due t) runner.events) world.stores ≡ ok reached.stores)
  apply-reached scenario first runner after world reached t path made forward h =
      let b = Reachable-IsOf scenario first made in
      let a = Reachable-IsOf scenario first (applied world reached t (ok tt) made h) in
      let (noted, reads, marked, order) =
        apply-parts runner after world reached t path (forward-false runner.last_applied t forward)
          h in
      (
        noted,
        reads
            ∙ driven-expected first scenario.signals runner.signals path t (get world.vehicle path)
                b.signals,
        a.events,
        marked,
        order,
      )
