-- ===== src/Scenario/Runner.antt =====
-- src/ecu_simulator/scenario/runner.py: `ScenarioRunner`, the one writer of what a scenario
-- produces, and src/ecu_simulator/scenario/sync.py, which tells it the time.
pub mod Signals
pub mod Apply
pub mod Typed
pub mod Reached
pub mod Laws
use ecu_simulator.Prelude.{
  ℕ, zero, suc, ◌+◌, ◌-◌, ◌*◌, ◌/◌, ◌%◌, ◌^◌, ◌≤◌, ◌<◌, bit_and, bit_or, String, ◌≡◌, refl, sym, ap,
  ◌∙◌, ◌≢◌, ◌↔◌, ◌⊎◌, inl, inr, Bool, true, false, not, ◌&&◌, ◌||◌, Option, none, some, List, [],
  ◌∷◌, ◌++◌, map, arith, str_eq, eq_iff, ltb, leb, ◌==◌, if◌then◌else◌, ltb→lt, lt→ltb, leb→le,
  le→leb, ==_iff, Bool-cases, Option-cases, Result-cases, ok-injective, &&-true, length, get_elem?,
  take, drop, replicate, any, all, select, All, length-append, length-take, length-replicate,
  length-map, All-append, contains, ℤ, pos, negsuc, clamp, ◌+ℤ◌, ◌*ℤ◌, sub_ℕ, ltb_ℤ, Error,
  value_error, key_error, type_error, overflow_error, index_error, traverse, as_some,
  not_implemented, unknown_signal, service_conflict, route_conflict, provider_conflict,
  assertion_error, Result, ok, err, ◌>>=◌, ◌>>◌, raise_if, or_raise, >>=-eq-ok,
}
use ecu_simulator.Dtc.Store.{DtcStore, carries, update, clear}
use ecu_simulator.Vehicle.Floats.{Floats, Value, int, float, bool, text}
use ecu_simulator.Vehicle.State.{VehicleState, has, get, set}
use ecu_simulator.Scenario.Generators.{Signal, value_at}
use ecu_simulator.Scenario.Events.{
  DtcAction, clear_all, raise_pending, raise_confirmed, request_indicator, clear_code, code_actions,
  DtcEvent,
}

-- `Mapping[str, DtcStore]`: the stores by the name of their ECU
abbrev pub Stores : Type 0
Stores = List (String × DtcStore)

unfoldable pub store_of : Stores → String → Option DtcStore
store_of [] ecu = none
store_of ((name, store) ∷ rest) ecu = if str_eq name ecu then some store else store_of rest ecu

-- the store of an ECU after a method of it mutated it
unfoldable pub put_store : Stores → String → DtcStore → Stores
put_store [] ecu store = []
put_store ((name, old) ∷ rest) ecu store =
    if str_eq name ecu then (name, store) ∷ rest else (name, old) ∷ put_store rest ecu store

module _ ⦃F : Floats⦄ where
  open F use {Float, trunc, sub, lt}

  pub record Scenario : Type 0 where
    pub signals : List Signal
    pub events : List (String × DtcEvent)

  -- `_Event`
  pub record Entry : Type 0 where
    pub ecu : String
    pub event : DtcEvent
    pub applied : Bool

  -- A signal with its entry of `self._integral`.
  pub record Driven : Type 0 where
    pub signal : Signal
    pub integral : Bool

  pub record ScenarioRunner : Type 0 where
    pub signals : List Driven
    pub events : List Entry
    pub last_applied : Option Float

  -- `isinstance(value, int) and not isinstance(value, bool)`
  abbrev pub is_integral : Value → Bool
  is_integral (int z) = true
  is_integral (float x) = false
  is_integral (bool b) = false
  is_integral (text s) = false

  -- the first loop of `__init__`
  unfoldable pub check_signals : List String → List Signal → VehicleState → Result (Unit {0})
  check_signals seen [] vehicle = ok tt
  check_signals seen (signal ∷ rest) vehicle =
      raise_if (any (λ path. str_eq path signal.path) seen) value_error
      >> (raise_if (not (has vehicle signal.path)) key_error
          >> check_signals (signal.path ∷ seen) rest vehicle)

  abbrev pub missing_code : Option String → DtcStore → Bool
  missing_code none store = false
  missing_code (some code) store = not (carries store code)

  -- the second loop of `__init__`
  unfoldable pub check_events : List (String × DtcEvent) → Stores → Result (Unit {0})
  check_events [] stores = ok tt
  check_events ((ecu, event) ∷ rest) stores = or_raise (store_of stores ecu) key_error >>= λ store.
      raise_if (missing_code event.code store) key_error >> check_events rest stores

  -- `self._integral`
  unfoldable pub driven : VehicleState → List Signal → Result (List Driven)
  driven vehicle [] = ok []
  driven vehicle (signal ∷ rest) = do
    value ← get vehicle signal.path
    more ← driven vehicle rest
    ok (record { signal = signal; integral = is_integral value } ∷ more)

  -- `ScenarioRunner.__init__`
  unfoldable pub make_runner : Scenario → VehicleState → Stores → Result ScenarioRunner
  make_runner scenario vehicle stores =
      check_signals [] scenario.signals vehicle
      >> (check_events scenario.events stores
          >> (driven vehicle scenario.signals >>= λ signals. ok (record {
            signals = signals;
            events =
                map
                  (λ (pair : String × DtcEvent). record {
                    ecu = pair.0;
                    event = pair.1;
                    applied = false;
                  })
                  scenario.events;
            last_applied = none;
          })))

  -- `int(value) if self._integral[signal.path] else value`
  unfoldable pub converted : Bool → Float → Result Value
  converted true x = do z ← trunc x; ok (int z)
  converted false x = ok (float x)

  -- what is written for a signal
  unfoldable pub driven_value : Driven → Float → Result Value
  driven_value d t = do x ← value_at d.signal.generator t; converted d.integral x

  -- the body of the loop of `_apply_signals`
  unfoldable pub drive : Driven → VehicleState → Float → Result VehicleState
  drive d vehicle t = do value ← driven_value d t; set vehicle d.signal.path value

  -- `_apply_signals`: what was set before an exception stays set
  unfoldable pub apply_signals :
      List Driven → VehicleState → Float → Result (Unit {0}) × VehicleState
  apply_signals [] vehicle t = (ok tt, vehicle)
  apply_signals (d ∷ rest) vehicle t = elim (drive d vehicle t) [
    | err e ↦ (err e, vehicle)
    | ok after ↦ apply_signals rest after t
  ]

  -- the update of one code; the assertion on a code that is left out
  unfoldable pub apply_to : DtcEvent → DtcStore → Result DtcStore
  apply_to event store = elim (code_actions event.action) [
    | none ↦ ok (clear store)
    | some flags ↦ do
      code ← or_raise event.code assertion_error
      updated ← update store code flags
      ok updated.1
  ]

  -- `_apply_event`
  unfoldable pub apply_event : Entry → Stores → Result Stores
  apply_event entry stores = do
    store ← or_raise (store_of stores entry.ecu) key_error
    after ← apply_to entry.event store
    ok (put_store stores entry.ecu after)

  abbrev pub keep :
      Entry → Result (Unit {0}) × (List Entry × Stores) → Result (Unit {0}) × (List Entry × Stores)
  keep entry (r, (entries, stores)) = (r, (entry ∷ entries, stores))

  -- `_apply_events`: an entry is marked once it is applied
  unfoldable pub apply_events :
      List Entry → Stores → Float → Result (Unit {0}) × (List Entry × Stores)
  apply_events [] stores t = (ok tt, ([], stores))
  apply_events (entry ∷ rest) stores t = elim (entry.applied || lt t entry.event.at) [
    | true ↦ keep entry (apply_events rest stores t)
    | false ↦ elim (apply_event entry stores) [
      | err e ↦ (err e, (entry ∷ rest, stores))
      | ok after ↦ keep (record entry { applied = true }) (apply_events rest after t)
    ]
  ]

  -- What a runner writes to.
  pub record World : Type 0 where
    pub vehicle : VehicleState
    pub stores : Stores

  -- `self._last_applied is not None and t < self._last_applied`
  abbrev pub is_backwards : Option Float → Float → Bool
  is_backwards none t = false
  is_backwards (some last) t = lt t last

  -- the state after `_apply_events`; the time is only noted if nothing was raised
  abbrev pub released :
      ScenarioRunner
      → World
      → Float
      → Result (Unit {0}) × (List Entry × Stores)
      → Result (Unit {0}) × (ScenarioRunner × World)
  released runner world t (ok _, (entries, stores)) = (
    ok tt,
    (record runner { events = entries; last_applied = some t }, record world { stores = stores }),
  )
  released runner world t (err e, (entries, stores)) =
      (err e, (record runner { events = entries }, record world { stores = stores }))

  -- `apply` from `_apply_signals` on
  abbrev pub after_signals :
      ScenarioRunner
      → World
      → Float
      → Result (Unit {0}) × VehicleState
      → Result (Unit {0}) × (ScenarioRunner × World)
  after_signals runner world t (err e, vehicle) =
      (err e, (runner, record world { vehicle = vehicle }))
  after_signals runner world t (ok _, vehicle) =
      released runner (record world { vehicle = vehicle }) t
        (apply_events runner.events world.stores t)

  -- `ScenarioRunner.apply`
  unfoldable pub apply :
      ScenarioRunner → World → Float → Result (Unit {0}) × (ScenarioRunner × World)
  apply runner world t =
      if is_backwards runner.last_applied t
      then (ok tt, (runner, world))
      else after_signals runner world t (apply_signals runner.signals world.vehicle t)

  -- `ScenarioSync.__call__`, with the clock's reading
  unfoldable pub sync :
      Float → Float → ScenarioRunner → World → Result (Unit {0}) × (ScenarioRunner × World)
  sync origin now runner world = apply runner world (sub now origin)
