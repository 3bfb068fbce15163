-- ===== src/Scenario/Runner/Signals.antt =====
-- What the vehicle reads as, once a runner has set its signals for a time.
use ecu_simulator.Prelude.{
  String, ◌≡◌, ap, inl, inr, Option, none, some, List, [], ◌∷◌, arith, str_eq, if◌then◌else◌,
  Result-cases, Error, Result, ok, err, >>=-eq-ok,
}
use ecu_simulator.Vehicle.Floats.{Floats, Value}
use ecu_simulator.Vehicle.State.{VehicleState, get, set}
use ecu_simulator.Vehicle.State.Laws.{get-set}
use ecu_simulator.Scenario.Runner.{Driven, driven_value, drive, apply_signals}

module _ ⦃F : Floats⦄ where
  open F use {Float}

  -- The last signal of a list that drives a path.
  abbrev pub driver : List Driven → String → Option Driven
  driver [] path = none
  driver (d ∷ rest) path = elim (driver rest path) [
    | some e ↦ some e
    | none ↦ if str_eq d.signal.path path then some d else none
  ]

  -- What a path reads as once the signals are set.
  abbrev pub reading : Option Driven → Float → Result Value → Result Value
  reading none t old = old
  reading (some d) t old = driven_value d t

  abbrev Outcome : Type 0
  Outcome = Result (Unit {0}) × VehicleState

  drive-get :
      (d : Driven) (v w : VehicleState) (t : Float) (path : String)
      → drive d v t ≡ ok w
      → get w path ≡ (if str_eq d.signal.path path then driven_value d t else get v path)
  unfolding drive
  drive-get d v w t path h =
      let (value, made, stored) =
        >>=-eq-ok (driven_value d t) (λ value. set v d.signal.path value) h in
      rw made (get-set v w d.signal.path path value stored)

  not_raised : (x : Error) (v w : VehicleState) → ◌≡◌ {A = Outcome} (err x, v) (ok tt, w) → ⊥
  not_raised x v w h = cc

  unset : (v v' : VehicleState) (t : Float) → apply_signals [] v t ≡ (ok tt, v') → v' ≡ v
  unfolding apply_signals
  unset v v' t h = cc

  apply_signals-cons :
      (d : Driven) (rest : List Driven) (v v' : VehicleState) (t : Float)
      → apply_signals (d ∷ rest) v t ≡ (ok tt, v')
      → (w : VehicleState) × (drive d v t ≡ ok w) × (apply_signals rest w t ≡ (ok tt, v'))
  unfolding apply_signals
  apply_signals-cons d rest v v' t h = elim (Result-cases (drive d v t)) [
    | inl (x, raised) ↦ absurd (not_raised x v v' (rw (apply_signals, raised) at h))
    | inr (w, done) ↦ (w, done, rw (apply_signals, done) at h)
  ]

  joined :
      (d : Driven) (found : Option Driven) (path : String) (t : Float) (old mid new : Result Value)
      → mid ≡ (if str_eq d.signal.path path then driven_value d t else old)
      → new ≡ reading found t mid
      → new
        ≡ reading
            (elim found [
              | some e ↦ some e
              | none ↦ if str_eq d.signal.path path then some d else none
            ])
            t
            old
  joined d (some e) path t old mid new h k = k
  joined d none path t old mid new h k = ground (arith, h, k)

  -- Once the signals are set for a time, a driven path reads as the value of its generator at that
  -- time, converted where its entry is integral, and every other path as before.
  pub apply_signals-get :
      (ds : List Driven) (v v' : VehicleState) (t : Float) (path : String)
      → apply_signals ds v t ≡ (ok tt, v')
      → get v' path ≡ reading (driver ds path) t (get v path)
  apply_signals-get [] v v' t path h = ap (λ (x : VehicleState). get x path) (unset v v' t h)
  apply_signals-get (d ∷ rest) v v' t path h =
      let (w, done, more) = apply_signals-cons d rest v v' t h in
      joined d (driver rest path) path t (get v path) (get w path) (get v' path)
        (drive-get d v w t path done) (apply_signals-get rest w v' t path more)
