-- ===== src/Scenario/Runner/Typed.antt =====
-- Signals keep the type that the vehicle gave them: what a scenario says a path reads as.
use ecu_simulator.Prelude.{
  String, ◌≡◌, refl, ap, inl, inr, Option, none, some, List, [], ◌∷◌, str_eq, if◌then◌else◌,
  Bool-cases, ok-injective, Result, ok, err, ◌>>=◌, >>=-eq-ok,
}
use mathlib.Core.Path.{subst, fun_ext}
use ecu_simulator.Vehicle.Floats.{Floats, Value, int, float, bool, text}
use ecu_simulator.Vehicle.State.{VehicleState, get}
use ecu_simulator.Scenario.Generators.{Signal, value_at}
use ecu_simulator.Scenario.Runner.{Driven, is_integral, driven, converted, driven_value}
use ecu_simulator.Scenario.Runner.Signals.{driver, reading}

module _ ⦃F : Floats⦄ where
  open F use {Float, trunc}

  -- The last signal of a scenario that drives a path.
  abbrev pub signal_of : List Signal → String → Option Signal
  signal_of [] path = none
  signal_of (s ∷ rest) path = elim (signal_of rest path) [
    | some later ↦ some later
    | none ↦ if str_eq s.path path then some s else none
  ]

  -- A number in the type of a value: integers are cut towards zero, all else is a float.
  abbrev pub typed : Result Value → Float → Result Value
  typed (err e) x = err e
  typed (ok (int old)) x = trunc x >>= λ z. ok (int z)
  typed (ok (float old)) x = ok (float x)
  typed (ok (bool old)) x = ok (float x)
  typed (ok (text old)) x = ok (float x)

  -- What a path should read as at a time, where it read `old` before. The type is the one that the
  -- path had in the vehicle that the runner was made with.
  abbrev pub expected : VehicleState → Option Signal → Float → Result Value → Result Value
  expected first none t old = old
  expected first (some s) t old = value_at s.generator t >>= typed (get first s.path)

  -- A signal beside its entry of the runner.
  Matches : VehicleState → Option Driven → Option Signal → Type 0
  Matches first none none = Unit {0}
  Matches first none (some s) = ⊥
  Matches first (some d) none = ⊥
  Matches first (some d) (some s) =
      (d.signal ≡ s) × (v : Value) × (get first s.path ≡ ok v) × (d.integral ≡ is_integral v)

  converted-typed : (v : Value) (x : Float) → converted (is_integral v) x ≡ typed (ok v) x
  unfolding converted
  converted-typed (int z) x = refl
  converted-typed (float y) x = refl
  converted-typed (bool b) x = refl
  converted-typed (text s) x = refl

  value-expected :
      (first : VehicleState) (d : Driven) (s : Signal) (t : Float) (old : Result Value)
      → Matches first (some d) (some s)
      → driven_value d t ≡ expected first (some s) t old
  unfolding driven_value Matches
  value-expected first d s t old (same, v, was, integral) =
      rw (same, was, integral)
        (ap (λ (f : Float → Result Value). value_at s.generator t >>= f)
          (fun_ext (λ x. converted-typed v x)))

  reading-expected :
      (first : VehicleState) (d : Option Driven) (s : Option Signal) (t : Float)
      (old : Result Value)
      → Matches first d s
      → reading d t old ≡ expected first s t old
  unfolding Matches
  reading-expected first none none t old m = refl
  reading-expected first none (some s) t old m = absurd m
  reading-expected first (some d) none t old m = absurd m
  reading-expected first (some d) (some s) t old m = value-expected first d s t old m

  later-Matches :
      (first : VehicleState) (path : String) (d : Driven) (s : Signal)
      → Matches first (some d) (some s)
      → (x : Option Driven) (y : Option Signal) → Matches first x y
      → Matches first
          (elim x [ some e ↦ some e | none ↦ if str_eq d.signal.path path then some d else none ])
          (elim y [ some e ↦ some e | none ↦ if str_eq s.path path then some s else none ])
  unfolding Matches
  later-Matches first path d s here none none m =
      let same : str_eq d.signal.path path ≡ str_eq s.path path =
        ap (λ (x : Signal). str_eq x.path path) here.0 in
      elim (Bool-cases (str_eq s.path path)) [
        | inl hit ↦ rw (same, hit) here
        | inr miss ↦ rw (same, miss) tt
      ]
  later-Matches first path d s here none (some e) m = absurd m
  later-Matches first path d s here (some e) none m = absurd m
  later-Matches first path d s here (some e) (some f) m = m

  driven-Matches :
      (first : VehicleState) (signals : List Signal) (ds : List Driven) (path : String)
      → driven first signals ≡ ok ds
      → Matches first (driver ds path) (signal_of signals path)
  unfolding driven
  driven-Matches first [] ds path h =
      subst (λ (l : List Driven). Matches first (driver l path) none) (ok-injective h)
        (unfold Matches in tt)
  driven-Matches first (s ∷ rest) ds path h =
      let (v, was, h1) = >>=-eq-ok (get first s.path) _ h in
      let (more, others, h2) = >>=-eq-ok (driven first rest) _ h1 in
      let d : Driven = record { signal = s; integral = is_integral v } in
      let here : Matches first (some d) (some s) = unfold Matches in (refl, v, was, refl) in
      subst (λ (l : List Driven). Matches first (driver l path) (signal_of (s ∷ rest) path))
        (ok-injective h2)
        (later-Matches first path d s here (driver more path) (signal_of rest path)
          (driven-Matches first rest more path others))

  -- The entries that a runner is made with read as its scenario says.
  pub driven-expected :
      (first : VehicleState) (signals : List Signal) (ds : List Driven) (path : String) (t : Float)
      (old : Result Value)
      → driven first signals ≡ ok ds
      → reading (driver ds path) t old ≡ expected first (signal_of signals path) t old
  driven-expected first signals ds path t old h =
      reading-expected first (driver ds path) (signal_of signals path) t old
        (driven-Matches first signals ds path h)
