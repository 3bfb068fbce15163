-- ===== src/Scenario/Generators.antt =====
-- src/ecu_simulator/scenario/generators.py: a signal's value as a function of the elapsed seconds.
-- The schema keeps the lists non-empty; what an empty one would raise is an IndexError throughout.
use ecu_simulator.Prelude.{
  ℕ, ◌-◌, ◌%◌, String, Bool, true, not, ◌&&◌, Option, none, some, List, [], ◌∷◌, if◌then◌else◌,
  length, get_elem?, ℤ, pos, negsuc, index_error, Result, ok, err, ◌>>=◌, or_raise,
}
use ecu_simulator.Vehicle.Floats.{Floats}

-- `n % k` of Python, for a positive `k`
abbrev pub mod_ℕ : ℤ → ℕ → ℕ
mod_ℕ (pos n) k = n % k
mod_ℕ (negsuc n) k = k - 1 - n % k

module _ ⦃F : Floats⦄ where
  open F use {Float, whole, trunc, add, sub, mul, div, floor_div, lt, le, sin, pi}

  pub data Generator : Type 0 where
    -- the value
    constant : Float → Generator
    -- from, to, over
    ramp : Float → Float → Float → Generator
    -- centre, amplitude, period, phase
    sine : Float → Float → Float → Float → Generator
    -- values, interval
    stepped : List Float → Float → Generator
    -- steps: a value, for a duration
    sequence : List (Float × Float) → Generator
    -- points: at a time, a value
    timeline : List (Float × Float) → Generator

  -- `RampSignal.value_at`
  unfoldable pub ramp_at : Float → Float → Float → Float → Float
  ramp_at start to over t =
      if le t (whole 0)
      then start
      else if le over t
      then to
      else add start (mul (sub to start) (div t over))

  -- `SineSignal.value_at`
  unfoldable pub sine_at : Float → Float → Float → Float → Float → Float
  sine_at centre amplitude period phase t =
      add centre (mul amplitude (sin (add (div (mul (mul (whole 2) pi) t) period) phase)))

  -- `SteppedSignal.value_at`
  unfoldable pub stepped_at : List Float → Float → Float → Result Float
  stepped_at values interval t = do
    step ← if lt (whole 0) t then trunc (floor_div t interval) else ok (pos 0)
    or_raise (get_elem? values (mod_ℕ step (length values))) index_error

  abbrev pub last_value : List (Float × Float) → Option Float
  last_value [] = none
  last_value ((value, duration) ∷ []) = some value
  last_value (step ∷ next ∷ rest) = last_value (next ∷ rest)

  -- the loop of `SequenceSignal.value_at`
  unfoldable pub sequence_from : Float → List (Float × Float) → Float → Option Float
  sequence_from elapsed [] t = none
  sequence_from elapsed ((value, duration) ∷ rest) t =
      let rest_value = sequence_from (add elapsed duration) rest t in
      if lt t (add elapsed duration) then some value else rest_value

  -- `SequenceSignal.value_at`
  unfoldable pub sequence_at : List (Float × Float) → Float → Result Float
  sequence_at steps t = elim (sequence_from (whole 0) steps t) [
    | some value ↦ ok value
    | none ↦ or_raise (last_value steps) index_error
  ]

  -- the loop of `TimelineSignal.value_at`
  unfoldable pub timeline_from : Float → List (Float × Float) → Float → Float
  timeline_from current [] t = current
  timeline_from current ((at, value) ∷ rest) t =
      let later = timeline_from value rest t in if lt t at then current else later

  -- `TimelineSignal.value_at`
  unfoldable pub timeline_at : List (Float × Float) → Float → Result Float
  timeline_at [] t = err index_error
  timeline_at ((at, value) ∷ rest) t = ok (timeline_from value ((at, value) ∷ rest) t)

  -- `value_at` of the six generators
  unfoldable pub value_at : Generator → Float → Result Float
  value_at (constant value) t = ok value
  value_at (ramp start to over) t = ok (ramp_at start to over t)
  value_at (sine centre amplitude period phase) t = ok (sine_at centre amplitude period phase t)
  value_at (stepped values interval) t = stepped_at values interval t
  value_at (sequence steps) t = sequence_at steps t
  value_at (timeline points) t = timeline_at points t

  pub record Signal : Type 0 where
    pub path : String
    pub generator : Generator

  -- `TimelineSignal.points_ascend`
  unfoldable pub points_ascend : List (Float × Float) → Bool
  points_ascend [] = true
  points_ascend (point ∷ []) = true
  points_ascend (point ∷ next ∷ rest) = not (lt next.0 point.0) && points_ascend (next ∷ rest)
