-- ===== src/Vehicle/Signals.antt =====
-- src/ecu_simulator/vehicle/signals.py: dotted paths.
use Prim.Native.Char.{code}
use ecu_simulator.Prelude.{
  String, Bool, true, false, ◌||◌, Option, none, some, ◌==◌, if◌then◌else◌, Error, unknown_signal,
  Result, ok, err,
}

-- `path.partition(".")`: what stands before the first dot, and behind it if there is one
unfoldable pub partition : String → String × Option String
partition String.[] = (String.[], none)
partition (String.◌∷◌ c rest) =
    let (before, after) = partition rest in
    if code c == b'.' then (String.[], some rest) else (String.◌∷◌ c before, after)

abbrev is_empty : String → Bool
is_empty String.[] = true
is_empty (String.◌∷◌ c rest) = false

-- the test that `split` and the scenario's path validator make
unfoldable pub parts_or_raise : String × Option String → Error → Result (String × String)
parts_or_raise (before, none) e = err e
parts_or_raise (before, some after) e =
    if is_empty before || is_empty after then err e else ok (before, after)

-- `split`
unfoldable pub split : String → Result (String × String)
unfolding partition parts_or_raise
split path = parts_or_raise (partition path) unknown_signal
