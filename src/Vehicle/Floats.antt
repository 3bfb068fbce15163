-- ===== src/Vehicle/Floats.antt =====
-- Python's `float`: the model does not define it. A `Floats` is what the program uses of it.
use ecu_simulator.Prelude.{
  ◌*ℤ◌, ℕ, String, Bool, true, false, ℤ, pos, type_error, Result, ok, err, ◌>>=◌,
}

pub record Floats : Type 1 where
  pub Float : Type 0
  -- the literal `n.0`
  pub whole : ℕ → Float
  -- `float(z)`, an OverflowError for an integer out of range
  pub of_int : ℤ → Result Float
  -- `int(x)`, a ValueError for a NaN and an OverflowError for an infinity
  pub trunc : Float → Result ℤ
  pub add : Float → Float → Float
  pub sub : Float → Float → Float
  pub mul : Float → Float → Float
  -- by a divisor that is not zero: the program divides by literals and positive durations only
  pub div : Float → Float → Float
  -- `x // y` and `int(x // y)` meet a positive divisor only
  pub floor_div : Float → Float → Float
  pub lt : Float → Float → Bool
  pub le : Float → Float → Bool
  -- `math.sin`, and `math.pi`
  pub sin : Float → Float
  pub pi : Float

module _ ⦃F : Floats⦄ where
  open F use {Float, whole, of_int, trunc, add, mul, div}

  -- What a signal may hold.
  pub data Value : Type 0 where
    int : ℤ → Value
    float : Float → Value
    bool : Bool → Value
    text : String → Value

  abbrev pub of_bool : Bool → ℤ
  of_bool true = pos 1
  of_bool false = pos 0

  -- `int(value)`. The annotations of the signals keep texts out of numeric ones: a text is a
  -- TypeError here, also where Python would read digits from it.
  unfoldable pub to_int : Value → Result ℤ
  to_int (int z) = ok z
  to_int (float x) = trunc x
  to_int (bool b) = ok (of_bool b)
  to_int (text s) = err type_error

  -- the conversion of an operand beside a float
  unfoldable pub to_float : Value → Result Float
  to_float (int z) = of_int z
  to_float (float x) = ok x
  to_float (bool b) = of_int (of_bool b)
  to_float (text s) = err type_error

  -- `value * n.0`, `value + n.0`
  unfoldable pub times : Value → ℕ → Result Float
  unfolding to_float
  times v n = do x ← to_float v; ok (mul x (whole n))

  unfoldable pub plus : Value → ℕ → Result Float
  unfolding to_float
  plus v n = do x ← to_float v; ok (add x (whole n))

  -- `value * 4` keeps an integer an integer
  unfoldable pub times_int : Value → ℕ → Result Value
  unfolding ◌*ℤ◌
  times_int (int z) n = ok (int (z *ℤ pos n))
  times_int (float x) n = ok (float (mul x (whole n)))
  times_int (bool b) n = ok (int (of_bool b *ℤ pos n))
  times_int (text s) n = err type_error
