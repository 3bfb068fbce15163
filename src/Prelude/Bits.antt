-- ===== src/Prelude/Bits.antt =====
-- Single bits of `|` and `>>`: the native `bit_or` at variables, and checks of all
-- values below a bound.
use Prim.Native.Nat.{
  ℕ, zero, suc, ◌+◌, ◌*◌, ◌/◌, ◌%◌, ◌^◌, ◌≤◌, ◌<◌, max, bit_or, digits, bit_or-bitwise,
}
use mathlib.Core.Path.{◌≡◌, refl, ap}
use mathlib.Core.Bool.{Bool, true, ◌&&◌}
use native.Mathlib.Omega.{arith}
use native.Mathlib.Nat.{two-pow-succ}

-- Bit `i` of a number, the lowest first.
abbrev pub bit : ℕ → ℕ → ℕ
bit zero a = a % 2
bit (suc i) a = bit i (a / 2)

abbrev or_digits : ℕ → ℕ → ℕ → ℕ
or_digits n a b = digits (λ b. b) max n a b

-- Fuel beyond the first number changes nothing.
or_digits_fuel : (x fuel more y : ℕ) → x ≤ fuel → x ≤ more → or_digits fuel x y ≡ or_digits more x y
or_digits_fuel zero zero zero y f g = refl
or_digits_fuel zero zero (suc more) y f g = refl
or_digits_fuel zero (suc fuel) zero y f g = refl
or_digits_fuel zero (suc fuel) (suc more) y f g = refl
or_digits_fuel (suc x) zero more y f g = absurd (omega arith)
or_digits_fuel (suc x) (suc fuel) zero y f g = absurd (omega arith)
or_digits_fuel (suc x) (suc fuel) (suc more) y f g =
    let half = suc x / 2 in
    omega (arith, or_digits_fuel half fuel more (y / 2) (omega arith) (omega arith))

zero-bit_or : (y : ℕ) → bit_or 0 y ≡ y
zero-bit_or y = bit_or-bitwise 0 y

-- The lowest digit of `x | y`, and the rest.
bit_or_step : (x y : ℕ) → bit_or x y ≡ bit_or (x / 2) (y / 2) * 2 + max (x % 2) (y % 2)
bit_or_step zero y = omega (arith, zero-bit_or (y / 2), zero-bit_or y)
bit_or_step (suc x) y =
    let half = suc x / 2 in
    let enough = or_digits_fuel half x half (y / 2) (omega arith) (omega arith) in
    omega (arith, enough, bit_or-bitwise half (y / 2), bit_or-bitwise (suc x) y)

halves : (a b : ℕ) → bit_or a b / 2 ≡ bit_or (a / 2) (b / 2)
halves a b = omega (arith, bit_or_step a b)

pub bit-bit_or : (i a b : ℕ) → bit i (bit_or a b) ≡ max (bit i a) (bit i b)
bit-bit_or zero a b = omega (arith, bit_or_step a b)
bit-bit_or (suc i) a b = rw (halves a b) (bit-bit_or i (a / 2) (b / 2))

pub bit-lt-two : (i a : ℕ) → bit i a < 2
bit-lt-two zero a = omega arith
bit-lt-two (suc i) a = bit-lt-two i (a / 2)

pub bit-zero : (i : ℕ) → bit i 0 ≡ 0
bit-zero zero = refl
bit-zero (suc i) = bit-zero i

pub bit_or-lt : (n a b : ℕ) → a < 2 ^ n → b < 2 ^ n → bit_or a b < 2 ^ n
bit_or-lt zero zero b p q = omega (arith, zero-bit_or b)
bit_or-lt zero (suc a) b p q = absurd (omega arith)
bit_or-lt (suc n) a b p q =
    let twice : 2 ^ suc n ≡ 2 ^ n + 2 ^ n = two-pow-succ n in
    omega (
      arith,
      bit_or_step a b,
      twice,
      bit_or-lt n (a / 2) (b / 2) (omega (arith, twice)) (omega (arith, twice)),
    )

or_nothing_fuel : (x fuel : ℕ) → x ≤ fuel → bit_or x 0 ≡ x
or_nothing_fuel zero fuel f = zero-bit_or 0
or_nothing_fuel (suc x) zero f = absurd (omega arith)
or_nothing_fuel (suc x) (suc fuel) f =
    omega (arith, or_nothing_fuel (suc x / 2) fuel (omega arith), bit_or_step (suc x) 0)

-- `(q << k) | r` for a field of `k` bits
pub bit_or-field : (k q r : ℕ) → r < 2 ^ k → bit_or (q * 2 ^ k) r ≡ q * 2 ^ k + r
bit_or-field zero q r h =
    let e : r ≡ 0 = omega arith in
    rw e (omega (arith, or_nothing_fuel (q * 1) (q * 1) (omega arith)))
bit_or-field (suc k) q r h =
    let twice : 2 ^ suc k ≡ 2 ^ k + 2 ^ k = two-pow-succ k in
    let shifted : q * 2 ^ suc k ≡ 2 * (q * 2 ^ k) = rw twice (omega arith) in
    let halved : 2 * (q * 2 ^ k) / 2 ≡ q * 2 ^ k = omega arith in
    rw shifted (
      omega (
        arith,
        bit_or_step (2 * (q * 2 ^ k)) r,
        ap (λ (x : ℕ). bit_or x (r / 2)) halved,
        bit_or-field k q (r / 2) (omega (arith, twice)),
      ))

-- A test of every number below a bound, run when a proof is checked.
unfoldable pub all_below : ℕ → (ℕ → Bool) → Bool
all_below zero test = true
all_below (suc bound) test = all_below bound test && test bound

pub all_below_sound :
    (bound : ℕ) (test : ℕ → Bool) (n : ℕ) → all_below bound test ≡ true → n < bound → test n ≡ true
unfolding all_below
all_below_sound zero test n passed small = absurd (omega arith)
all_below_sound (suc bound) test n passed small = ground (arith, all_below_sound bound test n)
