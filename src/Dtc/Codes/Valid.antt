-- ===== src/Dtc/Codes/Valid.antt =====
-- The numbers of the codes that `is_valid` accepts.
use ecu_simulator.Prelude.{
  ℕ, ◌<◌, String, ◌≡◌, refl, true, Option, none, some, List, [], ◌∷◌, arith, &&-true, ok,
}
use ecu_simulator.Dtc.Codes.{
  codes, is_some, group_bits, type_bits, unicode_zeros, unicode_digit, decimal_from, hex_value,
  is_hex_digit, valid_characters, is_valid, number_of, code_number, encodable_characters,
  is_encodable_dtc,
}
use ecu_simulator.Dtc.Codes.Numbers.{packed, number_of_values, group_char, type_char, hex_char}

decimal_from-lt : (zs : List ℕ) (c v : ℕ) → decimal_from zs c ≡ some v → v < 16
unfolding decimal_from
decimal_from-lt [] c v e = cc
decimal_from-lt (z ∷ zs) c v e = ground (arith, decimal_from-lt zs c v)

abbrev Valued : ℕ → Option ℕ → Type 0
Valued bound o = (v : ℕ) × (o ≡ some v) × (v < bound)

unicode_digit-lt : (c v : ℕ) → unicode_digit c ≡ some v → v < 16
unicode_digit-lt c v e = decimal_from-lt unicode_zeros c v (unfold unicode_digit in e)

hex_value-lt : (c v : ℕ) → hex_value c ≡ some v → v < 16
unfolding hex_value
hex_value-lt c v e = ground (arith, unicode_digit-lt c v)

group_bits-lt : (c v : ℕ) → group_bits c ≡ some v → v < 4
unfolding group_bits
group_bits-lt c v e = ground arith

type_bits-lt : (c v : ℕ) → type_bits c ≡ some v → v < 4
unfolding type_bits
type_bits-lt c v e = ground arith

some_value {ℓ} : {A : Type ℓ} (o : Option A) → is_some o ≡ true → (a : A) × (o ≡ some a)
some_value none h = cc
some_value (some a) h = (a, refl)

-- A text that `is_valid` accepts has a number below 2 ^ 16.
pub number_of-valid :
    (cs : List ℕ) → valid_characters cs ≡ true → (n : ℕ) × (number_of cs ≡ ok n) × (n < 65536)
unfolding valid_characters is_hex_digit
number_of-valid (a ∷ b ∷ c ∷ d ∷ e ∷ []) h =
    let (front, digits) = &&-true _ _ h in
    let (letter, kind) = &&-true _ _ front in
    let (hc, more) = &&-true _ _ digits in
    let (hd, last) = &&-true _ _ more in
    let (he, _) = &&-true _ _ last in
    let (g, vg) = some_value (group_bits a) letter in
    let (t, vt) = some_value (type_bits b) kind in
    let (x, vx) = some_value (hex_value c) hc in
    let (y, vy) = some_value (hex_value d) hd in
    let (z, vz) = some_value (hex_value e) he in
    let lg = group_bits-lt a g vg in
    let lt = type_bits-lt b t vt in
    let lx = hex_value-lt c x vx in
    let ly = hex_value-lt d y vy in
    let lz = hex_value-lt e z vz in
    (packed g t x y z, number_of_values a b c d e g t x y z vg vt vx vy vz lt lx ly lz, omega arith)
number_of-valid _ h = cc

-- Every code that `is_valid` accepts has a number, and it is below 2 ^ 16.
pub code_number-valid :
    (code : String) → is_valid code ≡ true → (n : ℕ) × (code_number code ≡ ok n) × (n < 65536)
unfolding is_valid code_number
code_number-valid code h = number_of-valid (codes code) h

encodable_characters-valid :
    (cs : List ℕ) → encodable_characters cs ≡ true → valid_characters cs ≡ true
unfolding encodable_characters valid_characters is_hex_digit
encodable_characters-valid (a ∷ b ∷ c ∷ d ∷ e ∷ []) h =
    let (front, digits) = &&-true _ _ h in
    let (letter, kind) = &&-true _ _ front in
    let (hc, more) = &&-true _ _ digits in
    let (hd, last) = &&-true _ _ more in
    let (he, _) = &&-true _ _ last in
    let (_, vg, _, _) = group_char a letter in
    rw (vg, (type_char b kind).0, (hex_char c hc).0, (hex_char d hd).0, (hex_char e he).0)
encodable_characters-valid _ h = cc

-- What the profile schema accepts, the encoders accept.
pub encodable-valid : (code : String) → is_encodable_dtc code ≡ true → is_valid code ≡ true
unfolding is_encodable_dtc is_valid
encodable-valid code h = encodable_characters-valid (codes code) h
