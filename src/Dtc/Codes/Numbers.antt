-- ===== src/Dtc/Codes/Numbers.antt =====
-- The numbers of the codes that a profile may name, and back.
use ecu_simulator.Prelude.{
  ℕ, ◌+◌, ◌-◌, ◌*◌, ◌/◌, ◌%◌, ◌^◌, ◌≤◌, ◌<◌, bit_or, ◌≡◌, refl, ap, ◌∙◌, ◌⊎◌, true, some, List, [],
  ◌∷◌, arith, ltb, leb, ◌==◌, if◌then◌else◌, &&-true, contains, ok,
}
use ecu_simulator.Prelude.Bits.{bit_or-field, all_below, all_below_sound}
use ecu_simulator.Dtc.Codes.{
  group_bits, type_bits, hex_value, is_schema_hex, number_of, encodable_characters,
}

-- The text of a number, read off its bit fields.
abbrev pub group_letter : ℕ → ℕ
group_letter g = if g == 0 then b'P' else if g == 1 then b'C' else if g == 2 then b'B' else b'U'

abbrev pub upper_hex : ℕ → ℕ
upper_hex v = if ltb v 10 then b'0' + v else b'A' + (v - 10)

pub code_text : ℕ → List ℕ
code_text n =
    group_letter (n / 16384)
    ∷ (b'0' + n / 4096 % 4)
    ∷ upper_hex (n / 256 % 16)
    ∷ upper_hex (n / 16 % 16)
    ∷ upper_hex (n % 16)
    ∷ []

-- The five fields in one number.
abbrev pub packed : ℕ → ℕ → ℕ → ℕ → ℕ → ℕ
packed g t h d e = ((g * 4 + t) * 16 + h) * 256 + (d * 16 + e)

high_byte :
    (g t h : ℕ) → t < 4 → h < 16 → bit_or (bit_or (g * 2 ^ 6) (t * 2 ^ 4)) h ≡ (g * 4 + t) * 16 + h
high_byte g t h p q =
    let regroup : g * 2 ^ 6 + t * 2 ^ 4 ≡ (g * 4 + t) * 2 ^ 4 = omega arith in
    rw (bit_or-field 6 g (t * 2 ^ 4) (omega arith), regroup) (bit_or-field 4 (g * 4 + t) h q)

pub number_of_values :
    (a b c d e : ℕ) (g t x y z : ℕ)
    → group_bits a ≡ some g
    → type_bits b ≡ some t
    → hex_value c ≡ some x
    → hex_value d ≡ some y
    → hex_value e ≡ some z
    → t < 4
    → x < 16
    → y < 16
    → z < 16
    → number_of (a ∷ b ∷ c ∷ d ∷ e ∷ []) ≡ ok (packed g t x y z)
unfolding number_of
number_of_values a b c d e g t x y z pa pb pc pd pe ht hx hy hz =
    rw (pa, pb, pc, pd, pe)
      (ap ok (
        rw (high_byte g t x ht hx)
          (bit_or-field 8 ((g * 4 + t) * 16 + x) (y * 16 + z) (omega arith))))

pub group_char :
    (a : ℕ)
    → contains a (b'P' ∷ b'C' ∷ b'B' ∷ b'U' ∷ []) ≡ true
    → (g : ℕ) × (group_bits a ≡ some g) × (g < 4) × (group_letter g ≡ a)
unfolding group_bits
group_char a h = (
  if a == b'P' then 0 else if a == b'C' then 1 else if a == b'B' then 2 else 3,
  ground arith,
  ground arith,
  ground arith,
)

pub type_char :
    (b : ℕ)
    → contains b (b'0' ∷ b'1' ∷ b'2' ∷ b'3' ∷ []) ≡ true
    → (type_bits b ≡ some (b - b'0')) × (b - b'0' < 4) × (b'0' + (b - b'0') ≡ b)
unfolding type_bits
type_char b h = ground arith

abbrev schema_value : ℕ → ℕ
schema_value c = if leb c b'9' then c - b'0' else c - b'A' + 10

schema_range :
    (c : ℕ) → is_schema_hex c ≡ true → ((b'0' ≤ c) × (c ≤ b'9')) ⊎ ((b'A' ≤ c) × (c ≤ b'F'))
unfolding is_schema_hex
schema_range c h = ground arith

pub hex_char :
    (c : ℕ)
    → is_schema_hex c ≡ true
    → (hex_value c ≡ some (schema_value c))
      × (schema_value c < 16)
      × (upper_hex (schema_value c) ≡ c)
unfolding hex_value
hex_char c h = ground (arith, schema_range c h)

packed_text :
    (g t x y z : ℕ)
    → g < 4
    → t < 4
    → x < 16
    → y < 16
    → z < 16
    → (packed g t x y z < 65536)
      × (code_text (packed g t x y z)
          ≡ group_letter g ∷ (b'0' + t) ∷ upper_hex x ∷ upper_hex y ∷ upper_hex z ∷ [])
unfolding code_text
packed_text g t x y z hg ht hx hy hz =
    let eg : packed g t x y z / 16384 ≡ g = omega arith in
    let et : packed g t x y z / 4096 % 4 ≡ t = omega arith in
    let ex : packed g t x y z / 256 % 16 ≡ x = omega arith in
    let ey : packed g t x y z / 16 % 16 ≡ y = omega arith in
    let ez : packed g t x y z % 16 ≡ z = omega arith in (omega arith, rw (eg, et, ex, ey, ez))

abbrev Numbered : List ℕ → Type 0
Numbered cs = (n : ℕ) × (number_of cs ≡ ok n) × (n < 65536) × (code_text n ≡ cs)

numbered :
    (a b c d e : ℕ)
    → contains a (b'P' ∷ b'C' ∷ b'B' ∷ b'U' ∷ []) ≡ true
    → contains b (b'0' ∷ b'1' ∷ b'2' ∷ b'3' ∷ []) ≡ true
    → is_schema_hex c ≡ true
    → is_schema_hex d ≡ true
    → is_schema_hex e ≡ true
    → Numbered (a ∷ b ∷ c ∷ d ∷ e ∷ [])
numbered a b c d e ha hb hc hd he =
    let (g, group, small, letter) = group_char a ha in
    let (kind, below, digit) = type_char b hb in
    let (vc, lc, tc) = hex_char c hc in
    let (vd, ld, td) = hex_char d hd in
    let (ve, le, te) = hex_char e he in
    let (fits, text) =
      packed_text g (b - b'0') (schema_value c) (schema_value d) (schema_value e) small below lc ld
        le in
    (
      packed g (b - b'0') (schema_value c) (schema_value d) (schema_value e),
      number_of_values a b c d e _ _ _ _ _ group kind vc vd ve below lc ld le,
      fits,
      cc (text, letter, digit, tc, td, te),
    )

-- The characters of an encodable code have a number below 2 ^ 16, and are the text of it.
pub number_of-encodable : (cs : List ℕ) → encodable_characters cs ≡ true → Numbered cs
unfolding encodable_characters
number_of-encodable (a ∷ b ∷ c ∷ d ∷ e ∷ []) h =
    let (head, digits) = &&-true _ _ h in
    let (letter, kind) = &&-true _ _ head in
    let (hc, more) = &&-true _ _ digits in
    let (hd, last) = &&-true _ _ more in
    let (he, _) = &&-true _ _ last in numbered a b c d e letter kind hc hd he
number_of-encodable _ h = cc

letters :
    (g : ℕ)
    → g < 4
    → (contains (group_letter g) (b'P' ∷ b'C' ∷ b'B' ∷ b'U' ∷ []) ≡ true)
      × (group_bits (group_letter g) ≡ some g)
unfolding group_bits
letters g h = ground arith

digits :
    (t : ℕ)
    → t < 4
    → (contains (b'0' + t) (b'0' ∷ b'1' ∷ b'2' ∷ b'3' ∷ []) ≡ true)
      × (type_bits (b'0' + t) ≡ some t)
unfolding type_bits
digits t h = ground arith

schema_table : all_below 16 (λ v. is_schema_hex (upper_hex v)) ≡ true
unfolding all_below is_schema_hex
schema_table = refl

hex_digits :
    (v : ℕ) → v < 16 → (is_schema_hex (upper_hex v) ≡ true) × (hex_value (upper_hex v) ≡ some v)
unfolding hex_value
hex_digits v h =
    (all_below_sound 16 (λ x. is_schema_hex (upper_hex x)) v schema_table h, ground arith)

packed_fields :
    (n : ℕ) → packed (n / 16384) (n / 4096 % 4) (n / 256 % 16) (n / 16 % 16) (n % 16) ≡ n
packed_fields n = omega arith

-- Every number below 2 ^ 16 is the number of an encodable text.
pub number_of-code_text :
    (n : ℕ)
    → n < 65536
    → (encodable_characters (code_text n) ≡ true) × (number_of (code_text n) ≡ ok n)
unfolding code_text encodable_characters
number_of-code_text n h =
    let (el, vl) = letters (n / 16384) (omega arith) in
    let (et, vt) = digits (n / 4096 % 4) (omega arith) in
    let (ex, vx) = hex_digits (n / 256 % 16) (omega arith) in
    let (ey, vy) = hex_digits (n / 16 % 16) (omega arith) in
    let (ez, vz) = hex_digits (n % 16) (omega arith) in
    (
      rw (el, et, ex, ey, ez),
      number_of_values _ _ _ _ _ _ _ _ _ _ vl vt vx vy vz (omega arith) (omega arith) (omega arith)
            (omega arith)
          ∙ ap ok (packed_fields n),
    )

-- Two encodable codes with one number have the same characters.
pub number_of-injective :
    (cs ds : List ℕ)
    → encodable_characters cs ≡ true
    → encodable_characters ds ≡ true
    → number_of cs ≡ number_of ds
    → cs ≡ ds
number_of-injective cs ds hc hd same =
    let (n, en, _, tn) = number_of-encodable cs hc in
    let (m, em, _, tm) = number_of-encodable ds hd in cc (en, tn, em, tm, same)
