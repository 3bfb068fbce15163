-- ===== src/Dtc/Codes.antt =====
-- src/ecu_simulator/dtc/codes.py, and the grammar of config/schema.py for the same codes.
pub mod Numbers
pub mod Valid
use Prim.Native.Char.{code}
use Prim.Native.String
use ecu_simulator.Prelude.{
  ℕ, zero, suc, ◌+◌, ◌-◌, ◌*◌, ◌/◌, ◌%◌, ◌^◌, ◌≤◌, ◌<◌, bit_and, bit_or, String, ◌≡◌, refl, sym, ap,
  ◌∙◌, ◌≢◌, ◌↔◌, ◌⊎◌, inl, inr, Bool, true, false, not, ◌&&◌, ◌||◌, Option, none, some, List, [],
  ◌∷◌, ◌++◌, map, arith, str_eq, eq_iff, ltb, leb, ◌==◌, if◌then◌else◌, ltb→lt, lt→ltb, leb→le,
  le→leb, ==_iff, Bool-cases, Option-cases, length, get_elem?, take, drop, replicate, any, all,
  select, All, length-append, length-take, length-replicate, length-map, All-append, contains, ℤ,
  pos, negsuc, clamp, sub_ℕ, ltb_ℤ, Error, value_error, key_error, type_error, overflow_error,
  not_implemented, unknown_signal, service_conflict, route_conflict, provider_conflict, Result, ok,
  err, ◌>>=◌, ◌>>◌, raise_if, or_raise, >>=-eq-ok,
}

-- the code points of a text
abbrev pub codes : String → List ℕ
codes String.[] = []
codes (String.◌∷◌ c s) = code c ∷ codes s

-- `GROUP_BITS`
unfoldable pub group_bits : ℕ → Option ℕ
group_bits c =
    if c == b'P'
    then some 0
    else if c == b'C'
    then some 1
    else if c == b'B'
    then some 2
    else if c == b'U'
    then some 3
    else none

-- `TYPE_BITS`
unfoldable pub type_bits : ℕ → Option ℕ
type_bits c = if leb b'0' c && leb c b'3' then some (c - b'0') else none

-- The code points at which a run of ten decimal digits begins, past ASCII (category Nd of Unicode 15.0):
-- Python's `int` reads those digits too.
unicode_zeros : List ℕ
unicode_zeros =
    0x660 ∷ 0x6f0 ∷ 0x7c0 ∷ 0x966 ∷ 0x9e6 ∷ 0xa66 ∷ 0xae6 ∷ 0xb66 ∷ 0xbe6 ∷ 0xc66 ∷ 0xce6 ∷ 0xd66
    ∷ 0xde6 ∷ 0xe50 ∷ 0xed0 ∷ 0xf20 ∷ 0x1040 ∷ 0x1090 ∷ 0x17e0 ∷ 0x1810 ∷ 0x1946 ∷ 0x19d0 ∷ 0x1a80
    ∷ 0x1a90 ∷ 0x1b50 ∷ 0x1bb0 ∷ 0x1c40 ∷ 0x1c50 ∷ 0xa620 ∷ 0xa8d0 ∷ 0xa900 ∷ 0xa9d0 ∷ 0xa9f0
    ∷ 0xaa50 ∷ 0xabf0 ∷ 0xff10 ∷ 0x104a0 ∷ 0x10d30 ∷ 0x11066 ∷ 0x110f0 ∷ 0x11136 ∷ 0x111d0 ∷ 0x112f0
    ∷ 0x11450 ∷ 0x114d0 ∷ 0x11650 ∷ 0x116c0 ∷ 0x11730 ∷ 0x118e0 ∷ 0x11950 ∷ 0x11c50 ∷ 0x11d50
    ∷ 0x11da0 ∷ 0x16a60 ∷ 0x16ac0 ∷ 0x16b50 ∷ 0x1d7ce ∷ 0x1d7d8 ∷ 0x1d7e2 ∷ 0x1d7ec ∷ 0x1d7f6
    ∷ 0x1e140 ∷ 0x1e2f0 ∷ 0x1e950 ∷ 0x1fbf0 ∷ 0x11f50 ∷ 0x1e4f0 ∷ []

decimal_from : List ℕ → ℕ → Option ℕ
decimal_from [] c = none
decimal_from (z ∷ zs) c = if leb z c && ltb c (z + 10) then some (c - z) else decimal_from zs c

unfoldable pub unicode_digit : ℕ → Option ℕ
unfolding unicode_zeros decimal_from
unicode_digit c = decimal_from unicode_zeros c

-- `int(character, 16)`, `none` for a ValueError
unfoldable pub hex_value : ℕ → Option ℕ
hex_value c =
    if leb b'0' c && leb c b'9'
    then some (c - b'0')
    else if leb b'A' c && leb c b'F'
    then some (c - b'A' + 10)
    else if leb b'a' c && leb c b'f'
    then some (c - b'a' + 10)
    else unicode_digit c

abbrev is_some {ℓ} : {A : Type ℓ} → Option A → Bool
is_some none = false
is_some (some a) = true

-- `_is_hex_digit`
unfoldable pub is_hex_digit : ℕ → Bool
unfolding hex_value unicode_digit
is_hex_digit c = is_some (hex_value c)

-- `len(code) == 5` is the pattern.
unfoldable pub valid_characters : List ℕ → Bool
valid_characters (a ∷ b ∷ c ∷ d ∷ e ∷ []) =
    is_some (group_bits a) && is_some (type_bits b) && all is_hex_digit (c ∷ d ∷ e ∷ [])
valid_characters _ = false

unfoldable pub is_valid : String → Bool
is_valid s = valid_characters (codes s)

-- Its callers have checked `is_valid`: what Python does with a shorter or longer text, or with a
-- sign or a blank among the last two characters, is not modelled, and is an error here.
unfoldable pub number_of : List ℕ → Result ℕ
number_of (a ∷ b ∷ c ∷ d ∷ e ∷ []) = do
  group ← or_raise (group_bits a) key_error
  kind ← or_raise (type_bits b) key_error
  digit ← or_raise (hex_value c) value_error
  tens ← or_raise (hex_value d) value_error
  ones ← or_raise (hex_value e) value_error
  let high = bit_or (bit_or (group * 2 ^ 6) (kind * 2 ^ 4)) digit
  ok (bit_or (high * 2 ^ 8) (tens * 16 + ones))
number_of _ = err value_error

unfoldable pub code_number : String → Result ℕ
code_number s = number_of (codes s)

-- `c in DTC_HEX`
unfoldable pub is_schema_hex : ℕ → Bool
is_schema_hex x = contains x (codes "0123456789ABCDEF")

-- `_is_encodable_dtc` of config/schema.py: upper case ASCII digits only
unfoldable pub encodable_characters : List ℕ → Bool
encodable_characters (a ∷ b ∷ c ∷ d ∷ e ∷ []) =
    contains a (b'P' ∷ b'C' ∷ b'B' ∷ b'U' ∷ [])
    && contains b (b'0' ∷ b'1' ∷ b'2' ∷ b'3' ∷ [])
    && all is_schema_hex (c ∷ d ∷ e ∷ [])
encodable_characters _ = false

unfoldable pub is_encodable_dtc : String → Bool
is_encodable_dtc s = encodable_characters (codes s)
