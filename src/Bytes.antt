-- ===== src/Bytes.antt =====
-- Python's `bytes`: lists of numbers, `int.to_bytes(n, "big")`, `int.from_bytes(_, "big")`.
pub mod Laws
use mathlib.Core.List.{foldl}
use Prim.Native.Char.{code}
use Prim.Native.String
use ecu_simulator.Prelude.{
  ℕ, zero, suc, ◌+◌, ◌-◌, ◌*◌, ◌/◌, ◌%◌, ◌^◌, ◌≤◌, ◌<◌, bit_and, bit_or, String, ◌≡◌, refl, sym, ap,
  ◌∙◌, ◌≢◌, ◌↔◌, ◌⊎◌, inl, inr, Bool, true, false, not, ◌&&◌, ◌||◌, Option, none, some, List, [],
  ◌∷◌, ◌++◌, map, arith, str_eq, eq_iff, ltb, leb, ◌==◌, if◌then◌else◌, ltb→lt, lt→ltb, leb→le,
  le→leb, ==_iff, Bool-cases, Option-cases, Result-cases, ok-injective, &&-true, length, get_elem?,
  take, drop, replicate, any, all, select, All, length-append, length-take, length-replicate,
  length-map, All-append, contains, ℤ, pos, negsuc, clamp, ◌+ℤ◌, ◌*ℤ◌, sub_ℕ, ltb_ℤ, Error,
  value_error, key_error, type_error, overflow_error, index_error, traverse, not_implemented,
  unknown_signal, service_conflict, route_conflict, provider_conflict, Result, ok, err, ◌>>=◌, ◌>>◌,
  raise_if, or_raise, >>=-eq-ok,
}

abbrev pub Bytes : Type 0
Bytes = List ℕ

abbrev pub AreBytes : Bytes → Type 0
AreBytes = All (λ b. b < 256)

-- the `n` low bytes, most significant first
unfoldable pub big_endian : ℕ → ℕ → Bytes
big_endian zero v = []
big_endian (suc n) v = (v / 256 ^ n % 256) ∷ big_endian n v

-- `bytes(n)`, and `text.encode()` in UTF-8
abbrev pub zeros : ℕ → Bytes
zeros n = replicate n 0

unfoldable pub utf8_char : ℕ → Bytes
utf8_char c =
    if ltb c 0x80
    then c ∷ []
    else if ltb c 0x800
    then (0xC0 + c / 64) ∷ (0x80 + c % 64) ∷ []
    else if ltb c 0x10000
    then (0xE0 + c / 4096) ∷ (0x80 + c / 64 % 64) ∷ (0x80 + c % 64) ∷ []
    else (0xF0 + c / 262144) ∷ (0x80 + c / 4096 % 64) ∷ (0x80 + c / 64 % 64) ∷ (0x80 + c % 64) ∷ []

unfoldable pub utf8 : String → Bytes
unfolding utf8_char
utf8 String.[] = []
utf8 (String.◌∷◌ c rest) = utf8_char (code c) ++ utf8 rest

-- `v.to_bytes(n, "big")`
unfoldable pub to_bytes : ℕ → ℕ → Result Bytes
to_bytes n v = if ltb v (256 ^ n) then ok (big_endian n v) else err overflow_error

-- `int.from_bytes(bs, "big")`
unfoldable pub from_bytes : Bytes → ℕ
from_bytes = foldl (λ acc b. acc * 256 + b) 0
