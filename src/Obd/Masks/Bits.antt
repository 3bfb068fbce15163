-- ===== src/Obd/Masks/Bits.antt =====
-- What each bit of a mask says, and the size of a mask.
use ecu_simulator.Prelude.{
  ℕ, zero, suc, ◌+◌, ◌-◌, ◌/◌, ◌^◌, ◌<◌, ◌≡◌, refl, Bool, true, ◌&&◌, List, [], ◌∷◌, arith, ltb,
  ◌==◌, if◌then◌else◌, lt→ltb, ==_iff, length, any, contains, ok,
}
use ecu_simulator.Prelude.Bits.{bit, bit-bit_or, bit-zero, bit_or-lt, all_below, all_below_sound}
use ecu_simulator.Bytes.{Bytes, AreBytes, big_endian, from_bytes}
use ecu_simulator.Bytes.Laws.{length-big_endian, big_endian-AreBytes, from_bytes-four}
use Prim.Native.Nat.{max}
use ecu_simulator.Obd.Masks.{
  has_supported_above, mask_pid, mask_or, mask_value, supported_mask, first_bit_mask,
  last_range_base,
}

-- bit `j` of `FIRST_BIT_MASK >> k`
abbrev shifted_bit : ℕ → ℕ → Bool
shifted_bit j k = bit j (first_bit_mask / 2 ^ k) == (if j + k == 31 then 1 else 0)

shifted_row : ℕ → Bool
unfolding all_below
shifted_row j = all_below 31 (shifted_bit j)

shifted_table : all_below 32 shifted_row ≡ true
unfolding all_below shifted_row
shifted_table = refl

bit-shifted :
    (j k : ℕ) → j < 32 → k < 31 → bit j (first_bit_mask / 2 ^ k) ≡ (if j + k == 31 then 1 else 0)
bit-shifted j k p q = (==_iff _ _).0 (
    all_below_sound 31 (shifted_bit j) k (row (all_below_sound 32 shifted_row j shifted_table p)) q)
  where
    row : shifted_row j ≡ true → all_below 31 (shifted_bit j) ≡ true
    row h = unfold shifted_row in h

-- What one parameter adds to bit `j` of the mask.
bit-mask_pid :
    (base pid mask j : ℕ)
    → j < 32
    → bit j (mask_pid base pid mask)
      ≡ max
          (bit j mask)
          (if ltb base pid && ltb pid (base + 32) && (pid + j == base + 32) then 1 else 0)
unfolding mask_pid
bit-mask_pid base pid mask j h = ground (
  arith,
  bit-bit_or j mask (first_bit_mask / 2 ^ (pid - base - 1)),
  bit-shifted j (pid - base - 1) h,
)

bit-mask_or :
    (base o j : ℕ) (supported : List ℕ) (mask : ℕ)
    → j + o ≡ 32
    → 0 < o
    → 0 < j
    → bit j (mask_or base supported mask)
      ≡ max (bit j mask) (if contains (base + o) supported then 1 else 0)
unfolding mask_or
bit-mask_or base o j [] mask e p q = ground arith
bit-mask_or base o j (pid ∷ rest) mask e p q = ground (
  arith,
  bit-mask_or base o j rest (mask_pid base pid mask) e p q,
  bit-mask_pid base pid mask j (omega arith),
)

bit-mask_or_low :
    (base : ℕ) (supported : List ℕ) (mask : ℕ) → bit 0 (mask_or base supported mask) ≡ bit 0 mask
unfolding mask_or
bit-mask_or_low base [] mask = refl
bit-mask_or_low base (pid ∷ rest) mask = ground (
  arith,
  bit-mask_or_low base rest (mask_pid base pid mask),
  bit-mask_pid base pid mask 0 (omega arith),
)

shifted-le : (k : ℕ) → first_bit_mask / 2 ^ k < 2 ^ 32
shifted-le k = omega arith

mask_pid-lt : (base pid mask : ℕ) → mask < 2 ^ 32 → mask_pid base pid mask < 2 ^ 32
unfolding mask_pid
mask_pid-lt base pid mask h = ground (
  arith,
  bit_or-lt 32 mask (first_bit_mask / 2 ^ (pid - base - 1)) h,
  shifted-le (pid - base - 1),
)

mask_or-lt :
    (base : ℕ) (supported : List ℕ) (mask : ℕ)
    → mask < 2 ^ 32
    → mask_or base supported mask < 2 ^ 32
unfolding mask_or
mask_or-lt base [] mask h = h
mask_or-lt base (pid ∷ rest) mask h =
    mask_or-lt base rest (mask_pid base pid mask) (mask_pid-lt base pid mask h)

-- What a tester may read off the four bytes of a mask: bit 32 - o says whether identifier
-- base + o is supported, and the lowest bit whether the next range is worth asking for.
pub record IsMask (base : ℕ) (supported : List ℕ) (mask : Bytes) : Type 0 where
  pub four : length mask ≡ 4
  pub bytes : AreBytes mask
  pub member :
      (o j : ℕ)
      → j + o ≡ 32
      → 0 < o
      → 0 < j
      → bit j (from_bytes mask) ≡ (if contains (base + o) supported then 1 else 0)
  pub continues :
      bit 0 (from_bytes mask)
      ≡ (if ltb base last_range_base && has_supported_above base supported then 1 else 0)

abbrev first_bit : ℕ → List ℕ → ℕ
first_bit base supported =
    if ltb base last_range_base && has_supported_above base supported then 1 else 0

first_bit_high : (j base : ℕ) (supported : List ℕ) → bit (suc j) (first_bit base supported) ≡ 0
first_bit_high j base supported = ground (arith, bit-zero j)

mask_value-lt : (base : ℕ) (supported : List ℕ) → mask_value base supported < 2 ^ 32
unfolding mask_value
mask_value-lt base supported = mask_or-lt base supported (first_bit base supported) (ground arith)

member_bit :
    (base : ℕ) (supported : List ℕ) (o j : ℕ)
    → j + o ≡ 32
    → 0 < o
    → 0 < j
    → bit j (mask_value base supported) ≡ (if contains (base + o) supported then 1 else 0)
unfolding mask_value
member_bit base supported o zero e p q = elim q [ ]
member_bit base supported o (suc j) e p q = ground (
  arith,
  bit-mask_or base o (suc j) supported (first_bit base supported) e p q,
  first_bit_high j base supported,
)

low_bit :
    (base : ℕ) (supported : List ℕ) → bit 0 (mask_value base supported) ≡ first_bit base supported
unfolding mask_value
low_bit base supported = ground (arith, bit-mask_or_low base supported (first_bit base supported))

-- Whatever is supported, the mask of a range is produced, has four bytes, and each of its bits
-- is right.
pub supported_mask-IsMask :
    (base : ℕ) (supported : List ℕ)
    → (mask : Bytes) × (supported_mask base supported ≡ ok mask) × IsMask base supported mask
unfolding supported_mask
supported_mask-IsMask base supported = (big_endian 4 v, rw fits, holds)
  where
    v : ℕ
    v = mask_value base supported

    fits : ltb v 4294967296 ≡ true
    fits = lt→ltb v 4294967296 (mask_value-lt base supported)

    back : from_bytes (big_endian 4 v) ≡ v
    back = from_bytes-four v (mask_value-lt base supported)

    holds : IsMask base supported (big_endian 4 v)
    holds = record {
      four = length-big_endian 4 v;
      bytes = big_endian-AreBytes 4 v;
      member = λ o j e p q. rw back (member_bit base supported o j e p q);
      continues = rw back (low_bit base supported);
    }

-- Every mask is produced: it has four bytes, each a byte.
pub supported_mask_total :
    (base : ℕ) (supported : List ℕ)
    → (mask : Bytes) × (supported_mask base supported ≡ ok mask) × (length mask ≡ 4) × AreBytes mask
supported_mask_total base supported =
    let (mask, e, holds) = supported_mask-IsMask base supported in
    (mask, e, holds.four, holds.bytes)

-- Of the four bytes of a mask as one number, bit 32 - o says whether identifier base + o is
-- supported, for o from 1 to 31, and bit 0 whether the base is below 0xE0 and some supported
-- identifier lies beyond base + 32.
pub supported_mask-bit :
    (base o j : ℕ) (supported : List ℕ) (mask : Bytes)
    → supported_mask base supported ≡ ok mask
    → j + o ≡ 32
    → 0 < o
    → 0 < j
    → (bit j (from_bytes mask) ≡ (if contains (base + o) supported then 1 else 0))
      × (bit 0 (from_bytes mask) ≡ (
          if ltb base last_range_base && any (λ pid. ltb (base + 32) pid) supported then 1 else 0))
unfolding has_supported_above
supported_mask-bit base o j supported mask e sums p q =
    let (m, e', holds) = supported_mask-IsMask base supported in
    let same : m ≡ mask = cc in
    (rw (← same) (holds.member o j sums p q), rw (← same) holds.continues)
