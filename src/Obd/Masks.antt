-- ===== src/Obd/Masks.antt =====
-- src/ecu_simulator/protocols/obd/masks.py: which parameters and ranges are advertised.
pub mod Bits
pub mod Chain
use ecu_simulator.Prelude.{
  ℕ, zero, suc, ◌+◌, ◌-◌, ◌*◌, ◌/◌, ◌%◌, ◌^◌, Bool, true, false, ◌&&◌, List, [], ◌∷◌, ◌++◌, any,
  all, ltb, leb, ◌==◌, bit_or, Result, if◌then◌else◌,
}
use ecu_simulator.Bytes.{Bytes, to_bytes}

abbrev pub range_size : ℕ
range_size = 32

abbrev pub last_range_base : ℕ
last_range_base = 0xE0

abbrev pub first_bit_mask : ℕ
first_bit_mask = 0x80000000

unfoldable pub is_range_request : ℕ → Bool
is_range_request pid = pid % range_size == 0

-- `range(0x00, k * RANGE_SIZE, RANGE_SIZE)`
pub ranges_below : ℕ → List ℕ
ranges_below zero = []
ranges_below (suc k) = ranges_below k ++ (k * range_size) ∷ []

-- The sets of supported identifiers are lists: only membership is asked of them.
unfoldable pub has_supported_above : ℕ → List ℕ → Bool
has_supported_above base supported = any (λ pid. ltb (base + range_size) pid) supported

-- the body of the loop over `members`
unfoldable pub mask_pid : ℕ → ℕ → ℕ → ℕ
mask_pid base pid mask =
    if ltb base pid && ltb pid (base + range_size)
    then bit_or mask (first_bit_mask / 2 ^ (pid - base - 1))
    else mask

unfoldable pub mask_or : ℕ → List ℕ → ℕ → ℕ
unfolding mask_pid
mask_or base [] mask = mask
mask_or base (pid ∷ rest) mask = mask_or base rest (mask_pid base pid mask)

unfoldable pub mask_value : ℕ → List ℕ → ℕ
unfolding mask_or has_supported_above
mask_value base supported =
    mask_or base supported
      (if ltb base last_range_base && has_supported_above base supported then 1 else 0)

unfoldable pub supported_mask : ℕ → List ℕ → Result Bytes
unfolding mask_value to_bytes
supported_mask base supported = to_bytes 4 (mask_value base supported)

-- `range(0x00, base, RANGE_SIZE)` has ⌈base / 32⌉ items.
unfoldable pub is_advertised_range : ℕ → List ℕ → Bool
unfolding is_range_request ranges_below has_supported_above
is_advertised_range base supported =
    if is_range_request base && leb base last_range_base
    then all (λ earlier. has_supported_above earlier supported) (ranges_below ((base + 31) / 32))
    else false
