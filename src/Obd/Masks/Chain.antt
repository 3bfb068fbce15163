-- ===== src/Obd/Masks/Chain.antt =====
-- The chain of ranges that a tester follows, and which ranges it reaches.
use ecu_simulator.Prelude.{
  ℕ, zero, suc, ◌+◌, ◌*◌, ◌/◌, ◌≤◌, ◌<◌, ◌≡◌, refl, Bool, true, false, ◌&&◌, ◌||◌, List, [], ◌∷◌,
  ◌++◌, arith, ltb, leb, ◌==◌, any, all, ok,
}
use ecu_simulator.Prelude.Bits.{bit}
use ecu_simulator.Bytes.{Bytes, from_bytes}
use ecu_simulator.Obd.Masks.{
  is_range_request, ranges_below, has_supported_above, is_advertised_range, supported_mask,
  last_range_base,
}
use ecu_simulator.Obd.Masks.Bits.{supported_mask-IsMask}

abbrev reached : ℕ → List ℕ → Bool
reached k supported = all (λ earlier. has_supported_above earlier supported) (ranges_below k)

all-append {ℓ} :
    {A : Type ℓ} (test : A → Bool) (xs ys : List A)
    → all test (xs ++ ys) ≡ (all test xs && all test ys)
all-append test [] ys = refl
all-append test (x ∷ xs) ys = ground (arith, all-append test xs ys)

reached-suc :
    (k : ℕ) (supported : List ℕ)
    → reached (suc k) supported ≡ (reached k supported && has_supported_above (k * 32) supported)
unfolding ranges_below
reached-suc k supported =
    ground (arith, all-append (λ e. has_supported_above e supported) (ranges_below k) (k * 32 ∷ []))

above_mono :
    (base low : ℕ) (supported : List ℕ)
    → low ≤ base
    → has_supported_above base supported ≡ true
    → has_supported_above low supported ≡ true
unfolding has_supported_above
above_mono base low [] h e = e
above_mono base low (pid ∷ rest) h e = ground (arith, above_mono base low rest h)

-- The last link decides: the earlier ones follow from it.
reached-last :
    (k : ℕ) (supported : List ℕ)
    → reached (suc k) supported ≡ has_supported_above (k * 32) supported
reached-last zero supported = rw reached-suc (unfold ranges_below in refl)
reached-last (suc k) supported = ground (
  arith,
  reached-suc (suc k) supported,
  reached-last k supported,
  above_mono (suc k * 32) (k * 32) supported,
)

advertised :
    (k : ℕ) (supported : List ℕ)
    → k < 8
    → is_advertised_range (k * 32) supported ≡ reached k supported
unfolding is_advertised_range
advertised k supported h =
    let links : (k * 32 + 31) / 32 ≡ k = omega arith in rw links (ground arith)

reached-iff-above :
    (base k : ℕ) (supported : List ℕ)
    → base ≡ k * 32
    → reached ((base + 31) / 32) supported ≡ (base == 0 || any (λ pid. ltb base pid) supported)
unfolding has_supported_above
reached-iff-above base zero supported e =
    let none_before : (base + 31) / 32 ≡ 0 = omega arith in
    rw none_before (unfold ranges_below in ground arith)
reached-iff-above base (suc k) supported e =
    let links : (base + 31) / 32 ≡ suc k = omega arith in
    let limit : k * 32 + 32 ≡ base = omega arith in
    let later : (base == 0) ≡ false = ground arith in
    rw (links, reached-last k supported, later) (unfold has_supported_above in rw limit refl)

-- The ranges that are advertised: the first one, and those with a supported identifier above
-- their base. A number that is no range identifier up to 0xE0 is never advertised.
pub advertised-iff-above :
    (base : ℕ) (supported : List ℕ)
    → is_advertised_range base supported ≡ (
        is_range_request base
        && leb base last_range_base
        && (base == 0 || any (λ pid. ltb base pid) supported))
unfolding is_advertised_range is_range_request has_supported_above
advertised-iff-above base supported = ground (arith, reached-iff-above base (base / 32) supported)

-- What is advertised agrees with the masks: a range after the first is advertised exactly when
-- the range before it is and has its lowest mask bit set.
pub advertised-iff-continued :
    (k : ℕ) (supported : List ℕ) (mask : Bytes)
    → k < 7
    → supported_mask (k * 32) supported ≡ ok mask
    → is_advertised_range (suc k * 32) supported
      ≡ (is_advertised_range (k * 32) supported && (bit 0 (from_bytes mask) == 1))
advertised-iff-continued k supported mask h e =
    let (m, e', holds) = supported_mask-IsMask (k * 32) supported in
    ground (
      arith,
      advertised k supported,
      advertised (suc k) supported,
      holds.continues,
      reached-suc k supported,
    )
