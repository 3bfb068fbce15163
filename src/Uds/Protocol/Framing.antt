-- ===== src/Uds/Protocol/Framing.antt =====
-- The suppressPosRspMsgIndicationBit: an answer with it, beside the answer without.
use ecu_simulator.Prelude.{
  if◌then◌else◌, index_error, ℕ, ◌+◌, ◌<◌, ◌≡◌, refl, Bool, true, false, not, ◌&&◌, Option, none,
  some, [], ◌∷◌, arith, ◌==◌, contains, Result, ok, err, ◌>>=◌,
}
use ecu_simulator.Prelude.Bits.{all_below, all_below_sound}
use ecu_simulator.Bytes.{Bytes}
use ecu_simulator.Dtc.Store.{DtcStore}
use ecu_simulator.Uds.Providers.{DtcRegistry}
use ecu_simulator.Uds.Protocol.{
  sub_function_services, serve, withheld, is_suppressed, masked, handle,
}

low_half : ℕ → Bool
low_half b =
    not (is_suppressed b) && is_suppressed (b + 128) && (masked b == b) && (masked (b + 128) == b)

low_halves : all_below 128 low_half ≡ true
unfolding all_below low_half
low_halves = refl

low_half_parts :
    (b : ℕ)
    → low_half b ≡ true
    → (is_suppressed b ≡ false)
      × (is_suppressed (b + 128) ≡ true)
      × (masked b ≡ b)
      × (masked (b + 128) ≡ b)
unfolding low_half
low_half_parts b h = (ground arith, ground arith, ground arith, ground arith)

-- Bit 7 is the intent, the other seven are the value.
bit_seven :
    (b : ℕ)
    → b < 128
    → (is_suppressed b ≡ false)
      × (is_suppressed (b + 128) ≡ true)
      × (masked b ≡ b)
      × (masked (b + 128) ≡ b)
bit_seven b h = low_half_parts b (all_below_sound 128 low_half b low_halves h)

withheld-false : (r : Result (Option Bytes)) → (r >>= withheld false) ≡ r
unfolding withheld
withheld-false (err e) = refl
withheld-false (ok none) = refl
withheld-false (ok (some [])) = refl
withheld-false (ok (some (b ∷ bs))) = refl

-- What is left of an answer that may only be negative; a service never answers with no bytes.
abbrev pub only_negative : Result (Option Bytes) → Result (Option Bytes)
only_negative (err e) = err e
only_negative (ok none) = ok none
only_negative (ok (some [])) = err index_error
only_negative (ok (some (first ∷ rest))) =
    if first == 0x7F then ok (some (first ∷ rest)) else ok none

withheld-only_negative : (r : Result (Option Bytes)) → (r >>= withheld true) ≡ only_negative r
unfolding withheld
withheld-only_negative (err e) = refl
withheld-only_negative (ok none) = refl
withheld-only_negative (ok (some [])) = refl
withheld-only_negative (ok (some (first ∷ rest))) = ground arith

-- For a service with a sub-function, setting bit 7 of that byte leaves the new state of the store as
-- it is; of the answer it leaves a negative response, which begins with 7F, and turns any other
-- response into silence.
pub handle-suppressed :
    (registry : DtcRegistry DtcStore) (store : DtcStore) (sid b : ℕ) (rest : Bytes)
    → contains sid sub_function_services ≡ true
    → b < 128
    → handle registry store (sid ∷ (b + 128) ∷ rest) ≡ (
      only_negative (handle registry store (sid ∷ b ∷ rest)).0,
      (handle registry store (sid ∷ b ∷ rest)).1,
    )
unfolding handle
handle-suppressed registry store sid b rest known h =
    let (unset, intent, low, value) = bit_seven b h in
    let answer = serve registry store sid (sid ∷ b ∷ rest) in
    rw (known, intent, value, unset, low, withheld-false answer.0, withheld-only_negative answer.0)
