-- ===== src/Uds/Protocol/Answers.antt =====
-- What a claimed UDS service answers.
use ecu_simulator.Prelude.{
  ℕ, ◌+◌, ◌<◌, String, ◌≡◌, refl, sym, ◌⊎◌, inl, inr, Bool, true, false, not, ◌&&◌, ◌||◌, Option,
  none, some, List, [], ◌∷◌, arith, ltb, leb, ◌==◌, ltb→lt, Bool-cases, contains, as_some, Result,
  ok, err, ◌>>=◌,
}
use ecu_simulator.Bytes.{Bytes, AreBytes}
use ecu_simulator.Base.{positive_response_sid, negative_response}
use ecu_simulator.Dtc.Store.{DtcStore}
use ecu_simulator.Prelude.Bits.{all_below, all_below_sound}
use ecu_simulator.Uds.Dtc.Laws.{same, same-eq}
use ecu_simulator.Uds.Dtc.{dtc_store_provider}
use ecu_simulator.Uds.Protocol.Records.{report-ok}
use ecu_simulator.Uds.Protocol.{
  service_ids, sub_function_services, session_control, ecu_reset, clear_diagnostic_information,
  report, read_by, read_dtc_information, tester_present, serve, withheld, masked, is_suppressed,
  respond, handle,
}

abbrev pub nrcs : List ℕ
nrcs = 0x12 ∷ 0x13 ∷ 0x31 ∷ []

-- `7F <sid> <nrc>` with one of the three codes
abbrev pub is_negative : ℕ → Bytes → Bool
is_negative sid (first ∷ s ∷ nrc ∷ []) = first == 0x7F && (s == sid && contains nrc nrcs)
is_negative sid _ = false

abbrev pub is_positive : ℕ → Bytes → Bool
is_positive sid (first ∷ rest) = first == sid + 0x40
is_positive sid [] = false

-- a reply that a service makes
abbrev is_made : ℕ → Result Bytes → Bool
is_made sid (ok bs) = is_positive sid bs || is_negative sid bs
is_made sid (err e) = false

-- what goes out: silence in place of a positive reply, if that was asked for
abbrev pub is_reply : Bool → ℕ → Result (Option Bytes) → Bool
is_reply suppress sid (ok none) = suppress
is_reply suppress sid (ok (some bs)) = not suppress && is_positive sid bs || is_negative sid bs
is_reply suppress sid (err e) = false

-- whether a payload asks for silence
abbrev pub asks_silence : Bytes → Bool
asks_silence (sid ∷ sub_function ∷ rest) =
    contains sid sub_function_services && leb 128 sub_function
asks_silence _ = false

session_control-made : (payload : Bytes) → is_made 0x10 (session_control payload) ≡ true
unfolding session_control negative_response positive_response_sid
session_control-made [] = refl
session_control-made (sid ∷ []) = refl
session_control-made (sid ∷ session ∷ []) = ground arith
session_control-made (sid ∷ session ∷ b ∷ rest) = refl

ecu_reset-made : (payload : Bytes) → is_made 0x11 (ecu_reset payload) ≡ true
unfolding ecu_reset negative_response positive_response_sid
ecu_reset-made [] = refl
ecu_reset-made (sid ∷ []) = refl
ecu_reset-made (sid ∷ reset_type ∷ []) = ground arith
ecu_reset-made (sid ∷ reset_type ∷ b ∷ rest) = refl

clear-made :
    (store : DtcStore) (payload : Bytes)
    → is_made 0x14 (clear_diagnostic_information store payload).0 ≡ true
unfolding clear_diagnostic_information negative_response positive_response_sid
clear-made store payload = ground arith

tester_present-made : (payload : Bytes) → is_made 0x3E (tester_present payload) ≡ true
unfolding tester_present negative_response positive_response_sid
tester_present-made [] = refl
tester_present-made (sid ∷ []) = refl
tester_present-made (sid ∷ sub_function ∷ rest) = ground arith

report-made :
    (name : String) (store : DtcStore) (mask : ℕ)
    → mask < 256
    → is_made 0x19 (report (dtc_store_provider name ∷ []) store mask) ≡ true
report-made name store mask h = let (kept, bs, g, e, seen) = report-ok name store mask h in rw e

read_by-made :
    (name : String) (store : DtcStore) (report_type : ℕ) (parameters : Bytes)
    → AreBytes parameters
    → is_made 0x19 (read_by (dtc_store_provider name ∷ []) store report_type parameters) ≡ true
unfolding read_by negative_response
read_by-made name store report_type [] h = ground arith
read_by-made name store report_type (mask ∷ []) h = ground (arith, report-made name store mask h.0)
read_by-made name store report_type (mask ∷ b ∷ rest) h = ground arith

read-made :
    (name : String) (store : DtcStore) (payload : Bytes)
    → AreBytes payload
    → is_made 0x19 (read_dtc_information (dtc_store_provider name ∷ []) store payload) ≡ true
unfolding read_dtc_information negative_response
read-made name store [] h = refl
read-made name store (sid ∷ []) h = refl
read-made name store (sid ∷ report_type ∷ parameters) h =
    read_by-made name store report_type parameters h.1.1

as_reply :
    (sid : ℕ) (r : Result Bytes) → is_made sid r ≡ true → is_reply false sid (as_some r) ≡ true
as_reply sid (ok bs) h = h
as_reply sid (err e) h = h

service_cases :
    (sid : ℕ)
    → contains sid service_ids ≡ true
    → (sid ≡ 0x10) ⊎ ((sid ≡ 0x11) ⊎ ((sid ≡ 0x14) ⊎ ((sid ≡ 0x19) ⊎ (sid ≡ 0x3E))))
service_cases sid h = ground arith

serve-reply :
    (name : String) (store : DtcStore) (sid : ℕ) (payload : Bytes)
    → contains sid service_ids ≡ true
    → AreBytes payload
    → is_reply false sid (serve (dtc_store_provider name ∷ []) store sid payload).0 ≡ true
unfolding serve
serve-reply name store sid payload known h = elim (service_cases sid known) [
  | inl e ↦ rw e (as_reply 0x10 (session_control payload) (session_control-made payload))
  | inr (inl e) ↦ rw e (as_reply 0x11 (ecu_reset payload) (ecu_reset-made payload))
  | inr (inr (inl e)) ↦
      rw e (as_reply 0x14 (clear_diagnostic_information store payload).0 (clear-made store payload))
  | inr (inr (inr (inl e))) ↦ rw e (
      as_reply 0x19 (read_dtc_information (dtc_store_provider name ∷ []) store payload)
        (read-made name store payload h))
  | inr (inr (inr (inr e))) ↦
      rw e (as_reply 0x3E (tester_present payload) (tester_present-made payload))
]

is_negative-first :
    (sid a : ℕ) (rest : Bytes) → is_negative sid (a ∷ rest) ≡ true → (a == 0x7F) ≡ true
is_negative-first sid a [] h = cc
is_negative-first sid a (b ∷ []) h = cc
is_negative-first sid a (b ∷ c ∷ []) h = ground arith
is_negative-first sid a (b ∷ c ∷ d ∷ rest) h = cc

unasked :
    (suppress : Bool) (sid : ℕ) (r : Result (Option Bytes))
    → sid < 0x3F
    → is_reply false sid r ≡ true
    → is_reply suppress sid (r >>= withheld suppress) ≡ true
unfolding withheld
unasked suppress sid (ok none) small h = cc
unasked suppress sid (ok (some [])) small h = cc
unasked suppress sid (ok (some (a ∷ rest))) small h = ground (arith, is_negative-first sid a rest)
unasked suppress sid (err e) small h = h

respond-reply :
    (suppress : Bool) (sid : ℕ) (r : Result (Option Bytes) × DtcStore)
    → contains sid service_ids ≡ true
    → is_reply false sid r.0 ≡ true
    → is_reply suppress sid (respond suppress r).0 ≡ true
respond-reply suppress sid (response, store) known h =
    unasked suppress sid response (ground arith) h

tops : ℕ → Bool
tops b = same (is_suppressed b) (leb 128 b)

all_tops : all_below 256 tops ≡ true
unfolding all_below tops
all_tops = refl

of_tops : (b : ℕ) → tops b ≡ true → is_suppressed b ≡ leb 128 b
unfolding tops
of_tops b h = same-eq (is_suppressed b) (leb 128 b) h

low_byte : ℕ → Bool
low_byte b = ltb (masked b) 256

all_low : all_below 256 low_byte ≡ true
unfolding all_below low_byte
all_low = refl

masked_byte : (b : ℕ) → low_byte b ≡ true → masked b < 256
unfolding low_byte
masked_byte b h = ltb→lt (masked b) 256 h

top_bit : (b : ℕ) → b < 256 → is_suppressed b ≡ leb 128 b
top_bit b h = of_tops b (all_below_sound 256 tops b all_tops h)

-- A claimed UDS request whose ECU reports its own store never raises. It is answered positively, or
-- by 7F, the identifier and one of the codes 12, 13 and 31; silence is only possible where the service
-- has a sub-function with bit 7 set, and then a positive answer is not.
pub handle-reply :
    (name : String) (store : DtcStore) (sid : ℕ) (rest : Bytes)
    → contains sid service_ids ≡ true
    → AreBytes rest
    → is_reply
        (asks_silence (sid ∷ rest))
        sid
        (handle (dtc_store_provider name ∷ []) store (sid ∷ rest)).0
      ≡ true
unfolding handle
handle-reply name store sid [] known h =
    respond-reply false sid (serve (dtc_store_provider name ∷ []) store sid (sid ∷ [])) known
      (serve-reply name store sid (sid ∷ []) known (ground arith, tt))
handle-reply name store sid (b ∷ rest) known h =
    let small : sid < 256 = ground arith in
    elim (Bool-cases (contains sid sub_function_services)) [
      | inl with_sub ↦
          let low : masked b < 256 = masked_byte b (all_below_sound 256 low_byte b all_low h.0) in
          rw (with_sub, sym (top_bit b h.0))
            (respond-reply (is_suppressed b) sid
              (serve (dtc_store_provider name ∷ []) store sid (sid ∷ masked b ∷ rest)) known
              (serve-reply name store sid (sid ∷ masked b ∷ rest) known (small, (low, h.1))))
      | inr plain ↦ rw plain (
          respond-reply false sid (serve (dtc_store_provider name ∷ []) store sid (sid ∷ b ∷ rest))
            known (serve-reply name store sid (sid ∷ b ∷ rest) known (small, h)))
    ]
