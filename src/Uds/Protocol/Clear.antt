-- ===== src/Uds/Protocol/Clear.antt =====
-- Clearing over UDS: which requests change the store.
use ecu_simulator.Prelude.{
  ℕ, ◌<◌, ◌≡◌, refl, ◌∙◌, inl, inr, Bool, true, false, ◌&&◌, Option, [], ◌∷◌, arith, ◌==◌,
  if◌then◌else◌, Bool-cases, contains, Result,
}
use ecu_simulator.Bytes.{Bytes, AreBytes, from_bytes}
use ecu_simulator.Dtc.Store.{DtcStore, clear}
use ecu_simulator.Uds.Providers.{DtcRegistry}
use ecu_simulator.Uds.Protocol.{
  clear_diagnostic_information, serve, respond, handle, masked, is_suppressed,
  sub_function_services,
}

-- `14 FF FF FF`
unfoldable pub is_clear_request : Bytes → Bool
is_clear_request (sid ∷ a ∷ b ∷ c ∷ []) = sid == 0x14 && (a == 0xFF && (b == 0xFF && c == 0xFF))
is_clear_request _ = false

group_all :
    (a b c : ℕ)
    → a < 256
    → b < 256
    → c < 256
    → (from_bytes (a ∷ b ∷ c ∷ []) == 0xFFFFFF) ≡ (a == 0xFF && (b == 0xFF && c == 0xFF))
unfolding from_bytes
group_all a b c p q r = ground arith

cleared :
    (store : DtcStore) (payload : Bytes)
    → AreBytes payload
    → (clear_diagnostic_information store (0x14 ∷ payload)).1
      ≡ (if is_clear_request (0x14 ∷ payload) then clear store else store)
unfolding clear_diagnostic_information is_clear_request
cleared store [] h = refl
cleared store (a ∷ []) h = refl
cleared store (a ∷ b ∷ []) h = refl
cleared store (a ∷ b ∷ c ∷ []) h =
    let e : (from_bytes (a ∷ b ∷ c ∷ []) == 0xFFFFFF) ≡ (a == 0xFF && (b == 0xFF && c == 0xFF)) =
      group_all a b c h.0 h.1.0 h.1.1.0 in
    rw e (ground arith)
cleared store (a ∷ b ∷ c ∷ d ∷ rest) h = ground arith

same_store : (suppress : Bool) (r : Result (Option Bytes) × DtcStore) → (respond suppress r).1 ≡ r.1
same_store suppress (response, store) = refl

is_clear_request-sid :
    (sid : ℕ) (payload : Bytes) → (sid == 0x14) ≡ false → is_clear_request (sid ∷ payload) ≡ false
unfolding is_clear_request
is_clear_request-sid sid [] h = refl
is_clear_request-sid sid (a ∷ []) h = refl
is_clear_request-sid sid (a ∷ b ∷ []) h = refl
is_clear_request-sid sid (a ∷ b ∷ c ∷ []) h = rw h
is_clear_request-sid sid (a ∷ b ∷ c ∷ d ∷ rest) h = refl

-- Only service 0x14 can change the store.
serve_store :
    (registry : DtcRegistry DtcStore) (store : DtcStore) (sid : ℕ) (payload : Bytes)
    → (serve registry store sid payload).1
      ≡ (if sid == 0x14 then (clear_diagnostic_information store payload).1 else store)
unfolding serve
serve_store registry store sid payload = ground arith

sub_function_service-other :
    (sid : ℕ) → contains sid sub_function_services ≡ true → (sid == 0x14) ≡ false
sub_function_service-other sid h = ground arith

served :
    (registry : DtcRegistry DtcStore) (store : DtcStore) (sid : ℕ) (payload : Bytes)
    → AreBytes payload
    → (serve registry store sid (sid ∷ payload)).1
      ≡ (if is_clear_request (sid ∷ payload) then clear store else store)
served registry store sid payload h = elim (Bool-cases (sid == 0x14)) [
  | inl is_clear ↦
      let e : sid ≡ 0x14 = ground arith in
      rw e (serve_store registry store 0x14 (0x14 ∷ payload) ∙ cleared store payload h)
  | inr other ↦ rw (
    serve_store registry store sid (sid ∷ payload),
    other,
    is_clear_request-sid sid payload other,
  )
]

-- A UDS request changes the store exactly if it is 14 FF FF FF, and then it clears it.
pub handle-store :
    (registry : DtcRegistry DtcStore) (store : DtcStore) (payload : Bytes)
    → AreBytes payload
    → (handle registry store payload).1 ≡ (if is_clear_request payload then clear store else store)
unfolding handle
handle-store registry store [] h = unfold is_clear_request in refl
handle-store registry store (sid ∷ []) h =
    same_store false (serve registry store sid (sid ∷ [])) ∙ served registry store sid [] tt
handle-store registry store (sid ∷ b ∷ rest) h =
    elim (Bool-cases (contains sid sub_function_services)) [
      | inl known ↦
          let other : (sid == 0x14) ≡ false = sub_function_service-other sid known in
          rw (
            known,
            same_store (is_suppressed b) (serve registry store sid (sid ∷ masked b ∷ rest)),
            serve_store registry store sid (sid ∷ masked b ∷ rest),
            other,
            is_clear_request-sid sid (b ∷ rest) other,
          )
      | inr plain ↦ rw plain (
          same_store false (serve registry store sid (sid ∷ b ∷ rest))
          ∙ served registry store sid (b ∷ rest) h.1)
    ]
