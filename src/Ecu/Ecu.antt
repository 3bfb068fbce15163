-- ===== src/Ecu/Ecu.antt =====
-- src/ecu_simulator/ecu/ecu.py: one simulated ECU. Its protocols act on a state `S` that holds what
-- they share: the vehicle and the DTC store. Its own tables only change by registration.
pub mod Laws
use ecu_simulator.Prelude.{
  ℕ, zero, suc, ◌+◌, ◌-◌, ◌*◌, ◌/◌, ◌%◌, ◌^◌, ◌≤◌, ◌<◌, bit_and, bit_or, String, ◌≡◌, refl, sym, ap,
  ◌∙◌, ◌≢◌, ◌↔◌, ◌⊎◌, inl, inr, Bool, true, false, not, ◌&&◌, ◌||◌, Option, none, some, List, [],
  ◌∷◌, ◌++◌, map, arith, str_eq, eq_iff, ltb, leb, ◌==◌, if◌then◌else◌, ltb→lt, lt→ltb, leb→le,
  le→leb, ==_iff, Bool-cases, Option-cases, Result-cases, ok-injective, &&-true, length, get_elem?,
  take, drop, replicate, any, all, select, All, length-append, length-take, length-replicate,
  length-map, All-append, contains, ℤ, pos, negsuc, clamp, ◌+ℤ◌, ◌*ℤ◌, sub_ℕ, ltb_ℤ, Error,
  value_error, key_error, type_error, overflow_error, index_error, traverse, as_some,
  not_implemented, unknown_signal, service_conflict, route_conflict, provider_conflict, Result, ok,
  err, ◌>>=◌, ◌>>◌, raise_if, or_raise, >>=-eq-ok,
}
use ecu_simulator.Bytes.{Bytes}
use ecu_simulator.Base.{
  nrc_service_not_supported, negative_response, ServiceRequest, service_request, sid_of,
  DiagnosticProtocol,
}
use ecu_simulator.Transport.Messages.{DiagnosticRequest, DiagnosticResponse, diagnostic_response}
use ecu_simulator.Ecu.Router.{Route, permits, find}

-- `_unserved_on_this_route`
unfoldable pub unserved_on_this_route : ℕ → Route → Result (Option Bytes)
unserved_on_this_route sid route =
    if route.answer_unsupported
    then as_some (negative_response sid nrc_service_not_supported)
    else ok none

-- the end of `_handle`
unfoldable pub respond : Option Bytes → Result (Option DiagnosticResponse)
respond none = ok none
respond (some []) = ok none
respond (some (b ∷ bs)) = as_some (diagnostic_response (b ∷ bs))

module _ {ℓ} {S : Type ℓ} where
  -- `for sid in sids: self._by_sid[sid] = protocol`, for free identifiers
  abbrev pub claim :
      List ℕ
      → DiagnosticProtocol S
      → List (ℕ × DiagnosticProtocol S)
      → List (ℕ × DiagnosticProtocol S)
  claim sids protocol table = map (λ (sid : ℕ). (sid, protocol)) sids ++ table

pub record Ecu {ℓ} (S : Type ℓ) : Type ℓ where
  pub name : String
  pub protocols : List (DiagnosticProtocol S)
  pub by_sid : List (ℕ × DiagnosticProtocol S)

module _ {ℓ} {S : Type ℓ} where
  -- `Ecu(name)`
  unfoldable pub make_ecu : String → Result (Ecu S)
  make_ecu name =
      if str_eq name ""
      then err value_error
      else ok (record { name = name; protocols = []; by_sid = [] })

  -- `Ecu.protocol_for`
  unfoldable pub protocol_for : Ecu S → ℕ → Option (DiagnosticProtocol S)
  protocol_for ecu sid = find ecu.by_sid sid

  abbrev pub is_claimed : Ecu S → ℕ → Bool
  is_claimed ecu sid = any (λ (entry : ℕ × DiagnosticProtocol S). entry.0 == sid) ecu.by_sid

  -- `Ecu.register`
  unfoldable pub register : Ecu S → DiagnosticProtocol S → Result (Ecu S)
  register ecu protocol =
      let sids = protocol.service_ids in
      raise_if (length sids == 0) value_error
      >> (raise_if (not (all (λ (sid : ℕ). leb sid 0xFF) sids)) value_error
          >> (raise_if
                (any (λ (p : DiagnosticProtocol S). str_eq p.name protocol.name) ecu.protocols)
                service_conflict
              >> (raise_if (any (is_claimed ecu) sids) service_conflict
                  >> ok (record ecu {
                    protocols = ecu.protocols ++ protocol ∷ [];
                    by_sid = claim sids protocol ecu.by_sid;
                  }))))

  -- `_eligible_protocol`
  unfoldable pub eligible_protocol : Ecu S → ℕ → Route → Option (DiagnosticProtocol S)
  eligible_protocol ecu sid route = elim (protocol_for ecu sid) [
    | none ↦ none
    | some protocol ↦ if permits route protocol.name then some protocol else none
  ]

  -- `payload = protocol.handle(service)`, or the route's policy
  unfoldable pub run : Ecu S → Route → ServiceRequest → ℕ → S → Result (Option Bytes) × S
  run ecu route service sid s = elim (eligible_protocol ecu sid route) [
    | none ↦ (unserved_on_this_route sid route, s)
    | some protocol ↦ protocol.handle s service
  ]

  abbrev pub finish : Result (Option Bytes) × S → Result (Option DiagnosticResponse) × S
  finish (answer, s) = (answer >>= respond, s)

  -- `_handle`
  unfoldable pub handle_request :
      Ecu S → S → DiagnosticRequest → Route → Result (Option DiagnosticResponse) × S
  handle_request ecu s request route = elim request.payload [
    | [] ↦ (ok none, s)
    | sid ∷ rest ↦ elim (service_request (sid ∷ rest) request.functional) [
      | err e ↦ (err e, s)
      | ok service ↦ finish (run ecu route service sid s)
    ]
  ]

  -- `Ecu.handle`
  unfoldable pub handle :
      Ecu S → S → DiagnosticRequest → Route → Result (Option DiagnosticResponse) × S
  handle ecu s request route =
      if str_eq route.ecu ecu.name then handle_request ecu s request route else (err value_error, s)
