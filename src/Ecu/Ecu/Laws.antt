-- ===== src/Ecu/Ecu/Laws.antt =====
-- What registration changes, and where a request goes.
use ecu_simulator.Prelude.{
  ℕ, ◌<◌, ◌≡◌, refl, sym, ap, ◌∙◌, inl, inr, Bool, true, false, not, ◌&&◌, Option, none, some, List,
  [], ◌∷◌, ◌++◌, arith, str_eq, leb, ◌==◌, if◌then◌else◌, le→leb, Bool-cases, Result-cases,
  ok-injective, length, any, all, contains, Error, value_error, service_conflict, Result, ok, err,
  ◌>>=◌,
}
use ecu_simulator.Bytes.{Bytes}
use ecu_simulator.Base.{negative_response, ServiceRequest, service_request, DiagnosticProtocol}
use ecu_simulator.Transport.Messages.{
  AddressingMode, DiagnosticRequest, DiagnosticResponse, diagnostic_response,
}
use ecu_simulator.Ecu.Router.{Route, permits, find, is_some}
use ecu_simulator.Ecu.Router.Laws.{raise_if-ok}
use ecu_simulator.Ecu.Ecu.{
  Ecu, protocol_for, is_claimed, claim, register, eligible_protocol, unserved_on_this_route,
  respond, run, finish, handle_request, handle,
}

find-claim {ℓ} :
    {S : Type ℓ} (sids : List ℕ) (p : DiagnosticProtocol S)
    (table : List (ℕ × DiagnosticProtocol S)) (sid : ℕ)
    → find (claim sids p table) sid ≡ (if contains sid sids then some p else find table sid)
find-claim [] p table sid = refl
find-claim (s ∷ rest) p table sid = ground (arith, find-claim rest p table sid)

claimed-find {ℓ} :
    {S : Type ℓ} (table : List (ℕ × DiagnosticProtocol S)) (sid : ℕ)
    → any (λ (entry : ℕ × DiagnosticProtocol S). entry.0 == sid) table ≡ is_some (find table sid)
claimed-find [] sid = refl
claimed-find ((s, p) ∷ rest) sid = ground (arith, claimed-find rest sid)

any-contains :
    (test : ℕ → Bool) (sids : List ℕ) (sid : ℕ)
    → any test sids ≡ false
    → contains sid sids ≡ true
    → test sid ≡ false
any-contains test [] sid h c = cc
any-contains test (s ∷ rest) sid h c = elim (Bool-cases (s == sid)) [
  | inl here ↦ let same : s ≡ sid = ground arith in ap test (sym same) ∙ (ground arith)
  | inr there ↦ any-contains test rest sid (ground arith) (ground arith)
]

abbrev registered {ℓ} : {S : Type ℓ} → Ecu S → DiagnosticProtocol S → Ecu S
registered ecu p = record ecu {
  protocols = ecu.protocols ++ p ∷ [];
  by_sid = claim p.service_ids p ecu.by_sid;
}

unshared {ℓ} :
    {S : Type ℓ} (ecu : Ecu S) (sids : List ℕ) (sid : ℕ)
    → any (is_claimed ecu) sids ≡ false
    → contains sid sids && is_some (find ecu.by_sid sid) ≡ false
unshared ecu sids sid free = elim (Bool-cases (contains sid sids)) [
  | inl declared ↦
      rw declared
        (sym (claimed-find ecu.by_sid sid) ∙ any-contains (is_claimed ecu) sids sid free declared)
  | inr foreign ↦ rw foreign refl
]

-- A registration that succeeds gives the protocol every service identifier that it declares, none of
-- which was served before, and leaves the others with whom they were.
pub register_lem {ℓ} :
    {S : Type ℓ} (ecu after : Ecu S) (p : DiagnosticProtocol S) (sid : ℕ)
    → register ecu p ≡ ok after
    → (protocol_for after sid
        ≡ (if contains sid p.service_ids then some p else protocol_for ecu sid))
      × (contains sid p.service_ids && is_some (protocol_for ecu sid) ≡ false)
      × (after.protocols ≡ ecu.protocols ++ p ∷ [])
      × (after.name ≡ ecu.name)
unfolding register protocol_for
register_lem {S = S} ecu after p sid h =
    let sids = p.service_ids in
    let (_, h1) = raise_if-ok (length sids == 0) value_error _ h in
    let (_, h2) = raise_if-ok (not (all (λ (s : ℕ). leb s 0xFF) sids)) value_error _ h1 in
    let (_, h3) =
      raise_if-ok (any (λ (q : DiagnosticProtocol S). str_eq q.name p.name) ecu.protocols)
        service_conflict _ h2 in
    let (free, h4) = raise_if-ok (any (is_claimed ecu) sids) service_conflict _ h3 in
    let is : after ≡ registered ecu p = sym (ok-injective h4) in
    (rw is (find-claim sids p ecu.by_sid sid), unshared ecu sids sid free, rw is refl, rw is refl)

-- A registration that would take a service identifier from its owner is refused with an exception.
pub register-taken {ℓ} :
    {S : Type ℓ} (ecu : Ecu S) (p : DiagnosticProtocol S) (sid : ℕ)
    → contains sid p.service_ids ≡ true
    → is_some (protocol_for ecu sid) ≡ true
    → (e : Error) × (register ecu p ≡ err e)
register-taken ecu p sid declared taken = elim (Result-cases (register ecu p)) [
  | inl (e, h) ↦ (e, h)
  | inr (after, h) ↦ let (_, free, _, _) = register_lem ecu after p sid h in absurd (ground arith)
]

abbrev pub request_of : Bytes → ℕ → Bool → AddressingMode → DiagnosticRequest
request_of payload address functional mode = record {
  payload = payload;
  target_address = address;
  functional = functional;
  addressing_mode = mode;
}

unserved-answer :
    (sid : ℕ) (route : Route)
    → sid < 256
    → (unserved_on_this_route sid route >>= respond) ≡ (
        if route.answer_unsupported
        then ok (some (record { payload = 0x7F ∷ sid ∷ 0x11 ∷ [] }))
        else ok none)
unfolding unserved_on_this_route respond negative_response diagnostic_response
unserved-answer sid route small = rw (le→leb sid 0xFF (omega (arith, small))) (ground arith)

run-unserved {ℓ} :
    {S : Type ℓ} (ecu : Ecu S) (s : S) (sid : ℕ) (route : Route) (service : ServiceRequest)
    → eligible_protocol ecu sid route ≡ none
    → run ecu route service sid s ≡ (unserved_on_this_route sid route, s)
unfolding run
run-unserved ecu s sid route service unserved = rw (run, unserved) refl

run-served {ℓ} :
    {S : Type ℓ} (ecu : Ecu S) (s : S) (sid : ℕ) (route : Route) (service : ServiceRequest)
    (p : DiagnosticProtocol S)
    → protocol_for ecu sid ≡ some p
    → permits route p.name ≡ true
    → run ecu route service sid s ≡ p.handle s service
unfolding run eligible_protocol
run-served ecu s sid route service p serves permitted =
    rw (run, eligible_protocol, serves, permitted) refl

abbrev as_service : Bytes → Bool → ServiceRequest
as_service payload functional = record { payload = payload; functional = functional }

run-handle {ℓ} :
    {S : Type ℓ} (ecu : Ecu S) (s : S) (sid : ℕ) (rest : Bytes) (address : ℕ) (functional : Bool)
    (mode : AddressingMode) (route : Route)
    → str_eq route.ecu ecu.name ≡ true
    → handle ecu s (request_of (sid ∷ rest) address functional mode) route
      ≡ finish (run ecu route (as_service (sid ∷ rest) functional) sid s)
unfolding handle handle_request service_request
run-handle ecu s sid rest address functional mode route mine = rw mine refl

-- The identifier is registered with no protocol, or with one that the route does not name.
abbrev pub IsUnserved {ℓ} : {S : Type ℓ} → Option (DiagnosticProtocol S) → Route → Type 0
IsUnserved none route = Unit {0}
IsUnserved (some p) route = any (λ n. str_eq n p.name) route.protocols ≡ false

refused-none {ℓ} :
    {S : Type ℓ} (found : Option (DiagnosticProtocol S)) (route : Route)
    → IsUnserved found route
    → ◌≡◌ {A = Option (DiagnosticProtocol S)}
        (elim found [
          | none ↦ none
          | some protocol ↦ if permits route protocol.name then some protocol else none
        ])
        none
unfolding permits
refused-none none route h = refl
refused-none (some p) route h = rw h refl

unserved-none {ℓ} :
    {S : Type ℓ} (ecu : Ecu S) (sid : ℕ) (route : Route)
    → IsUnserved (protocol_for ecu sid) route
    → eligible_protocol ecu sid route ≡ none
unfolding eligible_protocol
unserved-none ecu sid route h = refused-none (protocol_for ecu sid) route h

-- Where no protocol is registered for the identifier, or one that the route does not name, no protocol is called: the state is
-- kept, and the route alone decides between silence and 7F with the identifier and 11.
pub handle-unserved {ℓ} :
    {S : Type ℓ} (ecu : Ecu S) (s : S) (sid : ℕ) (rest : Bytes) (address : ℕ) (functional : Bool)
    (mode : AddressingMode) (route : Route)
    → str_eq route.ecu ecu.name ≡ true
    → IsUnserved (protocol_for ecu sid) route
    → sid < 256
    → handle ecu s (request_of (sid ∷ rest) address functional mode) route ≡ (
      if route.answer_unsupported
          then ok (some (record { payload = 0x7F ∷ sid ∷ 0x11 ∷ [] }))
          else ok none,
      s,
    )
handle-unserved ecu s sid rest address functional mode route mine unserved small =
    run-handle ecu s sid rest address functional mode route mine
    ∙ (ap finish (
          run-unserved ecu s sid route (as_service (sid ∷ rest) functional)
            (unserved-none ecu sid route unserved))
        ∙ ap (λ (r : Result (Option DiagnosticResponse)). (r, s)) (unserved-answer sid route small))

-- What goes out of an answer, beside the state that came with it.
abbrev pub sent {ℓ} :
    {S : Type ℓ} → Result (Option Bytes) × S → Result (Option DiagnosticResponse) × S
sent (err e, s) = (err e, s)
sent (ok none, s) = (ok none, s)
sent (ok (some []), s) = (ok none, s)
sent (ok (some (b ∷ bs)), s) = (ok (some (record { payload = b ∷ bs })), s)

finish-sent {ℓ} : {S : Type ℓ} (r : Result (Option Bytes) × S) → finish r ≡ sent r
unfolding respond diagnostic_response
finish-sent (err e, s) = refl
finish-sent (ok none, s) = refl
finish-sent (ok (some []), s) = refl
finish-sent (ok (some (b ∷ bs)), s) = refl

-- A protocol that the route permits gets the request as it came, and its answer goes out unchanged;
-- an empty answer is silence. What it did to the state stays done.
pub handle-served {ℓ} :
    {S : Type ℓ} (ecu : Ecu S) (s : S) (sid : ℕ) (rest : Bytes) (address : ℕ) (functional : Bool)
    (mode : AddressingMode) (route : Route) (p : DiagnosticProtocol S)
    → str_eq route.ecu ecu.name ≡ true
    → protocol_for ecu sid ≡ some p
    → permits route p.name ≡ true
    → handle ecu s (request_of (sid ∷ rest) address functional mode) route
      ≡ sent (p.handle s (record { payload = sid ∷ rest; functional = functional }))
handle-served ecu s sid rest address functional mode route p mine serves permitted =
    let service = as_service (sid ∷ rest) functional in
    run-handle ecu s sid rest address functional mode route mine
    ∙ (ap finish (run-served ecu s sid route service p serves permitted)
        ∙ finish-sent (p.handle s service))
