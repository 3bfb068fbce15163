-- ===== src/Ecu/Dispatcher/Laws.antt =====
-- What a dispatcher that passed its checks does with a request.
use ecu_simulator.Prelude.{
  ◌≤◌, String, ◌≡◌, refl, sym, ap, ◌∙◌, ◌⊎◌, inl, inr, Bool, true, false, Option, none, some, List,
  [], ◌∷◌, map, arith, str_eq, Bool-cases, Option-cases, ok-injective, length, any, all, not, ◌||◌,
  err, value_error, Result, ok, >>=-eq-ok,
}
use mathlib.Core.Path.{subst}
use ecu_simulator.Base.{DiagnosticProtocol}
use ecu_simulator.Transport.Messages.{DiagnosticRequest, DiagnosticResponse}
use ecu_simulator.Ecu.Router.{Route, names, AddressRouter, all_routes, resolve}
use ecu_simulator.Ecu.Router.Laws.{raise_if-ok}
use ecu_simulator.Ecu.Ecu.{Ecu, handle}
use ecu_simulator.Ecu.Dispatcher.{
  reject_fan_out, Dispatcher, ecu_named, has_duplicate, is_unknown, is_missing, no_fan_out,
  make_dispatcher, route_to, call, after_sync,
}
use ecu_simulator.Ecu.Dispatcher.Resolved.{injective, resolved-any, resolved-single}

cc_absurd {ℓ} : {A : Type ℓ} → true ≡ false → A
cc_absurd e = cc

known-named {ℓ} :
    {S : Type ℓ} (ecus : List (Ecu S)) (route : Route)
    → is_unknown ecus route ≡ false
    → (e : Ecu S) × (ecu_named ecus route.ecu ≡ some e)
unfolding is_unknown
known-named ecus route h = elim (Option-cases (ecu_named ecus route.ecu)) [
  | inl missing ↦ cc_absurd (rw (is_unknown, missing) at h)
  | inr (e, found) ↦ (e, found)
]

named-name {ℓ} :
    {S : Type ℓ} (ecus : List (Ecu S)) (name : String) (e : Ecu S)
    → ecu_named ecus name ≡ some e
    → str_eq e.name name ≡ true
unfolding ecu_named
named-name [] name e h = cc
named-name {S = S} (f ∷ rest) name e h = elim (Bool-cases (str_eq f.name name)) [
  | inl here ↦
      let same : f ≡ e = injective (rw here at h) in
      ap (λ (x : Ecu S). str_eq x.name name) (sym same) ∙ here
  | inr there ↦ named-name rest name e (rw there at h)
]

-- The state that a request meets, or the exception that bringing it up to date raised.
abbrev pub fresh {ℓ} : {S : Type ℓ} → Option (S → Result (Unit {0}) × S) → S → Result (Unit {0}) × S
fresh none s = (ok tt, s)
fresh (some sync) s = sync s

-- An ECU serves each protocol that a route names.
abbrev pub serves_all {ℓ} : {S : Type ℓ} → Ecu S → Route → Bool
serves_all {S = S} e route =
    all (λ n. any (λ (p : DiagnosticProtocol S). str_eq p.name n) e.protocols) route.protocols

-- What a dispatcher that could be made does with a request in a state that is up to date, or after
-- an exception from that.
abbrev pub Outcome {ℓ} :
    {S : Type ℓ}
    → Dispatcher S
    → DiagnosticRequest
    → Result (Option DiagnosticResponse) × S
    → Result (Unit {0}) × S
    → Type ℓ
Outcome d request result (err raised, t) = result ≡ (err raised, t)
Outcome {S = S} d request result (ok _, t) =
    ((resolve d.router request ≡ []) × (result ≡ (ok none, t)))
    ⊎ ((route : Route) × (e : Ecu S) × (resolve d.router request ≡ route ∷ [])
        × (ecu_named d.ecus route.ecu ≡ some e)
        × (str_eq e.name route.ecu ≡ true)
        × (serves_all e route ≡ true)
        × (result ≡ handle e t request route))

abbrev pub Dispatched {ℓ} : {S : Type ℓ} → Dispatcher S → S → DiagnosticRequest → Type ℓ
Dispatched d s request = Outcome d request (call d s request) (fresh d.sync s)

any-map {ℓ} :
    {A : Type ℓ} (name : A → String) (n : String) (xs : List A)
    → any (λ m. str_eq m n) (map name xs) ≡ any (λ (x : A). str_eq (name x) n) xs
any-map name n [] = refl
any-map name n (x ∷ rest) = ap (λ (b : Bool). str_eq (name x) n || b) (any-map name n rest)

served-all {ℓ} :
    {S : Type ℓ} (e : Ecu S) (ns : List String)
    → all (λ n. names n (map (λ (p : DiagnosticProtocol S). p.name) e.protocols)) ns
      ≡ all (λ n. any (λ (p : DiagnosticProtocol S). str_eq p.name n) e.protocols) ns
served-all e [] = refl
served-all {S = S} e (n ∷ rest) =
    rw (any-map (λ (p : DiagnosticProtocol S). p.name) n e.protocols, served-all e rest) refl

present-serves {ℓ} :
    {S : Type ℓ} (ecus : List (Ecu S)) (route : Route) (e : Ecu S)
    → ecu_named ecus route.ecu ≡ some e
    → is_missing ecus route ≡ false
    → serves_all e route ≡ true
unfolding is_missing
present-serves {S = S} ecus route e found h =
    let all_there : not (
          all (λ n. names n (map (λ (p : DiagnosticProtocol S). p.name) e.protocols))
            route.protocols)
        ≡ false =
      rw (is_missing, found) at h in
    sym (served-all e route.protocols) ∙ (ground arith)

one_route {ℓ} :
    {S : Type ℓ} (ecus : List (Ecu S)) (s : S) (request : DiagnosticRequest) (route : Route)
    (e : Ecu S)
    → ecu_named ecus route.ecu ≡ some e
    → route_to ecus s request (route ∷ []) ≡ handle e s request route
unfolding route_to reject_fan_out
one_route ecus s request route e h = rw (route_to, h) refl

list_cases :
    (routes : List Route)
    → length routes ≤ 1
    → (routes ≡ []) ⊎ ((route : Route) × (routes ≡ route ∷ []))
list_cases [] h = inl refl
list_cases (route ∷ []) h = inr (route, refl)
list_cases (route ∷ r ∷ rest) h = absurd (omega arith)

first_of :
    (test : Route → Bool) (route : Route) → any test (route ∷ []) ≡ false → test route ≡ false
first_of test route h = ground arith

module _ {ℓ} {S : Type ℓ} (router : AddressRouter) (ecus : List (Ecu S))
    (request : DiagnosticRequest) (known : any (is_unknown ecus) (all_routes router) ≡ false)
    (served : any (is_missing ecus) (all_routes router) ≡ false)
    (few : no_fan_out router.functional ≡ ok tt) where
  dispatch :
      (sync : Option (S → Result (Unit {0}) × S)) (t : S)
      → Outcome
          (record { router = router; ecus = ecus; sync = sync })
          request
          (route_to ecus t request (resolve router request))
          (ok tt, t)
  dispatch sync t =
      elim (list_cases (resolve router request) (resolved-single router request few)) [
        | inl nowhere ↦
            inl (nowhere, ap (route_to ecus t request) nowhere ∙ (unfold route_to in refl))
        | inr (route, there) ↦
            let named : is_unknown ecus route ≡ false = first_of (is_unknown ecus) route (
              ap (any (is_unknown ecus)) (sym there)
              ∙ resolved-any (is_unknown ecus) router request known) in
            let serving : is_missing ecus route ≡ false = first_of (is_missing ecus) route (
              ap (any (is_missing ecus)) (sym there)
              ∙ resolved-any (is_missing ecus) router request served) in
            let (e, found) = known-named ecus route named in
            inr (
              route,
              e,
              there,
              found,
              named-name ecus route.ecu e found,
              present-serves ecus route e found serving,
              ap (route_to ecus t request) there ∙ one_route ecus t request route e found,
            )
      ]

  synced-Outcome :
      (sync : Option (S → Result (Unit {0}) × S)) (up : Result (Unit {0}) × S)
      → Outcome
          (record { router = router; ecus = ecus; sync = sync })
          request
          (after_sync up (λ t. route_to ecus t request (resolve router request)))
          up
  synced-Outcome sync (ok tt, t) = dispatch sync t
  synced-Outcome sync (err raised, t) = refl

  dispatcher-Dispatched :
      (sync : Option (S → Result (Unit {0}) × S)) (s : S)
      → Dispatched (record { router = router; ecus = ecus; sync = sync }) s request
  unfolding call
  dispatcher-Dispatched none s = synced-Outcome none (ok tt, s)
  dispatcher-Dispatched (some sync) s = synced-Outcome (some sync) (sync s)

-- If a dispatcher could be made, then a call first brings the state up to date, where an exception
-- ends it. After that, a request that the table routes nowhere is dropped and changes nothing more;
-- any other has exactly one route, of an ECU of that name that has a protocol of each name on the
-- route, and it is that ECU that handles it, in the state that is up to date.
pub make_dispatcher-Dispatched {ℓ} :
    {S : Type ℓ} (router : AddressRouter) (ecus : List (Ecu S))
    (sync : Option (S → Result (Unit {0}) × S)) (d : Dispatcher S) (s : S)
    (request : DiagnosticRequest)
    → make_dispatcher router ecus sync ≡ ok d
    → Dispatched d s request
unfolding make_dispatcher
make_dispatcher-Dispatched router ecus sync d s request h =
    let (_, h1) = raise_if-ok (has_duplicate ecus) value_error _ h in
    let (known, h2) = raise_if-ok (any (is_unknown ecus) (all_routes router)) value_error _ h1 in
    let (served, h3) = raise_if-ok (any (is_missing ecus) (all_routes router)) value_error _ h2 in
    let (done, few, h4) = >>=-eq-ok (no_fan_out router.functional) _ h3 in
    let is : record { router = router; ecus = ecus; sync = sync } ≡ d = ok-injective h4 in
    subst (λ (x : Dispatcher _). Dispatched x s request) is
      (dispatcher-Dispatched router ecus request known served few sync s)
