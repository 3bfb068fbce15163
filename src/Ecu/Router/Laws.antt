-- ===== src/Ecu/Router/Laws.antt =====
-- What each call that builds the routing table changes.
use ecu_simulator.Prelude.{
  ℕ, String, ◌≡◌, refl, sym, ap, ◌∙◌, Bool, true, false, not, ◌&&◌, Option, none, some, List, [],
  ◌∷◌, ◌++◌, arith, str_eq, ◌==◌, if◌then◌else◌, ok-injective, length, any, Error, value_error,
  route_conflict, Result, ok, ◌>>◌, raise_if, >>=-eq-ok,
}
use ecu_simulator.Transport.Messages.{DiagnosticRequest}
use ecu_simulator.Ecu.Router.{
  Route, same_route, AddressRouter, find, put, is_some, make_route, other_route, put_physical,
  add_physical, routes_at, route_of, extended, put_functional, add_functional, resolve,
}

pub find-put {ℓ} :
    {A : Type ℓ} (table : List (ℕ × A)) (key other : ℕ) (a : A)
    → find (put table key a) other ≡ (if key == other then some a else find table other)
find-put [] key other a = refl
find-put ((k, b) ∷ rest) key other a = ground (arith, find-put rest key other a)

pub raise_if-ok {ℓ} :
    {A : Type ℓ} (bad : Bool) (e : Error) (m : Result A) {a : A}
    → (raise_if bad e >> m) ≡ ok a
    → (bad ≡ false) × (m ≡ ok a)
raise_if-ok true e m h = cc
raise_if-ok false e m h = (refl, h)

abbrev pub made : String → List String → Bool → Route
made ecu protocols answer_unsupported = record {
  ecu = ecu;
  protocols = protocols;
  answer_unsupported = answer_unsupported;
}

-- A route that could be made names an ECU and at least one protocol.
abbrev pub is_usable : Route → Bool
is_usable route =
    not (str_eq route.ecu "")
    && (not (length route.protocols == 0) && not (any (λ name. str_eq name "") route.protocols))

make_route_lem :
    (ecu : String) (protocols : List String) (answer_unsupported : Bool) (route : Route)
    → make_route ecu protocols answer_unsupported ≡ ok route
    → (route ≡ made ecu protocols answer_unsupported)
      × (is_usable (made ecu protocols answer_unsupported) ≡ true)
unfolding make_route
make_route_lem ecu protocols answer_unsupported route h =
    let (named, rest) = raise_if-ok (str_eq ecu "") value_error _ h in
    let (some_there, rest') = raise_if-ok (length protocols == 0) value_error _ rest in
    let (all_named, e) = raise_if-ok (any (λ name. str_eq name "") protocols) value_error _ rest' in
    (sym (ok-injective e), rw (named, some_there, all_named) refl)

pub add_physical_lem :
    (router after : AddressRouter) (address : ℕ) (ecu : String) (protocols : List String)
    (answer_unsupported : Bool)
    → add_physical router address ecu protocols answer_unsupported ≡ ok after
    → (put_physical router address (made ecu protocols answer_unsupported) ≡ ok after)
      × (is_usable (made ecu protocols answer_unsupported) ≡ true)
unfolding add_physical
add_physical_lem router after address ecu protocols answer_unsupported h =
    let (route, e, f) =
      >>=-eq-ok (make_route ecu protocols answer_unsupported) (put_physical router address) h in
    let (is_made, usable) = make_route_lem ecu protocols answer_unsupported route e in
    (ap (put_physical router address) (sym is_made) ∙ f, usable)

pub add_functional_lem :
    (router after : AddressRouter) (address : ℕ) (ecu : String) (protocols : List String)
    (answer_unsupported : Bool)
    → add_functional router address ecu protocols answer_unsupported ≡ ok after
    → (put_functional router address (made ecu protocols answer_unsupported) ≡ ok after)
      × (is_usable (made ecu protocols answer_unsupported) ≡ true)
unfolding add_functional
add_functional_lem router after address ecu protocols answer_unsupported h =
    let (route, e, f) =
      >>=-eq-ok (make_route ecu protocols answer_unsupported) (put_functional router address) h in
    let (is_made, usable) = make_route_lem ecu protocols answer_unsupported route e in
    (ap (put_functional router address) (sym is_made) ∙ f, usable)

pub put_physical_lem :
    (router after : AddressRouter) (address : ℕ) (route : Route)
    → put_physical router address route ≡ ok after
    → (is_some (find router.functional address) ≡ false)
      × (other_route (find router.physical address) route ≡ false)
      × (after ≡ record router { physical = put router.physical address route })
unfolding put_physical
put_physical_lem router after address route h =
    let (free, rest) = raise_if-ok (is_some (find router.functional address)) route_conflict _ h in
    let (same, e) =
      raise_if-ok (other_route (find router.physical address) route) route_conflict _ rest in
    (free, same, sym (ok-injective e))

abbrev pub extended_if : AddressRouter → ℕ → Route → Bool → AddressRouter
extended_if router address route there = if there then router else extended router address route

of_existing :
    (router after : AddressRouter) (address : ℕ) (route : Route) (found : Option Route)
    → (elim found [
      | some existing ↦ raise_if (not (same_route existing route)) route_conflict >> ok router
      | none ↦ ok (extended router address route)
    ])
      ≡ ok after
    → after ≡ (if is_some found then router else extended router address route)
of_existing router after address route none h = sym (ok-injective h)
of_existing router after address route (some existing) h =
    sym (ok-injective ((raise_if-ok (not (same_route existing route)) route_conflict _ h).1))

pub put_functional_lem :
    (router after : AddressRouter) (address : ℕ) (route : Route)
    → put_functional router address route ≡ ok after
    → (is_some (find router.physical address) ≡ false)
      × (after ≡ (
          if is_some (route_of (routes_at router.functional address) route.ecu)
          then router
          else extended router address route))
unfolding put_functional
put_functional_lem router after address route h =
    let (free, rest) = raise_if-ok (is_some (find router.physical address)) route_conflict _ h in
    (
      free,
      of_existing router after address route
          (route_of (routes_at router.functional address) route.ecu) rest,
    )

put_physical-resolve :
    (router after : AddressRouter) (address : ℕ) (route : Route) (request : DiagnosticRequest)
    → put_physical router address route ≡ ok after
    → resolve after request ≡ (
        if not request.functional && (address == request.target_address)
        then route ∷ []
        else resolve router request)
unfolding resolve
put_physical-resolve router after address route request h =
    let (free, same, g) = put_physical_lem router after address route h in
    rw (g, find-put router.physical address request.target_address route) (ground arith)

extended-resolve :
    (router : AddressRouter) (address : ℕ) (route : Route) (request : DiagnosticRequest)
    → resolve (extended router address route) request ≡ (
        if request.functional && (address == request.target_address)
        then routes_at router.functional address ++ route ∷ []
        else resolve router request)
unfolding resolve
extended-resolve router address route request =
    let longer = routes_at router.functional address ++ route ∷ [] in
    rw (routes_at, find-put router.functional address request.target_address longer) (ground arith)

put_functional-resolve :
    (router after : AddressRouter) (address : ℕ) (route : Route) (request : DiagnosticRequest)
    (there : Bool)
    → after ≡ extended_if router address route there
    → resolve after request ≡ (
        if request.functional && ((address == request.target_address) && not there)
        then routes_at router.functional address ++ route ∷ []
        else resolve router request)
put_functional-resolve router after address route request true h = rw h (ground arith)
put_functional-resolve router after address route request false h =
    rw h (ground (arith, extended-resolve router address route request))

-- A physical route that is added is what its address resolves to; no other request is affected.
pub add_physical-resolve :
    (router after : AddressRouter) (address : ℕ) (ecu : String) (protocols : List String)
    (answer_unsupported : Bool) (request : DiagnosticRequest)
    → add_physical router address ecu protocols answer_unsupported ≡ ok after
    → resolve after request ≡ (
        if not request.functional && (address == request.target_address)
        then made ecu protocols answer_unsupported ∷ []
        else resolve router request)
add_physical-resolve router after address ecu protocols answer_unsupported request h =
    put_physical-resolve router after address (made ecu protocols answer_unsupported) request
      (add_physical_lem router after address ecu protocols answer_unsupported h).0

-- What a functional address resolves to once a route is added: the routes before, and the new one
-- behind them unless the ECU has a route there already.
pub add_functional-resolve :
    (router after : AddressRouter) (address : ℕ) (ecu : String) (protocols : List String)
    (answer_unsupported : Bool) (request : DiagnosticRequest)
    → add_functional router address ecu protocols answer_unsupported ≡ ok after
    → resolve after request ≡ (
        if request.functional
          && ((address == request.target_address)
              && not (is_some (route_of (routes_at router.functional address) ecu)))
        then routes_at router.functional address ++ made ecu protocols answer_unsupported ∷ []
        else resolve router request)
add_functional-resolve router after address ecu protocols answer_unsupported request h =
    let route = made ecu protocols answer_unsupported in
    let (f, usable) = add_functional_lem router after address ecu protocols answer_unsupported h in
    let (free, g) = put_functional_lem router after address route f in
    put_functional-resolve router after address route request
      (is_some (route_of (routes_at router.functional address) ecu)) g
