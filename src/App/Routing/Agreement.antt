-- ===== src/App/Routing/Agreement.antt =====
-- The sockets and the routes that one profile gives.
use ecu_simulator.Prelude.{
  ℕ, String, ◌≡◌, refl, inl, inr, Bool, true, false, not, ◌&&◌, ◌||◌, Option, none, some, List, [],
  ◌∷◌, arith, ◌==◌, if◌then◌else◌, Bool-cases, Option-cases, ok,
}
use ecu_simulator.Config.Schema.{EndpointConfigModel, Ecus, is_functional}
use ecu_simulator.Ecu.Router.{
  Route, AddressRouter, put_physical, put_functional, find, put, is_some, routes_at, route_of,
  extended,
}
use ecu_simulator.Ecu.Router.Laws.{find-put, put_physical_lem, put_functional_lem}
use ecu_simulator.App.Routing.{Kinds}

-- What a router says of an address: whether it is functional, if there is a route at all.
abbrev pub kind_of : AddressRouter → ℕ → Option Bool
kind_of router address =
    if is_some (find router.functional address)
    then some true
    else if is_some (find router.physical address)
    then some false
    else none

-- The kinds that endpoints give, read off a profile.
abbrev pub heard : Kinds → List EndpointConfigModel → Kinds
heard kinds [] = kinds
heard kinds (e ∷ rest) = heard (put kinds e.rx (is_functional e.addressing)) rest

abbrev pub heard_all : Kinds → Ecus → Kinds
heard_all kinds [] = kinds
heard_all kinds ((name, ecu) ∷ rest) = heard_all (heard kinds ecu.endpoints) rest

pub record Agrees (kinds : Kinds) (router : AddressRouter) : Type 0 where
  pub same : (address : ℕ) → find kinds address ≡ kind_of router address
  pub apart :
      (address : ℕ)
      → (is_some (find router.physical address) && is_some (find router.functional address)) ≡ false

-- What adding one endpoint does to the two tables.
pub record Added (router after : AddressRouter) (key : ℕ) (functional : Bool) : Type 0 where
  pub free :
      (if functional
        then is_some (find router.physical key)
        else is_some (find router.functional key))
      ≡ false
  pub physical :
      (a : ℕ)
      → is_some (find after.physical a)
        ≡ (not functional && key == a || is_some (find router.physical a))
  pub broadcast :
      (a : ℕ)
      → is_some (find after.functional a)
        ≡ (functional && key == a || is_some (find router.functional a))

is_some-put :
    {A : Type 0} (table : List (ℕ × A)) (key other : ℕ) (a : A)
    → is_some (find (put table key a) other) ≡ (key == other || is_some (find table other))
is_some-put table key other a = ground (arith, find-put table key other a)

has_routes :
    (table : List (ℕ × List Route)) (key : ℕ) (ecu : String)
    → is_some (route_of (routes_at table key) ecu) ≡ true
    → is_some (find table key) ≡ true
has_routes table key ecu h = elim (Option-cases (find table key)) [
  | inl absent ↦ cc
  | inr (routes, there) ↦ rw there refl
]

pub put_physical-Added :
    (router after : AddressRouter) (key : ℕ) (route : Route)
    → put_physical router key route ≡ ok after
    → Added router after key false
put_physical-Added router after key route h =
    let (free, _, e) = put_physical_lem router after key route h in
    record {
      free = free;
      physical = λ a. rw e (is_some-put router.physical key a route);
      broadcast = λ a. rw e refl;
    }

pub put_functional-Added :
    (router after : AddressRouter) (key : ℕ) (route : Route)
    → put_functional router key route ≡ ok after
    → Added router after key true
put_functional-Added router after key route h =
    let (free, e) = put_functional_lem router after key route h in
    elim (Bool-cases (is_some (route_of (routes_at router.functional key) route.ecu))) [
      | inl there ↦
          let same : after ≡ router = rw there at e in
          record {
            free = free;
            physical = λ a. rw same refl;
            broadcast =
                λ a. rw same (ground (arith, has_routes router.functional key route.ecu there));
          }
      | inr new ↦
          let same : after ≡ extended router key route = rw new at e in
          record {
            free = free;
            physical = λ a. rw same refl;
            broadcast = λ a. rw same (is_some-put router.functional key a _);
          }
    ]

pub Added-Agrees :
    (kinds : Kinds) (router after : AddressRouter) (key : ℕ) (functional : Bool)
    → Added router after key functional
    → Agrees kinds router
    → Agrees (put kinds key functional) after
Added-Agrees kinds router after key functional d g = record {
  same = λ a. ground (
    arith,
    find-put kinds key a functional,
    d.free,
    d.physical a,
    d.broadcast a,
    g.same a,
    g.apart a,
  );
  apart = λ a. ground (arith, d.free, d.physical a, d.broadcast a, g.apart a);
}
