-- ===== src/App/Runtime/Dispatched.antt =====
-- Which checks of the dispatcher a validated profile cannot fail.
use ecu_simulator.Prelude.{
  ℕ, String, ◌≡◌, refl, ◌∙◌, inl, inr, Bool, false, ◌||◌, List, [], ◌∷◌, ◌++◌, map, arith, ◌==◌,
  Bool-cases, ok-injective, any, All, ok, >>=-eq-ok,
}
use ecu_simulator.Ecu.Router.{
  Route, AddressRouter, put_physical, put_functional, put, routes_at, route_of, is_some, extended,
  functional_routes,
}
use ecu_simulator.Ecu.Router.Laws.{
  made, add_physical_lem, add_functional_lem, put_physical_lem, put_functional_lem,
}
use ecu_simulator.Config.Schema.{
  EndpointConfigModel, EcuConfig, Ecus, is_functional, answers_unsupported,
}
use ecu_simulator.App.Routing.{add_endpoint, add_endpoints, add_ecus}

pub any-append :
    (test : Route → Bool) (xs ys : List Route) → any test (xs ++ ys) ≡ (any test xs || any test ys)
any-append test [] ys = refl
any-append test (x ∷ xs) ys = ground (arith, any-append test xs ys)

abbrev pub narrow : List (ℕ × Route) → List Route
narrow = map (λ (entry : ℕ × Route). entry.1)

put-narrow :
    (test : Route → Bool) (table : List (ℕ × Route)) (key : ℕ) (route : Route)
    → any test (narrow table) ≡ false
    → test route ≡ false
    → any test (narrow (put table key route)) ≡ false
put-narrow test [] key route h r = ground arith
put-narrow test ((k, b) ∷ rest) key route h r =
    ground (arith, put-narrow test rest key route (ground arith) r)

put-wide :
    (test : Route → Bool) (table : List (ℕ × List Route)) (key : ℕ) (routes : List Route)
    → any test (functional_routes table) ≡ false
    → any test routes ≡ false
    → any test (functional_routes (put table key routes)) ≡ false
put-wide test [] key routes h r = any-append test routes [] ∙ (ground (arith, r))
put-wide test ((k, b) ∷ rest) key routes h r =
    let both = any-append test b (functional_routes rest) in
    let ih = put-wide test rest key routes (ground (arith, both)) r in
    elim (Bool-cases (k == key)) [
      | inl here ↦
          rw here (any-append test routes (functional_routes rest) ∙ (ground (arith, both)))
      | inr there ↦
          rw there
            (any-append test b (functional_routes (put rest key routes)) ∙ (ground (arith, both)))
    ]

at-wide :
    (test : Route → Bool) (table : List (ℕ × List Route)) (key : ℕ)
    → any test (functional_routes table) ≡ false
    → any test (routes_at table key) ≡ false
at-wide test [] key h = refl
at-wide test ((k, b) ∷ rest) key h = ground (
  arith,
  any-append test b (functional_routes rest),
  at-wide test rest key (ground (arith, any-append test b (functional_routes rest))),
)

-- No route of either table passes the test.
pub record IsFree (test : Route → Bool) (router : AddressRouter) : Type 0 where
  pub physical : any test (narrow router.physical) ≡ false
  pub broadcast : any test (functional_routes router.functional) ≡ false

put_physical-IsFree :
    (test : Route → Bool) (router after : AddressRouter) (key : ℕ) (route : Route)
    → put_physical router key route ≡ ok after
    → test route ≡ false
    → IsFree test router
    → IsFree test after
put_physical-IsFree test router after key route h r f =
    let (_, _, e) = put_physical_lem router after key route h in
    rw e (record {
      physical = put-narrow test router.physical key route f.physical r;
      broadcast = f.broadcast;
    })

extended-IsFree :
    (test : Route → Bool) (router : AddressRouter) (key : ℕ) (route : Route)
    → test route ≡ false
    → IsFree test router
    → IsFree test (extended router key route)
extended-IsFree test router key route r f =
    let longer = routes_at router.functional key ++ route ∷ [] in
    let old = at-wide test router.functional key f.broadcast in
    record {
      physical = f.physical;
      broadcast = put-wide test router.functional key longer f.broadcast (
          any-append test (routes_at router.functional key) (route ∷ [])
          ∙ (ground (arith, old, r)));
    }

put_functional-IsFree :
    (test : Route → Bool) (router after : AddressRouter) (key : ℕ) (route : Route)
    → put_functional router key route ≡ ok after
    → test route ≡ false
    → IsFree test router
    → IsFree test after
put_functional-IsFree test router after key route h r f =
    let (_, e) = put_functional_lem router after key route h in
    elim (Bool-cases (is_some (route_of (routes_at router.functional key) route.ecu))) [
      | inl there ↦ let same : after ≡ router = rw there at e in rw same f
      | inr new ↦
          let same : after ≡ extended router key route = rw new at e in
          rw same (extended-IsFree test router key route r f)
    ]

-- The routes that one ECU's endpoints make.
abbrev pub Passes : (Route → Bool) → String → List EndpointConfigModel → Type 0
Passes test ecu [] = Unit {0}
Passes test ecu (e ∷ rest) =
    (test (made ecu e.protocols (answers_unsupported e)) ≡ false) × Passes test ecu rest

add_endpoint-IsFree :
    (test : Route → Bool) (router after : AddressRouter) (ecu : String) (e : EndpointConfigModel)
    → add_endpoint router ecu e ≡ ok after
    → test (made ecu e.protocols (answers_unsupported e)) ≡ false
    → IsFree test router
    → IsFree test after
unfolding add_endpoint
add_endpoint-IsFree test router after ecu e h r f =
    let route = made ecu e.protocols (answers_unsupported e) in
    elim (Bool-cases (is_functional e.addressing)) [
      | inl broad ↦
          let (added, _) =
            add_functional_lem router after e.rx ecu e.protocols (answers_unsupported e)
              (rw broad at h) in
          put_functional-IsFree test router after e.rx route added r f
      | inr slim ↦
          let (added, _) =
            add_physical_lem router after e.rx ecu e.protocols (answers_unsupported e)
              (rw slim at h) in
          put_physical-IsFree test router after e.rx route added r f
    ]

add_endpoints-IsFree :
    (test : Route → Bool) (router after : AddressRouter) (ecu : String)
    → (es : List EndpointConfigModel) → add_endpoints router ecu es ≡ ok after
    → Passes test ecu es
    → IsFree test router
    → IsFree test after
unfolding add_endpoints
add_endpoints-IsFree test router after ecu [] h r f = rw (← ok-injective h) f
add_endpoints-IsFree test router after ecu (e ∷ rest) h r f =
    let (mid, first, more) = >>=-eq-ok (add_endpoint router ecu e) _ h in
    add_endpoints-IsFree test mid after ecu rest more r.1
      (add_endpoint-IsFree test router mid ecu e first r.0 f)

pub add_ecus-IsFree :
    (test : Route → Bool) (router after : AddressRouter) (ecus : Ecus)
    → add_ecus router ecus ≡ ok after
    → All (λ (entry : String × EcuConfig). Passes test entry.0 entry.1.endpoints) ecus
    → IsFree test router
    → IsFree test after
unfolding add_ecus
add_ecus-IsFree test router after [] h r f = rw (← ok-injective h) f
add_ecus-IsFree test router after ((name, ecu) ∷ rest) h r f =
    let (mid, first, more) = >>=-eq-ok (add_endpoints router name ecu.endpoints) _ h in
    add_ecus-IsFree test mid after rest more r.1
      (add_endpoints-IsFree test router mid name ecu.endpoints first r.0 f)
