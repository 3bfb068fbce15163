-- ===== src/Ecu/Router/Built.antt =====
-- Every routing table that the two calls can build.
use ecu_simulator.Prelude.{
  ℕ, String, ◌≡◌, refl, sym, ap, ◌∙◌, inl, inr, Bool, true, false, not, ◌&&◌, ◌||◌, List, [], ◌∷◌,
  ◌++◌, arith, str_eq, eq_iff, ◌==◌, Bool-cases, ok,
}
use ecu_simulator.Ecu.Router.{
  Route, AddressRouter, empty_router, find, is_some, add_physical, routes_at, route_of,
  add_functional, put,
}
use ecu_simulator.Ecu.Router.Laws.{
  find-put, made, add_physical_lem, add_functional_lem, put_physical_lem, put_functional_lem,
  extended_if,
}

-- The routing tables that the two calls build, from the empty one.
pub data Built : AddressRouter → Type 0 where
  nothing : Built empty_router
  physical :
      {router after : AddressRouter} (address : ℕ) (ecu : String) (protocols : List String)
      (answer_unsupported : Bool)
      → Built router
      → add_physical router address ecu protocols answer_unsupported ≡ ok after
      → Built after
  functional :
      {router after : AddressRouter} (address : ℕ) (ecu : String) (protocols : List String)
      (answer_unsupported : Bool)
      → Built router
      → add_functional router address ecu protocols answer_unsupported ≡ ok after
      → Built after

-- No ECU has two routes.
abbrev pub distinct_ecus : List Route → Bool
distinct_ecus [] = true
distinct_ecus (route ∷ rest) = not (is_some (route_of rest route.ecu)) && distinct_ecus rest

-- What a tester on one address can rely on.
abbrev pub is_sound : AddressRouter → ℕ → Bool
is_sound router address =
    not (is_some (find router.physical address) && is_some (find router.functional address))
    && distinct_ecus (routes_at router.functional address)

route_of-append :
    (routes : List Route) (route : Route) (ecu : String)
    → is_some (route_of (routes ++ route ∷ []) ecu)
      ≡ (is_some (route_of routes ecu) || str_eq route.ecu ecu)
route_of-append [] route ecu = ground arith
route_of-append (r ∷ rest) route ecu = ground (arith, route_of-append rest route ecu)

str_eq-sym : (a b : String) → str_eq a b ≡ str_eq b a
str_eq-sym a b = ground (arith, eq_iff a b, eq_iff b a)

distinct_ecus-append :
    (routes : List Route) (route : Route)
    → distinct_ecus routes ≡ true
    → is_some (route_of routes route.ecu) ≡ false
    → distinct_ecus (routes ++ route ∷ []) ≡ true
distinct_ecus-append [] route h absent = refl
distinct_ecus-append (r ∷ rest) route h absent = ground (
  arith,
  distinct_ecus-append rest route,
  route_of-append rest route r.ecu,
  str_eq-sym route.ecu r.ecu,
)

sound_physical :
    (router : AddressRouter) (address other : ℕ) (route : Route)
    → is_some (find router.functional address) ≡ false
    → is_sound router other ≡ true
    → is_sound (record router { physical = put router.physical address route }) other ≡ true
sound_physical router address other route free h = elim (Bool-cases (address == other)) [
  | inr differs ↦ rw (find-put router.physical address other route, differs) h
  | inl agrees ↦
      let same : address ≡ other = ground arith in
      let unshared : is_some (find router.functional other) ≡ false =
        ap (λ (a : ℕ). is_some (find router.functional a)) (sym same) ∙ free in
      rw (find-put router.physical address other route, agrees) (ground (arith, unshared))
]

sound_functional :
    (router : AddressRouter) (address other : ℕ) (route : Route) (there : Bool)
    → is_some (route_of (routes_at router.functional address) route.ecu) ≡ there
    → is_some (find router.physical address) ≡ false
    → is_sound router other ≡ true
    → is_sound (extended_if router address route there) other ≡ true
sound_functional router address other route true e free h = h
sound_functional router address other route false e free h =
    let longer = routes_at router.functional address ++ route ∷ [] in
    elim (Bool-cases (address == other)) [
      | inr differs ↦ rw (routes_at, find-put router.functional address other longer, differs) h
      | inl agrees ↦
          let same : address ≡ other = ground arith in
          let unshared : is_some (find router.physical other) ≡ false =
            ap (λ (a : ℕ). is_some (find router.physical a)) (sym same) ∙ free in
          let distinct : distinct_ecus (routes_at router.functional other) ≡ true = ground arith in
          let distinct' : distinct_ecus longer ≡ true =
            distinct_ecus-append (routes_at router.functional address) route
              (ap (λ (a : ℕ). distinct_ecus (routes_at router.functional a)) same ∙ distinct) e in
          rw (routes_at, find-put router.functional address other longer, agrees)
            (ground (arith, unshared, distinct'))
    ]

-- Whatever calls have built a routing table: no address is both physical and functional, and on no
-- functional address does an ECU have two routes.
pub Built-sound :
    (router : AddressRouter) (address : ℕ) → Built router → is_sound router address ≡ true
Built-sound router address nothing = refl
Built-sound router address (physical {router = before} at ecu protocols flag b h) =
    let route = made ecu protocols flag in
    let (f, _) = add_physical_lem before router at ecu protocols flag h in
    let (free, _, g) = put_physical_lem before router at route f in
    rw g (sound_physical before at address route free (Built-sound before address b))
Built-sound router address (functional {router = before} at ecu protocols flag b h) =
    let route = made ecu protocols flag in
    let (f, _) = add_functional_lem before router at ecu protocols flag h in
    let (free, g) = put_functional_lem before router at route f in
    rw g (
      sound_functional before at address route
        (is_some (route_of (routes_at before.functional at) ecu)) refl free
        (Built-sound before address b))
