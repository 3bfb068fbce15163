-- ===== src/Ecu/Dispatcher/Resolved.antt =====
-- What a lookup in a routing table gives: what holds of all its routes, and how many there are.
use ecu_simulator.Prelude.{
  ℕ, ◌≤◌, ◌≡◌, refl, sym, ap, ◌∙◌, inl, inr, Bool, false, some, List, [], ◌∷◌, ◌++◌, map, arith,
  ltb, ◌==◌, Bool-cases, Option-cases, length, any, not_implemented, ok,
}
use ecu_simulator.Transport.Messages.{DiagnosticRequest}
use ecu_simulator.Ecu.Router.{
  Route, AddressRouter, all_routes, functional_routes, resolve, find, routes_at,
}
use ecu_simulator.Ecu.Router.Laws.{raise_if-ok}
use ecu_simulator.Ecu.Dispatcher.{reject_fan_out, no_fan_out}

any-append :
    (test : Route → Bool) (xs ys : List Route)
    → any test (xs ++ ys) ≡ false
    → (any test xs ≡ false) × (any test ys ≡ false)
any-append test [] ys h = (refl, h)
any-append test (x ∷ xs) ys h = ground (arith, any-append test xs ys)

pub injective {ℓ} : {A : Type ℓ} {a b : A} → some a ≡ some b → a ≡ b
injective e = cc

-- Which tests of all the routes of a table hold of those that one lookup gives.
physical-any :
    (test : Route → Bool) (table : List (ℕ × Route)) (address : ℕ) (route : Route)
    → any test (map (λ (entry : ℕ × Route). entry.1) table) ≡ false
    → find table address ≡ some route
    → test route ≡ false
physical-any test [] address route h e = cc
physical-any test ((a, r) ∷ rest) address route h e = elim (Bool-cases (a == address)) [
  | inl here ↦
      let same : r ≡ route = injective (rw here at e) in ap test (sym same) ∙ (ground arith)
  | inr there ↦ physical-any test rest address route (ground arith) (rw there at e)
]

functional-any :
    (test : Route → Bool) (table : List (ℕ × List Route)) (address : ℕ)
    → any test (functional_routes table) ≡ false
    → any test (routes_at table address) ≡ false
functional-any test [] address h = refl
functional-any test ((a, routes) ∷ rest) address h =
    let (here, there) = any-append test routes (functional_routes rest) h in
    ground (arith, functional-any test rest address there)

single :
    (table : List (ℕ × List Route)) (address : ℕ)
    → no_fan_out table ≡ ok tt
    → length (routes_at table address) ≤ 1
unfolding no_fan_out reject_fan_out
single [] address h = omega arith
single ((a, routes) ∷ rest) address h =
    let (few, more) = raise_if-ok (ltb 1 (length routes)) not_implemented _ h in
    ground (arith, single rest address more)

pub resolved-any :
    (test : Route → Bool) (router : AddressRouter) (request : DiagnosticRequest)
    → any test (all_routes router) ≡ false
    → any test (resolve router request) ≡ false
unfolding resolve
resolved-any test router request h =
    let (physical, functional) =
      any-append test (map (λ (entry : ℕ × Route). entry.1) router.physical)
        (functional_routes router.functional) h in
    elim (Bool-cases request.functional) [
      | inl fan ↦ rw fan (functional-any test router.functional request.target_address functional)
      | inr one ↦ elim (Option-cases (find router.physical request.target_address)) [
        | inl unrouted ↦ rw (one, unrouted) refl
        | inr (route, found) ↦
            rw (one, found)
              (rw (physical-any test router.physical request.target_address route physical found)
                refl)
      ]
    ]

pub resolved-single :
    (router : AddressRouter) (request : DiagnosticRequest)
    → no_fan_out router.functional ≡ ok tt
    → length (resolve router request) ≤ 1
unfolding resolve
resolved-single router request h =
    let fan : length (routes_at router.functional request.target_address) ≤ 1 =
      single router.functional request.target_address h in
    ground (arith, fan)
