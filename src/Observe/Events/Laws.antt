-- ===== src/Observe/Events/Laws.antt =====
-- What the events say of the exchanges of a dispatcher.
use ecu_simulator.Prelude.{
  ap, ℕ, String, ◌≡◌, refl, sym, ◌≢◌, true, false, Option, none, some, List, [], ◌∷◌, Error, Result,
  ok, err,
}
use mathlib.Core.Path.{subst}
use ecu_simulator.Transport.Messages.{DiagnosticRequest, DiagnosticResponse}
use ecu_simulator.Ecu.Router.{Route, resolve, is_some}
use ecu_simulator.Ecu.Dispatcher.{Dispatcher, call, route_to, synced, after_sync}
use ecu_simulator.Observe.Wrapper.{Answer, record_of}
use ecu_simulator.Observe.Events.{
  ExchangeOutcome, error, responded, no_response, unrouted, classify, ecu_of, silent,
}

-- The name of the first ECU that a request is routed to.
abbrev pub first_ecu : List Route → Option String
first_ecu [] = none
first_ecu (route ∷ rest) = some route.ecu

-- What an event should say of an answer.
abbrev pub expected : Answer → List Route → ExchangeOutcome × Option String
expected (err raised) routes = (error, first_ecu routes)
expected (ok none) [] = (unrouted, none)
expected (ok none) (route ∷ rest) = (no_response, some route.ecu)
expected (ok (some response)) routes = (responded, first_ecu routes)

-- An event about a request that an ECU was asked names the ECU.
abbrev pub IsNamed : ExchangeOutcome × Option String → Type 0
IsNamed (error, ecu) = Unit {0}
IsNamed (responded, ecu) = is_some ecu ≡ true
IsNamed (no_response, ecu) = is_some ecu ≡ true
IsNamed (unrouted, ecu) = is_some ecu ≡ false

silent-expected : (routes : List Route) → silent routes ≡ expected (ok none) routes
silent-expected [] = refl
silent-expected (route ∷ rest) = refl

ecu_of-first : (routes : List Route) → ecu_of routes ≡ first_ecu routes
ecu_of-first [] = refl
ecu_of-first (route ∷ rest) = refl

module _ {ℓ} {S : Type ℓ} where
  -- A request that no ECU is routed for gets no response.
  nowhere :
      (d : Dispatcher S) (before : Result (Unit {0}) × S) (request : DiagnosticRequest)
      → (response : DiagnosticResponse)
      → (after_sync before (λ t. route_to d.ecus t request [])).0 ≢ ok (some response)
  unfolding route_to
  nowhere d (ok _, s) request response e = cc
  nowhere d (err raised, s) request response e = cc

  routed :
      (d : Dispatcher S) (s : S) (request : DiagnosticRequest) (response : DiagnosticResponse)
      → (routes : List Route) → resolve d.router request ≡ routes
      → (call d s request).0 ≡ ok (some response)
      → is_some (first_ecu routes) ≡ true
  unfolding call
  routed d s request response [] e answered =
      absurd (nowhere d (synced d.sync s) request response (rw e at answered))
  routed d s request response (route ∷ rest) e answered = refl

  named :
      (d : Dispatcher S) (s : S) (request : DiagnosticRequest)
      → (answer : Answer) → (call d s request).0 ≡ answer
      → (routes : List Route) → resolve d.router request ≡ routes
      → IsNamed (expected answer routes)
  named d s request (err raised) e routes at_routes = tt
  named d s request (ok none) e [] at_routes = refl
  named d s request (ok none) e (route ∷ rest) at_routes = refl
  named d s request (ok (some response)) e routes at_routes =
      routed d s request response routes at_routes e

  classified :
      (d : Dispatcher S) (request : DiagnosticRequest) (class_name : Error → String)
      → (seq t0 t1 : ℕ) (answer : Answer)
      → classify (record_of class_name seq t0 t1 request answer) d.router
        ≡ expected answer (resolve d.router request)
  unfolding classify record_of
  classified d request class_name seq t0 t1 (err raised) =
      ap (λ (n : Option String). (error, n)) (ecu_of-first (resolve d.router request))
  classified d request class_name seq t0 t1 (ok none) = silent-expected (resolve d.router request)
  classified d request class_name seq t0 t1 (ok (some response)) =
      ap (λ (n : Option String). (responded, n)) (ecu_of-first (resolve d.router request))

  -- What an observed dispatcher did with a request is reported so: an exception as "error", a
  -- response as "responded", and no response as "unrouted" if no route is there for the request and
  -- else as "no_response"; each with the ECU of the first route, if there is a route. A response always comes with the name of
  -- an ECU, "no_response" too, and "unrouted" with none.
  pub classify-call :
      (d : Dispatcher S) (s : S) (request : DiagnosticRequest) (class_name : Error → String)
      → (seq t0 t1 : ℕ)
      → let answer = (call d s request).0 in
        let event = classify (record_of class_name seq t0 t1 request answer) d.router in
        (event ≡ expected answer (resolve d.router request)) × IsNamed event
  classify-call d s request class_name seq t0 t1 =
      let answer = (call d s request).0 in
      let same = classified d request class_name seq t0 t1 answer in
      (
        same,
        subst IsNamed (sym same) (named d s request answer refl (resolve d.router request) refl),
      )
