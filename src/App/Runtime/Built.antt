-- ===== src/App/Runtime/Built.antt =====
-- The dispatcher of a validated profile.
use ecu_simulator.Prelude.{
  String, ◌≡◌, refl, ◌∙◌, Bool, true, false, ◌||◌, Option, some, List, [], ◌∷◌, ◌++◌, map, arith,
  str_eq, eq_iff, any, all, All, ℤ, Result, ok, ◌>>◌,
}
use ecu_simulator.Base.{DiagnosticProtocol}
use ecu_simulator.Ecu.Router.{
  Route, AddressRouter, empty_router, names, functional_routes, all_routes,
}
use ecu_simulator.Ecu.Ecu.{Ecu}
use ecu_simulator.Ecu.Dispatcher.{make_dispatcher, no_fan_out, ecu_named, is_unknown, is_missing}
use ecu_simulator.Vehicle.Floats.{Floats}
use ecu_simulator.Config.Schema.{EndpointConfigModel, EcuConfig, Ecus, check_ecu, each, has_repeat}
use ecu_simulator.App.Ecus.{World, sorted_set, mentioned}
use ecu_simulator.App.Ecus.Wanted.{sorted-names}
use ecu_simulator.App.Ecus.Validated.{build_ecus-Built}
use ecu_simulator.App.Routing.{build_router}
use ecu_simulator.App.Runtime.{ecus_of, build_dispatcher}
use ecu_simulator.App.Runtime.Served.{
  keys, IsServed, AllBuilt-IsServed, AllBuilt-distinct, AllBuilt-names,
}
use ecu_simulator.App.Runtime.Dispatched.{any-append, Passes, add_ecus-IsFree, narrow}

names-append : (p : String) (xs ys : List String) → names p (xs ++ ys) ≡ (names p xs || names p ys)
names-append p [] ys = refl
names-append p (x ∷ xs) ys = ground (arith, names-append p xs ys)

all-within :
    (xs ys : List String)
    → ((p : String) → names p xs ≡ true → names p ys ≡ true)
    → all (λ n. names n ys) xs ≡ true
all-within [] ys h = refl
all-within (x ∷ xs) ys h =
    let first : names x ys ≡ true = h x (ground (arith, eq_iff x x)) in
    let others = all-within xs ys (λ p there. h p (ground (arith, there))) in
    rw (first, others) refl

module _ ⦃F : Floats⦄ where
  Passes-unknown :
      (es : List (Ecu World)) (key : String) (e : Ecu World) (endpoints : List EndpointConfigModel)
      → ecu_named es key ≡ some e
      → Passes (is_unknown es) key endpoints
  unfolding is_unknown
  Passes-unknown es key e [] found = tt
  Passes-unknown es key e (m ∷ rest) found =
      (rw (found, is_unknown) refl, Passes-unknown es key e rest found)

  Passes-missing :
      (es : List (Ecu World)) (key : String) (e : Ecu World)
      (whole endpoints : List EndpointConfigModel)
      → ecu_named es key ≡ some e
      → map (λ (p : DiagnosticProtocol World). p.name) e.protocols ≡ sorted_set (mentioned whole)
      → ((p : String) → names p (mentioned endpoints) ≡ true → names p (mentioned whole) ≡ true)
      → Passes (is_missing es) key endpoints
  unfolding is_missing
  Passes-missing es key e whole [] found served within = tt
  Passes-missing es key e whole (m ∷ rest) found served within =
      let all_there : all (λ n. names n (sorted_set (mentioned whole))) m.protocols ≡ true =
        all-within m.protocols (sorted_set (mentioned whole)) (λ p there.
          sorted-names p (mentioned whole)
          ∙ within p (names-append p m.protocols (mentioned rest) ∙ (ground (arith, there)))) in
      (
        rw (found, is_missing) (rw (served, all_there) refl),
        Passes-missing es key e whole rest found served (λ p there.
            within p (names-append p m.protocols (mentioned rest) ∙ (ground (arith, there)))),
      )

  all_pass :
      (es : List (Ecu World)) (ecus : Ecus)
      → All (IsServed es) ecus
      → All (λ (entry : String × EcuConfig). Passes (is_unknown es) entry.0 entry.1.endpoints) ecus
        × All
            (λ (entry : String × EcuConfig). Passes (is_missing es) entry.0 entry.1.endpoints)
            ecus
  all_pass es [] h = (tt, tt)
  all_pass es ((key, config) ∷ rest) h =
      let ih = all_pass es rest h.1 in
      let (e, found, served) = h.0 in
      (
        (Passes-unknown es key e config.endpoints found, ih.0),
        (
          Passes-missing es key e config.endpoints config.endpoints found served (λ p there. there),
          ih.1,
        ),
      )

  free :
      (test : Route → Bool) (ecus : Ecus) (router : AddressRouter)
      → build_router ecus ≡ ok router
      → All (λ (entry : String × EcuConfig). Passes test entry.0 entry.1.endpoints) ecus
      → any test (all_routes router) ≡ false
  free test ecus router built pass =
      let f =
        add_ecus-IsFree test empty_router router ecus built pass
          (record { physical = refl; broadcast = refl }) in
      any-append test (narrow router.physical) (functional_routes router.functional)
      ∙ (rw (f.physical, f.broadcast) refl)

  -- Where the section of each ECU passes validation, the keys are distinct and none is empty, and the
  -- routing table can be built, the dispatcher is built with that table and one ECU for each key,
  -- unless a functional address has the routes of several ECUs: of the checks of its constructor no
  -- other one can fail.
  pub build_dispatcher_lem :
      (parse_hex : String → Result ℤ) (ecus : Ecus) (router : AddressRouter)
      → (sync : Option (World → Result (Unit {0}) × World))
      → each (λ (entry : String × EcuConfig). check_ecu parse_hex entry.1) ecus ≡ ok tt
      → any (λ (entry : String × EcuConfig). str_eq entry.0 "") ecus ≡ false
      → has_repeat (keys ecus) ≡ false
      → build_router ecus ≡ ok router
      → (es : List (Ecu World)) × (map (λ (e : Ecu World). e.name) es ≡ keys ecus)
        × (build_dispatcher ecus sync ≡ (
            no_fan_out router.functional
            >> ok (record { router = router; ecus = es; sync = sync })))
  unfolding build_dispatcher make_dispatcher
  build_dispatcher_lem parse_hex ecus router sync checked named distinct built =
      let (outs, made_all, b) = build_ecus-Built parse_hex ecus checked named in
      let es = ecus_of outs in
      let pass = all_pass es ecus (AllBuilt-IsServed ecus outs b distinct) in
      let known = free (is_unknown es) ecus router built pass.0 in
      let served = free (is_missing es) ecus router built pass.1 in
      let once = AllBuilt-distinct ecus outs b distinct in
      (es, AllBuilt-names ecus outs b, rw (made_all, built, once, known, served) refl)
