-- ===== src/App/Routing/Checked.antt =====
-- What `check_routes` finds of the sockets and the routes of one profile.
use ecu_simulator.Prelude.{
  ℕ, String, ◌≡◌, refl, sym, ap, ◌∙◌, inl, inr, Bool, true, false, not, Option, none, some, List,
  [], ◌∷◌, ◌++◌, arith, leb, ◌==◌, if◌then◌else◌, Bool-cases, ok-injective, any, all, traverse, ok,
  >>=-eq-ok,
}
use ecu_simulator.Prelude.{address_error}
use mathlib.Core.Path.{subst}
use ecu_simulator.Config.Schema.{EndpointConfigModel, Ecus, is_functional, answers_unsupported}
use ecu_simulator.Transport.Messages.{normal_11bit}
use ecu_simulator.Transport.IsoTp.{IsoTpAddress, iso_tp_address, iso_tp_options, limit_of}
use ecu_simulator.Transport.Endpoints.{EndpointConfig}
use ecu_simulator.Ecu.Router.{AddressRouter, empty_router, find, put, is_some}
use ecu_simulator.Ecu.Router.Laws.{
  find-put, raise_if-ok, made, add_physical_lem, add_functional_lem,
}
use ecu_simulator.App.Routing.{
  reply_name, build_endpoint, build_endpoints, add_endpoint, add_endpoints, add_ecus, build_router,
  Kinds, listening, routed, disagrees, check_routes,
}
use ecu_simulator.App.Routing.Agreement.{
  kind_of, heard, heard_all, Agrees, put_physical-Added, put_functional-Added, Added-Agrees,
}

add_endpoint-Agrees :
    (kinds : Kinds) (router after : AddressRouter) (ecu : String) (e : EndpointConfigModel)
    → add_endpoint router ecu e ≡ ok after
    → Agrees kinds router
    → Agrees (put kinds e.rx (is_functional e.addressing)) after
unfolding add_endpoint
add_endpoint-Agrees kinds router after ecu e h g =
    let route = made ecu e.protocols (answers_unsupported e) in
    elim (Bool-cases (is_functional e.addressing)) [
      | inl broad ↦
          let (added, _) =
            add_functional_lem router after e.rx ecu e.protocols (answers_unsupported e)
              (rw broad at h) in
          rw broad (
            Added-Agrees kinds router after e.rx true
              (put_functional-Added router after e.rx route added) g)
      | inr narrow ↦
          let (added, _) =
            add_physical_lem router after e.rx ecu e.protocols (answers_unsupported e)
              (rw narrow at h) in
          rw narrow (
            Added-Agrees kinds router after e.rx false
              (put_physical-Added router after e.rx route added) g)
    ]

add_endpoints-Agrees :
    (kinds : Kinds) (router after : AddressRouter) (ecu : String) (es : List EndpointConfigModel)
    → add_endpoints router ecu es ≡ ok after
    → Agrees kinds router
    → Agrees (heard kinds es) after
unfolding add_endpoints
add_endpoints-Agrees kinds router after ecu [] h g = rw (← ok-injective h) g
add_endpoints-Agrees kinds router after ecu (e ∷ rest) h g =
    let (mid, first, more) = >>=-eq-ok (add_endpoint router ecu e) _ h in
    add_endpoints-Agrees (put kinds e.rx (is_functional e.addressing)) mid after ecu rest more
      (add_endpoint-Agrees kinds router mid ecu e first g)

add_ecus-Agrees :
    (kinds : Kinds) (router after : AddressRouter) (ecus : Ecus)
    → add_ecus router ecus ≡ ok after
    → Agrees kinds router
    → Agrees (heard_all kinds ecus) after
unfolding add_ecus
add_ecus-Agrees kinds router after [] h g = rw (← ok-injective h) g
add_ecus-Agrees kinds router after ((name, ecu) ∷ rest) h g =
    let (mid, first, more) = >>=-eq-ok (add_endpoints router name ecu.endpoints) _ h in
    add_ecus-Agrees (heard kinds ecu.endpoints) mid after rest more
      (add_endpoints-Agrees kinds router mid name ecu.endpoints first g)

-- What one built endpoint keeps of its model.
record IsBuilt (e : EndpointConfigModel) (c : EndpointConfig) : Type 0 where
  rx : c.address.rx_id ≡ e.rx
  functional : c.functional ≡ is_functional e.addressing
  receive : c.receive ≡ true

address-rx :
    (rx tx : ℕ) (a : IsoTpAddress) → iso_tp_address rx tx normal_11bit ≡ ok a → a.rx_id ≡ rx
unfolding iso_tp_address
address-rx rx tx a h =
    let (_, h1) = raise_if-ok (not (leb rx (limit_of normal_11bit))) address_error _ h in
    let (_, h2) = raise_if-ok (not (leb tx (limit_of normal_11bit))) address_error _ h1 in
    let (_, h3) = raise_if-ok (rx == tx) address_error _ h2 in
    ap (λ (b : IsoTpAddress). b.rx_id) (sym (ok-injective h3))

build_endpoint-IsBuilt :
    (ecu : String) (all : List EndpointConfigModel) (e : EndpointConfigModel) (c : EndpointConfig)
    → build_endpoint ecu all e ≡ ok c
    → IsBuilt e c
unfolding build_endpoint
build_endpoint-IsBuilt ecu all e c h =
    let (address, h1, h2) = >>=-eq-ok (iso_tp_address e.rx e.tx normal_11bit) _ h in
    let (options, _, h3) = >>=-eq-ok (iso_tp_options e.tx_padding e.pad_byte 0 0) _ h2 in
    let (via, _, h4) = >>=-eq-ok (reply_name ecu all e.reply_via) _ h3 in
    record {
      rx =
          ap (λ (d : EndpointConfig). d.address.rx_id) (sym (ok-injective h4))
          ∙ address-rx e.rx e.tx address h1;
      functional = ap (λ (d : EndpointConfig). d.functional) (sym (ok-injective h4));
      receive = ap (λ (d : EndpointConfig). d.receive) (sym (ok-injective h4));
    }

listening-append :
    (kinds : Kinds) (a b : List EndpointConfig)
    → listening kinds (a ++ b) ≡ listening (listening kinds a) b
unfolding listening
listening-append kinds [] b = refl
listening-append kinds (e ∷ rest) b =
    listening-append (if e.receive then put kinds e.address.rx_id e.functional else kinds) rest b

listening-heard :
    (ecu : String) (all es : List EndpointConfigModel) (kinds : Kinds) (cs : List EndpointConfig)
    → traverse (build_endpoint ecu all) es ≡ ok cs
    → listening kinds cs ≡ heard kinds es
unfolding listening
listening-heard ecu all [] kinds cs h = rw (← ok-injective h) refl
listening-heard ecu all (e ∷ rest) kinds cs h =
    let (c, first, more) = >>=-eq-ok (build_endpoint ecu all e) _ h in
    let (tail, second, done) = >>=-eq-ok (traverse (build_endpoint ecu all) rest) _ more in
    let b = build_endpoint-IsBuilt ecu all e c first in
    let ih =
      listening-heard ecu all rest (put kinds e.rx (is_functional e.addressing)) tail second in
    let one : (if c.receive then put kinds c.address.rx_id c.functional else kinds)
        ≡ put kinds e.rx (is_functional e.addressing) =
      rw (b.receive, b.rx, b.functional) refl in
    rw (← ok-injective done) (ap (λ (k : Kinds). listening k tail) one ∙ ih)

build_endpoints-heard :
    (kinds : Kinds) (ecus : Ecus) (cs : List EndpointConfig)
    → build_endpoints ecus ≡ ok cs
    → listening kinds cs ≡ heard_all kinds ecus
unfolding build_endpoints
build_endpoints-heard kinds [] cs h = rw (← ok-injective h) (unfold listening in refl)
build_endpoints-heard kinds ((name, ecu) ∷ rest) cs h =
    let (first, h1, h2) =
      >>=-eq-ok (traverse (build_endpoint name ecu.endpoints) ecu.endpoints) _ h in
    let (others, h3, h4) = >>=-eq-ok (build_endpoints rest) _ h2 in
    rw (← ok-injective h4) (
      listening-append kinds first others
      ∙ ap (λ (k : Kinds). listening k others)
          (listening-heard name ecu.endpoints ecu.endpoints kinds first h1)
      ∙ build_endpoints-heard (heard kinds ecu.endpoints) rest others h3)

-- No address stands twice.
abbrev IsTable : Kinds → Type 0
IsTable [] = Unit {0}
IsTable ((address, kind) ∷ rest) = (find rest address ≡ none) × IsTable rest

put-IsTable : (kinds : Kinds) (key : ℕ) (kind : Bool) → IsTable kinds → IsTable (put kinds key kind)
put-IsTable [] key kind t = (refl, tt)
put-IsTable ((k, b) ∷ rest) key kind t = elim (Bool-cases (k == key)) [
  | inl here ↦ rw here t
  | inr there ↦
      rw there (find-put rest key k kind ∙ (ground (arith, t.0)), put-IsTable rest key kind t.1)
]

listening-IsTable :
    (kinds : Kinds) (cs : List EndpointConfig) → IsTable kinds → IsTable (listening kinds cs)
unfolding listening
listening-IsTable kinds [] t = t
listening-IsTable kinds (c ∷ rest) t = elim (Bool-cases c.receive) [
  | inl on ↦
      let next : IsTable (if c.receive then put kinds c.address.rx_id c.functional else kinds) =
        subst (λ (b : Bool). IsTable (if b then put kinds c.address.rx_id c.functional else kinds))
          (sym on) (put-IsTable kinds c.address.rx_id c.functional t) in
      listening-IsTable (if c.receive then put kinds c.address.rx_id c.functional else kinds) rest
        next
  | inr off ↦
      let next : IsTable (if c.receive then put kinds c.address.rx_id c.functional else kinds) =
        subst (λ (b : Bool). IsTable (if b then put kinds c.address.rx_id c.functional else kinds))
          (sym off) t in
      listening-IsTable (if c.receive then put kinds c.address.rx_id c.functional else kinds) rest
        next
]

module _ {A : Type 0} where
  routed-IsTable :
      (kind : Bool) (kinds : Kinds) (table : List (ℕ × A))
      → IsTable kinds
      → IsTable (routed kind kinds table)
  unfolding routed
  routed-IsTable kind kinds [] t = t
  routed-IsTable kind kinds ((address, a) ∷ rest) t =
      routed-IsTable kind (put kinds address kind) rest (put-IsTable kinds address kind t)

  find-routed :
      (kind : Bool) (kinds : Kinds) (table : List (ℕ × A)) (key : ℕ)
      → find (routed kind kinds table) key
        ≡ (if is_some (find table key) then some kind else find kinds key)
  unfolding routed
  find-routed kind kinds [] key = refl
  find-routed kind kinds ((address, a) ∷ rest) key =
      ground
        (arith, find-routed kind (put kinds address kind) rest key, find-put kinds address key kind)

-- A test of all entries, from the test of each lookup.
any-entries :
    (table : Kinds) (test : ℕ × Bool → Bool)
    → IsTable table
    → ((key : ℕ) (kind : Bool) → find table key ≡ some kind → test (key, kind) ≡ false)
    → any test table ≡ false
any-entries [] test t each = refl
any-entries ((k, b) ∷ rest) test t each =
    let first : test (k, b) ≡ false = each k b (ground arith) in
    let others =
      any-entries rest test t.1 (λ key kind found. each key kind (ground (arith, t.0, found))) in
    rw first others

-- Where a profile gives both its sockets and its routing table, `check_routes` finds no disagreement
-- between them: each address that a socket receives on has a route of its kind, and each address
-- with a route has such a socket.
pub build_router-checked :
    (ecus : Ecus) (endpoints : List EndpointConfig) (router : AddressRouter)
    → build_endpoints ecus ≡ ok endpoints
    → build_router ecus ≡ ok router
    → check_routes router endpoints ≡ ok tt
unfolding check_routes
build_router-checked ecus endpoints router opened built =
    let kinds = listening [] endpoints in
    let known = routed true (routed false [] router.physical) router.functional in
    let g =
      add_ecus-Agrees [] empty_router router ecus built
        (record { same = λ a. refl; apart = λ a. refl }) in
    let agree : (a : ℕ) → find kinds a ≡ kind_of router a = λ a.
      ap (λ (k : Kinds). find k a) (build_endpoints-heard [] ecus endpoints opened) ∙ g.same a in
    let routes : (a : ℕ) → find known a ≡ kind_of router a = λ a.
      find-routed true (routed false [] router.physical) router.functional a
      ∙ ap (λ (o : Option Bool). if is_some (find router.functional a) then some true else o)
          (find-routed false [] router.physical a) in
    let first : any (λ (entry : ℕ × Bool). disagrees (find known entry.0) entry.1) kinds ≡ false =
      any-entries kinds _ (listening-IsTable [] endpoints tt) (λ key kind found. ground (
        arith,
        ap (λ (o : Option Bool). disagrees o kind) (routes key ∙ sym (agree key) ∙ found),
      )) in
    let second : any (λ (entry : ℕ × Bool). not (is_some (find kinds entry.0))) known ≡ false =
      any-entries known _
        (routed-IsTable true (routed false [] router.physical) router.functional
          (routed-IsTable false [] router.physical tt))
        (λ key kind found.
          ap (λ (o : Option Bool). not (is_some o)) (agree key ∙ sym (routes key) ∙ found)) in
    rw (first, second) refl
