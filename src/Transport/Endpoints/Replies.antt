-- ===== src/Transport/Endpoints/Replies.antt =====
-- Which endpoint a response leaves on.
use ecu_simulator.Prelude.{
  String, ◌≡◌, refl, sym, ap, ◌∙◌, Bool, true, false, Option, none, some, List, [], ◌∷◌, ◌++◌, map,
  arith, str_eq, eq_iff, if◌then◌else◌, ok-injective, any, all, Result, ok, err, >>=-eq-ok,
}
use ecu_simulator.Prelude.{address_error, transport_error}
use ecu_simulator.Bytes.{Bytes}
use ecu_simulator.Transport.IsoTp.{Os, open_socket, send}
use ecu_simulator.Ecu.Router.{is_some}
use ecu_simulator.Ecu.Router.Laws.{raise_if-ok}
use ecu_simulator.Transport.Endpoints.{
  EndpointConfig, Endpoint, fresh, send_on, IsoTpTransport, has_name, is_lost, is_empty, repeats,
  same_name, same_pair, make_transport, open_all, start, by_name, send_at, via, via_of,
  goes_nowhere, sent_now,
}

-- `start` opens one endpoint for each configuration, in order.
open_all-map :
    (kernel : String → Os (Unit {0}) × Os (Unit {0})) (configs : List EndpointConfig)
    → (opened : List Endpoint) → open_all kernel configs ≡ ok opened
    → opened ≡ map fresh configs
unfolding open_all
open_all-map kernel [] opened e = sym (ok-injective e)
open_all-map kernel (c ∷ rest) opened e =
    let (one, first, more) = >>=-eq-ok _ _ e in
    let (tail, second, last) = >>=-eq-ok _ _ more in
    let (_, _, made) =
      >>=-eq-ok (open_socket (kernel c.name).0 (kernel c.name).1) (λ _. ok (fresh c)) first in
    let ih = open_all-map kernel rest tail second in
    sym (ok-injective last)
    ∙ ap (λ (x : Endpoint). x ∷ tail) (sym (ok-injective made))
    ∙ ap (λ (l : List Endpoint). fresh c ∷ l) ih

found :
    (configs : List EndpointConfig) (name : String)
    → has_name name configs ≡ true
    → is_some (by_name (map fresh configs) name) ≡ true
unfolding by_name
found [] name h = cc
found (c ∷ rest) name h = ground (arith, found rest name)

-- the name of a configuration of the list is found
own-name :
    (before : List EndpointConfig) (c : EndpointConfig) (after : List EndpointConfig)
    → has_name c.name (before ++ c ∷ after) ≡ true
own-name [] c after = ground (arith, eq_iff c.name c.name)
own-name (b ∷ before) c after = ground (arith, own-name before c after)

via-found :
    (all : List EndpointConfig) (name : String) (reply : Option String)
    → has_name name all ≡ true
    → goes_nowhere all reply ≡ false
    → has_name (via_of name reply) all ≡ true
via-found all name none own h = own
via-found all name (some other) own h = ground arith

not-lost :
    (all before : List EndpointConfig) (c : EndpointConfig) (after : List EndpointConfig)
    → any (is_lost all) (before ++ c ∷ after) ≡ false
    → is_lost all c ≡ false
not-lost all [] c after h = ground arith
not-lost all (b ∷ before) c after h = not-lost all before c after (ground arith)

make_transport-lost :
    (configs : List EndpointConfig) (t : IsoTpTransport)
    → make_transport configs ≡ ok t
    → (any (is_lost configs) configs ≡ false) × (t.configs ≡ configs)
unfolding make_transport
make_transport-lost configs t made =
    let (_, a) = raise_if-ok (is_empty configs) address_error _ made in
    let (_, b) = raise_if-ok (repeats same_name configs) address_error _ a in
    let (_, c) = raise_if-ok (repeats same_pair configs) address_error _ b in
    let (lost, d) = raise_if-ok (any (is_lost configs) configs) address_error _ c in
    (lost, ap (λ (u : IsoTpTransport). u.configs) (sym (ok-injective d)))

-- A transport that its constructor accepted and that started: for each endpoint, the one that its
-- responses leave on, itself or the one that `reply_via` names, is among the opened ones.
pub start-via :
    (before : List EndpointConfig) (c : EndpointConfig) (after : List EndpointConfig)
    → (kernel : String → Os (Unit {0}) × Os (Unit {0})) (t u : IsoTpTransport)
    → make_transport (before ++ c ∷ after) ≡ ok t
    → start t kernel ≡ ok u
    → is_some (by_name u.endpoints (via c)) ≡ true
unfolding start
start-via before c after kernel t u made started =
    let all = before ++ c ∷ after in
    let (lost, same) = make_transport-lost all t made in
    let (_, opening) = raise_if-ok t.is_running transport_error _ started in
    let (opened, opens, done) = >>=-eq-ok (open_all kernel t.configs) _ opening in
    let listed : opened ≡ map fresh all =
      open_all-map kernel t.configs opened opens
      ∙ ap (λ (l : List EndpointConfig). map fresh l) same in
    let endpoints : u.endpoints ≡ map fresh all =
      ap (λ (v : IsoTpTransport). v.endpoints) (sym (ok-injective done)) ∙ listed in
    let name =
      via-found all c.name c.reply_via (own-name before c after)
        (not-lost all before c after lost) in
    rw endpoints (found all (via c) name)

-- the endpoint after a response was sent on it
abbrev pub sent_on : Bytes → Os (Unit {0}) → Option Endpoint → Option Endpoint
sent_on payload kernel none = none
sent_on payload kernel (some e) = some (send_on e payload kernel)

sent_now-name :
    (e : Endpoint) (payload : Bytes) (answer : Result Bool)
    → (sent_now e payload answer).config.name ≡ e.config.name
sent_now-name e payload (ok true) = refl
sent_now-name e payload (ok false) = refl
sent_now-name e payload (err raised) = refl

send_on-name :
    (e : Endpoint) (payload : Bytes) (kernel : Os (Unit {0}))
    → (send_on e payload kernel).config.name ≡ e.config.name
unfolding send_on
send_on-name e payload kernel = ground (arith, sent_now-name e payload (send kernel))

-- A response changes the endpoint that it is sent on, and no other.
pub send_at-by_name :
    (endpoints : List Endpoint) (name other : String) (payload : Bytes) (kernel : Os (Unit {0}))
    → by_name (send_at endpoints name payload kernel) other ≡ (
        if str_eq name other
        then sent_on payload kernel (by_name endpoints other)
        else by_name endpoints other)
unfolding by_name send_at
send_at-by_name [] name other payload kernel = ground arith
send_at-by_name (e ∷ rest) name other payload kernel = ground (
  arith,
  send_on-name e payload kernel,
  eq_iff name other,
  eq_iff e.config.name name,
  eq_iff e.config.name other,
  send_at-by_name rest name other payload kernel,
)
