-- ===== src/Observe/Publisher/Reach/Guests.antt =====
-- What the publisher keeps as clients come and go, and as their writers run.
use ecu_simulator.Prelude.{
  ℕ, String, ◌≡◌, refl, sym, ap, ◌∙◌, inl, inr, true, false, not, ◌||◌, Option, none, some, List,
  [], ◌∷◌, map, arith, ◌==◌, Bool-cases, length, All, length-map, Result, ok, err,
}
use mathlib.Core.Path.{subst}
use ecu_simulator.Observe.HandOff.{HandOff}
use ecu_simulator.Observe.Connection.{
  Connection, is_set, is_closed, set_state, set_dropped, take_state, next_message, mark_sent,
  mark_failed, mark_unknown,
}
use ecu_simulator.Observe.Connection.Counts.{
  IsBalanced, set_state-IsBalanced, set_dropped-IsBalanced, next_message-IsBalanced,
  mark_sent-IsBalanced, mark_failed-IsBalanced, mark_unknown-IsBalanced,
}
use ecu_simulator.Observe.Writer.{Sending, returned, not_delivered, unknown}
use ecu_simulator.Observe.Publisher.{Totals, Publisher}
use ecu_simulator.Observe.Publisher.Clients.{
  push_state, push_dropped, push_initial_state, snapshot_taken, is_same, vehicle_encode_failure,
  state_round,
}
use ecu_simulator.Observe.Publisher.Balance.{IsShut, IsLive, IsEven}
use ecu_simulator.Observe.Publisher.Reach.{
  Act, taking, asking, resolving, act, settled_by, touch, touch_one,
}
use ecu_simulator.Observe.Publisher.Reach.Laws.{IsAccounted}

-- A change of a connection that its place in the accounts does not depend on.
pub record IsSame (c c' : Connection) : Type 0 where
  pub balanced : IsBalanced c → IsBalanced c'
  pub closed : is_closed c' ≡ is_closed c
  pub offered : c'.offered ≡ c.offered
  pub opened : c'.published_at_open ≡ c.published_at_open
  pub ended : c'.published_at_close ≡ c.published_at_close

IsSame-IsShut : (c c' : Connection) → IsSame c c' → IsShut c → IsShut c'
IsSame-IsShut c c' e s = ground (arith, e.balanced)

pub IsSame-IsLive : (n : ℕ) (c c' : Connection) → IsSame c c' → IsLive n c → IsLive n c'
IsSame-IsLive n c c' e l = ground (arith, e.balanced)

pub IsSame-self : (c : Connection) → IsSame c c
IsSame-self c = record {
  balanced = λ b. b;
  closed = refl;
  offered = refl;
  opened = refl;
  ended = refl;
}

pub set_state-IsSame : (c : Connection) (text : String) → IsSame c (set_state c text)
unfolding set_state
set_state-IsSame c text = ground (arith, set_state-IsBalanced c text)

set_dropped-IsSame : (c : Connection) (text : String) → IsSame c (set_dropped c text)
unfolding set_dropped
set_dropped-IsSame c text = ground (arith, set_dropped-IsBalanced c text)

unset-none : (o : Option String) → is_set o ≡ false → o ≡ none
unset-none none h = refl
unset-none (some text) h = cc

asked-IsSame : (c : Connection) → is_set c.in_flight ≡ false → IsSame c (next_message c).1
unfolding next_message
asked-IsSame c idle = ground (arith, next_message-IsBalanced c (unset-none c.in_flight idle))

settled_by-IsSame : (how : Sending) (c : Connection) → IsSame c (settled_by how c)
unfolding mark_sent mark_failed mark_unknown
settled_by-IsSame returned c = ground (arith, mark_sent-IsBalanced c)
settled_by-IsSame not_delivered c = ground (arith, mark_failed-IsBalanced c)
settled_by-IsSame unknown c = ground (arith, mark_unknown-IsBalanced c)

act-IsSame : (a : Act) (c : Connection) → IsSame c (act a c)
unfolding act
act-IsSame taking c = unfold take_state in ground arith
act-IsSame asking c = elim (Bool-cases (is_set c.in_flight)) [
  | inl busy ↦ rw busy (IsSame-self c)
  | inr idle ↦ rw idle (asked-IsSame c idle)
]
act-IsSame (resolving how) c = settled_by-IsSame how c

touch_one-IsSame : (id : ℕ) (a : Act) (c : Connection) → IsSame c (touch_one id a c)
touch_one-IsSame id a c = elim (Bool-cases (c.id == id)) [
  | inl this ↦ rw this (act-IsSame a c)
  | inr other ↦ rw other (IsSame-self c)
]

-- A change of each connection that keeps its accounts.
module _ (f : Connection → Connection) (same : (c : Connection) → IsSame c (f c)) where
  map-IsLive : (n : ℕ) (cs : List Connection) → All (IsLive n) cs → All (IsLive n) (map f cs)
  map-IsLive n [] h = tt
  map-IsLive n (c ∷ rest) h = (IsSame-IsLive n c (f c) (same c) h.0, map-IsLive n rest h.1)

  map-IsShut : (cs : List Connection) → All IsShut cs → All IsShut (map f cs)
  map-IsShut [] h = tt
  map-IsShut (c ∷ rest) h = (IsSame-IsShut c (f c) (same c) h.0, map-IsShut rest h.1)

pub touch-IsAccounted :
    (n : ℕ) (p : Publisher) (id : ℕ) (a : Act) → IsAccounted n p → IsAccounted n (touch id a p)
unfolding touch
touch-IsAccounted n p id a h =
    let f = touch_one id a in
    let same = touch_one-IsSame id a in
    record {
      settled = record {
        shut = map-IsShut f same p.closed h.settled.shut;
        waiting = map-IsShut f same p.unresolved h.settled.waiting;
        even = h.settled.even;
        few = omega (arith, length-map p.closed f, h.settled.few);
      };
      live = map-IsLive f same p.published p.connections h.live;
      counted = omega (arith, h.counted, length-map p.unresolved f, length-map p.connections f);
      few = omega (arith, h.few, length-map p.connections f);
      most = h.most;
      records = h.records;
    }

-- The accounts mention these fields only.
pub record IsAlike (p q : Publisher) : Type 0 where
  pub connections : q.connections ≡ p.connections
  pub closed : q.closed ≡ p.closed
  pub unresolved : q.unresolved ≡ p.unresolved
  pub totals : q.totals ≡ p.totals
  pub published : q.published ≡ p.published
  pub opened : q.connections_opened ≡ p.connections_opened
  pub most : q.max_clients ≡ p.max_clients
  pub handoff : q.handoff ≡ p.handoff

pub alike-IsAccounted : (n : ℕ) (p q : Publisher) → IsAlike p q → IsAccounted n p → IsAccounted n q
alike-IsAccounted n p q e h = record {
  settled = record {
    shut = subst (All IsShut) (sym e.closed) h.settled.shut;
    waiting = subst (All IsShut) (sym e.unresolved) h.settled.waiting;
    even = subst IsEven (sym e.totals) h.settled.even;
    few = omega (arith, ap {B = ℕ} length e.closed, h.settled.few);
  };
  live =
      subst (λ (k : ℕ). All (IsLive k) q.connections) (sym e.published)
        (subst (All (IsLive p.published)) (sym e.connections) h.live);
  counted = omega (
    arith,
    e.opened,
    h.counted,
    ap {B = ℕ} length e.unresolved,
    ap {B = ℕ} length e.connections,
    ap (λ (t : Totals). t.connections) e.totals,
  );
  few = omega (arith, h.few, ap {B = ℕ} length e.connections, e.most);
  most = e.most ∙ h.most;
  records = omega (
    arith,
    e.published,
    ap (λ (k : HandOff). length k.records) e.handoff,
    ap (λ (k : HandOff). k.dropped) e.handoff,
    h.records,
  );
}

shown-IsAccounted :
    (n : ℕ) (p : Publisher) (f : Connection → Connection)
    → ((c : Connection) → IsSame c (f c))
    → IsAccounted n p
    → IsAccounted n (record p { connections = map f p.connections })
shown-IsAccounted n p f same h = record {
  settled = record {
    shut = h.settled.shut;
    waiting = h.settled.waiting;
    even = h.settled.even;
    few = h.settled.few;
  };
  live = map-IsLive f same p.published p.connections h.live;
  counted = omega (arith, h.counted, length-map p.connections f);
  few = omega (arith, h.few, length-map p.connections f);
  most = h.most;
  records = h.records;
}

pub push_state-IsAccounted :
    (n : ℕ) (p : Publisher) (text : String) → IsAccounted n p → IsAccounted n (push_state p text)
unfolding push_state
push_state-IsAccounted n p text h =
    let f = λ (c : Connection). set_state c text in
    alike-IsAccounted n (record p { connections = map f p.connections }) _ (ground arith)
      (shown-IsAccounted n p f (λ c. set_state-IsSame c text) h)

push_dropped-IsAccounted :
    (notice : ℕ → ℕ → ℕ → String) (n : ℕ) (p : Publisher)
    → IsAccounted n p
    → IsAccounted n (push_dropped notice p)
unfolding push_dropped
push_dropped-IsAccounted notice n p h =
    shown-IsAccounted n p
      (λ (c : Connection).
        set_dropped c (notice p.handoff.dropped c.client_dropped p.forced_disconnects))
      (λ c. set_dropped-IsSame c (notice p.handoff.dropped c.client_dropped p.forced_disconnects)) h

snapshot-IsAccounted :
    (n : ℕ) (p : Publisher) (snapshot : Result String)
    → IsAccounted n p
    → IsAccounted n (snapshot_taken p snapshot)
snapshot-IsAccounted n p (err e) h = alike-IsAccounted n p _ (ground arith) h
snapshot-IsAccounted n p (ok text) h =
    let good : Publisher = record p { state_ok = true } in
    let h' = alike-IsAccounted n p good (ground arith) h in
    let pushed = push_state-IsAccounted n good text h' in
    elim (Bool-cases (p.must_publish || not (is_same p.last_state text))) [
      | inl due ↦ rw due (alike-IsAccounted n (push_state good text) _ (ground arith) pushed)
      | inr same ↦ rw same h'
    ]

pub state_round-IsAccounted :
    (notice : ℕ → ℕ → ℕ → String) (n : ℕ) (p : Publisher) (snapshot : Result String)
    → IsAccounted n p
    → IsAccounted n (state_round notice p snapshot)
unfolding state_round
state_round-IsAccounted notice n p snapshot h =
    push_dropped-IsAccounted notice n (snapshot_taken p snapshot)
      (snapshot-IsAccounted n p snapshot h)

pub push_initial_state-IsAccounted :
    (n : ℕ) (p : Publisher) (text : String)
    → IsAccounted n p
    → IsAccounted n (push_initial_state p text)
unfolding push_initial_state
push_initial_state-IsAccounted n p text h =
    alike-IsAccounted n (push_state p text) _ (ground arith) (push_state-IsAccounted n p text h)

pub vehicle_failure-IsAccounted :
    (n : ℕ) (p : Publisher) → IsAccounted n p → IsAccounted n (vehicle_encode_failure p)
unfolding vehicle_encode_failure
vehicle_failure-IsAccounted n p h = alike-IsAccounted n p _ (ground arith) h
