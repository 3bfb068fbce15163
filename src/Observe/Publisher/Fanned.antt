-- ===== src/Observe/Publisher/Fanned.antt =====
-- What publishing one record does to each connection's ledger.
use ecu_simulator.Prelude.{
  ℕ, suc, ◌+◌, ◌-◌, ◌≤◌, String, ◌≡◌, refl, ap, ◌∙◌, inl, inr, Bool, true, false, some, List, [],
  ◌∷◌, ◌++◌, arith, Bool-cases, length, All, length-append, All-append, Result, ok, err,
}
use ecu_simulator.Observe.Limits.{close_internal_error}
use ecu_simulator.Observe.Connection.{
  Connection, is_closed, offer, refused, refuse, accept, overflows, close, close_at, reading,
}
use ecu_simulator.Observe.Connection.Counts.{IsBalanced, offer-IsBalanced, close-IsBalanced}
use ecu_simulator.Observe.Publisher.{Publisher, retire, fold}
use ecu_simulator.Observe.Publisher.Publish.{Readings, abandon, offered_to, fan_out}
use ecu_simulator.Observe.Publisher.Balance.{IsShut, IsLive, IsSettled, retired, retire-IsSettled}

-- What retiring leaves alone.
pub retire_same :
    (p : Publisher) (c : Connection)
    → ((retire p c).published ≡ p.published)
      × ((retire p c).connections_opened ≡ p.connections_opened)
      × ((retire p c).max_clients ≡ p.max_clients)
      × ((retire p c).connections ≡ p.connections)
      × ((retire p c).handoff ≡ p.handoff)
unfolding retire fold
retire_same p c = (refl, refl, refl, refl, refl)

pub IsLive-IsShut : (n : ℕ) (c : Connection) → IsLive n c → is_closed c ≡ true → IsShut c
IsLive-IsShut n c l closed = record {
  balanced = l.balanced;
  closed = closed;
  spanned = l.spanned closed;
}

-- A connection that is closed at the count of what it was offered.
pub close-IsShut :
    (n : ℕ) (c : Connection) (code : ℕ) (now : Result ℕ) → IsLive n c → IsShut (close c code n now)
unfolding close close_at
close-IsShut n c code now l =
    let b = close-IsBalanced c code n now l.balanced in
    unfold close close_at in
    elim (Bool-cases (is_closed c)) [
      | inl closed ↦ rw closed (IsLive-IsShut n c l closed)
      | inr open_now ↦
          let b' : IsBalanced (close_at c code n (reading now)) = rw open_now at b in
          rw open_now
            (record { balanced = b'; closed = refl; spanned = ap some (l.current open_now) })
    ]

-- What one `offer` of publication `n + 1` leaves: the answer and the connection.
abbrev Told : ℕ → Connection → Result Bool × Connection → Type 0
Told n c (ok kept, c') = IsLive (n + 1) c'
Told n c (err e, c') = IsLive n c'

refuse-Told :
    (n : ℕ) (c : Connection) (now : ℕ)
    → is_closed c ≡ false
    → IsLive n c
    → IsBalanced (refuse c now)
    → IsLive (n + 1) (refuse c now)
unfolding refuse close_at
refuse-Told n c now open_now l b = record {
  balanced = b;
  current = ground arith;
  spanned = ground arith;
}

refused-Told :
    (n : ℕ) (c : Connection) (now : Result ℕ)
    → is_closed c ≡ false
    → IsLive n c
    → IsBalanced (refused c now).1
    → Told n c (refused c now)
refused-Told n c (err e) open_now l b = l
refused-Told n c (ok now) open_now l b = refuse-Told n c now open_now l b

offer-Told :
    (n : ℕ) (c : Connection) (text : String) (now : Result ℕ)
    → IsLive n c
    → Told n c (offer c text now)
unfolding offer
offer-Told n c text now l =
    let b : IsBalanced (offer c text now).1 = offer-IsBalanced c text now l.balanced in
    elim (Bool-cases (is_closed c)) [
      | inl closed ↦
          rw closed (record { balanced = l.balanced; current = λ h. cc; spanned = l.spanned })
      | inr open_now ↦ elim (Bool-cases (overflows c text)) [
        | inl full ↦
            rw (open_now, full) (refused-Told n c now open_now l (rw (open_now, full) at b))
        | inr fits ↦
            rw (open_now, fits)
              (record {
                balanced = rw (open_now, fits) at b;
                current = unfold accept in λ h. omega (arith, l.current open_now);
                spanned = unfold accept in λ h. cc;
              })
      ]
    ]

-- What the loop of `_publish` has done to one connection.
record Served (p : Publisher) (out : Publisher × List Connection) : Type 0 where
  settled : IsSettled out.0
  live : All (IsLive p.published) out.1
  count : retired out.0 + length out.1 ≡ suc (retired p)
  few : length out.1 ≤ 1
  published : out.0.published ≡ p.published
  opened : out.0.connections_opened ≡ p.connections_opened
  most : out.0.max_clients ≡ p.max_clients
  handoff : out.0.handoff ≡ p.handoff

retire-Served :
    (p : Publisher) (c : Connection) → IsShut c → IsSettled p → Served p (retire p c, [])
retire-Served p c h s =
    let r = retire-IsSettled p c h s in
    let same = retire_same p c in
    record {
      settled = r.0;
      live = tt;
      count = omega (arith, r.1);
      few = omega arith;
      published = same.0;
      opened = same.1;
      most = same.2;
      handoff = same.4;
    }

offered_to-Served :
    (p : Publisher) (n : ℕ) (now : Readings) (c : Connection) (out : Result Bool × Connection)
    → p.published ≡ n + 1
    → Told n c out
    → IsSettled p
    → Served p (offered_to p now out)
unfolding offered_to abandon
offered_to-Served p n now c (ok kept, c') e told s = elim (Bool-cases (is_closed c')) [
  | inl closed ↦ rw closed (retire-Served p c' (IsLive-IsShut (n + 1) c' told closed) s)
  | inr open_now ↦ rw open_now (record {
    settled = s;
    live = (rw e told, tt);
    count = omega arith;
    few = omega arith;
    published = refl;
    opened = refl;
    most = refl;
    handoff = refl;
  })
]
offered_to-Served p n now c (err raised, c') e told s =
    let failed : Publisher = record p { fanout_failed = p.fanout_failed + 1 } in
    let before : p.published - 1 ≡ n = omega (arith, e) in
    let s' : IsSettled failed = record {
      shut = s.shut;
      waiting = s.waiting;
      even = s.even;
      few = s.few;
    } in
    let out =
      retire-Served failed (close c' close_internal_error (p.published - 1) (now.at_close c'.id))
        (rw before (close-IsShut n c' close_internal_error (now.at_close c'.id) told)) s' in
    record {
      settled = out.settled;
      live = tt;
      count = out.count;
      few = out.few;
      published = out.published;
      opened = out.opened;
      most = out.most;
      handoff = out.handoff;
    }

-- What the whole loop has done.
pub record Fanned (p q : Publisher) (kept todo : List Connection) : Type 0 where
  pub settled : IsSettled q
  pub live : All (IsLive q.published) q.connections
  pub count : retired q + length q.connections ≡ retired p + length kept + length todo
  pub few : length q.connections ≤ length kept + length todo
  pub published : q.published ≡ p.published
  pub opened : q.connections_opened ≡ p.connections_opened
  pub most : q.max_clients ≡ p.max_clients
  pub handoff : q.handoff ≡ p.handoff

pub fan_out-Fanned :
    (p : Publisher) (n : ℕ) (now : Readings) (text : String) (kept todo : List Connection)
    → p.published ≡ n + 1
    → IsSettled p
    → All (IsLive p.published) kept
    → All (IsLive n) todo
    → Fanned p (fan_out p now text kept todo) kept todo
unfolding fan_out
fan_out-Fanned p n now text kept [] e s done left = record {
  settled = record { shut = s.shut; waiting = s.waiting; even = s.even; few = s.few };
  live = done;
  count = omega arith;
  few = omega arith;
  published = refl;
  opened = refl;
  most = refl;
  handoff = refl;
}
fan_out-Fanned p n now text kept (c ∷ rest) e s done left =
    let out = offered_to p now (offer c text (now.at_offer c.id)) in
    let served : Served p out =
      offered_to-Served p n now c (offer c text (now.at_offer c.id)) e
        (offer-Told n c text (now.at_offer c.id) left.0) s in
    let stay = All-append (IsLive p.published) kept out.1 done served.live in
    let more =
      fan_out-Fanned out.0 n now text (kept ++ out.1) rest (served.published ∙ e) served.settled
        (rw served.published stay) left.1 in
    let len = length-append kept out.1 in
    record {
      settled = more.settled;
      live = more.live;
      count = omega (arith, more.count, served.count, len);
      few = omega (arith, more.few, served.few, len);
      published = more.published ∙ served.published;
      opened = more.opened ∙ served.opened;
      most = more.most ∙ served.most;
      handoff = more.handoff ∙ served.handoff;
    }
