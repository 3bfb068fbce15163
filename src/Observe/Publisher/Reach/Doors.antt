-- ===== src/Observe/Publisher/Reach/Doors.antt =====
-- What the publisher keeps as connections open and close.
use ecu_simulator.Prelude.{
  ℕ, ◌+◌, ◌≤◌, ◌≡◌, refl, ap, ◌∙◌, inl, inr, List, [], ◌∷◌, ◌++◌, arith, ◌==◌, Bool-cases, length,
  All, length-append, All-append, Result,
}
use ecu_simulator.Observe.Limits.{close_internal_error}
use ecu_simulator.Observe.HandOff.{HandOff}
use ecu_simulator.Observe.Connection.{Connection, is_closed, close}
use ecu_simulator.Observe.Publisher.{Publisher, retire, retire_each, retire_closed, fold}
use ecu_simulator.Observe.Publisher.Clients.{removed, disconnected, disconnect, fail_writer, settle}
use ecu_simulator.Observe.Publisher.Balance.{IsLive, IsSettled, retire-IsSettled, fold-IsSettled}
use ecu_simulator.Observe.Publisher.Fanned.{Fanned, retire_same, close-IsShut, IsLive-IsShut}
use ecu_simulator.Observe.Publisher.Reach.Laws.{IsAccounted}
use ecu_simulator.Observe.Publisher.Reach.Guests.{alike-IsAccounted}

retire_each-Fanned :
    (p : Publisher) (kept todo : List Connection)
    → IsSettled p
    → All (IsLive p.published) kept
    → All (IsLive p.published) todo
    → Fanned p (retire_each p kept todo) kept todo
unfolding retire_each
retire_each-Fanned p kept [] s done left = record {
  settled = record { shut = s.shut; waiting = s.waiting; even = s.even; few = s.few };
  live = done;
  count = omega arith;
  few = omega arith;
  published = refl;
  opened = refl;
  most = refl;
  handoff = refl;
}
retire_each-Fanned p kept (c ∷ rest) s done left = elim (Bool-cases (is_closed c)) [
  | inl closed ↦
      let r = retire-IsSettled p c (IsLive-IsShut p.published c left.0 closed) s in
      let same = retire_same p c in
      let more =
        retire_each-Fanned (retire p c) kept rest r.0 (rw same.0 done) (rw same.0 left.1) in
      rw (closed, retire_each)
        (record {
          settled = more.settled;
          live = more.live;
          count = omega (arith, more.count, r.1);
          few = omega (arith, more.few);
          published = more.published ∙ same.0;
          opened = more.opened ∙ same.1;
          most = more.most ∙ same.2;
          handoff = more.handoff ∙ same.4;
        })
  | inr open_now ↦
      let len = length-append kept (c ∷ []) in
      let more =
        retire_each-Fanned p (kept ++ c ∷ []) rest s
          (All-append (IsLive p.published) kept (c ∷ []) done (left.0, tt)) left.1 in
      rw (open_now, retire_each)
        (record {
          settled = more.settled;
          live = more.live;
          count = omega (arith, more.count, len);
          few = omega (arith, more.few, len);
          published = more.published;
          opened = more.opened;
          most = more.most;
          handoff = more.handoff;
        })
]

pub retire_closed-IsAccounted :
    (n : ℕ) (p : Publisher) → IsAccounted n p → IsAccounted n (retire_closed p)
unfolding retire_closed
retire_closed-IsAccounted n p h =
    let f = retire_each-Fanned p [] p.connections h.settled tt h.live in
    record {
      settled = f.settled;
      live = f.live;
      counted = omega (arith, f.opened, h.counted, f.count);
      few = omega (arith, f.few, f.most, h.few);
      most = f.most ∙ h.most;
      records = omega (
        arith,
        f.published,
        ap (λ (k : HandOff). length k.records) f.handoff,
        ap (λ (k : HandOff). k.dropped) f.handoff,
        h.records,
      );
    }

fold-IsAccounted : (n : ℕ) (p : Publisher) → IsAccounted n p → IsAccounted n (fold p)
unfolding fold
fold-IsAccounted n p h =
    let f = fold-IsSettled p h.settled in
    unfold fold in
    record {
      settled = f.0;
      live = h.live;
      counted = omega (arith, h.counted, f.1);
      few = h.few;
      most = h.most;
      records = h.records;
    }

pub settle-IsAccounted : (n : ℕ) (p : Publisher) → IsAccounted n p → IsAccounted n (settle p)
unfolding settle
settle-IsAccounted n p h = fold-IsAccounted n (retire_closed p) (retire_closed-IsAccounted n p h)

-- Taking one connection out of a list.
removed_lem :
    (n id : ℕ) (cs : List Connection)
    → All (IsLive n) cs
    → let out = removed id cs in
      All (IsLive n) out.0
      × All (IsLive n) out.1
      × (length out.0 + length out.1 ≡ length cs)
      × (length out.1 ≤ 1)
unfolding removed
removed_lem n id [] h = (tt, tt, omega arith, omega arith)
removed_lem n id (c ∷ rest) h =
    let ih = removed_lem n id rest h.1 in
    elim (Bool-cases (c.id == id)) [
      | inl this ↦ rw this (h.1, (h.0, tt), omega arith, omega arith)
      | inr other ↦ rw other ((h.0, ih.0), ih.1, omega (arith, ih.2), ih.3)
    ]

disconnected-IsAccounted :
    (n : ℕ) (p : Publisher) (others found : List Connection) (code : ℕ) (now : Result ℕ)
    → All (IsLive p.published) others
    → All (IsLive p.published) found
    → length others + length found ≡ length p.connections
    → length found ≤ 1
    → IsAccounted n p
    → IsAccounted n (disconnected p (others, found) code now)
disconnected-IsAccounted n p others [] code now ho hf len one h = h
disconnected-IsAccounted n p others (c ∷ d ∷ more) code now ho hf len one h = absurd (omega arith)
disconnected-IsAccounted n p others (c ∷ []) code now ho hf len one h =
    let q : Publisher = record p { connections = others } in
    let s : IsSettled q = record {
      shut = h.settled.shut;
      waiting = h.settled.waiting;
      even = h.settled.even;
      few = h.settled.few;
    } in
    let c' = close c code p.published now in
    let r = retire-IsSettled q c' (close-IsShut p.published c code now hf.0) s in
    let same = retire_same q c' in
    record {
      settled = r.0;
      live = rw (same.0, same.3) ho;
      counted = omega (arith, same.1, h.counted, r.1, ap {B = ℕ} length same.3, len);
      few = omega (arith, h.few, ap {B = ℕ} length same.3, len, same.2);
      most = same.2 ∙ h.most;
      records = omega (
        arith,
        same.0,
        ap (λ (k : HandOff). length k.records) same.4,
        ap (λ (k : HandOff). k.dropped) same.4,
        h.records,
      );
    }

pub disconnect-IsAccounted :
    (n : ℕ) (p : Publisher) (id code : ℕ) (now : Result ℕ)
    → IsAccounted n p
    → IsAccounted n (disconnect p id code now)
unfolding disconnect
disconnect-IsAccounted n p id code now h =
    let out = removed_lem p.published id p.connections h.live in
    let cut = removed id p.connections in
    disconnected-IsAccounted n p cut.0 cut.1 code now out.0 out.1 out.2 out.3 h

pub fail_writer-IsAccounted :
    (n : ℕ) (p : Publisher) (id : ℕ) (now : Result ℕ)
    → IsAccounted n p
    → IsAccounted n (fail_writer p id now)
unfolding fail_writer
fail_writer-IsAccounted n p id now h =
    disconnect-IsAccounted n (record p { writer_failed = p.writer_failed + 1 }) id
      close_internal_error now (alike-IsAccounted n p _ (ground arith) h)
