-- ===== src/Observe/Publisher/Reach/Ledgers.antt =====
-- The accounts of the publisher after any moves.
use ecu_simulator.Prelude.{
  ℕ, suc, ◌+◌, ◌≤◌, String, ◌≡◌, refl, ap, inl, inr, some, List, [], ◌∷◌, ◌++◌, arith, Bool-cases,
  length, All, All-append, Result,
}
use mathlib.Core.Path.{subst}
use ecu_simulator.Observe.HandOff.{ExchangeRecord}
use ecu_simulator.Observe.HandOff.Laws.{total}
use ecu_simulator.Observe.Limits.{closed_ledgers_kept, max_clients}
use ecu_simulator.Observe.Connection.{Connection, is_closed, ledger}
use ecu_simulator.Observe.Publisher.{Publisher}
use ecu_simulator.Observe.Publisher.Balance.{IsShut, IsLive}
use ecu_simulator.Observe.Publisher.Reach.{
  new, Move, recording, turning, connecting, disconnecting, failing, sampling, greeting, missing,
  asked_stats, writing, move, moves, issued,
}
use ecu_simulator.Observe.Publisher.Reach.Laws.{
  IsAccounted, recording-IsAccounted, turning-IsAccounted,
}
use ecu_simulator.Observe.Publisher.Reach.Guests.{
  touch-IsAccounted, state_round-IsAccounted, push_initial_state-IsAccounted,
  vehicle_failure-IsAccounted,
}
use ecu_simulator.Observe.Publisher.Reach.Entry.{connect-IsAccounted}
use ecu_simulator.Observe.Publisher.Reach.Doors.{
  settle-IsAccounted, disconnect-IsAccounted, fail_writer-IsAccounted,
}

-- the number of records after one more move
abbrev more : ℕ → Move → ℕ
more n (recording r) = suc n
more n m = n

-- The identities of one connection's ledger, read when so many events are published.
abbrev pub IsConsistent : ℕ → Connection → Type 0
IsConsistent published c =
    let l = ledger c published in
    (l.published_at_close ≡ some (l.published_at_open + l.offered))
    × (l.offered ≡ l.enqueued + l.client_dropped)
    × (l.enqueued ≡ l.sent + l.delivery_unknown + l.queued + l.discarded_on_close)

one-IsConsistent : (n : ℕ) (c : Connection) → IsLive n c → IsConsistent n c
unfolding ledger
one-IsConsistent n c h = elim (Bool-cases (is_closed c)) [
  | inl closed ↦ rw closed (h.spanned closed, h.balanced.offers, h.balanced.outcomes)
  | inr open_now ↦
      rw open_now (ap some (h.current open_now), h.balanced.offers, h.balanced.outcomes)
]

live-IsConsistent : (n : ℕ) (cs : List Connection) → All (IsLive n) cs → All (IsConsistent n) cs
live-IsConsistent n [] h = tt
live-IsConsistent n (c ∷ rest) h = (one-IsConsistent n c h.0, live-IsConsistent n rest h.1)

shut-IsConsistent : (n : ℕ) (cs : List Connection) → All IsShut cs → All (IsConsistent n) cs
shut-IsConsistent n [] h = tt
shut-IsConsistent n (c ∷ rest) h =
    let live : IsLive n c = record {
      balanced = h.0.balanced;
      current = λ e. cc;
      spanned = λ _. h.0.spanned;
    } in
    (one-IsConsistent n c live, shut-IsConsistent n rest h.1)

more_issued : (n : ℕ) (m : Move) (rest : List Move) → more n m + issued rest ≡ n + issued (m ∷ rest)
more_issued n m rest = ground arith

new-IsAccounted : IsAccounted 0 new
new-IsAccounted = record {
  settled = record {
    shut = tt;
    waiting = tt;
    even = record { spans = refl; offers = refl; outcomes = refl };
    few = omega arith;
  };
  live = tt;
  counted = refl;
  few = omega arith;
  most = refl;
  records = refl;
}

module _ (encode : ExchangeRecord → Result String) (fallback : ExchangeRecord → String)
    (notice : ℕ → ℕ → ℕ → String) where
  move-IsAccounted :
      (n : ℕ) (p : Publisher) (m : Move)
      → IsAccounted n p
      → IsAccounted (more n m) (move encode fallback notice p m)
  unfolding move
  move-IsAccounted n p (recording r) h = recording-IsAccounted n p r h
  move-IsAccounted n p (turning elapsed total now) h =
      turning-IsAccounted encode fallback n p elapsed total now h
  move-IsAccounted n p (connecting after now) h = connect-IsAccounted n p after now h
  move-IsAccounted n p (disconnecting id code now) h = disconnect-IsAccounted n p id code now h
  move-IsAccounted n p (failing id now) h = fail_writer-IsAccounted n p id now h
  move-IsAccounted n p (sampling snapshot) h = state_round-IsAccounted notice n p snapshot h
  move-IsAccounted n p (greeting text) h = push_initial_state-IsAccounted n p text h
  move-IsAccounted n p missing h = vehicle_failure-IsAccounted n p h
  move-IsAccounted n p asked_stats h = settle-IsAccounted n p h
  move-IsAccounted n p (writing id a) h = touch-IsAccounted n p id a h

  moves-IsAccounted :
      (n : ℕ) (p : Publisher) (ms : List Move)
      → IsAccounted n p
      → IsAccounted (n + issued ms) (moves encode fallback notice p ms)
  unfolding moves
  moves-IsAccounted n p [] h = subst (λ (k : ℕ). IsAccounted k p) (omega arith) h
  moves-IsAccounted n p (m ∷ rest) h =
      let ih =
        moves-IsAccounted (more n m) (move encode fallback notice p m) rest
          (move-IsAccounted n p m h) in
      subst (λ (k : ℕ). IsAccounted k (moves encode fallback notice p (m ∷ rest)))
        (more_issued n m rest) ih

  -- From a new publisher, after any sequence of records handed over, bounded turns (whose encoder may
  -- raise, and whose clock may), clients that connect or are refused, disconnects, failed writers,
  -- state samples good and bad, calls of `stats`, and steps of the writers: each record that was
  -- handed over is published, still in the hand-off or counted as dropped there; each connection that
  -- was opened is in the list, waits for its last `send` to end, or is in the totals; at most four
  -- are in the list and at most 64 closed ones are kept; in the totals the publications while the
  -- connections were open are as many as were offered, what was offered is enqueued or dropped, and
  -- what was enqueued is sent, of unknown delivery or discarded; and the ledger of each connection that
  -- is in the list or kept spans as many publications as were offered to it, which were enqueued or
  -- dropped, and the enqueued ones are sent, of unknown delivery, queued or discarded.
  pub moves-accounts :
      (ms : List Move)
      → let p = moves encode fallback notice new ms in
        (p.published + length p.handoff.records + p.handoff.dropped ≡ issued ms)
        × (p.connections_opened ≡ p.totals.connections + length p.unresolved + length p.connections)
        × (length p.connections ≤ max_clients)
        × (length p.closed ≤ closed_ledgers_kept)
        × (p.totals.published_span ≡ p.totals.offered)
        × (p.totals.offered ≡ p.totals.enqueued + p.totals.client_dropped)
        × (p.totals.enqueued
            ≡ p.totals.sent + p.totals.delivery_unknown + p.totals.discarded_on_close)
        × All (IsConsistent p.published) (p.connections ++ p.closed)
  moves-accounts ms =
      let h = moves-IsAccounted 0 new ms new-IsAccounted in
      let p = moves encode fallback notice new ms in
      let even = h.settled.even in
      (
        omega (arith, h.records),
        h.counted,
        omega (arith, h.few, h.most),
        h.settled.few,
        even.spans,
        even.offers,
        even.outcomes,
        All-append (IsConsistent p.published) p.connections p.closed
            (live-IsConsistent p.published p.connections h.live)
            (shut-IsConsistent p.published p.closed h.settled.shut),
      )
