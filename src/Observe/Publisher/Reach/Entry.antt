-- ===== src/Observe/Publisher/Reach/Entry.antt =====
-- What the publisher keeps as a client connects.
use ecu_simulator.Prelude.{
  ℕ, ◌+◌, ◌<◌, String, inl, inr, Bool, Option, none, some, List, [], ◌∷◌, arith, leb, Bool-cases,
  length, length-append, All-append, ℤ, Result, ok, err,
}
use ecu_simulator.Observe.History.{since}
use ecu_simulator.Observe.Connection.{Connection, is_closed, set_state, ledger}
use ecu_simulator.Observe.Connection
use ecu_simulator.Observe.Connection.Counts.{new-IsBalanced}
use ecu_simulator.Observe.Publisher.{Publisher, retire_closed}
use ecu_simulator.Observe.Publisher.Clients.{greeted, admit, clocked, searched, connect}
use ecu_simulator.Observe.Publisher.Balance.{IsLive}
use ecu_simulator.Observe.Publisher.Reach.Laws.{IsAccounted}
use ecu_simulator.Observe.Publisher.Reach.Guests.{
  IsSame-IsLive, set_state-IsSame, alike-IsAccounted,
}
use ecu_simulator.Observe.Publisher.Reach.Doors.{retire_closed-IsAccounted}

greeted-IsLive :
    (n : ℕ) (state : Option String) (c : Connection) → IsLive n c → IsLive n (greeted state c)
greeted-IsLive n none c h = h
greeted-IsLive n (some text) c h = IsSame-IsLive n c (set_state c text) (set_state-IsSame c text) h

made-IsLive :
    (id watermark published now sent : ℕ)
    → IsLive published (record (Connection.new id watermark published now) { history_sent = sent })
unfolding Connection.new
made-IsLive id watermark published now sent =
    let b = new-IsBalanced id watermark published now in
    record {
      balanced = record {
        offers = b.offers;
        outcomes = b.outcomes;
        counted = b.counted;
        few = b.few;
        small = b.small;
        finished = b.finished;
        room = b.room;
        bulk = b.bulk;
        ended = b.ended;
      };
      current = λ _. omega arith;
      spanned = λ h. cc;
    }

admit-IsAccounted :
    (n : ℕ) (p : Publisher) (after : Option ℤ) (found : List String × Bool) (now : ℕ)
    → length p.connections < p.max_clients
    → IsAccounted n p
    → IsAccounted n (admit p after found now).0
unfolding admit
admit-IsAccounted n p after (texts, gap) now room h =
    let c =
      greeted p.last_state
        (record (Connection.new (p.next_id + 1) p.history.last_seq p.published now) {
          history_sent = length texts;
        }) in
    let l : IsLive p.published c =
      greeted-IsLive p.published p.last_state _
        (made-IsLive (p.next_id + 1) p.history.last_seq p.published now (length texts)) in
    let len = length-append p.connections (c ∷ []) in
    record {
      settled = record {
        shut = h.settled.shut;
        waiting = h.settled.waiting;
        even = h.settled.even;
        few = h.settled.few;
      };
      live = All-append (IsLive p.published) p.connections (c ∷ []) h.live (l, tt);
      counted = omega (arith, h.counted, len);
      few = omega (arith, room, len);
      most = h.most;
      records = h.records;
    }

clocked-IsAccounted :
    (n : ℕ) (p : Publisher) (after : Option ℤ) (found : List String × Bool) (now : Result ℕ)
    → length p.connections < p.max_clients
    → IsAccounted n p
    → IsAccounted n (clocked p after found now).1
clocked-IsAccounted n p after found (err e) room h = alike-IsAccounted n p _ (ground arith) h
clocked-IsAccounted n p after found (ok now) room h = admit-IsAccounted n p after found now room h

searched-IsAccounted :
    (n : ℕ) (p : Publisher) (after : Option ℤ) (found : Result (List String × Bool))
    (now : Result ℕ)
    → length p.connections < p.max_clients
    → IsAccounted n p
    → IsAccounted n (searched p after found now).1
searched-IsAccounted n p after (err e) now room h = h
searched-IsAccounted n p after (ok found) now room h =
    clocked-IsAccounted n p after found now room h

pub connect-IsAccounted :
    (n : ℕ) (p : Publisher) (after : Option ℤ) (now : Result ℕ)
    → IsAccounted n p
    → IsAccounted n (connect p after now).1
unfolding connect
connect-IsAccounted n p after now h =
    let q = retire_closed p in
    let h' = retire_closed-IsAccounted n p h in
    elim (Bool-cases (leb q.max_clients (length q.connections))) [
      | inl full ↦ rw full (alike-IsAccounted n q _ (ground arith) h')
      | inr room ↦
          rw room
            (searched-IsAccounted n q after (since q.history after none) now (ground arith) h')
    ]
