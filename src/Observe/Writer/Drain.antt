-- ===== src/Observe/Writer/Drain.antt =====
-- A writer whose sends return empties its client's queue.
use ecu_simulator.Prelude.{
  ℕ, zero, suc, ◌+◌, ◌<◌, String, ◌≡◌, refl, sym, ap, ◌∙◌, false, Option, none, some, List, [], ◌∷◌,
  ◌++◌, arith, length, length-append,
}
use mathlib.Core.List.{append-nil, append_assoc}
use ecu_simulator.Observe.Connection.{is_closed, next_message, mark_sent}
use ecu_simulator.Observe.Writer.{
  looping, returned, Session, turn, resolve, Event, turning, resolving, step, run,
}

-- At the top of the loop of an open connection.
pub record IsReady (s : Session) : Type 0 where
  pub top : s.place ≡ looping
  pub live : is_closed s.conn ≡ false
  pub idle : s.conn.in_flight ≡ none

abbrev pub slot : Option String → ℕ
slot none = 0
slot (some text) = 1

-- how many messages wait
abbrev pub pending : Session → ℕ
pending s = slot s.conn.state + slot s.conn.dropped_notice + length s.conn.queue

-- `n` turns of the loop whose sends all return
abbrev pub rounds : ℕ → List Event
rounds zero = []
rounds (suc n) = turning ∷ resolving returned ∷ rounds n

abbrev round : Session → Session
round s = step (step s turning) (resolving returned)

-- What one turn sends.
record Round (s t : Session) : Type 0 where
  moved : List String
  ready : IsReady t
  handed : t.handed ≡ s.handed ++ moved
  queue : s.conn.queue ≡ moved ++ t.conn.queue
  sent : t.conn.sent ≡ s.conn.sent + length moved
  fewer : pending s ≡ suc (pending t)

sent_round :
    (s : Session) (state notice : Option String) (queue : List String)
    → IsReady s
    → s.conn.state ≡ state
    → s.conn.dropped_notice ≡ notice
    → s.conn.queue ≡ queue
    → 0 < slot state + slot notice + length queue
    → Round s (round s)
unfolding step turn next_message resolve mark_sent
sent_round s (some text) notice queue r es en eq some_wait =
    rw (r.top, r.live, es, r.idle)
      (record {
        moved = [];
        ready = record { top = refl; live = r.live; idle = refl };
        handed = refl;
        queue = refl;
        sent = omega arith;
        fewer = omega arith;
      })
sent_round s none (some text) queue r es en eq some_wait =
    rw (r.top, r.live, es, en, r.idle)
      (record {
        moved = [];
        ready = record { top = refl; live = r.live; idle = refl };
        handed = refl;
        queue = refl;
        sent = omega arith;
        fewer = omega arith;
      })
sent_round s none none (text ∷ rest) r es en eq some_wait =
    rw (r.top, r.live, es, en, eq)
      (record {
        moved = text ∷ [];
        ready = record { top = refl; live = r.live; idle = refl };
        handed = refl;
        queue = refl;
        sent = omega arith;
        fewer = omega arith;
      })
sent_round s none none [] r es en eq some_wait = absurd (omega arith)

-- What `n` turns have done.
pub record Drained (s t : Session) : Type 0 where
  pub ready : IsReady t
  pub handed : t.handed ≡ s.handed ++ s.conn.queue
  pub empty : t.conn.queue ≡ []
  pub sent : t.conn.sent ≡ s.conn.sent + length s.conn.queue
  pub nothing : pending t ≡ 0

nothing_waits : (xs : List String) → length xs ≡ 0 → xs ≡ []
nothing_waits [] h = refl
nothing_waits (x ∷ xs) h = absurd (omega arith)

drain : (n : ℕ) (s : Session) → IsReady s → pending s ≡ n → Drained s (run s (rounds n))
unfolding run
drain zero s r e =
    let none_left : s.conn.queue ≡ [] = nothing_waits s.conn.queue (omega arith) in
    record {
      ready = r;
      handed = sym (append-nil s.handed) ∙ ap (λ (q : List String). s.handed ++ q) (sym none_left);
      empty = none_left;
      sent = omega (arith, ap {B = ℕ} length none_left);
      nothing = e;
    }
drain (suc n) s r e =
    let once =
      sent_round s s.conn.state s.conn.dropped_notice s.conn.queue r refl refl refl (omega arith) in
    let rest = drain n (round s) once.ready (omega (arith, once.fewer)) in
    let queue = (round s).conn.queue in
    record {
      ready = rest.ready;
      handed =
          rest.handed
          ∙ ap (λ (h : List String). h ++ queue) once.handed
          ∙ append_assoc s.handed once.moved queue
          ∙ ap (λ (q : List String). s.handed ++ q) (sym once.queue);
      empty = rest.empty;
      sent = omega (
        arith,
        rest.sent,
        once.sent,
        ap {B = ℕ} length once.queue,
        length-append once.moved queue,
      );
      nothing = rest.nothing;
    }

-- At the top of the loop of an open connection, with `n` messages waiting (in the queue and in the
-- two slots): after `n` turns whose sends all return nothing waits, the queued exchanges were given
-- to `send` in the order of the queue, each counts as sent, and the connection is still open with
-- nothing in flight.
pub drain_lem :
    (s : Session)
    → IsReady s
    → let t = run s (rounds (pending s)) in
      IsReady t
      × (pending t ≡ 0)
      × (t.handed ≡ s.handed ++ s.conn.queue)
      × (t.conn.sent ≡ s.conn.sent + length s.conn.queue)
drain_lem s r = let d = drain (pending s) s r refl in (d.ready, d.nothing, d.handed, d.sent)
