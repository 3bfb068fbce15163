-- ===== src/Observe/Writer/Orderly.antt =====
-- What one step of a client's connection or of its writer keeps.
use ecu_simulator.Prelude.{
  ℕ, ◌+◌, String, ◌≡◌, refl, sym, ap, ◌∙◌, inl, inr, Bool, true, false, Option, none, some, List,
  [], ◌∷◌, ◌++◌, arith, Bool-cases, length, length-append, Result,
}
use mathlib.Core.List.{append-nil, append_assoc}
use ecu_simulator.Observe.Connection.{
  next_notice, next_of, Connection, is_closed, offer, refuse, accept, next_exchange, next_message,
  close, close_at, mark_sent, mark_failed, mark_unknown, set_state, set_dropped, take_state,
}
use ecu_simulator.Observe.Connection.Counts.{
  IsBalanced, close-IsBalanced, offer-IsBalanced, next_message-IsBalanced, mark_sent-IsBalanced,
  mark_failed-IsBalanced, mark_unknown-IsBalanced,
}
use ecu_simulator.Observe.Writer.{
  Place, looping, sending, ended, Sending, returned, not_delivered, unknown, Session, turn, resolve,
  Event, offering, taking, stating, noting, closing, turning, resolving, step, accepted_by, at_turn,
  at_end, handing, given,
}

abbrev pub is_sending : Place → Bool
is_sending looping = false
is_sending sending = true
is_sending ended = false

-- The writer asks only when nothing is in flight; what it was given is, in order, the beginning of
-- what `offer` accepted, and while the connection is open the queue is the rest.
pub record IsOrderly (s : Session) : Type 0 where
  pub balanced : IsBalanced s.conn
  pub idle : is_sending s.place ≡ false → s.conn.in_flight ≡ none
  pub rest : List String
  pub ordered : s.handed ++ rest ≡ s.accepted
  pub waiting : is_closed s.conn ≡ false → rest ≡ s.conn.queue
  pub taken : length s.accepted ≡ s.conn.enqueued

offer-in_flight :
    (c : Connection) (text : String) (now : Result ℕ) → (offer c text now).1.in_flight ≡ c.in_flight
unfolding offer refuse close_at accept
offer-in_flight c text now = ground arith

offer-enqueued :
    (c : Connection) (text : String) (now : Result ℕ)
    → (offer c text now).1.enqueued ≡ c.enqueued + length (accepted_by (offer c text now).0 text)
unfolding offer refuse close_at accept
offer-enqueued c text now = ground arith

offer-queue :
    (c : Connection) (text : String) (now : Result ℕ)
    → is_closed (offer c text now).1 ≡ false
    → ((offer c text now).1.queue ≡ c.queue ++ accepted_by (offer c text now).0 text)
      × (is_closed c ≡ false)
unfolding offer refuse close_at accept
offer-queue c text now h = ground (arith, append-nil c.queue)

offering-IsOrderly :
    (s : Session) (text : String) (now : Result ℕ)
    → IsOrderly s
    → IsOrderly (step s (offering text now))
unfolding step
offering-IsOrderly s text now o =
    let got = accepted_by (offer s.conn text now).0 text in
    let queue = offer-queue s.conn text now in
    record {
      balanced = offer-IsBalanced s.conn text now o.balanced;
      idle = λ h. offer-in_flight s.conn text now ∙ o.idle h;
      rest = o.rest ++ got;
      ordered =
          sym (append_assoc s.handed o.rest got) ∙ ap (λ (l : List String). l ++ got) o.ordered;
      waiting = λ h. ap (λ (l : List String). l ++ got) (o.waiting (queue h).1) ∙ sym (queue h).0;
      taken = omega (arith, length-append s.accepted got, offer-enqueued s.conn text now, o.taken);
    }

closing-IsOrderly :
    (s : Session) (code published : ℕ) (now : Result ℕ)
    → IsOrderly s
    → IsOrderly (step s (closing code published now))
unfolding step close close_at
closing-IsOrderly s code published now o = record {
  balanced = close-IsBalanced s.conn code published now o.balanced;
  idle = ground arith;
  rest = o.rest;
  ordered = o.ordered;
  waiting = λ h. ground arith;
  taken = ground arith;
}

slots-IsOrderly :
    (s : Session) (text : String)
    → IsOrderly s
    → IsOrderly (step s (stating text))
      × IsOrderly (step s (noting text))
      × IsOrderly (step s taking)
unfolding step set_state set_dropped take_state
slots-IsOrderly s text o = ground arith

next-IsOrderly :
    (s : Session) (q : List String)
    → s.conn.queue ≡ q
    → is_closed s.conn ≡ false
    → s.conn.in_flight ≡ none
    → IsOrderly s
    → IsBalanced (next_exchange s.conn q).1
    → IsOrderly (handing s (next_exchange s.conn q))
next-IsOrderly s [] e open_now idle o b = record {
  balanced = b;
  idle = λ _. idle;
  rest = o.rest;
  ordered = o.ordered;
  waiting = o.waiting;
  taken = o.taken;
}
next-IsOrderly s (text ∷ rest) e open_now idle o b = record {
  balanced = b;
  idle = λ h. cc;
  rest = rest;
  ordered =
      append_assoc s.handed (text ∷ []) rest
      ∙ ap (λ (l : List String). s.handed ++ l) (sym (o.waiting open_now ∙ e))
      ∙ o.ordered;
  waiting = λ _. refl;
  taken = o.taken;
}

-- a message that the ledger does not count
slot-IsOrderly :
    (s : Session) (c : Connection) (text : String)
    → s.conn.in_flight ≡ none
    → c.in_flight ≡ none
    → IsBalanced c
    → c.queue ≡ s.conn.queue
    → c.enqueued ≡ s.conn.enqueued
    → is_closed c ≡ is_closed s.conn
    → IsOrderly s
    → IsOrderly (handing s (some text, c))
slot-IsOrderly s c text idle idle' b queue enqueued closed o = record {
  balanced = b;
  idle = λ _. idle';
  rest = o.rest;
  ordered =
      ap (λ (l : List String). l ++ o.rest)
        (ap (λ (f : Option String). s.handed ++ given f) idle' ∙ append-nil s.handed)
      ∙ o.ordered;
  waiting = λ h. o.waiting (sym closed ∙ h) ∙ sym queue;
  taken = o.taken ∙ sym enqueued;
}

notice-IsOrderly :
    (s : Session) (notice : Option String)
    → is_closed s.conn ≡ false
    → s.conn.in_flight ≡ none
    → IsOrderly s
    → IsBalanced (next_notice s.conn notice).1
    → IsOrderly (handing s (next_notice s.conn notice))
notice-IsOrderly s none open_now idle o b = next-IsOrderly s s.conn.queue refl open_now idle o b
notice-IsOrderly s (some text) open_now idle o b =
    slot-IsOrderly s (record s.conn { dropped_notice = none }) text idle idle b refl refl refl o

state-IsOrderly :
    (s : Session) (state : Option String)
    → is_closed s.conn ≡ false
    → s.conn.in_flight ≡ none
    → IsOrderly s
    → IsBalanced (next_of s.conn state).1
    → IsOrderly (handing s (next_of s.conn state))
state-IsOrderly s none open_now idle o b =
    notice-IsOrderly s s.conn.dropped_notice open_now idle o b
state-IsOrderly s (some text) open_now idle o b =
    slot-IsOrderly s (record s.conn { state = none }) text idle idle b refl refl refl o

turn-IsOrderly : (s : Session) → s.conn.in_flight ≡ none → IsOrderly s → IsOrderly (turn s)
unfolding turn next_message
turn-IsOrderly s idle o = elim (Bool-cases (is_closed s.conn)) [
  | inl closed ↦ rw closed (record {
    balanced = o.balanced;
    idle = λ _. idle;
    rest = o.rest;
    ordered = o.ordered;
    waiting = o.waiting;
    taken = o.taken;
  })
  | inr open_now ↦ rw open_now (
      state-IsOrderly s s.conn.state open_now idle o
        (next_message-IsBalanced s.conn idle o.balanced))
]

resolve-IsOrderly : (s : Session) (how : Sending) → IsOrderly s → IsOrderly (resolve s how)
unfolding resolve mark_sent mark_failed mark_unknown
resolve-IsOrderly s returned o = ground (arith, mark_sent-IsBalanced s.conn)
resolve-IsOrderly s not_delivered o = ground (arith, mark_failed-IsBalanced s.conn)
resolve-IsOrderly s unknown o = ground (arith, mark_unknown-IsBalanced s.conn)

due-IsOrderly :
    (s : Session) (p : Place)
    → s.place ≡ p
    → IsOrderly s
    → IsOrderly (at_turn s p) × ((how : Sending) → IsOrderly (at_end s p how))
due-IsOrderly s looping e o = (turn-IsOrderly s (o.idle (ap is_sending e)) o, λ how. o)
due-IsOrderly s sending e o = (o, λ how. resolve-IsOrderly s how o)
due-IsOrderly s ended e o = (o, λ how. o)

pub step-IsOrderly : (s : Session) (event : Event) → IsOrderly s → IsOrderly (step s event)
step-IsOrderly s (offering text now) o = offering-IsOrderly s text now o
step-IsOrderly s taking o = (slots-IsOrderly s "" o).2
step-IsOrderly s (stating text) o = (slots-IsOrderly s text o).0
step-IsOrderly s (noting text) o = (slots-IsOrderly s text o).1
step-IsOrderly s (closing code published now) o = closing-IsOrderly s code published now o
step-IsOrderly s turning o = unfold step in (due-IsOrderly s s.place refl o).0
step-IsOrderly s (resolving how) o = unfold step in (due-IsOrderly s s.place refl o).1 how
