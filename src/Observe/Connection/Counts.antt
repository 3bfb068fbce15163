-- ===== src/Observe/Connection/Counts.antt =====
-- What each method of a connection keeps.
use ecu_simulator.Prelude.{
  ℕ, suc, ◌+◌, ◌≤◌, String, ◌≡◌, refl, ap, ◌∙◌, inl, inr, true, false, Option, none, List, [], ◌∷◌,
  ◌++◌, arith, Bool-cases, length, length-append, Result, ok, err,
}
use ecu_simulator.Observe.Limits.{encoded_size, client_max_messages, client_max_bytes}
use ecu_simulator.Observe.Connection.{
  refused, Connection, new, is_set, is_closed, close_at, reading, close, refuse, accept, overflows,
  offer, refused, set_state, set_dropped, next_exchange, next_message, mark_sent, mark_failed,
  mark_unknown, flying, queued,
}

-- bytes of these texts
unfoldable pub total : List String → ℕ
total [] = 0
total (text ∷ rest) = encoded_size text + total rest

pub total-append : (a b : List String) → total (a ++ b) ≡ total a + total b
unfolding total
total-append [] b = omega arith
total-append (text ∷ rest) b = omega (arith, total-append rest b)

-- The identities of the ledger, and the bounds of the queue.
pub record IsBalanced (c : Connection) : Type 0 where
  pub offers : c.offered ≡ c.enqueued + c.client_dropped
  pub outcomes : c.enqueued ≡ c.sent + c.delivery_unknown + queued c + c.discarded_on_close
  pub counted : c.bytes ≡ total c.queue
  pub few : length c.queue ≤ c.max_messages
  pub small : c.bytes ≤ c.max_bytes
  pub finished : is_closed c ≡ true → length c.queue ≡ 0
  pub room : c.max_messages ≡ client_max_messages
  pub bulk : c.max_bytes ≡ client_max_bytes
  pub ended : is_closed c ≡ true → is_set c.published_at_close ≡ true

pub new-IsBalanced : (id watermark published now : ℕ) → IsBalanced (new id watermark published now)
unfolding new total
new-IsBalanced id watermark published now = record {
  offers = refl;
  outcomes = refl;
  counted = refl;
  few = omega arith;
  small = omega arith;
  finished = λ _. refl;
  room = refl;
  bulk = refl;
  ended = λ h. cc;
}

pub close_at-IsBalanced :
    (c : Connection) (code published : ℕ) (now : Option ℕ)
    → IsBalanced c
    → IsBalanced (close_at c code published now)
unfolding close_at total
close_at-IsBalanced c code published now b = ground arith

pub close-IsBalanced :
    (c : Connection) (code published : ℕ) (now : Result ℕ)
    → IsBalanced c
    → IsBalanced (close c code published now)
unfolding close
close-IsBalanced c code published now b = elim (Bool-cases (is_closed c)) [
  | inl closed ↦ rw closed b
  | inr open_now ↦ rw open_now (close_at-IsBalanced c code published (reading now) b)
]

refuse-IsBalanced : (c : Connection) (now : ℕ) → IsBalanced c → IsBalanced (refuse c now)
unfolding refuse close_at total
refuse-IsBalanced c now b = ground arith

accept-IsBalanced :
    (c : Connection) (text : String)
    → is_closed c ≡ false
    → overflows c text ≡ false
    → IsBalanced c
    → IsBalanced (accept c text)
unfolding accept
accept-IsBalanced c text open_now fits b =
    let one : total (text ∷ []) ≡ encoded_size text + 0 = unfold total in refl in
    ground (arith, total-append c.queue (text ∷ []), one, length-append c.queue (text ∷ []))

refused-IsBalanced : (c : Connection) (now : Result ℕ) → IsBalanced c → IsBalanced (refused c now).1
refused-IsBalanced c (err e) b = b
refused-IsBalanced c (ok now) b = refuse-IsBalanced c now b

pub offer-IsBalanced :
    (c : Connection) (text : String) (now : Result ℕ)
    → IsBalanced c
    → IsBalanced (offer c text now).1
unfolding offer
offer-IsBalanced c text now b = elim (Bool-cases (is_closed c)) [
  | inl closed ↦ rw closed b
  | inr open_now ↦ elim (Bool-cases (overflows c text)) [
    | inl full ↦ rw (open_now, full) (refused-IsBalanced c now b)
    | inr fits ↦ rw (open_now, fits) (accept-IsBalanced c text open_now fits b)
  ]
]

pub set_state-IsBalanced :
    (c : Connection) (text : String) → IsBalanced c → IsBalanced (set_state c text)
unfolding set_state
set_state-IsBalanced c text b = ground arith

pub set_dropped-IsBalanced :
    (c : Connection) (text : String) → IsBalanced c → IsBalanced (set_dropped c text)
unfolding set_dropped
set_dropped-IsBalanced c text b = ground arith

next_exchange-IsBalanced :
    (c : Connection) (q : List String)
    → c.queue ≡ q
    → c.in_flight ≡ none
    → IsBalanced c
    → IsBalanced (next_exchange c q).1
next_exchange-IsBalanced c [] e idle b = b
next_exchange-IsBalanced c (text ∷ rest) e idle b =
    let sum : c.bytes ≡ encoded_size text + total rest =
      b.counted ∙ ap total e ∙ (unfold total in refl) in
    let len : length c.queue ≡ suc (length rest) = ap length e in
    let none_flying : flying c.in_flight ≡ 0 = ap flying idle in
    record {
      offers = b.offers;
      outcomes = omega (arith, b.outcomes, len, none_flying);
      counted = omega (arith, sum);
      few = omega (arith, b.few, len);
      small = omega (arith, b.small, sum);
      finished = λ h. absurd (omega (arith, b.finished h, len));
      room = b.room;
      bulk = b.bulk;
      ended = b.ended;
    }

-- ...under the contract of the writer: nothing is in flight when it asks
pub next_message-IsBalanced :
    (c : Connection) → c.in_flight ≡ none → IsBalanced c → IsBalanced (next_message c).1
unfolding next_message
next_message-IsBalanced c idle b = ground (arith, next_exchange-IsBalanced c c.queue refl idle b)

pub mark_sent-IsBalanced : (c : Connection) → IsBalanced c → IsBalanced (mark_sent c)
unfolding mark_sent
mark_sent-IsBalanced c b = ground arith

pub mark_failed-IsBalanced : (c : Connection) → IsBalanced c → IsBalanced (mark_failed c)
unfolding mark_failed
mark_failed-IsBalanced c b = ground arith

pub mark_unknown-IsBalanced : (c : Connection) → IsBalanced c → IsBalanced (mark_unknown c)
unfolding mark_unknown
mark_unknown-IsBalanced c b = ground arith
