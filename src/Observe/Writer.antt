-- ===== src/Observe/Writer.antt =====
-- src/ecu_simulator/observe/writer.py: the task that sends one client's messages. Each step of the
-- loop runs to its next `await`; other tasks may use the connection there. How a `send` ends is the
-- environment's choice. The lists of texts are kept for the theorems only.
pub mod Orderly
pub mod Runs
pub mod Drain
use ecu_simulator.Prelude.{
  ℕ, zero, suc, ◌+◌, ◌-◌, ◌*◌, ◌/◌, ◌%◌, ◌^◌, ◌≤◌, ◌<◌, bit_and, bit_or, String, ◌≡◌, refl, sym, ap,
  ◌∙◌, ◌≢◌, ◌↔◌, ◌⊎◌, inl, inr, Bool, true, false, not, ◌&&◌, ◌||◌, Option, none, some, List, [],
  ◌∷◌, ◌++◌, map, arith, str_eq, eq_iff, ltb, leb, ◌==◌, if◌then◌else◌, ltb→lt, lt→ltb, leb→le,
  le→leb, ==_iff, Bool-cases, Option-cases, Result-cases, ok-injective, &&-true, length, get_elem?,
  take, drop, replicate, any, all, select, All, length-append, length-take, length-replicate,
  length-map, All-append, contains, ℤ, pos, negsuc, clamp, ◌+ℤ◌, ◌*ℤ◌, sub_ℕ, ltb_ℤ, Error,
  value_error, key_error, type_error, overflow_error, index_error, traverse, as_some,
  not_implemented, unknown_signal, service_conflict, route_conflict, provider_conflict,
  assertion_error, Result, ok, err, ◌>>=◌, ◌>>◌, raise_if, or_raise, >>=-eq-ok,
}
use ecu_simulator.Observe.Connection.{
  Connection, is_set, is_closed, close, offer, set_state, set_dropped, take_state, next_message,
  mark_sent, mark_failed, mark_unknown,
}

-- Where the task is: about to test `while not conn.closed`, in `await send(text)`, or ended.
pub data Place : Type 0 where
  looping sending ended : Place

-- How `send` ends: it returns, raises `NotDelivered`, or raises something else or is cancelled.
pub data Sending : Type 0 where
  returned not_delivered unknown : Sending

pub record Session : Type 0 where
  pub conn : Connection
  pub place : Place
  -- the texts that `offer` accepted, and the exchanges that were given to `send`
  pub accepted : List String
  pub handed : List String

abbrev pub given : Option String → List String
given none = []
given (some text) = text ∷ []

abbrev pub handing : Session → Option String × Connection → Session
handing s (none, c) = record s { conn = c; place = looping }
handing s (some text, c) = record s {
  conn = c;
  place = sending;
  handed = s.handed ++ given c.in_flight;
}

-- one turn of the loop, up to `await send(text)` or `await conn.wait_changed()`
unfoldable pub turn : Session → Session
turn s = if is_closed s.conn then record s { place = ended } else handing s (next_message s.conn)

-- the end of `await send(text)`
unfoldable pub resolve : Session → Sending → Session
resolve s returned = record s { conn = mark_sent s.conn; place = looping }
resolve s not_delivered = record s { conn = mark_failed s.conn; place = ended }
resolve s unknown = record s { conn = mark_unknown s.conn; place = ended }

-- What is sent before the loop: `hello`, the state that `take_state` gave, and the history.
unfoldable pub opening : String → Option String → List String → List String
opening hello none history = hello ∷ history
opening hello (some state) history = hello ∷ state ∷ history

-- What may happen next: a call by another task, or a step of the writer.
pub data Event : Type 0 where
  offering : String → Result ℕ → Event
  taking : Event
  stating : String → Event
  noting : String → Event
  closing : ℕ → ℕ → Result ℕ → Event
  turning : Event
  resolving : Sending → Event

abbrev pub accepted_by : Result Bool → String → List String
accepted_by (ok true) text = text ∷ []
accepted_by (ok false) text = []
accepted_by (err e) text = []

-- A step of the writer that is not due changes nothing.
abbrev pub at_turn : Session → Place → Session
at_turn s looping = turn s
at_turn s sending = s
at_turn s ended = s

abbrev pub at_end : Session → Place → Sending → Session
at_end s looping how = s
at_end s sending how = resolve s how
at_end s ended how = s

unfoldable pub step : Session → Event → Session
step s (offering text now) = record s {
  conn = (offer s.conn text now).1;
  accepted = s.accepted ++ accepted_by (offer s.conn text now).0 text;
}
step s taking = record s { conn = (take_state s.conn).1 }
step s (stating text) = record s { conn = set_state s.conn text }
step s (noting text) = record s { conn = set_dropped s.conn text }
step s (closing code published now) = record s { conn = close s.conn code published now }
step s turning = at_turn s s.place
step s (resolving how) = at_end s s.place how

unfoldable pub run : Session → List Event → Session
run s [] = s
run s (event ∷ rest) = run (step s event) rest

-- The writer and the connection as the loop is entered.
abbrev pub begin : Connection → Session
begin c = record { conn = c; place = looping; accepted = []; handed = [] }
