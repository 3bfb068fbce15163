-- ===== src/Observe/Connection.antt =====
-- src/ecu_simulator/observe/connection.py: one client's queue, its one-slot messages and its ledger.
-- A reading of the clock is a whole number of milliseconds, or the exception that reading it raised.
pub mod Counts
use ecu_simulator.Prelude.{
  ℕ, zero, suc, ◌+◌, ◌-◌, ◌*◌, ◌/◌, ◌%◌, ◌^◌, ◌≤◌, ◌<◌, bit_and, bit_or, String, ◌≡◌, refl, sym, ap,
  ◌∙◌, ◌≢◌, ◌↔◌, ◌⊎◌, inl, inr, Bool, true, false, not, ◌&&◌, ◌||◌, Option, none, some, List, [],
  ◌∷◌, ◌++◌, map, arith, str_eq, eq_iff, ltb, leb, ◌==◌, if◌then◌else◌, ltb→lt, lt→ltb, leb→le,
  le→leb, ==_iff, Bool-cases, Option-cases, Result-cases, ok-injective, &&-true, length, get_elem?,
  take, drop, replicate, any, all, select, All, length-append, length-take, length-replicate,
  length-map, All-append, contains, ℤ, pos, negsuc, clamp, ◌+ℤ◌, ◌*ℤ◌, sub_ℕ, ltb_ℤ, Error,
  value_error, key_error, type_error, overflow_error, index_error, traverse, as_some,
  not_implemented, unknown_signal, service_conflict, route_conflict, provider_conflict,
  assertion_error, Result, ok, err, ◌>>=◌, ◌>>◌, raise_if, or_raise, >>=-eq-ok,
}
use ecu_simulator.Observe.Limits.{
  encoded_size, client_max_messages, client_max_bytes, overflow_disconnect, close_too_slow,
}

pub record Connection : Type 0 where
  pub id : ℕ
  pub watermark : ℕ
  pub max_messages : ℕ
  pub max_bytes : ℕ
  pub overflow_limit : ℕ
  pub queue : List String
  pub bytes : ℕ
  pub state : Option String
  pub dropped_notice : Option String
  pub overflow_since : Option ℕ
  pub in_flight : Option String
  pub changed : Bool
  pub closed_event : Bool
  pub connected_at : ℕ
  pub closed_at : Option ℕ
  pub close_code : Option ℕ
  pub history_sent : ℕ
  pub published_at_open : ℕ
  pub published_at_close : Option ℕ
  pub offered : ℕ
  pub enqueued : ℕ
  pub client_dropped : ℕ
  pub sent : ℕ
  pub discarded_on_close : ℕ
  pub delivery_unknown : ℕ

-- `Connection(id, watermark, published_at_open)`, with the clock's reading
unfoldable pub new : ℕ → ℕ → ℕ → ℕ → Connection
new id watermark published_at_open now = record {
  id = id;
  watermark = watermark;
  max_messages = client_max_messages;
  max_bytes = client_max_bytes;
  overflow_limit = overflow_disconnect;
  queue = [];
  bytes = 0;
  state = none;
  dropped_notice = none;
  overflow_since = none;
  in_flight = none;
  changed = false;
  closed_event = false;
  connected_at = now;
  closed_at = none;
  close_code = none;
  history_sent = 0;
  published_at_open = published_at_open;
  published_at_close = none;
  offered = 0;
  enqueued = 0;
  client_dropped = 0;
  sent = 0;
  discarded_on_close = 0;
  delivery_unknown = 0;
}

abbrev pub is_set {ℓ} : {A : Type ℓ} → Option A → Bool
is_set none = false
is_set (some a) = true

-- `closed`
abbrev pub is_closed : Connection → Bool
is_closed c = is_set c.close_code

-- `_close`
unfoldable pub close_at : Connection → ℕ → ℕ → Option ℕ → Connection
close_at c code published now = record c {
  close_code = some code;
  closed_at = now;
  published_at_close = some published;
  discarded_on_close = c.discarded_on_close + length c.queue;
  queue = [];
  bytes = 0;
  state = none;
  dropped_notice = none;
  changed = true;
  closed_event = true;
}

-- the reading of the clock, if it did not raise
abbrev pub reading : Result ℕ → Option ℕ
reading (err e) = none
reading (ok now) = some now

-- `close`
unfoldable pub close : Connection → ℕ → ℕ → Result ℕ → Connection
close c code published now = if is_closed c then c else close_at c code published (reading now)

-- the time since which the queue is full
abbrev pub since : Option ℕ → ℕ → ℕ
since none now = now
since (some t) now = t

-- the part of `offer` for a text that does not fit
unfoldable pub refuse : Connection → ℕ → Connection
refuse c now =
    let counted = record c {
      overflow_since = some (since c.overflow_since now);
      offered = c.offered + 1;
      client_dropped = c.client_dropped + 1;
    } in
    if leb (since c.overflow_since now + c.overflow_limit) now
    then close_at counted close_too_slow (c.published_at_open + counted.offered) (some now)
    else counted

-- the part of `offer` for a text that fits
unfoldable pub accept : Connection → String → Connection
accept c text = record c {
  overflow_since = none;
  queue = c.queue ++ text ∷ [];
  bytes = c.bytes + encoded_size text;
  offered = c.offered + 1;
  enqueued = c.enqueued + 1;
  changed = true;
}

abbrev pub overflows : Connection → String → Bool
overflows c text =
    leb c.max_messages (length c.queue) || ltb c.max_bytes (c.bytes + encoded_size text)

abbrev pub refused : Connection → Result ℕ → Result Bool × Connection
refused c (err e) = (err e, c)
refused c (ok now) = (ok false, refuse c now)

-- `offer`: its answer, or the exception that the clock raised, with the connection
unfoldable pub offer : Connection → String → Result ℕ → Result Bool × Connection
offer c text now =
    if is_closed c
    then (ok false, c)
    else if overflows c text
    then refused c now
    else (ok true, accept c text)

unfoldable pub set_state : Connection → String → Connection
set_state c text = if is_closed c then c else record c { state = some text; changed = true }

unfoldable pub set_dropped : Connection → String → Connection
set_dropped c text =
    if is_closed c then c else record c { dropped_notice = some text; changed = true }

unfoldable pub take_state : Connection → Option String × Connection
take_state c = (c.state, record c { state = none })

-- `next_message` where both slots are empty
abbrev pub next_exchange : Connection → List String → Option String × Connection
next_exchange c [] = (none, c)
next_exchange c (text ∷ rest) = (
  some text,
  record c { queue = rest; bytes = c.bytes - encoded_size text; in_flight = some text },
)

abbrev pub next_notice : Connection → Option String → Option String × Connection
next_notice c (some text) = (some text, record c { dropped_notice = none })
next_notice c none = next_exchange c c.queue

abbrev pub next_of : Connection → Option String → Option String × Connection
next_of c (some text) = (some text, record c { state = none })
next_of c none = next_notice c c.dropped_notice

-- `next_message`
unfoldable pub next_message : Connection → Option String × Connection
next_message c = next_of c c.state

unfoldable pub mark_sent : Connection → Connection
mark_sent c = if is_set c.in_flight then record c { in_flight = none; sent = c.sent + 1 } else c

unfoldable pub mark_failed : Connection → Connection
mark_failed c =
    if is_set c.in_flight
    then record c { in_flight = none; discarded_on_close = c.discarded_on_close + 1 }
    else c

unfoldable pub mark_unknown : Connection → Connection
mark_unknown c =
    if is_set c.in_flight
    then record c { in_flight = none; delivery_unknown = c.delivery_unknown + 1 }
    else c

abbrev pub flying : Option String → ℕ
flying none = 0
flying (some text) = 1

-- the field `queued` of the ledger
abbrev pub queued : Connection → ℕ
queued c = length c.queue + flying c.in_flight

pub record Ledger : Type 0 where
  pub id : ℕ
  pub connected_at : ℕ
  pub closed_at : Option ℕ
  pub close_code : Option ℕ
  pub watermark : ℕ
  pub history_sent : ℕ
  pub published_at_open : ℕ
  pub published_at_close : Option ℕ
  pub offered : ℕ
  pub client_dropped : ℕ
  pub enqueued : ℕ
  pub sent : ℕ
  pub queued : ℕ
  pub discarded_on_close : ℕ
  pub delivery_unknown : ℕ

-- `ledger(published_now)`
unfoldable pub ledger : Connection → ℕ → Ledger
ledger c published = record {
  id = c.id;
  connected_at = c.connected_at;
  closed_at = c.closed_at;
  close_code = c.close_code;
  watermark = c.watermark;
  history_sent = c.history_sent;
  published_at_open = c.published_at_open;
  published_at_close = if is_closed c then c.published_at_close else some published;
  offered = c.offered;
  client_dropped = c.client_dropped;
  enqueued = c.enqueued;
  sent = c.sent;
  queued = queued c;
  discarded_on_close = c.discarded_on_close;
  delivery_unknown = c.delivery_unknown;
}
