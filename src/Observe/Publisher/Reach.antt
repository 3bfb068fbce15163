-- ===== src/Observe/Publisher/Reach.antt =====
-- The publisher under everything that runs beside it: the request handler, the writers' tasks, the
-- clients that come and go, and its own turns.
pub mod Laws
pub mod Guests
pub mod Doors
pub mod Entry
pub mod Ledgers
use ecu_simulator.Prelude.{
  ℕ, zero, suc, ◌+◌, ◌-◌, ◌*◌, ◌/◌, ◌%◌, ◌^◌, ◌≤◌, ◌<◌, bit_and, bit_or, String, ◌≡◌, refl, sym, ap,
  ◌∙◌, ◌≢◌, ◌↔◌, ◌⊎◌, inl, inr, Bool, true, false, not, ◌&&◌, ◌||◌, Option, none, some, List, [],
  ◌∷◌, ◌++◌, map, arith, str_eq, eq_iff, ltb, leb, ◌==◌, if◌then◌else◌, ltb→lt, lt→ltb, leb→le,
  le→leb, ==_iff, Bool-cases, Option-cases, Result-cases, ok-injective, &&-true, length, get_elem?,
  take, drop, replicate, any, all, select, All, length-append, length-take, length-replicate,
  length-map, All-append, contains, ℤ, pos, negsuc, clamp, ◌+ℤ◌, ◌*ℤ◌, sub_ℕ, ltb_ℤ, Error,
  value_error, key_error, type_error, overflow_error, index_error, traverse, as_some,
  not_implemented, unknown_signal, service_conflict, route_conflict, provider_conflict,
  assertion_error, Result, ok, err, ◌>>=◌, ◌>>◌, raise_if, or_raise, >>=-eq-ok,
}
use ecu_simulator.Observe.HandOff.{ExchangeRecord, HandOff, append}
use ecu_simulator.Observe.HandOff
use ecu_simulator.Observe.History
use ecu_simulator.Observe.Connection.{
  Connection, is_set, next_message, take_state, mark_sent, mark_failed, mark_unknown,
}
use ecu_simulator.Observe.Writer.{Sending, returned, not_delivered, unknown}
use ecu_simulator.Observe.Limits.{max_clients}
use ecu_simulator.Observe.Publisher.{Publisher, empty_totals}
use ecu_simulator.Observe.Publisher.Publish.{Readings, drain_turn}
use ecu_simulator.Observe.Publisher.Clients.{
  connect, disconnect, fail_writer, state_round, push_initial_state, vehicle_encode_failure, settle,
}

-- `Publisher(handoff, router, endpoints)` and a new hand-off; durations are in microseconds
abbrev pub new : Publisher
new = record {
  handoff = HandOff.new;
  history = History.new;
  max_turn_records = 64;
  max_turn = 1000;
  max_clients = max_clients;
  next_id = 0;
  connections = [];
  closed = [];
  unresolved = [];
  totals = empty_totals;
  last_state = none;
  published = 0;
  longest_turn = 0;
  refused_clients = 0;
  forced_disconnects = 0;
  encode_failed = 0;
  fanout_failed = 0;
  writer_failed = 0;
  state_encode_failed = 0;
  vehicle_encode_failed = 0;
  state_ok = true;
  must_publish = false;
  connections_opened = 0;
}

-- What a writer's task does to its connection.
pub data Act : Type 0 where
  taking asking : Act
  resolving : Sending → Act

abbrev pub settled_by : Sending → Connection → Connection
settled_by returned c = mark_sent c
settled_by not_delivered c = mark_failed c
settled_by unknown c = mark_unknown c

-- A writer asks for the next message only with nothing in flight.
unfoldable pub act : Act → Connection → Connection
act taking c = (take_state c).1
act asking c = if is_set c.in_flight then c else (next_message c).1
act (resolving how) c = settled_by how c

abbrev pub touch_one : ℕ → Act → Connection → Connection
touch_one id a c = if c.id == id then act a c else c

-- the object of this id, wherever it stands
unfoldable pub touch : ℕ → Act → Publisher → Publisher
touch id a p = record p {
  connections = map (touch_one id a) p.connections;
  closed = map (touch_one id a) p.closed;
  unresolved = map (touch_one id a) p.unresolved;
}

pub data Move : Type 0 where
  recording : ExchangeRecord → Move
  turning : (ℕ → ℕ) → ℕ → (ℕ → Readings) → Move
  connecting : Option ℤ → Result ℕ → Move
  disconnecting : ℕ → ℕ → Result ℕ → Move
  failing : ℕ → Result ℕ → Move
  sampling : Result String → Move
  greeting : String → Move
  missing : Move
  asked_stats : Move
  writing : ℕ → Act → Move

module _ (encode : ExchangeRecord → Result String) (fallback : ExchangeRecord → String)
    (notice : ℕ → ℕ → ℕ → String) where
  unfoldable pub move : Publisher → Move → Publisher
  move p (recording r) = record p { handoff = (append p.handoff r).1 }
  move p (turning elapsed total now) = (drain_turn encode fallback p elapsed total now).0
  move p (connecting after now) = (connect p after now).1
  move p (disconnecting id code now) = disconnect p id code now
  move p (failing id now) = fail_writer p id now
  move p (sampling snapshot) = state_round notice p snapshot
  move p (greeting text) = push_initial_state p text
  move p missing = vehicle_encode_failure p
  move p asked_stats = settle p
  move p (writing id a) = touch id a p

  unfoldable pub moves : Publisher → List Move → Publisher
  moves p [] = p
  moves p (m ∷ rest) = moves (move p m) rest

-- how many records were handed over
abbrev pub issued : List Move → ℕ
issued [] = 0
issued (recording r ∷ rest) = suc (issued rest)
issued (m ∷ rest) = issued rest
