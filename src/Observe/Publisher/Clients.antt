-- ===== src/Observe/Publisher/Clients.antt =====
-- src/ecu_simulator/observe/publisher.py: clients that come and go, and the state that they are sent.
use ecu_simulator.Prelude.{
  ℕ, ◌+◌, String, Bool, true, false, not, ◌||◌, Option, none, some, List, [], ◌∷◌, ◌++◌, map,
  str_eq, leb, ◌==◌, if◌then◌else◌, length, ℤ, Result, ok, err,
}
use ecu_simulator.Prelude.{too_many_clients}
use ecu_simulator.Observe.Limits.{close_internal_error}
use ecu_simulator.Observe.History.{since, oldest_seq}
use ecu_simulator.Observe.Connection.{Connection, close, set_state, set_dropped}
use ecu_simulator.Observe.Connection
use ecu_simulator.Observe.Publisher.{Publisher, retire, retire_closed, fold}

-- `hello`: `gap` is there if the client gave `after`
pub record Hello : Type 0 where
  pub watermark : ℕ
  pub oldest_seq : Option ℕ
  pub gap : Option Bool

abbrev pub gap_of : Option ℤ → Bool → Option Bool
gap_of none gap = none
gap_of (some after) gap = some gap

-- `conn.set_state(self._last_state)` where there is one
abbrev pub greeted : Option String → Connection → Connection
greeted none c = c
greeted (some text) c = set_state c text

-- the end of `connect`, from the answer of `since` and the reading of the clock on
unfoldable pub admit :
    Publisher → Option ℤ → List String × Bool → ℕ → Publisher × (Connection × (Hello × List String))
admit p after (texts, gap) now =
    let id = p.next_id + 1 in
    let made = Connection.new id p.history.last_seq p.published now in
    let c = greeted p.last_state (record made { history_sent = length texts }) in
    let hello : Hello = record {
      watermark = p.history.last_seq;
      oldest_seq = oldest_seq p.history;
      gap = gap_of after gap;
    } in
    (
      record p {
        next_id = id;
        connections = p.connections ++ c ∷ [];
        connections_opened = p.connections_opened + 1;
      },
      (c, (hello, texts)),
    )

abbrev pub Admission : Type 0
Admission = Result (Connection × (Hello × List String)) × Publisher

abbrev pub clocked : Publisher → Option ℤ → List String × Bool → Result ℕ → Admission
clocked p after found (err e) = (err e, record p { next_id = p.next_id + 1 })
clocked p after found (ok now) = let out = admit p after found now in (ok out.1, out.0)

abbrev pub searched : Publisher → Option ℤ → Result (List String × Bool) → Result ℕ → Admission
searched p after (err e) now = (err e, p)
searched p after (ok found) now = clocked p after found now

-- `connect`
unfoldable pub connect : Publisher → Option ℤ → Result ℕ → Admission
connect p after now =
    let p' = retire_closed p in
    if leb p'.max_clients (length p'.connections)
    then (err too_many_clients, record p' { refused_clients = p'.refused_clients + 1 })
    else searched p' after (since p'.history after none) now

-- the connections without the first of this id, and that one
unfoldable pub removed : ℕ → List Connection → List Connection × List Connection
removed id [] = ([], [])
removed id (c ∷ rest) =
    let out = removed id rest in if c.id == id then (rest, c ∷ []) else (c ∷ out.0, out.1)

-- `close` and `_retire` of a connection that was found
abbrev pub disconnected : Publisher → List Connection × List Connection → ℕ → Result ℕ → Publisher
disconnected p (others, []) code now = p
disconnected p (others, c ∷ more) code now =
    retire (record p { connections = others }) (close c code p.published now)

-- `disconnect`: a connection that is not among `connections` has been closed and retired
unfoldable pub disconnect : Publisher → ℕ → ℕ → Result ℕ → Publisher
disconnect p id code now = disconnected p (removed id p.connections) code now

unfoldable pub fail_writer : Publisher → ℕ → Result ℕ → Publisher
fail_writer p id now =
    disconnect (record p { writer_failed = p.writer_failed + 1 }) id close_internal_error now

unfoldable pub push_state : Publisher → String → Publisher
push_state p text = record p {
  last_state = some text;
  connections = map (λ (c : Connection). set_state c text) p.connections;
}

-- `push_dropped`; `notice` is the text that `json` makes of the three counts
unfoldable pub push_dropped : (ℕ → ℕ → ℕ → String) → Publisher → Publisher
push_dropped notice p = record p {
  connections =
      map
        (λ (c : Connection).
          set_dropped c (notice p.handoff.dropped c.client_dropped p.forced_disconnects))
        p.connections;
}

-- `push_initial_state`; the times of the last snapshots are not kept
unfoldable pub push_initial_state : Publisher → String → Publisher
push_initial_state p text = record (push_state p text) { state_ok = true }

unfoldable pub vehicle_encode_failure : Publisher → Publisher
vehicle_encode_failure p = record p { vehicle_encode_failed = p.vehicle_encode_failed + 1 }

abbrev pub is_same : Option String → String → Bool
is_same none text = false
is_same (some last) text = str_eq text last

-- what one round of `run_state` makes of the answer of `snapshot`
abbrev pub snapshot_taken : Publisher → Result String → Publisher
snapshot_taken p (err e) = record p {
  state_encode_failed = p.state_encode_failed + 1;
  state_ok = false;
  must_publish = true;
}
snapshot_taken p (ok text) =
    let good = record p { state_ok = true } in
    if p.must_publish || not (is_same p.last_state text)
    then record (push_state good text) { must_publish = false }
    else good

-- one round of `run_state`, up to its `sleep`
unfoldable pub state_round : (ℕ → ℕ → ℕ → String) → Publisher → Result String → Publisher
state_round notice p snapshot = push_dropped notice (snapshot_taken p snapshot)

-- what `stats` does before it reads the counts
unfoldable pub settle : Publisher → Publisher
settle p = fold (retire_closed p)
