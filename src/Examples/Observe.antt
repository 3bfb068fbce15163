-- ===== src/Examples/Observe.antt =====
-- A publisher with two clients, one of which falls behind, and its parts.
use ecu_simulator.Prelude.{
  ℕ, ◌+◌, ◌≤◌, String, ◌≡◌, refl, false, not, ◌&&◌, none, some, List, [], ◌∷◌, ◌++◌, map, arith,
  ltb, ◌==◌, if◌then◌else◌, length, select, All, pos, Error, value_error, key_error, Result, ok,
  err,
}
use ecu_simulator.Transport.Messages.{normal_11bit, DiagnosticRequest, DiagnosticResponse}
use ecu_simulator.Ecu.Router.{resolve}
use ecu_simulator.Ecu.Dispatcher.{Dispatcher, call}
use ecu_simulator.Observe.Limits.{
  encoded_size, handoff_max_records, handoff_max_bytes, client_max_messages, client_max_bytes,
  max_clients, closed_ledgers_kept,
}
use ecu_simulator.Observe.HandOff.{ExchangeRecord, HandOff, append}
use ecu_simulator.Observe.HandOff
use ecu_simulator.Observe.HandOff.Laws.{Call, put, pull, perform, puts, total, perform_lem}
use ecu_simulator.Observe.History.{Event, since, is_gap, oldest_seq, text_of}
use ecu_simulator.Observe.History
use ecu_simulator.Observe.History.Laws.{add_all}
use ecu_simulator.Observe.History.Since.{is_behind, since_complete}
use ecu_simulator.Observe.Connection.{Connection, is_closed, queued}
use ecu_simulator.Observe.Connection
use ecu_simulator.Observe.Writer.{
  step, Session, Event as Happening, returned, not_delivered, offering, stating, closing, turning,
  resolving, run, begin,
}
use ecu_simulator.Observe.Writer.Orderly.{is_sending}
use ecu_simulator.Observe.Writer.Runs.{bytes_of, run_lem}
use ecu_simulator.Observe.Writer.Drain.{IsReady, pending, rounds, drain_lem}
use ecu_simulator.Observe.Publisher.{Publisher}
use ecu_simulator.Observe.Publisher.Publish.{Readings}
use ecu_simulator.Observe.Publisher.Reach.{Move, moves, issued}
use ecu_simulator.Observe.Publisher.Reach
use ecu_simulator.Observe.Publisher.Reach.Ledgers.{IsConsistent, moves-accounts}
use ecu_simulator.Observe.Wrapper.{Observed, Answer, record_of, Timed, watched, plain}
use ecu_simulator.Observe.Wrapper.Laws.{watched-plain}
use ecu_simulator.Observe.Events.{classify}
use ecu_simulator.Observe.Events.Laws.{expected, IsNamed, classify-call}

abbrev request : DiagnosticRequest
request = record {
  payload = 0x3E ∷ 0x00 ∷ [];
  target_address = 0x7E0;
  functional = false;
  addressing_mode = normal_11bit;
}

abbrev reply : DiagnosticResponse
reply = record { payload = 0x7E ∷ 0x00 ∷ [] }

abbrev exchange : ℕ → ExchangeRecord
exchange seq = record {
  seq = seq;
  t0_ns = 10;
  elapsed_ns = 5;
  request = request;
  response = some reply;
  error = none;
}

abbrev calls : List Call
calls = put (exchange 1) ∷ put (exchange 2) ∷ pull ∷ put (exchange 3) ∷ []

perform_lem_example :
    let out = perform HandOff.new calls in
    (out.taken ++ out.after.records ≡ out.kept)
    × (out.after.dropped + length out.kept ≡ puts calls)
    × (length out.after.records ≤ handoff_max_records)
    × (out.after.bytes ≤ handoff_max_bytes)
    × (out.after.bytes ≡ total out.after.records)
perform_lem_example = perform_lem calls

abbrev events : List Event
events = (1, "one") ∷ (2, "two") ∷ (5, "five") ∷ []

abbrev ring : History.HistoryRing
ring = add_all History.new events

since_complete_example :
    since ring (some (pos 1)) none
    ≡ ok (
      if is_behind 1 ring.events
          then map text_of ring.events
          else map text_of (select (λ (e : Event). ltb 1 e.0) events),
      is_behind 1 ring.events,
    )
since_complete_example = since_complete events 1 (omega arith)

abbrev happenings : List Happening
happenings =
    offering "a" (ok 1)
    ∷ offering "b" (ok 2)
    ∷ turning
    ∷ resolving returned
    ∷ turning
    ∷ closing 1000 2 (ok 3)
    ∷ resolving not_delivered
    ∷ []

abbrev session : Session
session = run (begin (Connection.new 1 0 0 0)) happenings

run_lem_example :
    (session.conn.offered ≡ session.conn.enqueued + session.conn.client_dropped)
    × (session.conn.enqueued
        ≡ session.conn.sent
          + session.conn.delivery_unknown
          + queued session.conn
          + session.conn.discarded_on_close)
    × ((if is_closed session.conn && not (is_sending session.place) then queued session.conn else 0)
        ≡ 0)
    × (length session.conn.queue ≤ client_max_messages)
    × (bytes_of session.conn.queue ≤ client_max_bytes)
    × (session.conn.bytes ≡ bytes_of session.conn.queue)
    × (length session.accepted ≡ session.conn.enqueued)
    × (rest : List String) × (session.handed ++ rest ≡ session.accepted)
    × ((if is_closed session.conn then rest else session.conn.queue) ≡ rest)
run_lem_example = run_lem 1 0 0 0 happenings

abbrev waiting : Session
waiting =
    run (begin (Connection.new 1 0 0 0))
      (offering "a" (ok 1) ∷ stating "s" ∷ offering "b" (ok 2) ∷ [])

waiting-IsReady : IsReady waiting
unfolding run step Connection.offer Connection.set_state Connection.new encoded_size
    Connection.accept
waiting-IsReady = record { top = refl; live = refl; idle = refl }

drain_lem_example :
    let t = run waiting (rounds (pending waiting)) in
    IsReady t
    × (pending t ≡ 0)
    × (t.handed ≡ waiting.handed ++ waiting.conn.queue)
    × (t.conn.sent ≡ waiting.conn.sent + length waiting.conn.queue)
drain_lem_example = drain_lem waiting waiting-IsReady

abbrev steady : ℕ → Readings
steady n = record { at_offer = λ id. ok n; at_close = λ id. ok n }

abbrev plan : List Move
plan =
    Reach.recording (exchange 1)
    ∷ Reach.connecting none (ok 0)
    ∷ Reach.connecting (some (pos 0)) (ok 0)
    ∷ Reach.turning (λ n. n) 3 steady
    ∷ Reach.writing 1 Reach.asking
    ∷ Reach.writing 1 (Reach.resolving returned)
    ∷ Reach.disconnecting 2 1001 (ok 9)
    ∷ Reach.sampling (ok "{}")
    ∷ Reach.asked_stats
    ∷ []

abbrev encode : ExchangeRecord → Result String
encode r = if r.seq == 1 then ok "event" else err value_error

abbrev fallback : ExchangeRecord → String
fallback r = "fallback"

abbrev notice : ℕ → ℕ → ℕ → String
notice dropped client_dropped forced = "dropped"

abbrev publisher : Publisher
publisher = moves encode fallback notice Reach.new plan

moves-accounts_example :
    (publisher.published + length publisher.handoff.records + publisher.handoff.dropped
      ≡ issued plan)
    × (publisher.connections_opened
        ≡ publisher.totals.connections + length publisher.unresolved + length publisher.connections)
    × (length publisher.connections ≤ max_clients)
    × (length publisher.closed ≤ closed_ledgers_kept)
    × (publisher.totals.published_span ≡ publisher.totals.offered)
    × (publisher.totals.offered ≡ publisher.totals.enqueued + publisher.totals.client_dropped)
    × (publisher.totals.enqueued
        ≡ publisher.totals.sent + publisher.totals.delivery_unknown
          + publisher.totals.discarded_on_close)
    × All (IsConsistent publisher.published) (publisher.connections ++ publisher.closed)
moves-accounts_example = moves-accounts encode fallback notice plan

-- A handler that counts its requests and fails at the third.
abbrev counting : ℕ → DiagnosticRequest → Answer × ℕ
counting n r = (if n == 2 then err key_error else ok (some reply), n + 1)

abbrev class_name : Error → String
class_name e = "KeyError"

abbrev observed : Observed ℕ
observed = record { state = 0; handoff = HandOff.new; issued = 0; woken = false }

abbrev requests : List Timed
requests = (request, (1, 2)) ∷ (request, (3, 4)) ∷ (request, (5, 9)) ∷ []

watched-plain_example :
    let out = watched counting class_name observed requests in
    (out.0 ≡ (plain counting 0 requests).0) × (out.1.state ≡ (plain counting 0 requests).1)
watched-plain_example = watched-plain counting class_name observed requests

abbrev dispatcher : Dispatcher ℕ
dispatcher = record { router = record { physical = []; functional = [] }; ecus = []; sync = none }

classify-call_example :
    let answer = (call dispatcher 0 request).0 in
    let event = classify (record_of class_name 1 10 15 request answer) dispatcher.router in
    (event ≡ expected answer (resolve dispatcher.router request)) × IsNamed event
classify-call_example = classify-call dispatcher 0 request class_name 1 10 15
