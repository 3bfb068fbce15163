-- ===== src/Observe/Writer/Runs.antt =====
-- What holds of a client's connection and its writer after any events, in any order.
use ecu_simulator.Prelude.{
  ◌∙◌, length-append, ℕ, ◌+◌, ◌≤◌, String, ◌≡◌, refl, sym, ap, inl, inr, not, ◌&&◌, List, [], ◌∷◌,
  ◌++◌, arith, if◌then◌else◌, Bool-cases, &&-true, length,
}
use Prim.Native.Char.{code}
use ecu_simulator.Bytes.{utf8, utf8_char}
use ecu_simulator.Observe.Limits.{char_size, encoded_size, client_max_messages, client_max_bytes}
use ecu_simulator.Observe.Connection.{flying, new, is_closed, queued}
use ecu_simulator.Observe.Connection.Counts.{total, new-IsBalanced}
use ecu_simulator.Observe.Writer.Orderly.{is_sending, IsOrderly, step-IsOrderly}
use ecu_simulator.Observe.Writer.{Session, Event, step, run, begin}

char_size-utf8_char : (c : ℕ) → length (utf8_char c) ≡ char_size c
unfolding utf8_char
char_size-utf8_char c = ground arith

encoded_size-utf8 : (text : String) → length (utf8 text) ≡ encoded_size text
unfolding utf8 encoded_size
encoded_size-utf8 String.[] = refl
encoded_size-utf8 (String.◌∷◌ c rest) = omega (
  arith,
  length-append (utf8_char (code c)) (utf8 rest),
  char_size-utf8_char (code c),
  encoded_size-utf8 rest,
)

-- The bytes of these texts in UTF-8.
abbrev pub bytes_of : List String → ℕ
bytes_of [] = 0
bytes_of (text ∷ rest) = length (utf8 text) + bytes_of rest

total-bytes_of : (texts : List String) → total texts ≡ bytes_of texts
unfolding total
total-bytes_of [] = refl
total-bytes_of (text ∷ rest) = omega (arith, encoded_size-utf8 text, total-bytes_of rest)

pub run-IsOrderly : (s : Session) (events : List Event) → IsOrderly s → IsOrderly (run s events)
unfolding run
run-IsOrderly s [] o = o
run-IsOrderly s (event ∷ rest) o = run-IsOrderly (step s event) rest (step-IsOrderly s event o)

begin-IsOrderly :
    (id watermark published now : ℕ) → IsOrderly (begin (new id watermark published now))
unfolding new
begin-IsOrderly id watermark published now = record {
  balanced = new-IsBalanced id watermark published now;
  idle = λ _. refl;
  rest = [];
  ordered = refl;
  waiting = λ _. refl;
  taken = refl;
}

-- A new connection and its writer, after any calls by the publisher and the server and any steps
-- of the writer, in any order: each live message that was offered was enqueued or dropped; each that
-- was enqueued is sent, of unknown delivery, discarded, or still queued or in flight; nothing is
-- queued or in flight once the connection is closed and no `send` is under way; at most 1024
-- messages are queued, their bytes in UTF-8 sum up to at most 4 MiB, and `bytes` is that sum; the
-- texts that `offer` accepted are as many as were enqueued,
-- and the exchanges that `send` was given are, in order, the beginning of them, followed by the
-- queue while the connection is open.
pub run_lem :
    (id watermark published now : ℕ) (events : List Event)
    → let s = run (begin (new id watermark published now)) events in
      (s.conn.offered ≡ s.conn.enqueued + s.conn.client_dropped)
      × (s.conn.enqueued
          ≡ s.conn.sent + s.conn.delivery_unknown + queued s.conn + s.conn.discarded_on_close)
      × ((if is_closed s.conn && not (is_sending s.place) then queued s.conn else 0) ≡ 0)
      × (length s.conn.queue ≤ client_max_messages)
      × (bytes_of s.conn.queue ≤ client_max_bytes)
      × (s.conn.bytes ≡ bytes_of s.conn.queue)
      × (length s.accepted ≡ s.conn.enqueued)
      × (rest : List String) × (s.handed ++ rest ≡ s.accepted)
      × ((if is_closed s.conn then rest else s.conn.queue) ≡ rest)
run_lem id watermark published now events =
    let start = begin (new id watermark published now) in
    let s = run start events in
    let o = run-IsOrderly start events (begin-IsOrderly id watermark published now) in
    let b = o.balanced in
    (
      b.offers,
      b.outcomes,
      elim (Bool-cases (is_closed s.conn && not (is_sending s.place))) [
        | inl over ↦
            let (closed, still) = &&-true (is_closed s.conn) (not (is_sending s.place)) over in
            rw over (omega (arith, b.finished closed, ap flying (o.idle (ground arith))))
        | inr more ↦ rw more refl
      ],
      omega (arith, b.few, b.room),
      omega (arith, b.small, b.bulk, b.counted, total-bytes_of s.conn.queue),
      b.counted ∙ total-bytes_of s.conn.queue,
      o.taken,
      o.rest,
      o.ordered,
      elim (Bool-cases (is_closed s.conn)) [
        | inl closed ↦ rw closed refl
        | inr open_now ↦ rw open_now (sym (o.waiting open_now))
      ],
    )
