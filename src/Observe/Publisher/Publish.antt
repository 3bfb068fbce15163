-- ===== src/Observe/Publisher/Publish.antt =====
-- src/ecu_simulator/observe/publisher.py: from the hand-off to the history and to each connection.
-- `encode` turns a record into the text of an event, or raises; `fallback` is the text that is used
-- then, which `json` makes of the number and the outcome.
use ecu_simulator.Prelude.{
  ℕ, zero, suc, ◌+◌, ◌-◌, String, Bool, true, false, List, [], ◌∷◌, ◌++◌, ltb, leb, if◌then◌else◌,
  Result, ok, err,
}
use ecu_simulator.Observe.Limits.{close_internal_error}
use ecu_simulator.Observe.HandOff.{ExchangeRecord, popleft}
use ecu_simulator.Observe.History.{HistoryRing}
use ecu_simulator.Observe.History
use ecu_simulator.Observe.Connection.{Connection, is_closed, offer, close}
use ecu_simulator.Observe.Publisher.{Publisher, retire}

-- What `offer` to a connection, and `close` after it, read from the clock: by the connection's id.
pub record Readings : Type 0 where
  pub at_offer : ℕ → Result ℕ
  pub at_close : ℕ → Result ℕ

-- `_abandon`, but for removing the connection
unfoldable pub abandon : Publisher → Connection → Result ℕ → Publisher
abandon p c now = retire p (close c close_internal_error (p.published - 1) now)

-- what follows `offer` in the loop of `_publish`: the publisher, and the connection if it stays
unfoldable pub offered_to :
    Publisher → Readings → Result Bool × Connection → Publisher × List Connection
offered_to p now (err e, c) =
    (abandon (record p { fanout_failed = p.fanout_failed + 1 }) c (now.at_close c.id), [])
offered_to p now (ok kept, c) = if is_closed c then (retire p c, []) else (p, c ∷ [])

-- the loop of `_publish`: `kept` are the connections served before that stay, in their order
unfoldable pub fan_out :
    Publisher → Readings → String → List Connection → List Connection → Publisher
fan_out p now text kept [] = record p { connections = kept }
fan_out p now text kept (c ∷ rest) =
    let out = offered_to p now (offer c text (now.at_offer c.id)) in
    fan_out out.0 now text (kept ++ out.1) rest

module _ (encode : ExchangeRecord → Result String) (fallback : ExchangeRecord → String) where
  abbrev pub text_for : ExchangeRecord → Result String → String
  text_for r (err e) = fallback r
  text_for r (ok text) = text

  abbrev pub failures : Result String → ℕ
  failures (err e) = 1
  failures (ok text) = 0

  -- `_publish`
  unfoldable pub publish : Publisher → ExchangeRecord → Readings → Publisher
  publish p r now =
      let text = text_for r (encode r) in
      let told = record p {
        encode_failed = p.encode_failed + failures (encode r);
        published = p.published + 1;
        history = History.add p.history r.seq text;
      } in
      fan_out told now text [] p.connections

  -- The loop of `drain_turn`, with `left` records to go before `max_turn_records`. `elapsed n` is
  -- the time since the start that the clock shows after the n-th record.
  unfoldable pub turn_loop : ℕ → Publisher → ℕ → (ℕ → ℕ) → (ℕ → Readings) → Publisher × ℕ
  turn_loop zero p done elapsed now = (p, done)
  turn_loop (suc left) p done elapsed now = elim (popleft p.handoff) [
    | err e ↦ (p, done)
    | ok taken ↦
        let p' = publish (record p { handoff = taken.1 }) taken.0 (now done) in
        elim (leb p.max_turn (elapsed (suc done))) [
          | true ↦ (p', suc done)
          | false ↦ turn_loop left p' (suc done) elapsed now
        ]
  ]

  -- `drain_turn`; the last reading of the clock is at `total`
  unfoldable pub drain_turn : Publisher → (ℕ → ℕ) → ℕ → (ℕ → Readings) → Publisher × ℕ
  drain_turn p elapsed total now =
      let out = turn_loop p.max_turn_records p 0 elapsed now in
      let longest = out.0.longest_turn in
      (record out.0 { longest_turn = if ltb longest total then total else longest }, out.1)
