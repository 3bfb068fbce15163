-- ===== src/Observe/Publisher/Reach/Laws.antt =====
-- What the publisher keeps under each move.
use ecu_simulator.Prelude.{
  ℕ, zero, suc, ◌+◌, ◌-◌, ◌≤◌, String, ◌≡◌, refl, ap, ◌∙◌, inl, inr, List, [], ◌∷◌, arith, leb,
  Bool-cases, Result-cases, ok-injective, length, All, length-append, Result, ok,
}
use ecu_simulator.Observe.HandOff.{ExchangeRecord, HandOff, append, size, popleft, popped}
use ecu_simulator.Observe.History
use ecu_simulator.Observe.Limits.{max_clients}
use ecu_simulator.Observe.Publisher.{Publisher}
use ecu_simulator.Observe.Publisher.Publish.{
  Readings, publish, turn_loop, drain_turn, failures, text_for,
}
use ecu_simulator.Observe.Publisher.Balance.{IsLive, IsSettled, retired}
use ecu_simulator.Observe.Publisher.Fanned.{fan_out-Fanned}

-- Each connection's ledger is that of what was published while it was open; each connection that
-- was ever opened is open, waits for its last `send`, or is in the totals; and each record that was
-- handed over is published, queued or dropped.
pub record IsAccounted (n : ℕ) (p : Publisher) : Type 0 where
  pub settled : IsSettled p
  pub live : All (IsLive p.published) p.connections
  pub counted : p.connections_opened ≡ retired p + length p.connections
  pub few : length p.connections ≤ p.max_clients
  pub most : p.max_clients ≡ max_clients
  pub records : p.published + length p.handoff.records + p.handoff.dropped ≡ n

append_count :
    (h : HandOff) (r : ExchangeRecord)
    → length (append h r).1.records + (append h r).1.dropped ≡ suc (length h.records + h.dropped)
unfolding append
append_count h r = ground (arith, length-append h.records (r ∷ []))

pub recording-IsAccounted :
    (n : ℕ) (p : Publisher) (r : ExchangeRecord)
    → IsAccounted n p
    → IsAccounted (suc n) (record p { handoff = (append p.handoff r).1 })
recording-IsAccounted n p r a = record {
  settled = record {
    shut = a.settled.shut;
    waiting = a.settled.waiting;
    even = a.settled.even;
    few = a.settled.few;
  };
  live = a.live;
  counted = a.counted;
  few = a.few;
  most = a.most;
  records = omega (arith, append_count p.handoff r, a.records);
}

popped_count :
    (h : HandOff) (rs : List ExchangeRecord) (r : ExchangeRecord) (h' : HandOff)
    → h.records ≡ rs
    → popped h rs ≡ ok (r, h')
    → (length h.records ≡ suc (length h'.records)) × (h'.dropped ≡ h.dropped)
popped_count h [] r h' e out = cc
popped_count h (x ∷ rest) r h' e out =
    let same : (x, record h { records = rest; bytes = h.bytes - size x }) ≡ (r, h') =
      ok-injective out in
    let after : record h { records = rest; bytes = h.bytes - size x } ≡ h' =
      ap (λ (t : ExchangeRecord × HandOff). t.1) same in
    (rw (← after) (ap length e), rw (← after) refl)

popleft_count :
    (h : HandOff) (r : ExchangeRecord) (h' : HandOff)
    → popleft h ≡ ok (r, h')
    → (length h.records ≡ suc (length h'.records)) × (h'.dropped ≡ h.dropped)
unfolding popleft
popleft_count h r h' taken = popped_count h h.records r h' refl taken

module _ (encode : ExchangeRecord → Result String) (fallback : ExchangeRecord → String) where
  publish-IsAccounted :
      (n : ℕ) (p : Publisher) (r : ExchangeRecord) (h : HandOff) (now : Readings)
      → length p.handoff.records ≡ suc (length h.records)
      → h.dropped ≡ p.handoff.dropped
      → IsAccounted n p
      → IsAccounted n (publish encode fallback (record p { handoff = h }) r now)
  unfolding publish
  publish-IsAccounted n p r h now len same a =
      let text = text_for encode fallback r (encode r) in
      let told : Publisher = record p {
        handoff = h;
        encode_failed = p.encode_failed + failures encode fallback (encode r);
        published = p.published + 1;
        history = History.add p.history r.seq text;
      } in
      let f =
        fan_out-Fanned told p.published now text [] p.connections refl
          (record {
            shut = a.settled.shut;
            waiting = a.settled.waiting;
            even = a.settled.even;
            few = a.settled.few;
          })
          tt a.live in
      record {
        settled = f.settled;
        live = f.live;
        counted = omega (arith, f.opened, a.counted, f.count);
        few = omega (arith, f.few, f.most, a.few);
        most = f.most ∙ a.most;
        records = omega (
          arith,
          f.published,
          ap (λ (k : HandOff). length k.records) f.handoff,
          ap (λ (k : HandOff). k.dropped) f.handoff,
          a.records,
        );
      }

  turn_loop-IsAccounted :
      (left n : ℕ) (p : Publisher) (done : ℕ) (elapsed : ℕ → ℕ) (now : ℕ → Readings)
      → IsAccounted n p
      → IsAccounted n (turn_loop encode fallback left p done elapsed now).0
  unfolding turn_loop
  turn_loop-IsAccounted zero n p done elapsed now a = a
  turn_loop-IsAccounted (suc left) n p done elapsed now a =
      elim (Result-cases (popleft p.handoff)) [
        | inl (e, empty) ↦ rw (empty, turn_loop) a
        | inr ((r, h), taken) ↦
            let count = popleft_count p.handoff r h taken in
            let p' = publish encode fallback (record p { handoff = h }) r (now done) in
            let once = publish-IsAccounted n p r h (now done) count.0 count.1 a in
            let more = turn_loop-IsAccounted left n p' (suc done) elapsed now once in
            elim (Bool-cases (leb p.max_turn (elapsed (suc done)))) [
              | inl late ↦ rw (taken, turn_loop, late) once
              | inr early ↦ rw (taken, turn_loop, early) more
            ]
      ]

  pub turning-IsAccounted :
      (n : ℕ) (p : Publisher) (elapsed : ℕ → ℕ) (total : ℕ) (now : ℕ → Readings)
      → IsAccounted n p
      → IsAccounted n (drain_turn encode fallback p elapsed total now).0
  unfolding drain_turn
  turning-IsAccounted n p elapsed total now a =
      let out = turn_loop-IsAccounted p.max_turn_records n p 0 elapsed now a in
      record {
        settled = record {
          shut = out.settled.shut;
          waiting = out.settled.waiting;
          even = out.settled.even;
          few = out.settled.few;
        };
        live = out.live;
        counted = out.counted;
        few = out.few;
        most = out.most;
        records = out.records;
      }
