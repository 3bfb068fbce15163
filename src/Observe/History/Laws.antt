-- ===== src/Observe/History/Laws.antt =====
-- What the ring of events holds after any number of `add` calls.
use ecu_simulator.Prelude.{
  ℕ, suc, ◌+◌, ◌-◌, ◌≤◌, ◌<◌, String, ◌≡◌, refl, sym, ap, ◌∙◌, ◌⊎◌, inl, inr, false, List, [], ◌∷◌,
  ◌++◌, arith, leb, leb→le, Bool-cases, length, length-append,
}
use Prim.Native.Nat.{min}
use mathlib.Core.List.{append-nil, append_assoc}
use ecu_simulator.Observe.Limits.{encoded_size, history_max_events, history_max_bytes}
use ecu_simulator.Observe.History.{Event, HistoryRing, new, evict, add, is_over}

-- bytes of these events
unfoldable pub total : List Event → ℕ
total [] = 0
total ((seq, text) ∷ rest) = encoded_size text + total rest

total-append : (a b : List Event) → total (a ++ b) ≡ total a + total b
unfolding total
total-append [] b = omega arith
total-append ((seq, text) ∷ rest) b = omega (arith, total-append rest b)

-- What is left of the events `evs`, with its byte count: a suffix that meets both bounds, except
-- that one event alone may have too many bytes.
pub record Left (ring : HistoryRing) (evs : List Event) (out : List Event × ℕ) : Type 0 where
  pub lost : List Event
  pub suffix : lost ++ out.0 ≡ evs
  pub counted : out.1 ≡ total out.0
  pub few : length out.0 ≤ ring.max_events
  pub small : (out.1 ≤ ring.max_bytes) ⊎ (length out.0 ≤ 1)
  pub newest : min 1 (length evs) ≤ length out.0

small_of :
    (ring : HistoryRing) (count bytes : ℕ)
    → is_over ring count bytes ≡ false
    → (bytes ≤ ring.max_bytes) ⊎ (count ≤ 1)
small_of ring count bytes h = elim (Bool-cases (leb bytes ring.max_bytes)) [
  | inl e ↦ inl (leb→le bytes ring.max_bytes e)
  | inr e ↦ inr (ground arith)
]

evict-Left :
    (ring : HistoryRing) (evs : List Event) (bytes : ℕ)
    → 0 < ring.max_events
    → bytes ≡ total evs
    → Left ring evs (evict ring evs bytes)
unfolding evict total
evict-Left ring [] bytes room sum = record {
  lost = [];
  suffix = refl;
  counted = sum;
  few = omega arith;
  small = inr (omega arith);
  newest = omega arith;
}
evict-Left ring ((seq, text) ∷ rest) bytes room sum =
    let ih = evict-Left ring rest (bytes - encoded_size text) room (omega arith) in
    elim (Bool-cases (is_over ring (suc (length rest)) bytes)) [
      | inl over ↦
          rw (over, evict)
            (record {
              lost = (seq, text) ∷ ih.lost;
              suffix = ap (λ (l : List Event). (seq, text) ∷ l) ih.suffix;
              counted = ih.counted;
              few = ih.few;
              small = ih.small;
              newest = ground (arith, ih.newest);
            })
      | inr fits ↦
          rw (fits, evict)
            (record {
              lost = [];
              suffix = refl;
              counted = sum;
              few = ground arith;
              small = small_of ring (suc (length rest)) bytes fits;
              newest = omega arith;
            })
    ]

-- `add` for each of these events
unfoldable pub add_all : HistoryRing → List Event → HistoryRing
add_all ring [] = ring
add_all ring ((seq, text) ∷ rest) = add_all (add ring seq text) rest

-- The ring after all of `evs` were added to a new one, but for its byte bound.
pub record Holds (ring : HistoryRing) (evs : List Event) : Type 0 where
  pub left : Left ring evs (ring.events, ring.bytes)
  pub most : ring.max_events ≡ history_max_events
  pub bulk : ring.max_bytes ≡ history_max_bytes

add-Holds :
    (ring : HistoryRing) (evs : List Event) (seq : ℕ) (text : String)
    → Holds ring evs
    → Holds (add ring seq text) (evs ++ (seq, text) ∷ [])
unfolding add
add-Holds ring evs seq text h =
    let grown = ring.events ++ (seq, text) ∷ [] in
    let one : total ((seq, text) ∷ []) ≡ encoded_size text + 0 = unfold total in refl in
    let out =
      evict-Left ring grown (ring.bytes + encoded_size text) (omega (arith, h.most))
        (omega (arith, total-append ring.events ((seq, text) ∷ []), one, h.left.counted)) in
    record {
      left = record {
        lost = h.left.lost ++ out.lost;
        suffix =
            append_assoc h.left.lost out.lost (evict ring grown (ring.bytes + encoded_size text)).0
            ∙ ap (λ (l : List Event). h.left.lost ++ l) out.suffix
            ∙ sym (append_assoc h.left.lost ring.events ((seq, text) ∷ []))
            ∙ ap (λ (l : List Event). l ++ (seq, text) ∷ []) h.left.suffix;
        counted = out.counted;
        few = out.few;
        small = out.small;
        newest = omega (
          arith,
          out.newest,
          length-append ring.events ((seq, text) ∷ []),
          length-append evs ((seq, text) ∷ []),
        );
      };
      most = h.most;
      bulk = h.bulk;
    }

add_all-Holds_from :
    (ring : HistoryRing) (before evs : List Event)
    → Holds ring before
    → Holds (add_all ring evs) (before ++ evs)
unfolding add_all
add_all-Holds_from ring before [] h = rw (append-nil before) h
add_all-Holds_from ring before ((seq, text) ∷ rest) h =
    rw (← append_assoc before ((seq, text) ∷ []) rest) (
      add_all-Holds_from (add ring seq text) (before ++ (seq, text) ∷ []) rest
        (add-Holds ring before seq text h))

-- After any events were added to a new ring it holds a suffix of them, which is not empty if there
-- was an event: at most 500, of at most 2 MiB in UTF-8 unless it is one event alone; and `_bytes` is
-- their size.
pub add_all-Holds : (evs : List Event) → Holds (add_all new evs) evs
unfolding total
add_all-Holds evs = add_all-Holds_from new [] evs (record {
  left = record {
    lost = [];
    suffix = refl;
    counted = refl;
    few = omega arith;
    small = inr (omega arith);
    newest = omega arith;
  };
  most = refl;
  bulk = refl;
})
