-- ===== src/Observe/History/Since.antt =====
-- What a client that reconnects is sent.
use ecu_simulator.Prelude.{
  ℕ, zero, suc, ◌+◌, ◌≤◌, ◌<◌, String, ◌≡◌, refl, ap, ◌∙◌, inl, inr, Bool, true, false, none, some,
  List, [], ◌∷◌, ◌++◌, map, arith, ltb, if◌then◌else◌, Bool-cases, length, take, select, All,
  length-map, pos, ok,
}
use ecu_simulator.Observe.Limits.{exchanges_max_limit}
use ecu_simulator.Observe.History.{
  Event, HistoryRing, new, is_gap, first_seq, text_of, oldest_seq, limit_of, since_within, since,
}
use ecu_simulator.Observe.History.Laws.{add_all, add_all-Holds}

abbrev from : ℕ → List Event → List Event
from after = select (λ (e : Event). ltb after e.0)

-- Each event has a larger number than the one before it.
abbrev pub IsAscending : List Event → Type 0
IsAscending [] = Unit {0}
IsAscending (e ∷ rest) = All (λ (f : Event). e.0 < f.0) rest × IsAscending rest

select-append :
    (test : Event → Bool) (xs ys : List Event)
    → select test (xs ++ ys) ≡ select test xs ++ select test ys
select-append test [] ys = refl
select-append test (x ∷ xs) ys = ground (arith, select-append test xs ys)

length-select : (test : Event → Bool) (xs : List Event) → length (select test xs) ≤ length xs
length-select test [] = omega arith
length-select test (x ∷ xs) = ground (arith, length-select test xs)

-- The events before one whose number is at most `after + 1`.
below-nothing :
    (after seq : ℕ) (lost : List Event)
    → seq ≤ after + 1
    → All (λ (e : Event). e.0 < seq) lost
    → from after lost ≡ []
below-nothing after seq [] small below = refl
below-nothing after seq (e ∷ rest) small below =
    let ih = below-nothing after seq rest small below.1 in ground arith

All-middle {κ} :
    (P : Event → Type κ) (xs : List Event) (y : Event) (ys : List Event)
    → All P (xs ++ y ∷ ys)
    → P y
All-middle P [] y ys h = h.0
All-middle P (x ∷ xs) y ys h = All-middle P xs y ys h.1

before_first :
    (lost : List Event) (e : Event) (rest : List Event)
    → IsAscending (lost ++ e ∷ rest)
    → All (λ (f : Event). f.0 < e.0) lost
before_first [] e rest h = tt
before_first (f ∷ lost) e rest h =
    (All-middle (λ (g : Event). f.0 < g.0) lost e rest h.0, before_first lost e rest h.1)

-- Nothing that is asked for is lost when there is no gap.
kept-all :
    (lost kept : List Event) (after : ℕ)
    → IsAscending (lost ++ kept)
    → (0 < length (lost ++ kept) → 0 < length kept)
    → is_gap (first_seq kept) after ≡ false
    → from after (lost ++ kept) ≡ from after kept
kept-all [] [] after up newest gap = refl
kept-all (x ∷ lost) [] after up newest gap = absurd (omega (arith, newest (omega arith)))
kept-all lost ((seq, text) ∷ rest) after up newest gap =
    let below = before_first lost (seq, text) rest up in
    rw
      (
        select-append (λ (e : Event). ltb after e.0) lost ((seq, text) ∷ rest),
        below-nothing after seq lost (ground arith) below,
      )
      refl

take-all : (n : ℕ) (xs : List String) → length xs ≤ n → take n xs ≡ xs
take-all zero [] h = refl
take-all zero (x ∷ xs) h = absurd (omega arith)
take-all (suc n) [] h = refl
take-all (suc n) (x ∷ xs) h = ap (λ (l : List String). x ∷ l) (take-all n xs (omega arith))

-- With a gap, each event that is held is asked for.
above-all :
    (after : ℕ) (kept : List Event) → All (λ (e : Event). after < e.0) kept → from after kept ≡ kept
above-all after [] h = refl
above-all after (e ∷ rest) h = let ih = above-all after rest h.1 in ground (arith, h.0)

All-later :
    (a b : ℕ) (xs : List Event)
    → a < b
    → All (λ (e : Event). b < e.0) xs
    → All (λ (e : Event). a < e.0) xs
All-later a b [] h below = tt
All-later a b (e ∷ rest) h below = (omega (arith, below.0), All-later a b rest h below.1)

IsAscending-suffix : (xs ys : List Event) → IsAscending (xs ++ ys) → IsAscending ys
IsAscending-suffix [] ys up = up
IsAscending-suffix (x ∷ xs) ys up = IsAscending-suffix xs ys up.1

above-first :
    (after : ℕ) (kept : List Event)
    → IsAscending kept
    → is_gap (first_seq kept) after ≡ true
    → from after kept ≡ kept
above-first after [] up gap = refl
above-first after ((seq, text) ∷ rest) up gap =
    let far : after < seq = ground arith in
    above-all after ((seq, text) ∷ rest) (far, All-later after seq rest far up.0)

-- The answer to `since(after)`, with its limit out of the way.
since-texts :
    (ring : HistoryRing) (after : ℕ)
    → length ring.events ≤ exchanges_max_limit
    → since ring (some (pos after)) none
      ≡ ok (map text_of (from after ring.events), is_gap (oldest_seq ring) after)
unfolding since limit_of since_within
since-texts ring after few =
    let short : length (map text_of (from after ring.events)) ≤ exchanges_max_limit = omega (
      arith,
      length-map (from after ring.events) text_of,
      length-select (λ (e : Event). ltb after e.0) ring.events,
    ) in
    rw (take-all exchanges_max_limit (map text_of (from after ring.events)) short) refl

-- Whether the oldest of these events leaves out number `after + 1`.
abbrev pub is_behind : ℕ → List Event → Bool
is_behind after [] = false
is_behind after ((seq, text) ∷ rest) = ltb (after + 1) seq

gap-behind : (after : ℕ) (kept : List Event) → is_gap (first_seq kept) after ≡ is_behind after kept
gap-behind after [] = refl
gap-behind after ((seq, text) ∷ rest) = refl

-- After any events with ascending numbers were published (added to a new ring), a client that asks
-- for those after number `after` with no limit is told of a gap exactly if the oldest event held has
-- a number larger than `after + 1`. Without a gap it is sent each event ever published with a larger
-- number, in order, though the ring may have evicted some; with a gap it is sent all that is held.
pub since_complete :
    (evs : List Event) (after : ℕ)
    → IsAscending evs
    → let ring = add_all new evs in
      let gap = is_behind after ring.events in
      since ring (some (pos after)) none
      ≡ ok (
        if gap
            then map text_of ring.events
            else map text_of (select (λ (e : Event). ltb after e.0) evs),
        gap,
      )
since_complete evs after up =
    let ring = add_all new evs in
    let h = add_all-Holds evs in
    let oldest = gap-behind after ring.events in
    let answer = since-texts ring after (omega (arith, h.left.few, h.most)) in
    let up' : IsAscending (h.left.lost ++ ring.events) = rw h.left.suffix up in
    elim (Bool-cases (is_behind after ring.events)) [
      | inl there ↦
          let held =
            above-first after ring.events (IsAscending-suffix h.left.lost ring.events up')
              (oldest ∙ there) in
          answer ∙ rw (held, oldest, there) refl
      | inr none_lost ↦
          let newest : 0 < length (h.left.lost ++ ring.events) → 0 < length ring.events =
            λ n. omega (arith, h.left.newest, ap {B = ℕ} length h.left.suffix) in
          let same = kept-all h.left.lost ring.events after up' newest (oldest ∙ none_lost) in
          answer ∙ rw (← same, h.left.suffix, oldest, none_lost) refl
    ]
