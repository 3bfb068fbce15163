-- ===== src/Observe/History.antt =====
-- src/ecu_simulator/observe/history.py: the last published events. The deque is a list with its
-- oldest event first; `after` and `limit` are the integers that `since` is given.
pub mod Laws
pub mod Since
use ecu_simulator.Prelude.{
  ℕ, zero, suc, ◌+◌, ◌-◌, ◌*◌, ◌/◌, ◌%◌, ◌^◌, ◌≤◌, ◌<◌, bit_and, bit_or, String, ◌≡◌, refl, sym, ap,
  ◌∙◌, ◌≢◌, ◌↔◌, ◌⊎◌, inl, inr, Bool, true, false, not, ◌&&◌, ◌||◌, Option, none, some, List, [],
  ◌∷◌, ◌++◌, map, arith, str_eq, eq_iff, ltb, leb, ◌==◌, if◌then◌else◌, ltb→lt, lt→ltb, leb→le,
  le→leb, ==_iff, Bool-cases, Option-cases, Result-cases, ok-injective, &&-true, length, get_elem?,
  take, drop, replicate, any, all, select, All, length-append, length-take, length-replicate,
  length-map, All-append, contains, ℤ, pos, negsuc, clamp, ◌+ℤ◌, ◌*ℤ◌, sub_ℕ, ltb_ℤ, Error,
  value_error, key_error, type_error, overflow_error, index_error, traverse, as_some,
  not_implemented, unknown_signal, service_conflict, route_conflict, provider_conflict,
  assertion_error, Result, ok, err, ◌>>=◌, ◌>>◌, raise_if, or_raise, >>=-eq-ok,
}
use ecu_simulator.Observe.Limits.{
  encoded_size, history_max_events, history_max_bytes, exchanges_max_limit,
}

abbrev pub Event : Type 0
Event = ℕ × String

pub record HistoryRing : Type 0 where
  pub events : List Event
  pub max_events : ℕ
  pub max_bytes : ℕ
  pub bytes : ℕ
  pub last_seq : ℕ

-- `HistoryRing()`
abbrev pub new : HistoryRing
new = record {
  events = [];
  max_events = history_max_events;
  max_bytes = history_max_bytes;
  bytes = 0;
  last_seq = 0;
}

abbrev pub first_seq : List Event → Option ℕ
first_seq [] = none
first_seq ((seq, text) ∷ rest) = some seq

-- `oldest_seq`
abbrev pub oldest_seq : HistoryRing → Option ℕ
oldest_seq ring = first_seq ring.events

-- the condition of the `while` of `add`
abbrev pub is_over : HistoryRing → ℕ → ℕ → Bool
is_over ring count bytes = ltb ring.max_events count || (ltb ring.max_bytes bytes && ltb 1 count)

-- the `while` of `add`; the two arguments after the ring are the deque and the byte count
unfoldable pub evict : HistoryRing → List Event → ℕ → List Event × ℕ
evict ring [] bytes = ([], bytes)
evict ring ((seq, text) ∷ rest) bytes = elim (is_over ring (suc (length rest)) bytes) [
  | true ↦ evict ring rest (bytes - encoded_size text)
  | false ↦ ((seq, text) ∷ rest, bytes)
]

-- `HistoryRing.add`
unfoldable pub add : HistoryRing → ℕ → String → HistoryRing
add ring seq text =
    let kept = evict ring (ring.events ++ (seq, text) ∷ []) (ring.bytes + encoded_size text) in
    record ring { events = kept.0; bytes = kept.1; last_seq = seq }

-- `xs[-n:]`, for a positive n
abbrev pub last_items {ℓ} : {A : Type ℓ} → ℕ → List A → List A
last_items n xs = drop (length xs - n) xs

abbrev pub text_of : Event → String
text_of event = event.1

-- the `limit` that `since` uses, or the error that it raises
unfoldable pub limit_of : Option ℤ → Result ℕ
limit_of none = ok exchanges_max_limit
limit_of (some (negsuc n)) = err value_error
limit_of (some (pos zero)) = err value_error
limit_of (some (pos (suc n))) = ok (clamp exchanges_max_limit (pos (suc n)))

-- `oldest is not None and after < oldest - 1`; `after` is not negative there
abbrev pub is_gap : Option ℕ → ℕ → Bool
is_gap none after = false
is_gap (some oldest) after = ltb (after + 1) oldest

-- the answer of `since`, once `limit` is checked
unfoldable pub since_within : HistoryRing → Option ℤ → ℕ → Result (List String × Bool)
since_within ring none limit = ok (map text_of (last_items limit ring.events), false)
since_within ring (some (negsuc n)) limit = err value_error
since_within ring (some (pos after)) limit = ok (
  take limit (map text_of (select (λ (e : Event). ltb after e.0) ring.events)),
  is_gap (oldest_seq ring) after,
)

-- `HistoryRing.since`
unfoldable pub since : HistoryRing → Option ℤ → Option ℤ → Result (List String × Bool)
since ring after limit = limit_of limit >>= since_within ring after
