-- ===== src/Observe/Publisher.antt =====
-- src/ecu_simulator/observe/publisher.py: the state of the publisher, and how a connection that has
-- closed leaves it. A connection object that several lists hold stands in each of them; what its
-- writer task does to it is done in each.
pub mod Publish
pub mod Clients
pub mod Balance
pub mod Fanned
pub mod Reach
use ecu_simulator.Prelude.{
  ℕ, zero, suc, ◌+◌, ◌-◌, ◌*◌, ◌/◌, ◌%◌, ◌^◌, ◌≤◌, ◌<◌, bit_and, bit_or, String, ◌≡◌, refl, sym, ap,
  ◌∙◌, ◌≢◌, ◌↔◌, ◌⊎◌, inl, inr, Bool, true, false, not, ◌&&◌, ◌||◌, Option, none, some, List, [],
  ◌∷◌, ◌++◌, map, arith, str_eq, eq_iff, ltb, leb, ◌==◌, if◌then◌else◌, ltb→lt, lt→ltb, leb→le,
  le→leb, ==_iff, Bool-cases, Option-cases, Result-cases, ok-injective, &&-true, length, get_elem?,
  take, drop, replicate, any, all, select, All, length-append, length-take, length-replicate,
  length-map, All-append, contains, ℤ, pos, negsuc, clamp, ◌+ℤ◌, ◌*ℤ◌, sub_ℕ, ltb_ℤ, Error,
  value_error, key_error, type_error, overflow_error, index_error, traverse, as_some,
  not_implemented, unknown_signal, service_conflict, route_conflict, provider_conflict,
  assertion_error, Result, ok, err, ◌>>=◌, ◌>>◌, raise_if, or_raise, >>=-eq-ok,
}
use ecu_simulator.Observe.Limits.{closed_ledgers_kept, close_too_slow}
use ecu_simulator.Observe.HandOff.{HandOff}
use ecu_simulator.Observe.History.{HistoryRing}
use ecu_simulator.Observe.Connection.{Connection, Ledger, ledger, is_closed}
use ecu_simulator.Ecu.Router.{find, put}

-- the dictionary of `_empty_totals`; close codes are keys as numbers
pub record Totals : Type 0 where
  pub connections : ℕ
  pub published_span : ℕ
  pub history_sent : ℕ
  pub offered : ℕ
  pub client_dropped : ℕ
  pub enqueued : ℕ
  pub sent : ℕ
  pub delivery_unknown : ℕ
  pub discarded_on_close : ℕ
  pub close_codes : List (ℕ × ℕ)
  pub delivery_unknown_by_close_code : List (ℕ × ℕ)
  pub delivery_unknown_over_allowance : ℕ

abbrev pub empty_totals : Totals
empty_totals = record {
  connections = 0;
  published_span = 0;
  history_sent = 0;
  offered = 0;
  client_dropped = 0;
  enqueued = 0;
  sent = 0;
  delivery_unknown = 0;
  discarded_on_close = 0;
  close_codes = [];
  delivery_unknown_by_close_code = [];
  delivery_unknown_over_allowance = 0;
}

pub record Publisher : Type 0 where
  pub handoff : HandOff
  pub history : HistoryRing
  pub max_turn_records : ℕ
  pub max_turn : ℕ
  pub max_clients : ℕ
  pub next_id : ℕ
  pub connections : List Connection
  pub closed : List Connection
  pub unresolved : List Connection
  pub totals : Totals
  pub last_state : Option String
  pub published : ℕ
  pub longest_turn : ℕ
  pub refused_clients : ℕ
  pub forced_disconnects : ℕ
  pub encode_failed : ℕ
  pub fanout_failed : ℕ
  pub writer_failed : ℕ
  pub state_encode_failed : ℕ
  pub vehicle_encode_failed : ℕ
  pub state_ok : Bool
  pub must_publish : Bool
  pub connections_opened : ℕ

-- the code of a closed connection
abbrev pub code_of : Ledger → ℕ
code_of l = elim l.close_code [ none ↦ 0 | some code ↦ code ]

-- `UNKNOWN_ALLOWANCE.get(code, 0)`
abbrev pub unknown_allowance : ℕ → ℕ
unknown_allowance code = if code == close_too_slow then 1 else if code == 1006 then 1 else 0

-- `counts[code] = counts.get(code, 0) + n`
abbrev pub bump : List (ℕ × ℕ) → ℕ → ℕ → List (ℕ × ℕ)
bump counts code n = put counts code ((elim (find counts code) [ none ↦ 0 | some m ↦ m ]) + n)

-- `ledger["published_at_close"] - ledger["published_at_open"]`; the end is set for a closed one
abbrev pub span : Ledger → ℕ
span l = elim l.published_at_close [ none ↦ 0 | some last ↦ last - l.published_at_open ]

-- one connection of the loop of `_fold`, whose ledger is `l`
unfoldable pub add_ledger : Totals → Ledger → Totals
add_ledger t l = record {
  connections = t.connections + 1;
  published_span = t.published_span + span l;
  history_sent = t.history_sent + l.history_sent;
  offered = t.offered + l.offered;
  client_dropped = t.client_dropped + l.client_dropped;
  enqueued = t.enqueued + l.enqueued;
  sent = t.sent + l.sent;
  delivery_unknown = t.delivery_unknown + l.delivery_unknown;
  discarded_on_close = t.discarded_on_close + l.discarded_on_close;
  close_codes = bump t.close_codes (code_of l) 1;
  delivery_unknown_by_close_code =
      if l.delivery_unknown == 0
      then t.delivery_unknown_by_close_code
      else bump t.delivery_unknown_by_close_code (code_of l) l.delivery_unknown;
  delivery_unknown_over_allowance =
      if ltb (unknown_allowance (code_of l)) l.delivery_unknown
      then t.delivery_unknown_over_allowance + 1
      else t.delivery_unknown_over_allowance;
}

-- the loop of `_fold`: the connections that still wait, and the totals
unfoldable pub fold_each : ℕ → List Connection → Totals → List Connection × Totals
fold_each published [] t = ([], t)
fold_each published (c ∷ rest) t = elim ((ledger c published).queued == 0) [
  | true ↦ fold_each published rest (add_ledger t (ledger c published))
  | false ↦ let out = fold_each published rest t in (c ∷ out.0, out.1)
]

-- `_fold`
unfoldable pub fold : Publisher → Publisher
fold p =
    let out = fold_each p.published p.unresolved p.totals in
    record p { unresolved = out.0; totals = out.1 }

-- appending to a deque of `maxlen`
abbrev pub append_bounded {ℓ} : {A : Type ℓ} → ℕ → List A → A → List A
append_bounded most xs x = drop (length (xs ++ x ∷ []) - most) (xs ++ x ∷ [])

abbrev pub is_forced : Connection → Bool
is_forced c = elim c.close_code [ none ↦ false | some code ↦ code == close_too_slow ]

-- `_retire`, for a connection that the caller has removed from `connections`
unfoldable pub retire : Publisher → Connection → Publisher
retire p c = fold (record p {
  forced_disconnects = if is_forced c then p.forced_disconnects + 1 else p.forced_disconnects;
  closed = append_bounded closed_ledgers_kept p.closed c;
  unresolved = p.unresolved ++ c ∷ [];
})

-- the loop of `_retire_closed`: `kept` are the connections that stay, in their order
unfoldable pub retire_each : Publisher → List Connection → List Connection → Publisher
retire_each p kept [] = record p { connections = kept }
retire_each p kept (c ∷ rest) = elim (is_closed c) [
  | true ↦ retire_each (retire p c) kept rest
  | false ↦ retire_each p (kept ++ c ∷ []) rest
]

-- `_retire_closed`
unfoldable pub retire_closed : Publisher → Publisher
retire_closed p = retire_each p [] p.connections
