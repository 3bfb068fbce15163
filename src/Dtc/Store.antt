-- ===== src/Dtc/Store.antt =====
-- src/ecu_simulator/dtc/store.py: the trouble codes of one ECU and their flags. A store is the list
-- of its entries in configuration order: the source keys them by their own code.
pub mod Distinct
pub mod Laws
use ecu_simulator.Prelude.{
  ℕ, zero, suc, ◌+◌, ◌-◌, ◌*◌, ◌/◌, ◌%◌, ◌^◌, ◌≤◌, ◌<◌, bit_and, bit_or, String, ◌≡◌, refl, sym, ap,
  ◌∙◌, ◌≢◌, ◌↔◌, ◌⊎◌, inl, inr, Bool, true, false, not, ◌&&◌, ◌||◌, Option, none, some, List, [],
  ◌∷◌, ◌++◌, map, arith, str_eq, eq_iff, ltb, leb, ◌==◌, if◌then◌else◌, ltb→lt, lt→ltb, leb→le,
  le→leb, ==_iff, Bool-cases, Option-cases, length, get_elem?, take, drop, replicate, any, all,
  select, All, length-append, length-take, length-replicate, length-map, All-append, contains, ℤ,
  pos, negsuc, clamp, sub_ℕ, ltb_ℤ, Error, value_error, key_error, type_error, overflow_error,
  not_implemented, unknown_signal, service_conflict, route_conflict, provider_conflict, Result, ok,
  err, ◌>>=◌, ◌>>◌, raise_if, or_raise, >>=-eq-ok,
}

pub record DtcState : Type 0 where
  pub code : String
  pub pending : Bool
  pub confirmed : Bool
  pub indicator_requested : Bool

-- `DtcState.clear`
unfoldable pub clear_state : DtcState → DtcState
clear_state s = record s { pending = false; confirmed = false; indicator_requested = false }

abbrev pub DtcStore : Type 0
DtcStore = List DtcState

-- `DtcStore.codes`
abbrev pub codes : DtcStore → List String
codes = map (λ (s : DtcState). s.code)

-- `DtcStore.__contains__`
unfoldable pub carries : DtcStore → String → Bool
carries store code = any (λ (s : DtcState). str_eq s.code code) store

-- `DtcStore.state`
unfoldable pub state : DtcStore → String → Option DtcState
state [] code = none
state (s ∷ rest) code = if str_eq s.code code then some s else state rest code

-- the loop of `DtcStore.__init__`
add_entries : DtcStore → List DtcState → Result DtcStore
add_entries store [] = ok store
add_entries store (entry ∷ rest) =
    let more = add_entries (store ++ entry ∷ []) rest in
    if carries store entry.code then err value_error else more

-- `DtcStore.__init__`: entries are values here, so the copy that the source takes is not needed.
unfoldable pub make_store : List DtcState → Result DtcStore
unfolding add_entries carries
make_store entries = add_entries [] entries

-- `DtcStore.pending`
unfoldable pub pending : DtcStore → List DtcState
pending = select (λ (s : DtcState). s.pending)

-- `DtcStore.confirmed`
unfoldable pub confirmed : DtcStore → List DtcState
confirmed = select (λ (s : DtcState). s.confirmed)

-- `DtcStore.indicator_on`
unfoldable pub indicator_on : DtcStore → Bool
indicator_on = any (λ (s : DtcState). s.indicator_requested)

-- The flags that a call of `update` names.
pub record Flags : Type 0 where
  pub pending : Option Bool
  pub confirmed : Option Bool
  pub indicator_requested : Option Bool

abbrev pub flag : Option Bool → Bool → Bool
flag none old = old
flag (some new) old = new

unfoldable pub set_flags : Flags → DtcState → DtcState
set_flags f s = record s {
  pending = flag f.pending s.pending;
  confirmed = flag f.confirmed s.confirmed;
  indicator_requested = flag f.indicator_requested s.indicator_requested;
}

-- the entry is mutated in place
unfoldable pub replace_entry : Flags → String → DtcStore → DtcStore
unfolding set_flags
replace_entry f code [] = []
replace_entry f code (s ∷ rest) =
    if str_eq s.code code then set_flags f s ∷ rest else s ∷ replace_entry f code rest

-- `DtcStore.update`
unfoldable pub update : DtcStore → String → Flags → Result (DtcState × DtcStore)
unfolding replace_entry state
update store code f = do
  entry ← or_raise (state store code) key_error
  ok (set_flags f entry, replace_entry f code store)

-- `DtcStore.clear`
unfoldable pub clear : DtcStore → DtcStore
unfolding clear_state
clear = map clear_state
