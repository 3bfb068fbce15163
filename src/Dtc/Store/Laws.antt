-- ===== src/Dtc/Store/Laws.antt =====
-- What the operations of the store keep and change.
use ecu_simulator.Prelude.{
  String, ◌≡◌, refl, ap, inl, inr, false, none, some, [], ◌∷◌, arith, str_eq, eq_iff, if◌then◌else◌,
  Bool, Option, Option-cases, key_error, Result, ok, err,
}
use mathlib.Core.Path.{subst}
use ecu_simulator.Dtc.Store.{
  DtcState, DtcStore, clear_state, codes, carries, state, pending, confirmed, indicator_on, Flags,
  flag, set_flags, replace_entry, update, clear,
}
use ecu_simulator.Dtc.Store.Distinct.{codes-clear}

pub codes-replace_entry :
    (f : Flags) (code : String) (store : DtcStore)
    → codes (replace_entry f code store) ≡ codes store
unfolding replace_entry
codes-replace_entry f code [] = refl
codes-replace_entry f code (s ∷ rest) = ground (arith, codes-replace_entry f code rest)

state-replace_entry :
    (f : Flags) (code other : String) (store : DtcStore)
    → state (replace_entry f code store) other ≡ (
        if str_eq code other
        then elim (state store other) [ none ↦ none | some s ↦ some (set_flags f s) ]
        else state store other)
unfolding replace_entry state
state-replace_entry f code other [] = ground arith
state-replace_entry f code other (s ∷ rest) = ground (
  arith,
  state-replace_entry f code other rest,
  eq_iff s.code code,
  eq_iff s.code other,
  eq_iff code other,
)

carries-state :
    (store : DtcStore) (code : String) → state store code ≡ none → carries store code ≡ false
unfolding state carries
carries-state [] code h = refl
carries-state (s ∷ rest) code h = ground (arith, carries-state rest code)

updated :
    (store : DtcStore) (code other : String) (f : Flags) (s : DtcState)
    → state store code ≡ some s
    → state (replace_entry f code store) other
      ≡ (if str_eq code other then some (set_flags f s) else state store other)
updated store code other f s found =
    ground (arith, state-replace_entry f code other store, eq_iff code other)

state-missing :
    (store : DtcStore) (code : String) → carries store code ≡ false → state store code ≡ none
unfolding state carries
state-missing [] code h = refl
state-missing (s ∷ rest) code h = ground (arith, state-missing rest code)

-- What a flag is after a call that names a value for it, or none.
abbrev pub IsNamed : Option Bool → Bool → Bool → Type 0
IsNamed none old new = new ≡ old
IsNamed (some value) old new = new ≡ value

flag-IsNamed : (named : Option Bool) (old : Bool) → IsNamed named old (flag named old)
flag-IsNamed none old = refl
flag-IsNamed (some value) old = refl

-- An entry before and after a call of `update`.
pub record IsChanged (f : Flags) (s entry : DtcState) : Type 0 where
  pub code : entry.code ≡ s.code
  pub pending : IsNamed f.pending s.pending entry.pending
  pub confirmed : IsNamed f.confirmed s.confirmed entry.confirmed
  pub indicator_requested :
      IsNamed f.indicator_requested s.indicator_requested entry.indicator_requested

set_flags-IsChanged : (f : Flags) (s : DtcState) → IsChanged f s (set_flags f s)
unfolding set_flags
set_flags-IsChanged f s = record {
  code = refl;
  pending = flag-IsNamed f.pending s.pending;
  confirmed = flag-IsNamed f.confirmed s.confirmed;
  indicator_requested = flag-IsNamed f.indicator_requested s.indicator_requested;
}

abbrev Updated : Flags → DtcState → String → DtcStore → DtcState → DtcStore → Type 0
Updated f s code store entry store' =
    ◌≡◌ {A = Result (DtcState × DtcStore)} (ok (set_flags f s, replace_entry f code store))
      (ok (entry, store'))

-- All that `update` does when it returns: the entry of the code is returned, in which each flag that
-- the call names has the value named and each other flag, like the code, is as it was; every other code keeps its entry, and no code comes or goes.
pub update_lem :
    (store : DtcStore) (code other : String) (f : Flags) (entry : DtcState) (store' : DtcStore)
    → update store code f ≡ ok (entry, store')
    → (s : DtcState) × (state store code ≡ some s)
      × IsChanged f s entry
      × (state store' other ≡ (if str_eq code other then some entry else state store other))
      × (codes store' ≡ codes store)
unfolding update
update_lem store code other f entry store' e = elim (Option-cases (state store code)) [
  | inl missing ↦ absurd (cc (rw missing at e))
  | inr (s, found) ↦
      let done : Updated f s code store entry store' = rw found at e in
      let stored : replace_entry f code store ≡ store' = cc done in
      let returned : set_flags f s ≡ entry = cc done in
      (
        s,
        found,
        subst (λ (x : DtcState). IsChanged f s x) returned (set_flags-IsChanged f s),
        rw (← stored, ← returned) (updated store code other f s found),
        rw (← stored) (codes-replace_entry f code store),
      )
]

-- `update` fails exactly on a code that is not configured.
pub update_unknown :
    (store : DtcStore) (code : String) (f : Flags)
    → carries store code ≡ false
    → update store code f ≡ err key_error
unfolding update
update_unknown store code f h = rw (state-missing store code h)

clear-pending : (store : DtcStore) → pending (clear store) ≡ []
unfolding pending clear
clear-pending [] = refl
clear-pending (s ∷ rest) = clear-pending rest

clear-confirmed : (store : DtcStore) → confirmed (clear store) ≡ []
unfolding confirmed clear
clear-confirmed [] = refl
clear-confirmed (s ∷ rest) = clear-confirmed rest

clear-indicator : (store : DtcStore) → indicator_on (clear store) ≡ false
unfolding indicator_on clear
clear-indicator [] = refl
clear-indicator (s ∷ rest) = clear-indicator rest

clear-clear : (store : DtcStore) → clear (clear store) ≡ clear store
unfolding clear
clear-clear [] = refl
clear-clear (s ∷ rest) = ap (λ (r : DtcStore). clear_state s ∷ r) (clear-clear rest)

-- A cleared store reports nothing, still carries every code, and a second clear changes nothing.
pub clear_lem :
    (store : DtcStore)
    → (codes (clear store) ≡ codes store)
      × (pending (clear store) ≡ [])
      × (confirmed (clear store) ≡ [])
      × (indicator_on (clear store) ≡ false)
      × (clear (clear store) ≡ clear store)
clear_lem store = (
  codes-clear store,
  clear-pending store,
  clear-confirmed store,
  clear-indicator store,
  clear-clear store,
)
