-- ===== src/Dtc/Store/Distinct.antt =====
-- No code stands twice in a store: what building and clearing keep.
use ecu_simulator.Prelude.{
  String, ◌≡◌, refl, sym, ap, ◌∙◌, inl, inr, false, ◌||◌, List, [], ◌∷◌, ◌++◌, arith, eq_iff,
  Bool-cases, ok,
}
use mathlib.Core.List.{append-nil, append_assoc}
use ecu_simulator.Dtc.Store.{DtcState, DtcStore, codes, carries, add_entries, make_store, clear}

-- No two entries have one code: the invariant of a dictionary.
abbrev pub IsDistinct : DtcStore → Type 0
IsDistinct [] = Unit {0}
IsDistinct (s ∷ rest) = (carries rest s.code ≡ false) × IsDistinct rest

pub codes-clear : (store : DtcStore) → codes (clear store) ≡ codes store
unfolding clear
codes-clear [] = refl
codes-clear (s ∷ rest) = ap (λ (cs : List String). s.code ∷ cs) (codes-clear rest)

-- Membership and distinctness only depend on the codes.
carries-codes :
    (store other : DtcStore) (code : String)
    → codes store ≡ codes other
    → carries store code ≡ carries other code
unfolding carries
carries-codes [] [] code e = refl
carries-codes [] (t ∷ u) code e = cc
carries-codes (s ∷ r) [] code e = cc
carries-codes (s ∷ r) (t ∷ u) code e = ground (arith, carries-codes r u code)

IsDistinct-codes :
    (store other : DtcStore) → codes store ≡ codes other → IsDistinct store → IsDistinct other
IsDistinct-codes [] [] e d = tt
IsDistinct-codes [] (t ∷ u) e d = cc
IsDistinct-codes (s ∷ r) [] e d = cc
IsDistinct-codes (s ∷ r) (t ∷ u) e d =
    (ground (arith, carries-codes r u s.code), IsDistinct-codes r u (cc) d.1)

carries-append :
    (store more : DtcStore) (code : String)
    → carries (store ++ more) code ≡ (carries store code || carries more code)
unfolding carries
carries-append [] more code = refl
carries-append (t ∷ rest) more code = ground (arith, carries-append rest more code)

IsDistinct-append :
    (store : DtcStore) (s : DtcState)
    → IsDistinct store
    → carries store s.code ≡ false
    → IsDistinct (store ++ s ∷ [])
unfolding carries
IsDistinct-append [] s d h = (refl, tt)
IsDistinct-append (t ∷ rest) s d h = (
  ground (arith, carries-append rest (s ∷ []) t.code, eq_iff s.code t.code, eq_iff t.code s.code),
  IsDistinct-append rest s d.1 (ground arith),
)

add_entries-ok :
    (store rest : List DtcState) (result : DtcStore)
    → IsDistinct store
    → add_entries store rest ≡ ok result
    → (result ≡ store ++ rest) × IsDistinct result
unfolding add_entries
add_entries-ok store [] result d e =
    let same : store ≡ result = cc in (rw append-nil (sym same), rw same at d)
add_entries-ok store (s ∷ rest) result d e = elim (Bool-cases (carries store s.code)) [
  | inl twice ↦ absurd (cc (rw twice at e))
  | inr fresh ↦
      let (all_in, distinct) =
        add_entries-ok (store ++ s ∷ []) rest result (IsDistinct-append store s d fresh)
          (rw fresh at e) in
      (all_in ∙ append_assoc store (s ∷ []) rest, distinct)
]

-- A store that is built holds the entries given, in their order, and has no code twice.
pub make_store-ok :
    (entries : List DtcState) (store : DtcStore)
    → make_store entries ≡ ok store
    → (store ≡ entries) × IsDistinct store
unfolding make_store
make_store-ok entries store e = add_entries-ok [] entries store tt e

carries_middle :
    (store rest : DtcStore) (s : DtcState)
    → IsDistinct (store ++ s ∷ rest)
    → carries store s.code ≡ false
unfolding carries
carries_middle [] rest s d = refl
carries_middle (t ∷ store) rest s d = ground (
  arith,
  carries_middle store rest s d.1,
  carries-append store (s ∷ rest) t.code,
  eq_iff t.code s.code,
  eq_iff s.code t.code,
)

add_entries_distinct :
    (store rest : List DtcState)
    → IsDistinct (store ++ rest)
    → add_entries store rest ≡ ok (store ++ rest)
unfolding add_entries
add_entries_distinct store [] d = rw append-nil
add_entries_distinct store (s ∷ rest) d = rw (carries_middle store rest s d) (
    add_entries_distinct (store ++ s ∷ []) rest (rw append_assoc d)
    ∙ ap ok (append_assoc store (s ∷ []) rest))

-- Entries with distinct codes always make a store.
pub make_store_distinct :
    (entries : List DtcState) → IsDistinct entries → make_store entries ≡ ok entries
unfolding make_store
make_store_distinct entries d = add_entries_distinct [] entries d

pub IsDistinct-clear : (store : DtcStore) → IsDistinct store → IsDistinct (clear store)
IsDistinct-clear store = IsDistinct-codes store (clear store) (sym (codes-clear store))
