-- ===== src/App/Ecus/Wanted.antt =====
-- The protocols that a validated ECU names.
use ecu_simulator.Prelude.{
  All, ap, ◌∙◌, ◌||◌, String, ◌≡◌, refl, ◌⊎◌, inl, inr, Bool, true, false, not, List, [], ◌∷◌, ◌++◌,
  arith, str_eq, eq_iff, leb, any, value_error, ok, >>=-eq-ok,
}
use Prim.Native.String.{compare}
use Prim.Native.Nat.{Ordering}
use ecu_simulator.Ecu.Router.{names}
use ecu_simulator.Ecu.Router.Laws.{raise_if-ok}
use ecu_simulator.Config.Schema.{
  EndpointConfigModel, known_protocols, protocols_are_known, check_endpoint, each, can_sff_max,
  is_empty,
}
use ecu_simulator.App.Ecus.{insert_sorted, sorted_set, mentioned}

-- Each text is smaller than every later one, so none stands twice.
abbrev pub IsAscending : List String → Type 0
IsAscending [] = Unit {0}
IsAscending (n ∷ rest) = All (λ (m : String). compare n m ≡ Ordering.lt) rest × IsAscending rest

-- The sorted sets of known protocols.
pub data IsKnown : List String → Type 0 where
  neither : {ns : List String} → ns ≡ [] → IsKnown ns
  obd_only : {ns : List String} → ns ≡ "obd" ∷ [] → IsKnown ns
  uds_only : {ns : List String} → ns ≡ "uds" ∷ [] → IsKnown ns
  both : {ns : List String} → ns ≡ "obd" ∷ "uds" ∷ [] → IsKnown ns

pub IsKnown-IsAscending : (ns : List String) → IsKnown ns → IsAscending ns
IsKnown-IsAscending ns (neither e) = rw e tt
IsKnown-IsAscending ns (obd_only e) = rw e (tt, tt)
IsKnown-IsAscending ns (uds_only e) = rw e (tt, tt)
IsKnown-IsAscending ns (both e) = rw e ((refl, tt), (tt, tt))

known-cases : (p : String) → names p known_protocols ≡ true → (p ≡ "obd") ⊎ (p ≡ "uds")
known-cases p h = ground (arith, eq_iff "obd" p, eq_iff "uds" p)

insert-IsKnown :
    (p : String) (ns : List String)
    → (p ≡ "obd") ⊎ (p ≡ "uds")
    → IsKnown ns
    → IsKnown (insert_sorted p ns)
unfolding insert_sorted
insert-IsKnown p ns (inl o) (neither e) = rw (o, e) (obd_only refl)
insert-IsKnown p ns (inl o) (obd_only e) = rw (o, e) (obd_only refl)
insert-IsKnown p ns (inl o) (uds_only e) = rw (o, e) (both refl)
insert-IsKnown p ns (inl o) (both e) = rw (o, e) (both refl)
insert-IsKnown p ns (inr u) (neither e) = rw (u, e) (uds_only refl)
insert-IsKnown p ns (inr u) (obd_only e) = rw (u, e) (both refl)
insert-IsKnown p ns (inr u) (uds_only e) = rw (u, e) (uds_only refl)
insert-IsKnown p ns (inr u) (both e) = rw (u, e) (both refl)

abbrev pub is_unknown_name : String → Bool
is_unknown_name p = not (names p known_protocols)

sorted-IsKnown : (ns : List String) → any is_unknown_name ns ≡ false → IsKnown (sorted_set ns)
unfolding sorted_set
sorted-IsKnown [] h = neither refl
sorted-IsKnown (p ∷ rest) h =
    insert-IsKnown p (sorted_set rest) (known-cases p (ground arith))
      (sorted-IsKnown rest (ground arith))

any-join :
    (xs ys : List String)
    → any is_unknown_name xs ≡ false
    → any is_unknown_name ys ≡ false
    → any is_unknown_name (xs ++ ys) ≡ false
any-join [] ys hx hy = hy
any-join (x ∷ xs) ys hx hy = ground (arith, any-join xs ys (ground arith) hy)

protocols-known :
    (value : List String) → protocols_are_known value ≡ ok tt → any is_unknown_name value ≡ false
unfolding protocols_are_known
protocols-known value h = (raise_if-ok (any is_unknown_name value) value_error _ h).0

endpoint-known :
    (e : EndpointConfigModel) → check_endpoint e ≡ ok tt → any is_unknown_name e.protocols ≡ false
unfolding check_endpoint
endpoint-known e h =
    let (_, a) = raise_if-ok (str_eq e.name "") value_error _ h in
    let (_, b) = raise_if-ok (not (leb e.rx can_sff_max)) value_error _ a in
    let (_, c) = raise_if-ok (not (leb e.tx can_sff_max)) value_error _ b in
    let (_, d) = raise_if-ok (is_empty e.protocols) value_error _ c in
    let (_, known, _) = >>=-eq-ok (protocols_are_known e.protocols) _ d in
    protocols-known e.protocols known

mentioned-known :
    (es : List EndpointConfigModel)
    → each check_endpoint es ≡ ok tt
    → any is_unknown_name (mentioned es) ≡ false
mentioned-known [] h = refl
mentioned-known (e ∷ rest) h =
    let (_, first, more) = >>=-eq-ok (check_endpoint e) _ h in
    any-join e.protocols (mentioned rest) (endpoint-known e first) (mentioned-known rest more)

pub wanted-IsKnown :
    (es : List EndpointConfigModel)
    → each check_endpoint es ≡ ok tt
    → IsKnown (sorted_set (mentioned es))
wanted-IsKnown es h = sorted-IsKnown (mentioned es) (mentioned-known es h)

insert-names :
    (p s : String) (l : List String) → names p (insert_sorted s l) ≡ (str_eq s p || names p l)
unfolding insert_sorted
insert-names p s [] = refl
insert-names p s (t ∷ rest) =
    ground (arith, insert-names p s rest, eq_iff s t, eq_iff s p, eq_iff t p)

pub sorted-names : (p : String) (ns : List String) → names p (sorted_set ns) ≡ names p ns
unfolding sorted_set
sorted-names p [] = refl
sorted-names p (s ∷ rest) =
    insert-names p s (sorted_set rest) ∙ ap (λ (b : Bool). str_eq s p || b) (sorted-names p rest)
