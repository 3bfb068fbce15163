-- ===== src/Vehicle/State/Laws.antt =====
-- Reads and writes of signals.
use Prim.Native.Char.{Char, code}
use text.Mathlib.TextEquality.{Char-path}
use ecu_simulator.Prelude.{
  String, ◌≡◌, refl, sym, ap, ◌∙◌, inl, inr, ◌&&◌, Option, none, some, List, [], ◌∷◌, arith, str_eq,
  eq_iff, ◌==◌, if◌then◌else◌, ==_iff, Bool-cases, Option-cases, Result-cases, ok-injective, Error,
  unknown_signal, ok, err, or_raise,
}
use ecu_simulator.Vehicle.Floats.{Floats, Value}
use ecu_simulator.Vehicle.Signals.{partition, parts_or_raise, split}
use ecu_simulator.Vehicle.State.{
  Fields, Component, VehicleState, field_of, set_field, lookup, store, get, set,
}

module _ ⦃F : Floats⦄ where
  field_of-set_field :
      (fs : Fields) (name other : String) (x : Value)
      → field_of (set_field fs name x) other ≡ (
          if str_eq name other
          then elim (field_of fs other) [ none ↦ none | some old ↦ some x ]
          else field_of fs other)
  unfolding field_of set_field
  field_of-set_field [] name other x = ground arith
  field_of-set_field ((n, v) ∷ rest) name other x = ground (
    arith,
    field_of-set_field rest name other x,
    eq_iff n name,
    eq_iff n other,
    eq_iff name other,
  )

  lookup-store :
      (cs : List Component) (ns name ns' name' : String) (x : Value)
      → lookup (store cs ns name x) ns' name' ≡ (
          if str_eq ns ns' && str_eq name name'
          then elim (lookup cs ns' name') [ none ↦ none | some old ↦ some x ]
          else lookup cs ns' name')
  unfolding lookup store
  lookup-store [] ns name ns' name' x = ground arith
  lookup-store (c ∷ rest) ns name ns' name' x = ground (
    arith,
    lookup-store rest ns name ns' name' x,
    field_of-set_field c.fields name name' x,
    eq_iff c.namespace ns,
    eq_iff c.namespace ns',
    eq_iff ns ns',
    eq_iff name name',
  )

-- No two paths have the same parts: a path is its parts with the dot between them.
abbrev dot_char : Char
dot_char = "."

glue : String → Option String → String
glue String.[] none = String.[]
glue String.[] (some after) = String.◌∷◌ dot_char after
glue (String.◌∷◌ c before) after = String.◌∷◌ c (glue before after)

glue-partition : (p : String) → glue (partition p).0 (partition p).1 ≡ p
unfolding partition glue
glue-partition String.[] = refl
glue-partition (String.◌∷◌ c rest) = elim (Bool-cases (code c == b'.')) [
  | inl dot ↦
      rw dot
        (ap (λ (d : Char). String.◌∷◌ d rest) (Char-path dot_char c (sym ((==_iff _ _).0 dot))))
  | inr other ↦ rw other (ap (λ (t : String). String.◌∷◌ c t) (glue-partition rest))
]

-- The parts of a path give the path back.
split-glue :
    (path namespace name : String)
    → split path ≡ ok (namespace, name)
    → path ≡ glue namespace (some name)
split-glue path namespace name e =
    sym (glue-partition path) ∙ parts (partition path).0 (partition path).1 (unfold split in e)
  where
    parts :
        (before : String) (after : Option String)
        → parts_or_raise (before, after) unknown_signal ≡ ok (namespace, name)
        → glue before after ≡ glue namespace (some name)
    parts before none h = unfold parts_or_raise in cc
    parts before (some rest) h = unfold parts_or_raise in ground arith

module _ ⦃F : Floats⦄ where
  set-inversion :
      (v v' : VehicleState) (path : String) (x : Value)
      → set v path x ≡ ok v'
      → (namespace name : String) × (old : Value) × (split path ≡ ok (namespace, name))
        × (lookup v.components namespace name ≡ some old)
        × (v' ≡ record v { components = store v.components namespace name x })
  unfolding set
  set-inversion v v' path x e = elim (Result-cases (split path)) [
    | inl (why, bad) ↦ absurd (cc (rw bad at e))
    | inr ((namespace, name), parts) ↦ elim (Option-cases (lookup v.components namespace name)) [
      | inl missing ↦ absurd (cc (rw (parts, missing) at e))
      | inr (old, found) ↦
          (namespace, name, old, parts, found, sym (ok-injective (rw (parts, found) at e)))
    ]
  ]

  get-parts :
      (v : VehicleState) (path namespace name : String)
      → split path ≡ ok (namespace, name)
      → get v path ≡ or_raise (lookup v.components namespace name) unknown_signal
  unfolding get
  get-parts v path namespace name e = elim (Option-cases (lookup v.components namespace name)) [
    | inl missing ↦ rw (e, missing)
    | inr (x, found) ↦ rw (e, found)
  ]

  get_unsplit :
      (v : VehicleState) (path : String) (why : Error) → split path ≡ err why → get v path ≡ err why
  unfolding get
  get_unsplit v path why e = rw e

same_place :
    (path other namespace name ns n : String)
    → split path ≡ ok (namespace, name)
    → split other ≡ ok (ns, n)
    → str_eq path other ≡ (str_eq namespace ns && str_eq name n)
same_place path other namespace name ns n p q = ground (
  arith,
  split-glue path namespace name p,
  split-glue other ns n q,
  eq_iff path other,
  eq_iff namespace ns,
  eq_iff name n,
)

module _ ⦃F : Floats⦄ where
  get-stored :
      (v : VehicleState) (path other namespace name ns n : String) (old x : Value)
      → split path ≡ ok (namespace, name)
      → split other ≡ ok (ns, n)
      → lookup v.components namespace name ≡ some old
      → get (record v { components = store v.components namespace name x }) other
        ≡ (if str_eq path other then ok x else get v other)
  get-stored v path other namespace name ns n old x p q found =
      rw
        (
          get-parts (record v { components = store v.components namespace name x }) other ns n q,
          get-parts v other ns n q,
          same_place path other namespace name ns n p q,
        )
        (ground (
          arith,
          lookup-store v.components namespace name ns n x,
          found,
          eq_iff namespace ns,
          eq_iff name n,
        ))

  -- After a write that succeeds, the path written reads as the value written, and every other path
  -- reads as before, whether it names a signal or not.
  pub get-set :
      (v v' : VehicleState) (path other : String) (x : Value)
      → set v path x ≡ ok v'
      → get v' other ≡ (if str_eq path other then ok x else get v other)
  get-set v v' path other x e =
      let (namespace, name, old, parts, found, result) = set-inversion v v' path x e in
      rw result (elim (Result-cases (split other)) [
        | inl (why, bad) ↦
            rw (get_unsplit _ other why bad, get_unsplit v other why bad)
              (ground (arith, eq_iff path other, parts, bad))
        | inr ((ns, n), parts') ↦
            get-stored v path other namespace name ns n old x parts parts' found
      ])
