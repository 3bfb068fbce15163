-- ===== src/Scenario/Runner/Laws.antt =====
-- The release of timed events.
use ecu_simulator.Prelude.{
  ◌≡◌, refl, sym, ap, ◌∙◌, inl, inr, Bool, true, false, not, ◌||◌, List, [], ◌∷◌, map, arith,
  if◌then◌else◌, Bool-cases, Result-cases, any, select, Error, Result, ok, err, ◌>>=◌,
}
use ecu_simulator.Vehicle.Floats.{Floats}
use ecu_simulator.Scenario.Runner.{Stores, Entry, keep, apply_event, apply_events}

module _ ⦃F : Floats⦄ where
  open F use {Float, lt}

  -- An event that is neither applied nor still to come.
  abbrev pub is_due : Float → Entry → Bool
  is_due t entry = not (entry.applied || lt t entry.event.at)

  apply_events-skip :
      (entry : Entry) (rest : List Entry) (stores : Stores) (t : Float)
      → is_due t entry ≡ false
      → apply_events (entry ∷ rest) stores t ≡ keep entry (apply_events rest stores t)
  unfolding apply_events
  apply_events-skip entry rest stores t h =
      let skipped : (entry.applied || lt t entry.event.at) ≡ true = ground arith in
      rw (apply_events, skipped) refl

  -- Nothing due, nothing done.
  pub apply_events-idle :
      (entries : List Entry) (stores : Stores) (t : Float)
      → any (is_due t) entries ≡ false
      → apply_events entries stores t ≡ (ok tt, (entries, stores))
  apply_events-idle [] stores t h = unfold apply_events in refl
  apply_events-idle (entry ∷ rest) stores t h =
      apply_events-skip entry rest stores t (ground arith)
      ∙ ap (keep entry) (apply_events-idle rest stores t (ground arith))

  -- The marks that `_apply_events` leaves if it returns.
  abbrev pub mark : Float → Entry → Entry
  mark t entry = if is_due t entry then record entry { applied = true } else entry

  -- The due events alone, one after another.
  abbrev pub replay : List Entry → Stores → Result Stores
  replay [] stores = ok stores
  replay (entry ∷ rest) stores = apply_event entry stores >>= replay rest

  is_due-mark : (t : Float) (entry : Entry) → is_due t (mark t entry) ≡ false
  is_due-mark t entry = elim (Bool-cases (is_due t entry)) [
    | inl due ↦ rw due refl
    | inr idle ↦ rw idle idle
  ]

  none_due : (t : Float) (entries : List Entry) → any (is_due t) (map (mark t) entries) ≡ false
  none_due t [] = refl
  none_due t (entry ∷ rest) = rw (is_due-mark t entry) (none_due t rest)

  abbrev Outcome : Type 0
  Outcome = Result (Unit {0}) × (List Entry × Stores)

  apply_events-due :
      (entry : Entry) (rest : List Entry) (stores : Stores) (t : Float)
      → is_due t entry ≡ true
      → apply_events (entry ∷ rest) stores t ≡ elim (apply_event entry stores) [
        | err e ↦ (err e, (entry ∷ rest, stores))
        | ok after ↦ keep (record entry { applied = true }) (apply_events rest after t)
      ]
  unfolding apply_events
  apply_events-due entry rest stores t h =
      let now : (entry.applied || lt t entry.event.at) ≡ false = ground arith in
      rw (apply_events, now) refl

  keep-ok :
      (entry : Entry) (r : Outcome) (entries : List Entry) (stores : Stores)
      → keep entry r ≡ (ok tt, (entries, stores))
      → (more : List Entry) × (r ≡ (ok tt, (more, stores))) × (entries ≡ entry ∷ more)
  keep-ok entry (r, (more, s)) entries stores h = (more, cc, cc)

  outcome_parts :
      (entries after : List Entry) (stores stores' : Stores)
      → ◌≡◌ {A = Outcome} (ok tt, (entries, stores)) (ok tt, (after, stores'))
      → (entries ≡ after) × (stores ≡ stores')
  outcome_parts entries after stores stores' h = (cc, cc)

  ended :
      (stores : Stores) (t : Float) (after : List Entry) (stores' : Stores)
      → apply_events [] stores t ≡ (ok tt, (after, stores'))
      → ([] ≡ after) × (stores ≡ stores')
  unfolding apply_events
  ended stores t after stores' h = outcome_parts [] after stores stores' h

  not_raised :
      (x : Error) (entries after : List Entry) (stores stores' : Stores)
      → ◌≡◌ {A = Outcome} (err x, (entries, stores)) (ok tt, (after, stores'))
      → ⊥
  not_raised x entries after stores stores' h = cc

  -- The events that `_apply_events` releases when it returns.
  released_in_order :
      (entries : List Entry) (stores : Stores) (t : Float) (after : List Entry) (stores' : Stores)
      → apply_events entries stores t ≡ (ok tt, (after, stores'))
      → (after ≡ map (mark t) entries) × (replay (select (is_due t) entries) stores ≡ ok stores')
  released_in_order [] stores t after stores' h =
      let (none_left, same) = ended stores t after stores' h in
      (sym none_left, ap (λ (s : Stores). ok s) same)
  released_in_order (entry ∷ rest) stores t after stores' h = elim (Bool-cases (is_due t entry)) [
    | inr idle ↦
        let (more, f, g) =
          keep-ok entry (apply_events rest stores t) after stores'
            (sym (apply_events-skip entry rest stores t idle) ∙ h) in
        let (marked, order) = released_in_order rest stores t more stores' f in
        (rw (g, marked, idle), rw idle order)
    | inl due ↦ elim (Result-cases (apply_event entry stores)) [
      | inl (x, raised) ↦ absurd (
          not_raised x (entry ∷ rest) after stores stores'
            (rw raised at (sym (apply_events-due entry rest stores t due) ∙ h)))
      | inr (next, stepped) ↦
          let done : record entry { applied = true } ≡ mark t entry = rw due refl in
          let (more, f, g) =
            keep-ok (record entry { applied = true }) (apply_events rest next t) after stores'
              (rw stepped at (sym (apply_events-due entry rest stores t due) ∙ h)) in
          let (marked, order) = released_in_order rest next t more stores' f in
          (rw (g, marked, due) refl, rw (due, stepped) order)
    ]
  ]

  -- When `_apply_events` returns, the events that were due are applied in their order, each is marked
  -- and no other; called again for the same time, it changes neither the marks nor the stores.
  pub apply_events_once :
      (entries : List Entry) (stores : Stores) (t : Float) (after : List Entry) (stores' : Stores)
      → apply_events entries stores t ≡ (ok tt, (after, stores'))
      → (after ≡ map (mark t) entries)
        × (replay (select (is_due t) entries) stores ≡ ok stores')
        × (apply_events after stores' t ≡ (ok tt, (after, stores')))
  apply_events_once entries stores t after stores' h =
      let (marked, order) = released_in_order entries stores t after stores' h in
      let idle : any (is_due t) after ≡ false = ap (any (is_due t)) marked ∙ none_due t entries in
      (marked, order, apply_events-idle after stores' t idle)
