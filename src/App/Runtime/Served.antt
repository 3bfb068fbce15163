-- ===== src/App/Runtime/Served.antt =====
-- The ECUs that are built serve the protocols that their endpoints enable.
use ecu_simulator.Prelude.{
  String, ◌≡◌, refl, ap, ◌∙◌, true, false, some, List, [], ◌∷◌, map, arith, str_eq, eq_iff, any,
  All,
}
use ecu_simulator.Base.{DiagnosticProtocol}
use ecu_simulator.Dtc.Store.{DtcStore}
use ecu_simulator.Ecu.Router.{names}
use ecu_simulator.Ecu.Ecu.{Ecu}
use ecu_simulator.Ecu.Dispatcher.{ecu_named, has_duplicate}
use ecu_simulator.Vehicle.Floats.{Floats}
use ecu_simulator.Config.Schema.{EcuConfig, Ecus, has_repeat}
use ecu_simulator.App.Ecus.{World, sorted_set, mentioned}
use ecu_simulator.App.Ecus.Validated.{AllBuilt}
use ecu_simulator.App.Runtime.{ecus_of}

abbrev pub keys : Ecus → List String
keys = map (λ (entry : String × EcuConfig). entry.0)

module _ ⦃F : Floats⦄ where
  -- The ECU of this entry is found by its key, and serves what its endpoints mention.
  abbrev pub IsServed : List (Ecu World) → String × EcuConfig → Type 0
  IsServed es (key, config) =
      (e : Ecu World) × (ecu_named es key ≡ some e)
      × (map (λ (p : DiagnosticProtocol World). p.name) e.protocols
          ≡ sorted_set (mentioned config.endpoints))

  lift :
      (first : Ecu World) (es : List (Ecu World)) (rest : Ecus)
      → names first.name (keys rest) ≡ false
      → All (IsServed es) rest
      → All (IsServed (first ∷ es)) rest
  unfolding ecu_named
  lift first es [] fresh h = tt
  lift first es ((key, config) ∷ rest) fresh h =
      let other : str_eq first.name key ≡ false =
        ground (arith, eq_iff first.name key, eq_iff key first.name) in
      ((h.0.0, rw other h.0.1, h.0.2), lift first es rest (ground arith) h.1)

  pub AllBuilt-IsServed :
      (ecus : Ecus) (outs : List (Ecu World × (String × DtcStore)))
      → AllBuilt ecus outs
      → has_repeat (keys ecus) ≡ false
      → All (IsServed (ecus_of outs)) ecus
  unfolding ecu_named has_repeat
  AllBuilt-IsServed [] [] b distinct = tt
  AllBuilt-IsServed [] (out ∷ outs) b distinct = absurd b
  AllBuilt-IsServed (entry ∷ rest) [] b distinct = absurd b
  AllBuilt-IsServed ((key, config) ∷ rest) (out ∷ outs) b distinct =
      let fresh : names key (keys rest) ≡ false = ground arith in
      let here : str_eq out.0.name key ≡ true = ground (arith, eq_iff out.0.name key, b.0.0) in
      let others = AllBuilt-IsServed rest outs b.1 (ground arith) in
      (
        (out.0, rw here refl, b.0.1),
        lift out.0 (ecus_of outs) rest (ap (λ (n : String). names n (keys rest)) b.0.0 ∙ fresh)
            others,
      )

  same_names :
      (name : String) (ecus : Ecus) (outs : List (Ecu World × (String × DtcStore)))
      → AllBuilt ecus outs
      → any (λ (f : Ecu World). str_eq f.name name) (ecus_of outs) ≡ names name (keys ecus)
  same_names name [] [] b = refl
  same_names name [] (out ∷ outs) b = absurd b
  same_names name (entry ∷ rest) [] b = absurd b
  same_names name ((key, config) ∷ rest) (out ∷ outs) b =
      let ih = same_names name rest outs b.1 in
      let head : str_eq out.0.name name ≡ str_eq key name =
        ap (λ (n : String). str_eq n name) b.0.0 in
      rw (head, ih) refl

  pub AllBuilt-distinct :
      (ecus : Ecus) (outs : List (Ecu World × (String × DtcStore)))
      → AllBuilt ecus outs
      → has_repeat (keys ecus) ≡ false
      → has_duplicate (ecus_of outs) ≡ false
  unfolding has_duplicate has_repeat
  AllBuilt-distinct [] [] b distinct = refl
  AllBuilt-distinct [] (out ∷ outs) b distinct = absurd b
  AllBuilt-distinct (entry ∷ rest) [] b distinct = absurd b
  AllBuilt-distinct ((key, config) ∷ rest) (out ∷ outs) b distinct =
      let fresh : names key (keys rest) ≡ false = ground arith in
      let first =
        same_names out.0.name rest outs b.1
        ∙ ap (λ (n : String). names n (keys rest)) b.0.0
        ∙ fresh in
      let others = AllBuilt-distinct rest outs b.1 (ground arith) in rw (first, others) refl

  pub AllBuilt-names :
      (ecus : Ecus) (outs : List (Ecu World × (String × DtcStore)))
      → AllBuilt ecus outs
      → map (λ (e : Ecu World). e.name) (ecus_of outs) ≡ keys ecus
  AllBuilt-names [] [] b = refl
  AllBuilt-names [] (out ∷ outs) b = absurd b
  AllBuilt-names (entry ∷ rest) [] b = absurd b
  AllBuilt-names ((key, config) ∷ rest) (out ∷ outs) b =
      let ih = AllBuilt-names rest outs b.1 in rw (b.0.0, ih) refl
