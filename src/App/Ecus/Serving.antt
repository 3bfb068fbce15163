-- ===== src/App/Ecus/Serving.antt =====
-- The protocols that each ECU of a validated profile has.
use ecu_simulator.Prelude.{
  String, ◌≡◌, refl, sym, ap, ◌∙◌, Bool, false, ◌||◌, List, [], ◌∷◌, ◌++◌, map, arith, str_eq, any,
  ℤ, Result, ok, >>=-eq-ok,
}
use mathlib.Core.Path.{subst}
use ecu_simulator.Base.{DiagnosticProtocol}
use ecu_simulator.Dtc.Store.{DtcStore}
use ecu_simulator.Ecu.Router.{names}
use ecu_simulator.Ecu.Ecu.{Ecu}
use ecu_simulator.Vehicle.Floats.{Floats}
use ecu_simulator.Config.Schema.{
  EndpointConfigModel, EcuConfig, Ecus, check_ecu, check_endpoint, each,
}
use ecu_simulator.App.Ecus.{World, build_ecus, sorted_set, mentioned}
use ecu_simulator.App.Ecus.Wanted.{IsAscending, IsKnown-IsAscending, wanted-IsKnown, sorted-names}
use ecu_simulator.App.Ecus.Validated.{check_ecu-IsChecked, Built, AllBuilt, build_ecus-Built}

-- Whether an endpoint enables a protocol.
abbrev pub enables : List EndpointConfigModel → String → Bool
enables endpoints p = any (λ (m : EndpointConfigModel). any (λ n. str_eq n p) m.protocols) endpoints

any-join : (p : String) (xs ys : List String) → names p (xs ++ ys) ≡ (names p xs || names p ys)
any-join p [] ys = refl
any-join p (x ∷ xs) ys = ground (arith, any-join p xs ys)

mentioned-enables :
    (endpoints : List EndpointConfigModel) (p : String)
    → names p (mentioned endpoints) ≡ enables endpoints p
mentioned-enables [] p = refl
mentioned-enables (m ∷ rest) p =
    any-join p m.protocols (mentioned rest)
    ∙ ap (λ (b : Bool). any (λ n. str_eq n p) m.protocols || b) (mentioned-enables rest p)

module _ ⦃F : Floats⦄ where
  abbrev pub protocol_names : Ecu World → List String
  protocol_names e = map (λ (p : DiagnosticProtocol World). p.name) e.protocols

  -- The ECU and the store that the entry of a profile becomes.
  pub record Serves (key : String) (config : EcuConfig) (out : Ecu World × (String × DtcStore))
      : Type 0 where
    pub name : out.0.name ≡ key
    pub ascending : IsAscending (protocol_names out.0)
    pub enabled :
        (p : String) → any (λ n. str_eq n p) (protocol_names out.0) ≡ enables config.endpoints p
    pub store : out.1 ≡ (key, config.dtcs)

  abbrev pub AllServe : Ecus → List (Ecu World × (String × DtcStore)) → Type 0
  AllServe [] [] = Unit {0}
  AllServe [] (out ∷ outs) = ⊥
  AllServe (entry ∷ rest) [] = ⊥
  AllServe ((key, config) ∷ rest) (out ∷ outs) = Serves key config out × AllServe rest outs

  Built-Serves :
      (key : String) (config : EcuConfig) (out : Ecu World × (String × DtcStore))
      → each check_endpoint config.endpoints ≡ ok tt
      → Built key config out
      → Serves key config out
  Built-Serves key config out checked (name, served, store) = record {
    name = name;
    ascending = subst IsAscending (sym served) (
        IsKnown-IsAscending (sorted_set (mentioned config.endpoints))
          (wanted-IsKnown config.endpoints checked));
    enabled = λ p.
        ap (names p) served
        ∙ sorted-names p (mentioned config.endpoints)
        ∙ mentioned-enables config.endpoints p;
    store = store;
  }

  AllBuilt-AllServe :
      (parse_hex : String → Result ℤ) (ecus : Ecus) (outs : List (Ecu World × (String × DtcStore)))
      → each (λ (entry : String × EcuConfig). check_ecu parse_hex entry.1) ecus ≡ ok tt
      → AllBuilt ecus outs
      → AllServe ecus outs
  AllBuilt-AllServe parse_hex [] [] h b = tt
  AllBuilt-AllServe parse_hex [] (out ∷ outs) h b = absurd b
  AllBuilt-AllServe parse_hex (entry ∷ rest) [] h b = absurd b
  AllBuilt-AllServe parse_hex ((key, config) ∷ rest) (out ∷ outs) h b =
      let (_, first, more) = >>=-eq-ok (check_ecu parse_hex config) _ h in
      (
        Built-Serves key config out (check_ecu-IsChecked parse_hex config first).endpoints b.0,
        AllBuilt-AllServe parse_hex rest outs more b.1,
      )

  -- Where the section of each ECU passes validation and no key is empty, the ECUs are built: for each
  -- entry, in order, one of that name, with a store of the trouble codes as they are configured. The
  -- names of its protocols are in ascending order with none twice, and a name is among them exactly
  -- if one of the endpoints of the entry lists it.
  pub build_ecus-AllServe :
      (parse_hex : String → Result ℤ) (ecus : Ecus)
      → each (λ (entry : String × EcuConfig). check_ecu parse_hex entry.1) ecus ≡ ok tt
      → any (λ (entry : String × EcuConfig). str_eq entry.0 "") ecus ≡ false
      → (outs : List (Ecu World × (String × DtcStore))) × (build_ecus ecus ≡ ok outs)
        × AllServe ecus outs
  build_ecus-AllServe parse_hex ecus h named =
      let (outs, built, b) = build_ecus-Built parse_hex ecus h named in
      (outs, built, AllBuilt-AllServe parse_hex ecus outs h b)
