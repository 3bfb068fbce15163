-- ===== src/App/Ecus/Validated.antt =====
-- What validation promises of the ECUs that are built.
use ecu_simulator.Prelude.{
  String, ◌≡◌, refl, ap, ◌∙◌, Bool, false, ◌||◌, List, [], ◌∷◌, map, arith, str_eq, ltb, length,
  any, ℤ, value_error, Result, ok, >>=-eq-ok,
}
use ecu_simulator.Base.{DiagnosticProtocol}
use ecu_simulator.Dtc.Codes.{codes}
use ecu_simulator.Dtc.Store.{DtcState, DtcStore, carries}
use ecu_simulator.Dtc.Store.Distinct.{IsDistinct, make_store_distinct}
use ecu_simulator.Uds.Dtc.{dtc_store_provider}
use ecu_simulator.Uds.Providers.{DtcRegistry, register_dtc}
use ecu_simulator.Ecu.Router.{names}
use ecu_simulator.Ecu.Router.Laws.{raise_if-ok}
use ecu_simulator.Ecu.Ecu.{Ecu, make_ecu, register}
use ecu_simulator.Vehicle.Floats.{Floats}
use ecu_simulator.Config.Schema.{
  EcuConfig, Ecus, check_ecu, check_endpoint, each, has_repeat, codes_of, dtc_codes_are_unique,
  code_is_encodable, ecu_name_max_length, is_empty, max_dtcs,
}
use ecu_simulator.App.Ecus.{
  World, obd_of, uds_of, protocol_named, register_all, build_ecu, build_ecus, sorted_set, mentioned,
}
use ecu_simulator.App.Ecus.Wanted.{IsKnown, neither, obd_only, uds_only, both, wanted-IsKnown}

codes-carries :
    (entries : List DtcState) (code : String) → carries entries code ≡ names code (codes_of entries)
unfolding carries
codes-carries [] code = refl
codes-carries (d ∷ rest) code = ap (λ (b : Bool). str_eq d.code code || b) (codes-carries rest code)

unique-IsDistinct :
    (entries : List DtcState) → has_repeat (codes_of entries) ≡ false → IsDistinct entries
unfolding has_repeat
unique-IsDistinct [] h = tt
unique-IsDistinct (d ∷ rest) h =
    (codes-carries rest d.code ∙ (ground arith), unique-IsDistinct rest (ground arith))

-- What the fields and validators of one ECU's section leave.
pub record IsChecked (config : EcuConfig) : Type 0 where
  pub endpoints : each check_endpoint config.endpoints ≡ ok tt
  unique : has_repeat (codes_of config.dtcs) ≡ false

pub check_ecu-IsChecked :
    (parse_hex : String → Result ℤ) (config : EcuConfig)
    → check_ecu parse_hex config ≡ ok tt
    → IsChecked config
unfolding check_ecu dtc_codes_are_unique
check_ecu-IsChecked parse_hex config h =
    let (_, a) = raise_if-ok (str_eq config.name "") value_error _ h in
    let (_, b) =
      raise_if-ok (ltb ecu_name_max_length (length (codes config.name))) value_error _ a in
    let (_, c) = raise_if-ok (is_empty config.endpoints) value_error _ b in
    let (_, endpoints, d) = >>=-eq-ok (each check_endpoint config.endpoints) _ c in
    let (_, e) = raise_if-ok (ltb max_dtcs (length config.dtcs)) value_error _ d in
    let (_, _, f) = >>=-eq-ok (each code_is_encodable config.dtcs) _ e in
    let (unique, _) = raise_if-ok (has_repeat (codes_of config.dtcs)) value_error _ f in
    record { endpoints = endpoints; unique = unique }

module _ ⦃F : Floats⦄ where
  registered :
      (key : String) (config : EcuConfig) (registry : DtcRegistry DtcStore) (wanted : List String)
      → IsKnown wanted
      → let bare : Ecu World = record { name = key; protocols = []; by_sid = [] } in
        (e : Ecu World) × (register_all key config registry bare wanted ≡ ok e)
        × (e.name ≡ key)
        × (map (λ (p : DiagnosticProtocol World). p.name) e.protocols ≡ wanted)
  unfolding register_all protocol_named register obd_of uds_of
  registered key config registry wanted (neither e) = rw e (_, refl, refl, refl)
  registered key config registry wanted (obd_only e) = rw e (_, refl, refl, refl)
  registered key config registry wanted (uds_only e) = rw e (_, refl, refl, refl)
  registered key config registry wanted (both e) = rw e (_, refl, refl, refl)

  -- What one ECU is built as.
  abbrev pub Built : String → EcuConfig → Ecu World × (String × DtcStore) → Type 0
  Built key config out =
      (out.0.name ≡ key)
      × (map (λ (p : DiagnosticProtocol World). p.name) out.0.protocols
          ≡ sorted_set (mentioned config.endpoints))
      × (out.1 ≡ (key, config.dtcs))

  abbrev pub AllBuilt : Ecus → List (Ecu World × (String × DtcStore)) → Type 0
  AllBuilt [] [] = Unit {0}
  AllBuilt [] (out ∷ outs) = ⊥
  AllBuilt (entry ∷ rest) [] = ⊥
  AllBuilt ((key, config) ∷ rest) (out ∷ outs) = Built key config out × AllBuilt rest outs

  build_ecu-Built :
      (key : String) (config : EcuConfig)
      → str_eq key "" ≡ false
      → IsChecked config
      → (out : Ecu World × (String × DtcStore)) × (build_ecu key config ≡ ok out)
        × Built key config out
  unfolding build_ecu make_ecu register_dtc
  build_ecu-Built key config named h =
      let store = make_store_distinct config.dtcs (unique-IsDistinct config.dtcs h.unique) in
      let (e, made, name, served) =
        registered key config (dtc_store_provider key ∷ [])
          (sorted_set (mentioned config.endpoints)) (wanted-IsKnown config.endpoints h.endpoints) in
      ((e, (key, config.dtcs)), rw (store, named, made) refl, (name, served, refl))

  -- The same for all sections, in order.
  pub build_ecus-Built :
      (parse_hex : String → Result ℤ) (ecus : Ecus)
      → each (λ (entry : String × EcuConfig). check_ecu parse_hex entry.1) ecus ≡ ok tt
      → any (λ (entry : String × EcuConfig). str_eq entry.0 "") ecus ≡ false
      → (outs : List (Ecu World × (String × DtcStore))) × (build_ecus ecus ≡ ok outs)
        × AllBuilt ecus outs
  unfolding build_ecus
  build_ecus-Built parse_hex [] h named = ([], refl, tt)
  build_ecus-Built parse_hex ((key, config) ∷ rest) h named =
      let (_, first, more) = >>=-eq-ok (check_ecu parse_hex config) _ h in
      let (out, built, one) =
        build_ecu-Built key config (ground arith) (check_ecu-IsChecked parse_hex config first) in
      let (outs, others, all_built) = build_ecus-Built parse_hex rest more (ground arith) in
      (out ∷ outs, rw (built, others) refl, (one, all_built))
