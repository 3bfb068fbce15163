-- ===== src/Config/Schema.antt =====
-- src/ecu_simulator/config/schema.py: the parts of a profile that the routing is built from, with the
-- checks on them. Pydantic reports every problem; here the first one ends the check. The integers
-- are natural numbers: `ge=0` is their type. `parse_hex` is `int(key, 16)`, which may raise.
use ecu_simulator.Prelude.{
  ℕ, String, Bool, true, false, not, ◌&&◌, ◌||◌, Option, none, some, List, [], ◌∷◌, map, str_eq,
  ltb, leb, ◌==◌, if◌then◌else◌, length, any, all, ℤ, pos, negsuc, value_error, Result, ok, err,
  ◌>>=◌, ◌>>◌, raise_if,
}
use ecu_simulator.Dtc.Codes.{codes, is_encodable_dtc}
use ecu_simulator.Dtc.Store.{DtcState}
use ecu_simulator.Ecu.Router.{names, find, put}

abbrev pub can_sff_max : ℕ
can_sff_max = 0x7FF

abbrev pub ecu_name_max_length : ℕ
ecu_name_max_length = 20

abbrev pub max_dtcs : ℕ
max_dtcs = 255

abbrev pub known_protocols : List String
known_protocols = "obd" ∷ "uds" ∷ []

-- `Literal["physical", "functional"]`
pub data Addressing : Type 0 where
  physical functional : Addressing

pub record EndpointConfigModel : Type 0 where
  pub name : String
  pub rx : ℕ
  pub tx : ℕ
  pub addressing : Addressing
  pub protocols : List String
  pub answer_unsupported : Option Bool
  pub tx_padding : Bool
  pub pad_byte : ℕ
  pub reply_via : Option String

abbrev pub is_functional : Addressing → Bool
is_functional physical = false
is_functional functional = true

-- `answers_unsupported`
unfoldable pub answers_unsupported : EndpointConfigModel → Bool
answers_unsupported e = elim e.answer_unsupported [
  | none ↦ not (is_functional e.addressing)
  | some answer ↦ answer
]

-- `len(set(value)) != len(value)`
unfoldable pub has_repeat : List String → Bool
has_repeat [] = false
has_repeat (n ∷ rest) = names n rest || has_repeat rest

-- `protocols_are_known`
unfoldable pub protocols_are_known : List String → Result (Unit {0})
protocols_are_known value =
    raise_if (any (λ p. not (names p known_protocols)) value) value_error
    >> raise_if (has_repeat value) value_error

abbrev pub is_empty {ℓ} : {A : Type ℓ} → List A → Bool
is_empty [] = true
is_empty (x ∷ xs) = false

-- the fields of `EndpointConfigModel`, `protocols_are_known` and `addresses_differ`
unfoldable pub check_endpoint : EndpointConfigModel → Result (Unit {0})
check_endpoint e =
    raise_if (str_eq e.name "") value_error
    >> (raise_if (not (leb e.rx can_sff_max)) value_error
        >> (raise_if (not (leb e.tx can_sff_max)) value_error
            >> (raise_if (is_empty e.protocols) value_error
                >> (protocols_are_known e.protocols
                    >> (raise_if (not (leb e.pad_byte 0xFF)) value_error
                        >> raise_if (e.rx == e.tx) value_error)))))

-- `code_is_encodable`
unfoldable pub code_is_encodable : DtcState → Result (Unit {0})
code_is_encodable d = raise_if (not (is_encodable_dtc d.code)) value_error

pub record EcuConfig : Type 0 where
  pub name : String
  pub endpoints : List EndpointConfigModel
  pub dtcs : List DtcState
  -- the codes of `dtc_events`
  pub event_codes : List (Option String)
  -- the keys of `dids`
  pub dids : List String

abbrev pub each {ℓ} : {A : Type ℓ} → (A → Result (Unit {0})) → List A → Result (Unit {0})
each check [] = ok tt
each check (x ∷ xs) = check x >> each check xs

abbrev pub codes_of : List DtcState → List String
codes_of = map (λ (d : DtcState). d.code)

-- `dtc_codes_are_unique`
unfoldable pub dtc_codes_are_unique : List DtcState → Result (Unit {0})
dtc_codes_are_unique value = raise_if (has_repeat (codes_of value)) value_error

-- `dids_are_in_range`
unfoldable pub did_in_range : (String → Result ℤ) → String → Result (Unit {0})
did_in_range parse_hex key = parse_hex key >>= λ number. elim number [
  | pos n ↦ raise_if (ltb 0xFFFF n) value_error
  | negsuc n ↦ err value_error
]

abbrev pub endpoint_names : List EndpointConfigModel → List String
endpoint_names = map (λ (e : EndpointConfigModel). e.name)

abbrev pub same_pair : EndpointConfigModel → EndpointConfigModel → Bool
same_pair a b = a.rx == b.rx && a.tx == b.tx

unfoldable pub repeats_pair : List EndpointConfigModel → Bool
repeats_pair [] = false
repeats_pair (e ∷ rest) = any (same_pair e) rest || repeats_pair rest

abbrev pub replies_nowhere : List String → Option String → Bool
replies_nowhere all none = false
replies_nowhere all (some via) = not (names via all)

-- `endpoints_are_consistent`
unfoldable pub endpoints_are_consistent : List EndpointConfigModel → Result (Unit {0})
endpoints_are_consistent endpoints =
    raise_if (has_repeat (endpoint_names endpoints)) value_error
    >> (raise_if (repeats_pair endpoints) value_error
        >> raise_if
            (any
              (λ (e : EndpointConfigModel). replies_nowhere (endpoint_names endpoints) e.reply_via)
              endpoints)
            value_error)

abbrev pub is_unconfigured : List String → Option String → Bool
is_unconfigured known none = false
is_unconfigured known (some code) = not (names code known)

-- `events_name_codes_this_ecu_carries`
unfoldable pub events_name_codes : EcuConfig → Result (Unit {0})
events_name_codes ecu =
    raise_if (any (is_unconfigured (codes_of ecu.dtcs)) ecu.event_codes) value_error

-- the fields and validators of `EcuConfig`
unfoldable pub check_ecu : (String → Result ℤ) → EcuConfig → Result (Unit {0})
check_ecu parse_hex ecu =
    raise_if (str_eq ecu.name "") value_error
    >> (raise_if (ltb ecu_name_max_length (length (codes ecu.name))) value_error
        >> (raise_if (is_empty ecu.endpoints) value_error
            >> (each check_endpoint ecu.endpoints
                >> (raise_if (ltb max_dtcs (length ecu.dtcs)) value_error
                    >> (each code_is_encodable ecu.dtcs
                        >> (dtc_codes_are_unique ecu.dtcs
                            >> (each (did_in_range parse_hex) ecu.dids
                                >> (endpoints_are_consistent ecu.endpoints
                                    >> events_name_codes ecu))))))))

-- `ecus` of a profile, in order; the keys of a dictionary are distinct
abbrev pub Ecus : Type 0
Ecus = List (String × EcuConfig)

-- `owners`
abbrev pub Owners : Type 0
Owners = List (ℕ × String)

abbrev pub other_owner : Option String → String → Bool
other_owner none ecu = false
other_owner (some owner) ecu = not (str_eq owner ecu)

-- `owners.get(rx)` and `owners[rx] = ecu_name`
abbrev pub owned_by : Owners → EndpointConfigModel → String → Owners
owned_by owners e ecu = if is_functional e.addressing then owners else put owners e.rx ecu

-- the inner loop of `receive_addresses_are_unique_across_ecus`
unfoldable pub claim_addresses : Owners → String → List EndpointConfigModel → Result Owners
claim_addresses owners ecu [] = ok owners
claim_addresses owners ecu (e ∷ rest) =
    let more = claim_addresses (owned_by owners e ecu) ecu rest in
    raise_if (other_owner (find owners e.rx) ecu && not (is_functional e.addressing)) value_error
    >> more

-- the outer loop
unfoldable pub claim_all : Owners → Ecus → Result Owners
claim_all owners [] = ok owners
claim_all owners ((name, ecu) ∷ rest) =
    claim_addresses owners name ecu.endpoints >>= λ more. claim_all more rest

-- the fields and validators of `Profile` that concern its ECUs
unfoldable pub check_ecus : (String → Result ℤ) → Ecus → Result (Unit {0})
check_ecus parse_hex ecus =
    raise_if (is_empty ecus) value_error
    >> (each (λ (entry : String × EcuConfig). check_ecu parse_hex entry.1) ecus
        >> (claim_all [] ecus >>= λ _. ok tt))
