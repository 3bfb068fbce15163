-- ===== src/App/Routing.antt =====
-- src/ecu_simulator/app.py: the sockets and the routes of a profile, and the check that they agree.
pub mod Agreement
pub mod Checked
use ecu_simulator.Prelude.{
  ℕ, zero, suc, ◌+◌, ◌-◌, ◌*◌, ◌/◌, ◌%◌, ◌^◌, ◌≤◌, ◌<◌, bit_and, bit_or, String, ◌≡◌, refl, sym, ap,
  ◌∙◌, ◌≢◌, ◌↔◌, ◌⊎◌, inl, inr, Bool, true, false, not, ◌&&◌, ◌||◌, Option, none, some, List, [],
  ◌∷◌, ◌++◌, map, arith, str_eq, eq_iff, ltb, leb, ◌==◌, if◌then◌else◌, ltb→lt, lt→ltb, leb→le,
  le→leb, ==_iff, Bool-cases, Option-cases, Result-cases, ok-injective, &&-true, length, get_elem?,
  take, drop, replicate, any, all, select, All, length-append, length-take, length-replicate,
  length-map, All-append, contains, ℤ, pos, negsuc, clamp, ◌+ℤ◌, ◌*ℤ◌, sub_ℕ, ltb_ℤ, Error,
  value_error, key_error, type_error, overflow_error, index_error, traverse, as_some,
  not_implemented, unknown_signal, service_conflict, route_conflict, provider_conflict,
  assertion_error, Result, ok, err, ◌>>=◌, ◌>>◌, raise_if, or_raise, >>=-eq-ok,
}
use Prim.Native.String.{◌++◌ as str_append}
use ecu_simulator.Config.Schema.{
  EndpointConfigModel, EcuConfig, Ecus, is_functional, answers_unsupported,
}
use ecu_simulator.Transport.Messages.{normal_11bit}
use ecu_simulator.Transport.IsoTp.{iso_tp_address, iso_tp_options}
use ecu_simulator.Transport.Endpoints.{EndpointConfig}
use ecu_simulator.Ecu.Router.{
  Route, AddressRouter, empty_router, add_physical, add_functional, find, put, is_some,
}

-- `endpoint_name`
unfoldable pub endpoint_name : String → EndpointConfigModel → String
endpoint_name ecu e = str_append ecu (str_append "." e.name)

-- `_endpoint_named`
unfoldable pub endpoint_named : List EndpointConfigModel → String → Result EndpointConfigModel
endpoint_named [] name = err value_error
endpoint_named (e ∷ rest) name =
    let more = endpoint_named rest name in if str_eq e.name name then ok e else more

-- the name of the endpoint that answers
abbrev pub reply_name : String → List EndpointConfigModel → Option String → Result (Option String)
reply_name ecu endpoints none = ok none
reply_name ecu endpoints (some via) =
    as_some (endpoint_named endpoints via >>= λ e. ok (endpoint_name ecu e))

-- one `EndpointConfig` of `build_endpoints`
unfoldable pub build_endpoint :
    String → List EndpointConfigModel → EndpointConfigModel → Result EndpointConfig
build_endpoint ecu endpoints e = iso_tp_address e.rx e.tx normal_11bit >>= λ address.
    iso_tp_options e.tx_padding e.pad_byte 0 0 >>= λ options.
    reply_name ecu endpoints e.reply_via >>= λ reply_via. ok (record {
      name = endpoint_name ecu e;
      address = address;
      functional = is_functional e.addressing;
      options = options;
      reply_via = reply_via;
      receive = true;
    })

-- `build_endpoints`
unfoldable pub build_endpoints : Ecus → Result (List EndpointConfig)
build_endpoints [] = ok []
build_endpoints ((name, ecu) ∷ rest) =
    traverse (build_endpoint name ecu.endpoints) ecu.endpoints >>= λ first.
    build_endpoints rest >>= λ others. ok (first ++ others)

-- one call of `add` in `build_router`
unfoldable pub add_endpoint : AddressRouter → String → EndpointConfigModel → Result AddressRouter
add_endpoint router ecu e =
    if is_functional e.addressing
    then add_functional router e.rx ecu e.protocols (answers_unsupported e)
    else add_physical router e.rx ecu e.protocols (answers_unsupported e)

-- the inner loop of `build_router`
unfoldable pub add_endpoints :
    AddressRouter → String → List EndpointConfigModel → Result AddressRouter
add_endpoints router ecu [] = ok router
add_endpoints router ecu (e ∷ rest) =
    add_endpoint router ecu e >>= λ after. add_endpoints after ecu rest

-- the outer loop
unfoldable pub add_ecus : AddressRouter → Ecus → Result AddressRouter
add_ecus router [] = ok router
add_ecus router ((name, ecu) ∷ rest) =
    add_endpoints router name ecu.endpoints >>= λ after. add_ecus after rest

-- `build_router`
abbrev pub build_router : Ecus → Result AddressRouter
build_router ecus = add_ecus empty_router ecus

-- `table.update(...)` and the dictionaries of `check_routes`: whether an address is functional
abbrev pub Kinds : Type 0
Kinds = List (ℕ × Bool)

-- `listening`
unfoldable pub listening : Kinds → List EndpointConfig → Kinds
listening kinds [] = kinds
listening kinds (e ∷ rest) =
    listening (if e.receive then put kinds e.address.rx_id e.functional else kinds) rest

-- `routed` and its `update`: one kind for each address of a table
unfoldable pub routed {ℓ} : {A : Type ℓ} → Bool → Kinds → List (ℕ × A) → Kinds
routed kind kinds [] = kinds
routed kind kinds ((address, a) ∷ rest) = routed kind (put kinds address kind) rest

abbrev pub disagrees : Option Bool → Bool → Bool
disagrees none kind = true
disagrees (some true) kind = not kind
disagrees (some false) kind = kind

-- `check_routes`; which of the disagreements is reported first does not matter here
unfoldable pub check_routes : AddressRouter → List EndpointConfig → Result (Unit {0})
check_routes router endpoints =
    let heard = listening [] endpoints in
    let known = routed true (routed false [] router.physical) router.functional in
    raise_if (any (λ (entry : ℕ × Bool). disagrees (find known entry.0) entry.1) heard) value_error
    >> raise_if (any (λ (entry : ℕ × Bool). not (is_some (find heard entry.0))) known) value_error
