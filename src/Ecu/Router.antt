-- ===== src/Ecu/Router.antt =====
-- src/ecu_simulator/ecu/router.py: which ECU a request is for, and which protocols answer there. A
-- dictionary is the list of its items in insertion order.
pub mod Laws
pub mod Built
use ecu_simulator.Prelude.{
  ℕ, zero, suc, ◌+◌, ◌-◌, ◌*◌, ◌/◌, ◌%◌, ◌^◌, ◌≤◌, ◌<◌, bit_and, bit_or, String, ◌≡◌, refl, sym, ap,
  ◌∙◌, ◌≢◌, ◌↔◌, ◌⊎◌, inl, inr, Bool, true, false, not, ◌&&◌, ◌||◌, Option, none, some, List, [],
  ◌∷◌, ◌++◌, map, arith, str_eq, eq_iff, ltb, leb, ◌==◌, if◌then◌else◌, ltb→lt, lt→ltb, leb→le,
  le→leb, ==_iff, Bool-cases, Option-cases, Result-cases, ok-injective, &&-true, length, get_elem?,
  take, drop, replicate, any, all, select, All, length-append, length-take, length-replicate,
  length-map, All-append, contains, ℤ, pos, negsuc, clamp, ◌+ℤ◌, ◌*ℤ◌, sub_ℕ, ltb_ℤ, Error,
  value_error, key_error, type_error, overflow_error, index_error, traverse, as_some,
  not_implemented, unknown_signal, service_conflict, route_conflict, provider_conflict, Result, ok,
  err, ◌>>=◌, ◌>>◌, raise_if, or_raise, >>=-eq-ok,
}
use ecu_simulator.Transport.Messages.{DiagnosticRequest}

abbrev pub names : String → List String → Bool
names name = any (λ n. str_eq n name)

pub record Route : Type 0 where
  pub ecu : String
  pub protocols : List String
  pub answer_unsupported : Bool

-- `Route.permits`
unfoldable pub permits : Route → String → Bool
permits route protocol_name = names protocol_name route.protocols

abbrev pub same_flag : Bool → Bool → Bool
same_flag true b = b
same_flag false b = not b

-- `==` of frozensets
abbrev pub same_set : List String → List String → Bool
same_set a b = all (λ n. names n b) a && all (λ n. names n a) b

-- `Route.__eq__`
unfoldable pub same_route : Route → Route → Bool
same_route a b =
    str_eq a.ecu b.ecu
    && (same_set a.protocols b.protocols && same_flag a.answer_unsupported b.answer_unsupported)

pub record AddressRouter : Type 0 where
  pub physical : List (ℕ × Route)
  pub functional : List (ℕ × List Route)

-- `AddressRouter()`
abbrev pub empty_router : AddressRouter
empty_router = record { physical = []; functional = [] }

-- `table.get(key)` and `table[key] = value`
abbrev pub find {ℓ} : {A : Type ℓ} → List (ℕ × A) → ℕ → Option A
find [] key = none
find ((k, a) ∷ rest) key = if k == key then some a else find rest key

abbrev pub put {ℓ} : {A : Type ℓ} → List (ℕ × A) → ℕ → A → List (ℕ × A)
put [] key a = (key, a) ∷ []
put ((k, b) ∷ rest) key a = if k == key then (k, a) ∷ rest else (k, b) ∷ put rest key a

abbrev pub is_some {ℓ} : {A : Type ℓ} → Option A → Bool
is_some none = false
is_some (some a) = true

-- `_make_route`; an address is a natural number here
unfoldable pub make_route : String → List String → Bool → Result Route
make_route ecu protocols answer_unsupported =
    raise_if (str_eq ecu "") value_error
    >> (raise_if (length protocols == 0) value_error
        >> (raise_if (any (λ name. str_eq name "") protocols) value_error
            >> ok (record {
              ecu = ecu;
              protocols = protocols;
              answer_unsupported = answer_unsupported;
            })))

-- the conflicts of `add_physical`: both branches raise the same exception
abbrev pub other_route : Option Route → Route → Bool
other_route none route = false
other_route (some current) route = not (same_route current route)

-- `AddressRouter.add_physical`, once the route is made
unfoldable pub put_physical : AddressRouter → ℕ → Route → Result AddressRouter
put_physical router address route =
    raise_if (is_some (find router.functional address)) route_conflict
    >> (raise_if (other_route (find router.physical address) route) route_conflict
        >> ok (record router { physical = put router.physical address route }))

-- `AddressRouter.add_physical`
unfoldable pub add_physical : AddressRouter → ℕ → String → List String → Bool → Result AddressRouter
add_physical router address ecu protocols answer_unsupported =
    make_route ecu protocols answer_unsupported >>= put_physical router address

-- `self._functional.get(address, ())`
abbrev pub routes_at : List (ℕ × List Route) → ℕ → List Route
routes_at table address = elim (find table address) [ none ↦ [] | some routes ↦ routes ]

-- the route that the ECU already has among these
abbrev pub route_of : List Route → String → Option Route
route_of [] ecu = none
route_of (r ∷ rest) ecu = if str_eq r.ecu ecu then some r else route_of rest ecu

-- `self._functional[address] = current + (route,)`
abbrev pub extended : AddressRouter → ℕ → Route → AddressRouter
extended router address route = record router {
  functional = put router.functional address (routes_at router.functional address ++ route ∷ []);
}

-- `AddressRouter.add_functional`, once the route is made
unfoldable pub put_functional : AddressRouter → ℕ → Route → Result AddressRouter
put_functional router address route =
    raise_if (is_some (find router.physical address)) route_conflict
    >> elim (route_of (routes_at router.functional address) route.ecu) [
      | some existing ↦ raise_if (not (same_route existing route)) route_conflict >> ok router
      | none ↦ ok (extended router address route)
    ]

-- `AddressRouter.add_functional`
unfoldable pub add_functional :
    AddressRouter → ℕ → String → List String → Bool → Result AddressRouter
add_functional router address ecu protocols answer_unsupported =
    make_route ecu protocols answer_unsupported >>= put_functional router address

-- `AddressRouter.routes`
abbrev pub functional_routes : List (ℕ × List Route) → List Route
functional_routes [] = []
functional_routes ((address, routes) ∷ rest) = routes ++ functional_routes rest

abbrev pub all_routes : AddressRouter → List Route
all_routes router =
    map (λ (entry : ℕ × Route). entry.1) router.physical ++ functional_routes router.functional

-- `AddressRouter.resolve`
unfoldable pub resolve : AddressRouter → DiagnosticRequest → List Route
resolve router request =
    if request.functional
    then routes_at router.functional request.target_address
    else elim (find router.physical request.target_address) [ none ↦ [] | some route ↦ route ∷ [] ]
