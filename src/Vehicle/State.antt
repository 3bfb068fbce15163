-- ===== src/Vehicle/State.antt =====
-- src/ecu_simulator/vehicle/state.py: the common signals and one powertrain. A component is its
-- namespace with its fields in their order, as the source reads a dataclass.
pub mod Laws
use ecu_simulator.Prelude.{
  ℕ, zero, suc, ◌+◌, ◌-◌, ◌*◌, ◌/◌, ◌%◌, ◌^◌, ◌≤◌, ◌<◌, bit_and, bit_or, String, ◌≡◌, refl, sym, ap,
  ◌∙◌, ◌≢◌, ◌↔◌, ◌⊎◌, inl, inr, Bool, true, false, not, ◌&&◌, ◌||◌, Option, none, some, List, [],
  ◌∷◌, ◌++◌, map, arith, str_eq, eq_iff, ltb, leb, ◌==◌, if◌then◌else◌, ltb→lt, lt→ltb, leb→le,
  le→leb, ==_iff, Bool-cases, Option-cases, &&-true, length, get_elem?, take, drop, replicate, any,
  all, select, All, length-append, length-take, length-replicate, length-map, All-append, contains,
  ℤ, pos, negsuc, clamp, sub_ℕ, ltb_ℤ, Error, value_error, key_error, type_error, overflow_error,
  not_implemented, unknown_signal, service_conflict, route_conflict, provider_conflict, Result, ok,
  err, ◌>>=◌, ◌>>◌, raise_if, or_raise, >>=-eq-ok,
}
use ecu_simulator.Vehicle.Floats.{Floats, Value, int, float, bool, text}
use ecu_simulator.Vehicle.Signals.{split}

module _ ⦃F : Floats⦄ where
  open F use {whole, div}

  abbrev pub Fields : Type 0
  Fields = List (String × Value)

  pub record Component : Type 0 where
    pub namespace : String
    pub fields : Fields

  pub record VehicleState : Type 0 where
    pub kind : String
    pub components : List Component

  abbrev pub decimal : ℕ → Value
  decimal tenths = float (div (whole tenths) (whole 10))

  -- `CommonState(vin=vin)` with its defaults; 12.6 is written as 126 / 10
  unfoldable pub common_state : String → Component
  common_state vin = record {
    namespace = "vehicle";
    fields =
        ("vin", text vin)
        ∷ ("speed", int (pos 0))
        ∷ ("ambient_temp", float (whole 20))
        ∷ ("odometer", int (pos 0))
        ∷ ("battery_voltage", decimal 126)
        ∷ ("obd_standard", int (pos 1))
        ∷ [];
  }

  unfoldable pub ice_state : Component
  ice_state = record {
    namespace = "engine";
    fields =
        ("rpm", int (pos 0))
        ∷ ("coolant_temp", float (whole 20))
        ∷ ("intake_temp", float (whole 20))
        ∷ ("engine_load", float (whole 0))
        ∷ ("throttle", float (whole 0))
        ∷ ("maf", float (whole 0))
        ∷ ("map", int (pos 100))
        ∷ ("timing_advance", float (whole 0))
        ∷ ("short_fuel_trim", float (whole 0))
        ∷ ("long_fuel_trim", float (whole 0))
        ∷ ("runtime", int (pos 0))
        ∷ ("fuel_level", int (pos 50))
        ∷ ("fuel_type", int (pos 1))
        ∷ [];
  }

  unfoldable pub traction_battery : Component
  traction_battery = record {
    namespace = "battery";
    fields =
        ("soc", float (whole 50))
        ∷ ("voltage", float (whole 400))
        ∷ ("current", float (whole 0))
        ∷ ("temp", float (whole 20))
        ∷ [];
  }

  unfoldable pub e_motor : Component
  e_motor = record {
    namespace = "motor";
    fields = ("rpm", int (pos 0)) ∷ ("torque", float (whole 0)) ∷ ("temp", float (whole 20)) ∷ [];
  }

  unfoldable pub charging : Component
  charging = record {
    namespace = "charging";
    fields = ("active", bool false) ∷ ("power", float (whole 0)) ∷ [];
  }

  -- `POWERTRAINS[kind]().components()`, a KeyError for another kind
  unfoldable pub powertrain_components : String → Result (List Component)
  unfolding ice_state traction_battery e_motor charging
  powertrain_components kind =
      if str_eq kind "ice"
      then ok (ice_state ∷ [])
      else if str_eq kind "hev"
      then ok (ice_state ∷ traction_battery ∷ e_motor ∷ charging ∷ [])
      else if str_eq kind "bev"
      then ok (traction_battery ∷ e_motor ∷ charging ∷ [])
      else err key_error

  -- `VehicleState.__init__`
  unfoldable pub make_vehicle : Component → String → List Component → VehicleState
  make_vehicle common kind components = record { kind = kind; components = common ∷ components }

  unfoldable pub field_of : Fields → String → Option Value
  field_of [] name = none
  field_of ((n, v) ∷ rest) name = if str_eq n name then some v else field_of rest name

  unfoldable pub set_field : Fields → String → Value → Fields
  set_field [] name value = []
  set_field ((n, v) ∷ rest) name value =
      if str_eq n name then (n, value) ∷ rest else (n, v) ∷ set_field rest name value

  -- `self._components.get(namespace)`, then the field of that name, with its value
  unfoldable pub lookup : List Component → String → String → Option Value
  unfolding field_of
  lookup [] namespace name = none
  lookup (c ∷ rest) namespace name =
      if str_eq c.namespace namespace then field_of c.fields name else lookup rest namespace name

  unfoldable pub store : List Component → String → String → Value → List Component
  unfolding set_field
  store [] namespace name value = []
  store (c ∷ rest) namespace name value =
      if str_eq c.namespace namespace
      then record c { fields = set_field c.fields name value } ∷ rest
      else c ∷ store rest namespace name value

  -- `VehicleState._locate`, with the value that `getattr` reads there
  unfoldable pub locate : VehicleState → String → Result (String × String × Value)
  unfolding split lookup
  locate v path = do
    parts ← split path
    value ← or_raise (lookup v.components parts.0 parts.1) unknown_signal
    ok (parts.0, parts.1, value)

  -- `VehicleState.has`
  unfoldable pub has : VehicleState → String → Bool
  unfolding split lookup
  has v path = elim (split path) [
    | err e ↦ false
    | ok (namespace, name) ↦ elim (lookup v.components namespace name) [
      | none ↦ false
      | some value ↦ true
    ]
  ]

  -- `VehicleState.get`
  unfoldable pub get : VehicleState → String → Result Value
  unfolding locate
  get v path = do found ← locate v path; ok found.2

  -- `VehicleState.set`
  unfoldable pub set : VehicleState → String → Value → Result VehicleState
  unfolding locate store
  set v path value = do
    found ← locate v path
    ok (record v { components = store v.components found.0 found.1 value })
