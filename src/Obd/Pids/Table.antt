-- ===== src/Obd/Pids/Table.antt =====
-- The parameter table of pids.py and what is asked of it.
use ecu_simulator.Prelude.{
  length, ℕ, String, Bool, not, Option, none, some, List, [], ◌∷◌, map, ◌==◌, if◌then◌else◌, all,
  select, value_error, Result, ok, ◌>>=◌, ◌>>◌, raise_if,
}
use ecu_simulator.Bytes.{Bytes}
use ecu_simulator.Vehicle.Floats.{Floats, Value}
use ecu_simulator.Vehicle.State.{VehicleState, has, get}
use ecu_simulator.Obd.Pids.Encoders.{
  byte, word, percent_to_byte, temp_to_byte, trim_to_byte, rpm_to_word, timing_to_byte, maf_to_word,
  voltage_to_word,
}

pub data Evidence : Type 0 where
  capture public : Evidence

module _ ⦃F : Floats⦄ where
  pub record PidDefinition : Type 0 where
    pub pid : ℕ
    pub name : String
    pub unit : String
    pub signals : List String
    pub encode : VehicleState → Result Bytes
    pub length : ℕ
    pub evidence : Evidence

  -- `PidDefinition.supported_by`
  unfoldable pub supported_by : PidDefinition → VehicleState → Bool
  supported_by d vehicle = all (has vehicle) d.signals

  -- `PidDefinition.read`
  unfoldable pub read : PidDefinition → VehicleState → Result Bytes
  read d vehicle = do
    bytes ← d.encode vehicle
    raise_if (not (length bytes == d.length)) value_error
    ok bytes

  -- One entry: each encoder of the table reads the one signal that the entry names.
  unfoldable pub definition :
      ℕ → String → String → String → (Value → Result Bytes) → ℕ → Evidence → PidDefinition
  definition pid name unit signal encoder size evidence = record {
    pid = pid;
    name = name;
    unit = unit;
    signals = signal ∷ [];
    encode = λ vehicle. get vehicle signal >>= encoder;
    length = size;
    evidence = evidence;
  }

  unfoldable pub mode01_definitions : List PidDefinition
  unfolding definition
  mode01_definitions =
      definition 0x04 "Calculated engine load" "%" "engine.engine_load" percent_to_byte 1 capture
      ∷ definition 0x05 "Engine coolant temperature" "degC" "engine.coolant_temp" temp_to_byte 1
          capture
      ∷ definition 0x06 "Short term fuel trim, bank 1" "%" "engine.short_fuel_trim" trim_to_byte 1
          public
      ∷ definition 0x07 "Long term fuel trim, bank 1" "%" "engine.long_fuel_trim" trim_to_byte 1
          public
      ∷ definition 0x0B "Intake manifold absolute pressure" "kPa" "engine.map" byte 1 capture
      ∷ definition 0x0C "Engine speed" "rpm" "engine.rpm" rpm_to_word 2 capture
      ∷ definition 0x0D "Vehicle speed" "km/h" "vehicle.speed" byte 1 public
      ∷ definition 0x0E "Timing advance" "deg" "engine.timing_advance" timing_to_byte 1 public
      ∷ definition 0x0F "Intake air temperature" "degC" "engine.intake_temp" temp_to_byte 1 public
      ∷ definition 0x10 "Mass air flow rate" "g/s" "engine.maf" maf_to_word 2 public
      ∷ definition 0x11 "Throttle position" "%" "engine.throttle" percent_to_byte 1 public
      ∷ definition 0x1C "OBD standards this vehicle conforms to" "coded" "vehicle.obd_standard" byte
          1 public
      ∷ definition 0x1F "Run time since engine start" "s" "engine.runtime" word 2 public
      ∷ definition 0x2F "Fuel tank level input" "%" "engine.fuel_level" percent_to_byte 1 public
      ∷ definition 0x42 "Control module voltage" "V" "vehicle.battery_voltage" voltage_to_word 2
          public
      ∷ definition 0x46 "Ambient air temperature" "degC" "vehicle.ambient_temp" temp_to_byte 1
          public
      ∷ definition 0x51 "Fuel type" "coded" "engine.fuel_type" byte 1 public
      ∷ []

  -- `MODE01_PIDS.get(pid)`; no two definitions of the table have one identifier
  unfoldable pub find_pid : List PidDefinition → ℕ → Option PidDefinition
  find_pid [] pid = none
  find_pid (d ∷ rest) pid = if d.pid == pid then some d else find_pid rest pid

  -- `supported_pids(vehicle, definitions)`
  unfoldable pub supported_of : List PidDefinition → VehicleState → List ℕ
  unfolding supported_by
  supported_of table vehicle =
      map (λ (d : PidDefinition). d.pid) (select (λ d. supported_by d vehicle) table)

  unfoldable pub supported_pids : VehicleState → List ℕ
  supported_pids vehicle = supported_of mode01_definitions vehicle
