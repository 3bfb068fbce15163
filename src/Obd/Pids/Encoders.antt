-- ===== src/Obd/Pids/Encoders.antt =====
-- The encoding helpers of pids.py: a physical value in, wire bytes out.
use ecu_simulator.Prelude.{[], ◌∷◌, clamp, Result, ok, ◌>>=◌}
use ecu_simulator.Bytes.{Bytes, to_bytes}
use ecu_simulator.Vehicle.Floats.{Floats, Value, float, to_int, times, plus, times_int}

module _ ⦃F : Floats⦄ where
  open F use {whole, add, mul, div}

  -- `_byte`
  unfoldable pub byte : Value → Result Bytes
  unfolding to_int
  byte value = do z ← to_int value; ok (clamp 255 z ∷ [])

  -- `_word`
  unfoldable pub word : Value → Result Bytes
  unfolding to_int to_bytes
  word value = do z ← to_int value; to_bytes 2 (clamp 0xFFFF z)

  -- `_percent_to_byte`
  unfoldable pub percent_to_byte : Value → Result Bytes
  unfolding byte times
  percent_to_byte percent = do x ← times percent 255; byte (float (div x (whole 100)))

  -- `_temp_to_byte`
  unfoldable pub temp_to_byte : Value → Result Bytes
  unfolding byte plus
  temp_to_byte celsius = do x ← plus celsius 40; byte (float x)

  -- `_trim_to_byte`
  unfoldable pub trim_to_byte : Value → Result Bytes
  unfolding byte times
  trim_to_byte percent = do
    x ← times percent 128
    byte (float (add (div x (whole 100)) (whole 128)))

  -- the encoders that the table writes out: engine speed, timing advance, air flow, voltage
  unfoldable pub rpm_to_word : Value → Result Bytes
  unfolding word times_int
  rpm_to_word rpm = do x ← times_int rpm 4; word x

  unfoldable pub timing_to_byte : Value → Result Bytes
  unfolding byte plus
  timing_to_byte advance = do x ← plus advance 64; byte (float (mul x (whole 2)))

  unfoldable pub maf_to_word : Value → Result Bytes
  unfolding word times
  maf_to_word maf = do x ← times maf 100; word (float x)

  unfoldable pub voltage_to_word : Value → Result Bytes
  unfolding word times
  voltage_to_word volts = do x ← times volts 1000; word (float x)
