-- ===== src/Obd/Pids/Laws.antt =====
-- What the encoders produce, and which parameters a vehicle answers.
use mathlib.Core.Path.{subst}
use ecu_simulator.Prelude.{
  ℕ, ◌≤◌, String, ◌≡◌, refl, inl, inr, not, some, List, [], ◌∷◌, arith, ◌==◌, lt→ltb, Bool-cases,
  length, All, ℤ, pos, negsuc, clamp, value_error, Result, ok, err, ◌>>=◌, ◌>>◌, raise_if,
}
use ecu_simulator.Bytes.{Bytes, AreBytes, to_bytes}
use ecu_simulator.Bytes.Laws.{length-big_endian, big_endian-AreBytes}
use ecu_simulator.Vehicle.Floats.{Floats, Value, float, to_int, times, plus, times_int}
use ecu_simulator.Vehicle.State.{VehicleState, get}
use ecu_simulator.Obd.Pids.Encoders.{
  byte, word, percent_to_byte, temp_to_byte, trim_to_byte, rpm_to_word, timing_to_byte, maf_to_word,
  voltage_to_word,
}
use ecu_simulator.Obd.Pids.Table.{
  Evidence, PidDefinition, read, definition, mode01_definitions, find_pid,
}

-- What is produced, if it is produced, is `n` bytes.
abbrev pub Sized : ℕ → Result Bytes → Type 0
Sized n (ok bs) = (length bs ≡ n) × AreBytes bs
Sized n (err e) = Unit {0}

Sized-bind :
    {A : Type 0} (n : ℕ) (m : Result A) (f : A → Result Bytes)
    → ((a : A) → Sized n (f a))
    → Sized n (m >>= f)
Sized-bind n (ok a) f h = h a
Sized-bind n (err e) f h = tt

clamp-le : (hi : ℕ) (z : ℤ) → clamp hi z ≤ hi
clamp-le hi (pos n) = ground arith
clamp-le hi (negsuc n) = omega arith

module _ ⦃F : Floats⦄ where
  open F use {whole, add, mul, div}

  byte-Sized : (v : Value) → Sized 1 (byte v)
  unfolding byte
  byte-Sized v =
      Sized-bind 1 (to_int v) (λ z. ok (clamp 255 z ∷ []))
        (λ z. (refl, (omega (arith, clamp-le 255 z), tt)))

  word_fits : (z : ℤ) → Sized 2 (to_bytes 2 (clamp 0xFFFF z))
  word_fits z =
      unfold to_bytes in
      rw (lt→ltb (clamp 0xFFFF z) 65536 (omega (arith, clamp-le 0xFFFF z)))
        (length-big_endian 2 (clamp 0xFFFF z), big_endian-AreBytes 2 (clamp 0xFFFF z))

  word-Sized : (v : Value) → Sized 2 (word v)
  unfolding word
  word-Sized v = Sized-bind 2 (to_int v) (λ z. to_bytes 2 (clamp 0xFFFF z)) word_fits

  percent_to_byte-Sized : (v : Value) → Sized 1 (percent_to_byte v)
  unfolding percent_to_byte
  percent_to_byte-Sized v =
      Sized-bind 1 (times v 255) _ (λ x. byte-Sized (float (div x (whole 100))))

  temp_to_byte-Sized : (v : Value) → Sized 1 (temp_to_byte v)
  unfolding temp_to_byte
  temp_to_byte-Sized v = Sized-bind 1 (plus v 40) _ (λ x. byte-Sized (float x))

  trim_to_byte-Sized : (v : Value) → Sized 1 (trim_to_byte v)
  unfolding trim_to_byte
  trim_to_byte-Sized v =
      Sized-bind 1 (times v 128) _ (λ x. byte-Sized (float (add (div x (whole 100)) (whole 128))))

  rpm_to_word-Sized : (v : Value) → Sized 2 (rpm_to_word v)
  unfolding rpm_to_word
  rpm_to_word-Sized v = Sized-bind 2 (times_int v 4) _ (λ x. word-Sized x)

  timing_to_byte-Sized : (v : Value) → Sized 1 (timing_to_byte v)
  unfolding timing_to_byte
  timing_to_byte-Sized v = Sized-bind 1 (plus v 64) _ (λ x. byte-Sized (float (mul x (whole 2))))

  maf_to_word-Sized : (v : Value) → Sized 2 (maf_to_word v)
  unfolding maf_to_word
  maf_to_word-Sized v = Sized-bind 2 (times v 100) _ (λ x. word-Sized (float x))

  voltage_to_word-Sized : (v : Value) → Sized 2 (voltage_to_word v)
  unfolding voltage_to_word
  voltage_to_word-Sized v = Sized-bind 2 (times v 1000) _ (λ x. word-Sized (float x))

  -- The length that the table declares is the one that the encoder produces, so the check of `read`
  -- never raises: for every parameter of the table and every vehicle.
  checked :
      (size : ℕ) (r : Result Bytes)
      → Sized size r
      → (r >>= λ bs. raise_if (not (length bs == size)) value_error >> ok bs) ≡ r
  checked size (ok bs) h = ground arith
  checked size (err e) h = refl

  abbrev pub Encodes : VehicleState → PidDefinition → Type 0
  Encodes vehicle d = (read d vehicle ≡ d.encode vehicle) × Sized d.length (d.encode vehicle)

  entry :
      (vehicle : VehicleState) (pid : ℕ) (name unit signal : String)
      (encoder : Value → Result Bytes) (size : ℕ) (evidence : Evidence)
      → ((v : Value) → Sized size (encoder v))
      → Encodes vehicle (definition pid name unit signal encoder size evidence)
  unfolding read definition
  entry vehicle pid name unit signal encoder size evidence h =
      (checked size (get vehicle signal >>= encoder) sized, sized)
    where
      sized : Sized size (get vehicle signal >>= encoder)
      sized = Sized-bind size (get vehicle signal) encoder h

  -- For every parameter of the table, `read` is its encoder: the check of the length never raises.
  -- What is produced has the length that the table declares, and consists of bytes.
  pub read-Encodes : (vehicle : VehicleState) → All (Encodes vehicle) mode01_definitions
  unfolding mode01_definitions
  read-Encodes vehicle = (
    entry vehicle _ _ _ _ _ _ _ percent_to_byte-Sized,
    (
      entry vehicle _ _ _ _ _ _ _ temp_to_byte-Sized,
      (
        entry vehicle _ _ _ _ _ _ _ trim_to_byte-Sized,
        (
          entry vehicle _ _ _ _ _ _ _ trim_to_byte-Sized,
          (
            entry vehicle _ _ _ _ _ _ _ byte-Sized,
            (
              entry vehicle _ _ _ _ _ _ _ rpm_to_word-Sized,
              (
                entry vehicle _ _ _ _ _ _ _ byte-Sized,
                (
                  entry vehicle _ _ _ _ _ _ _ timing_to_byte-Sized,
                  (
                    entry vehicle _ _ _ _ _ _ _ temp_to_byte-Sized,
                    (
                      entry vehicle _ _ _ _ _ _ _ maf_to_word-Sized,
                      (
                        entry vehicle _ _ _ _ _ _ _ percent_to_byte-Sized,
                        (
                          entry vehicle _ _ _ _ _ _ _ byte-Sized,
                          (
                            entry vehicle _ _ _ _ _ _ _ word-Sized,
                            (
                              entry vehicle _ _ _ _ _ _ _ percent_to_byte-Sized,
                              (
                                entry vehicle _ _ _ _ _ _ _ voltage_to_word-Sized,
                                (
                                  entry vehicle _ _ _ _ _ _ _ temp_to_byte-Sized,
                                  (entry vehicle _ _ _ _ _ _ _ byte-Sized, tt),
                                ),
                              ),
                            ),
                          ),
                        ),
                      ),
                    ),
                  ),
                ),
              ),
            ),
          ),
        ),
      ),
    ),
  )

  -- The same of the definition that a lookup finds.
  find_pid-All :
      (P : PidDefinition → Type 0) (table : List PidDefinition) (pid : ℕ) (d : PidDefinition)
      → All P table
      → find_pid table pid ≡ some d
      → P d
  unfolding find_pid
  find_pid-All P [] pid d h e = cc
  find_pid-All P (x ∷ rest) pid d h e = elim (Bool-cases (x.pid == pid)) [
    | inl hit ↦
        let same : some x ≡ some d = rw hit at e in let it : x ≡ d = cc same in subst P it h.0
    | inr miss ↦ find_pid-All P rest pid d h.1 (rw miss at e)
  ]

  pub find_pid-Encodes :
      (vehicle : VehicleState) (pid : ℕ) (d : PidDefinition)
      → find_pid mode01_definitions pid ≡ some d
      → Encodes vehicle d
  find_pid-Encodes vehicle pid d e =
      find_pid-All (Encodes vehicle) mode01_definitions pid d (read-Encodes vehicle) e
