-- ===== src/Examples/Dtc.antt =====
-- Trouble codes and stores.
use ecu_simulator.Prelude.{
  ℕ, ◌<◌, ◌≡◌, refl, true, false, none, some, List, [], ◌∷◌, str_eq, if◌then◌else◌, ok,
}
use ecu_simulator.Dtc.Codes.{
  group_bits, type_bits, is_hex_digit, valid_characters, is_valid, code_number, is_schema_hex,
  encodable_characters, is_encodable_dtc,
}
use ecu_simulator.Dtc.Codes.Numbers.{number_of-injective}
use ecu_simulator.Dtc.Codes.Valid.{code_number-valid}
use ecu_simulator.Dtc.Store.{
  DtcState, codes, carries, state, make_store, pending, confirmed, indicator_on, Flags, update,
  clear,
}
use ecu_simulator.Dtc.Store.Distinct.{IsDistinct}
use ecu_simulator.Dtc.Store.Laws.{IsChanged, update_lem, clear_lem}
use ecu_simulator.Examples.Data.{misfire, faults}

abbrev p0300 : List ℕ
p0300 = b'P' ∷ b'0' ∷ b'3' ∷ b'0' ∷ b'0' ∷ []

p0300_encodable : encodable_characters p0300 ≡ true
unfolding encodable_characters is_schema_hex
p0300_encodable = refl

number_of-injective_example : p0300 ≡ p0300
number_of-injective_example = number_of-injective p0300 p0300 p0300_encodable p0300_encodable refl

p0171_valid : is_valid "P0171" ≡ true
unfolding is_valid valid_characters is_hex_digit group_bits type_bits
p0171_valid = refl

code_number-valid_example : (n : ℕ) × (code_number "P0171" ≡ ok n) × (n < 65536)
code_number-valid_example = code_number-valid "P0171" p0171_valid

p0171_encodable : is_encodable_dtc "P0171" ≡ true
unfolding is_encodable_dtc encodable_characters is_schema_hex
p0171_encodable = refl

faults_made : make_store faults ≡ ok faults
unfolding make_store
faults_made = refl

faults-IsDistinct : IsDistinct faults
unfolding carries
faults-IsDistinct = (refl, (refl, tt))

abbrev confirm : Flags
confirm = record { pending = none; confirmed = some true; indicator_requested = none }

abbrev lean_confirmed : DtcState
lean_confirmed = record {
  code = "P0171";
  pending = true;
  confirmed = true;
  indicator_requested = false;
}

confirmed_lean : update faults "P0171" confirm ≡ ok (lean_confirmed, misfire ∷ lean_confirmed ∷ [])
unfolding update
confirmed_lean = refl

update_lem_example :
    (s : DtcState) × (state faults "P0171" ≡ some s)
    × IsChanged confirm s lean_confirmed
    × (state (misfire ∷ lean_confirmed ∷ []) "P0300"
        ≡ (if str_eq "P0171" "P0300" then some lean_confirmed else state faults "P0300"))
    × (codes (misfire ∷ lean_confirmed ∷ []) ≡ codes faults)
update_lem_example =
    update_lem faults "P0171" "P0300" confirm lean_confirmed (misfire ∷ lean_confirmed ∷ [])
      confirmed_lean

clear_lem_example :
    (codes (clear faults) ≡ codes faults)
    × (pending (clear faults) ≡ [])
    × (confirmed (clear faults) ≡ [])
    × (indicator_on (clear faults) ≡ false)
    × (clear (clear faults) ≡ clear faults)
clear_lem_example = clear_lem faults
