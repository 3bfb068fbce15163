-- ===== src/Examples/Data.antt =====
-- A vehicle, a store and an arithmetic of whole numbers in place of the machine's floats.
use ecu_simulator.Prelude.{
  zero, suc, ◌/◌, true, false, not, [], ◌∷◌, ℤ, pos, negsuc, ◌+ℤ◌, ◌*ℤ◌, ltb_ℤ, ok,
}
use ecu_simulator.Dtc.Store.{DtcState, DtcStore}
use ecu_simulator.Vehicle.Floats.{Floats}
use ecu_simulator.Vehicle.State.{VehicleState, make_vehicle, common_state, ice_state}

abbrev minus : ℤ → ℤ
minus (pos zero) = pos 0
minus (pos (suc n)) = negsuc n
minus (negsuc n) = pos (suc n)

-- towards zero, by a positive divisor
abbrev quotient : ℤ → ℤ → ℤ
quotient (pos n) (pos (suc k)) = pos (n / suc k)
quotient (negsuc n) (pos (suc k)) = minus (pos (suc n / suc k))
quotient z (pos zero) = pos 0
quotient z (negsuc k) = pos 0

instance abbrev pub whole_floats : Floats
whole_floats = record {
  Float = ℤ;
  whole = pos;
  of_int = λ z. ok z;
  trunc = λ z. ok z;
  add = λ x y. x +ℤ y;
  sub = λ x y. x +ℤ minus y;
  mul = λ x y. x *ℤ y;
  div = quotient;
  floor_div = quotient;
  lt = ltb_ℤ;
  le = λ x y. not (ltb_ℤ y x);
  sin = λ x. x;
  pi = pos 3;
}

abbrev pub car : VehicleState
car = make_vehicle (common_state "1G1JC5444R7252367") "ice" (ice_state ∷ [])

abbrev pub misfire : DtcState
misfire = record { code = "P0300"; pending = true; confirmed = true; indicator_requested = true }

abbrev pub lean : DtcState
lean = record { code = "P0171"; pending = true; confirmed = false; indicator_requested = false }

abbrev pub faults : DtcStore
faults = misfire ∷ lean ∷ []
