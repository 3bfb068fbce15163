-- ===== src/Uds/Dtc/Laws.antt =====
-- The status byte and the records of a store.
use ecu_simulator.Prelude.{
  ℕ, ◌+◌, ◌*◌, ◌≤◌, ◌<◌, bit_and, ◌≡◌, refl, Bool, true, false, not, ◌&&◌, ◌||◌, arith, ◌==◌,
  le→leb, ok,
}
use ecu_simulator.Prelude.Bits.{bit, all_below, all_below_sound, bit_or-field}
use ecu_simulator.Dtc.Codes.{is_valid, code_number}
use ecu_simulator.Dtc.Codes.Valid.{code_number-valid}
use ecu_simulator.Dtc.Store.{DtcState}
use ecu_simulator.Uds.Providers.{DtcRecord, dtc_record}
use ecu_simulator.Uds.Dtc.{availability_mask, raised, status_byte, record_of}

-- The three flags that a record's status byte can carry, against a tester's mask.
abbrev pub selects : ℕ → Bool → Bool → Bool → Bool
selects mask pending confirmed indicator =
    pending && (bit 2 mask == 1)
    || (confirmed && (bit 3 mask == 1) || indicator && (bit 7 mask == 1))

abbrev flags_byte : Bool → Bool → Bool → ℕ
flags_byte p c i = raised i 0x80 (raised c 0x08 (raised p 0x04 0))

abbrev pub same : Bool → Bool → Bool
same true b = b
same false b = not b

agrees : Bool → Bool → Bool → ℕ → Bool
agrees p c i mask = same (not (bit_and (flags_byte p c i) mask == 0)) (selects mask p c i)

agree : (p c i : Bool) → all_below 256 (agrees p c i) ≡ true
unfolding all_below agrees
agree true true true = refl
agree true true false = refl
agree true false true = refl
agree true false false = refl
agree false true true = refl
agree false true false = refl
agree false false true = refl
agree false false false = refl

pub same-eq : (a b : Bool) → same a b ≡ true → a ≡ b
same-eq true true h = refl
same-eq true false h = cc
same-eq false true h = cc
same-eq false false h = refl

of_agrees :
    (p c i : Bool) (mask : ℕ)
    → agrees p c i mask ≡ true
    → not (bit_and (flags_byte p c i) mask == 0) ≡ selects mask p c i
unfolding agrees
of_agrees p c i mask h = same-eq (not (bit_and (flags_byte p c i) mask == 0)) (selects mask p c i) h

-- A mask selects a state's status byte by the flags that it shares with it, and by no other bit.
pub status_byte-selects :
    (s : DtcState) (mask : ℕ)
    → mask < 256
    → not (bit_and (status_byte s) mask == 0)
      ≡ selects mask s.pending s.confirmed s.indicator_requested
unfolding status_byte
status_byte-selects s mask h = of_agrees s.pending s.confirmed s.indicator_requested mask (
    all_below_sound 256 (agrees s.pending s.confirmed s.indicator_requested) mask
      (agree s.pending s.confirmed s.indicator_requested) h)

byte_available :
    (p c i : Bool)
    → (flags_byte p c i ≤ 0xFF) × (bit_and (flags_byte p c i) availability_mask ≡ flags_byte p c i)
byte_available true true true = (omega arith, refl)
byte_available true true false = (omega arith, refl)
byte_available true false true = (omega arith, refl)
byte_available true false false = (omega arith, refl)
byte_available false true true = (omega arith, refl)
byte_available false true false = (omega arith, refl)
byte_available false false true = (omega arith, refl)
byte_available false false false = (omega arith, refl)

-- A status byte is a byte, within the advertised availability mask.
pub status_byte-available :
    (s : DtcState)
    → (status_byte s ≤ 0xFF) × (bit_and (status_byte s) availability_mask ≡ status_byte s)
unfolding status_byte
status_byte-available s = byte_available s.pending s.confirmed s.indicator_requested

pub dtc_record-ok :
    (dtc status : ℕ)
    → dtc ≤ 0xFFFFFF
    → status ≤ 0xFF
    → dtc_record dtc status ≡ ok (record { dtc = dtc; status = status })
unfolding dtc_record
dtc_record-ok dtc status p q = rw (le→leb dtc 0xFFFFFF p, le→leb status 0xFF q)

abbrev pub record_for : ℕ → DtcState → DtcRecord
record_for number s = record { dtc = number * 256 + 1; status = status_byte s }

record_of-number :
    (s : DtcState) (n : ℕ)
    → code_number s.code ≡ ok n
    → n < 65536
    → record_of s ≡ ok (record_for n s)
unfolding record_of
record_of-number s n number fits =
    rw (number, bit_or-field 8 n 1 (omega arith))
      (dtc_record-ok (n * 256 + 1) (status_byte s) (omega (arith, fits))
        (status_byte-available s).0)

-- The record of a state with a valid code: its number, the failure type byte and the status.
pub record_of-valid :
    (s : DtcState)
    → is_valid s.code ≡ true
    → (n : ℕ) × (code_number s.code ≡ ok n) × (n < 65536) × (record_of s ≡ ok (record_for n s))
record_of-valid s good =
    let (n, number, fits) = code_number-valid s.code good in
    (n, number, fits, record_of-number s n number fits)
