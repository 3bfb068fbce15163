-- ===== src/Uds/Protocol/Records.antt =====
-- ReadDTCInformation by status mask: the answer, read back record by record.
use ecu_simulator.Prelude.{
  ℕ, ◌+◌, ◌*◌, ◌/◌, ◌%◌, ◌^◌, ◌<◌, String, ◌≡◌, refl, sym, ap, ◌∙◌, inl, inr, ◌&&◌, some, List, [],
  ◌∷◌, ◌++◌, arith, lt→ltb, le→leb, Bool-cases, ok-injective, select, All, traverse, ok,
}
use mathlib.Core.List.{append-nil}
use ecu_simulator.Bytes.{Bytes, big_endian, to_bytes}
use ecu_simulator.Dtc.Codes.{is_valid}
use ecu_simulator.Dtc.Store.{DtcStore, DtcState}
use ecu_simulator.Uds.Providers.{DtcRecord, DtcRegistry, record_bytes, matches, all_records, read}
use ecu_simulator.Uds.Dtc.{record_of, dtc_records, dtc_store_provider}
use ecu_simulator.Uds.Dtc.Laws.{selects, status_byte-selects, record_for, record_of-valid}
use ecu_simulator.Uds.Protocol.{
  joined, report, read_by, read_dtc_information, serve, withheld, handle,
}
use ecu_simulator.Base.{positive_response_sid}

-- Four bytes at a time, as a tester reads them.
unfoldable pub read_records : Bytes → List DtcRecord
read_records (a ∷ b ∷ c ∷ status ∷ rest) =
    record { dtc = (a * 256 + b) * 256 + c; status = status } ∷ read_records rest
read_records _ = []

-- The states whose code can be sent, and that a mask selects.
abbrev pub reported : ℕ → DtcStore → List DtcState
reported mask =
    select (λ (s : DtcState).
      is_valid s.code && selects mask s.pending s.confirmed s.indicator_requested)

AreTriples : List DtcRecord → Type 0
AreTriples = All (λ (r : DtcRecord). r.dtc < 16777216)

record_bytes-ok :
    (r : DtcRecord) → r.dtc < 16777216 → record_bytes r ≡ ok (big_endian 3 r.dtc ++ r.status ∷ [])
unfolding record_bytes to_bytes
record_bytes-ok r h = rw (lt→ltb r.dtc 16777216 h)

abbrev record_with : ℕ → ℕ → DtcRecord
record_with dtc status = record { dtc = dtc; status = status }

read_records-cons :
    (n status : ℕ) (rest : Bytes)
    → n < 16777216
    → read_records ((big_endian 3 n ++ status ∷ []) ++ rest)
      ≡ record_with n status ∷ read_records rest
unfolding read_records big_endian
read_records-cons n status rest h =
    let whole : (n / 256 ^ 2 % 256 * 256 + n / 256 ^ 1 % 256) * 256 + n / 256 ^ 0 % 256 ≡ n =
      omega (arith, h) in
    ap (λ (m : ℕ). record_with m status ∷ read_records rest) whole

joined-read :
    (rs : List DtcRecord)
    → AreTriples rs
    → (bs : Bytes) × (joined rs ≡ ok bs) × (read_records bs ≡ rs)
unfolding joined AreTriples
joined-read [] h = ([], refl, unfold read_records in refl)
joined-read (r ∷ rest) h =
    let (bs, made, seen) = joined-read rest h.1 in
    (
      (big_endian 3 r.dtc ++ r.status ∷ []) ++ bs,
      rw (record_bytes-ok r h.0, made),
      read_records-cons r.dtc r.status bs h.0 ∙ ap (λ (t : List DtcRecord). r ∷ t) seen,
    )

matches-record_for :
    (mask n : ℕ) (s : DtcState)
    → mask < 256
    → matches mask (record_for n s) ≡ selects mask s.pending s.confirmed s.indicator_requested
unfolding matches
matches-record_for mask n s h = status_byte-selects s mask h

-- The records of a store, and those of them that a mask keeps.
masked_records :
    (mask : ℕ) (store : DtcStore)
    → mask < 256
    → (all : List DtcRecord) × (kept : List DtcRecord) × (dtc_records store ≡ ok all)
      × (select (matches mask) all ≡ kept)
      × (traverse record_of (reported mask store) ≡ ok kept)
      × AreTriples kept
unfolding dtc_records AreTriples
masked_records mask [] h = ([], [], refl, refl, refl, tt)
masked_records mask (s ∷ rest) h =
    let (found, kept, e, f, g, small) = masked_records mask rest h in
    elim (Bool-cases (is_valid s.code)) [
      | inr bad ↦ (found, kept, rw (bad, e), f, rw (bad, g), small)
      | inl good ↦
          let (n, _, fits, made) = record_of-valid s good in
          elim (Bool-cases (selects mask s.pending s.confirmed s.indicator_requested)) [
            | inl chosen ↦ (
              record_for n s ∷ found,
              record_for n s ∷ kept,
              rw (good, made, e),
              rw (matches-record_for mask n s h, chosen, f),
              rw (good, chosen, made, g),
              (omega (arith, fits), small),
            )
            | inr passed ↦ (
              record_for n s ∷ found,
              kept,
              rw (good, made, e),
              rw (matches-record_for mask n s h, passed, f),
              rw (good, passed, g),
              small,
            )
          ]
    ]

read_provider :
    (name : String) (store : DtcStore) (mask : ℕ) (found kept : List DtcRecord)
    → mask < 256
    → dtc_records store ≡ ok found
    → select (matches mask) found ≡ kept
    → read (dtc_store_provider name ∷ []) store mask ≡ ok kept
unfolding read all_records
read_provider name store mask found kept h e f =
    rw (le→leb mask 0xFF (omega (arith, h)), e, append-nil found, f)

-- The report of a store by its own provider.
pub report-ok :
    (name : String) (store : DtcStore) (mask : ℕ)
    → mask < 256
    → (kept : List DtcRecord) × (bs : Bytes) × (traverse record_of (reported mask store) ≡ ok kept)
      × (report (dtc_store_provider name ∷ []) store mask ≡ ok (0x59 ∷ 0x02 ∷ 0x8C ∷ bs))
      × (read_records bs ≡ kept)
unfolding report positive_response_sid
report-ok name store mask h =
    let (found, kept, e, f, g, small) = masked_records mask store h in
    let (bs, made, seen) = joined-read kept small in
    (kept, bs, g, rw (read_provider name store mask found kept h e f, made), seen)

empty_records :
    (mask : ℕ) (store : DtcStore) (kept : List DtcRecord)
    → reported mask store ≡ []
    → traverse record_of (reported mask store) ≡ ok kept
    → kept ≡ []
empty_records mask store kept unreported g =
    ok-injective (sym g ∙ ap (traverse record_of) unreported)

report-none :
    (name : String) (store : DtcStore) (mask : ℕ)
    → mask < 256
    → reported mask store ≡ []
    → report (dtc_store_provider name ∷ []) store mask ≡ ok (0x59 ∷ 0x02 ∷ 0x8C ∷ [])
unfolding report positive_response_sid joined
report-none name store mask h unreported =
    let (found, kept, e, f, g, small) = masked_records mask store h in
    let empty : kept ≡ [] = empty_records mask store kept unreported g in
    rw (read_provider name store mask found kept h e f, empty)

answered :
    (registry : DtcRegistry DtcStore) (store : DtcStore) (mask : ℕ) (bs : Bytes)
    → report registry store mask ≡ ok (0x59 ∷ bs)
    → handle registry store (0x19 ∷ 0x02 ∷ mask ∷ []) ≡ (ok (some (0x59 ∷ bs)), store)
unfolding handle serve read_dtc_information read_by withheld
answered registry store mask bs e = rw e

pub header-alone :
    (name : String) (store : DtcStore) (mask : ℕ)
    → mask < 256
    → reported mask store ≡ []
    → handle (dtc_store_provider name ∷ []) store (0x19 ∷ 0x02 ∷ mask ∷ [])
      ≡ (ok (some (0x59 ∷ 0x02 ∷ 0x8C ∷ [])), store)
header-alone name store mask h unreported =
    answered (dtc_store_provider name ∷ []) store mask (0x02 ∷ 0x8C ∷ [])
      (report-none name store mask h unreported)

-- 19 02 and a mask are answered 59 02 8C and records that read back as those of the valid codes with
-- a flag in the mask, in store order; the store stays as it is.
pub report-read :
    (name : String) (store : DtcStore) (mask : ℕ)
    → mask < 256
    → (kept : List DtcRecord) × (bs : Bytes) × (traverse record_of (reported mask store) ≡ ok kept)
      × (handle (dtc_store_provider name ∷ []) store (0x19 ∷ 0x02 ∷ mask ∷ [])
          ≡ (ok (some (0x59 ∷ 0x02 ∷ 0x8C ∷ bs)), store))
      × (read_records bs ≡ kept)
report-read name store mask h =
    let (kept, bs, g, e, seen) = report-ok name store mask h in
    (kept, bs, g, answered (dtc_store_provider name ∷ []) store mask (0x02 ∷ 0x8C ∷ bs) e, seen)
