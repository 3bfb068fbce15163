-- ===== src/Uds/Providers.antt =====
-- src/ecu_simulator/protocols/uds/providers.py: trouble code records and the registries that the
-- UDS data services read through. A registry is the list of its providers in registration order.
use ecu_simulator.Prelude.{
  ℕ, bit_and, String, Bool, true, false, not, Option, none, some, List, [], ◌∷◌, ◌++◌, map, str_eq,
  leb, ◌==◌, if◌then◌else◌, any, all, select, value_error, provider_conflict, Result, ok, ◌>>=◌,
  ◌>>◌, raise_if,
}
use ecu_simulator.Bytes.{Bytes, to_bytes}

pub record DtcRecord : Type 0 where
  pub dtc : ℕ
  pub status : ℕ

-- `DtcRecord(dtc, status)` with its checks
unfoldable pub dtc_record : ℕ → ℕ → Result DtcRecord
dtc_record dtc status =
    raise_if (not (leb dtc 0xFFFFFF)) value_error
    >> (raise_if (not (leb status 0xFF)) value_error >> ok (record { dtc = dtc; status = status }))

-- `DtcRecord.to_bytes`
unfoldable pub record_bytes : DtcRecord → Result Bytes
record_bytes r = do number ← to_bytes 3 r.dtc; ok (number ++ r.status ∷ [])

-- `DtcProvider`: its records are read from the objects `S` that it holds.
pub record DtcProvider {ℓ} (S : Type ℓ) : Type ℓ where
  pub name : String
  pub dtc_records : S → Result (List DtcRecord)

abbrev pub DtcRegistry {ℓ} : Type ℓ → Type ℓ
DtcRegistry S = List (DtcProvider S)

-- `DtcRegistry.register`
unfoldable pub register_dtc {ℓ} :
    {S : Type ℓ} → DtcRegistry S → DtcProvider S → Result (DtcRegistry S)
register_dtc {S = S} registry provider =
    raise_if (any (λ (p : DtcProvider S). str_eq p.name provider.name) registry) provider_conflict
    >> ok (registry ++ provider ∷ [])

-- the two outer loops of `DtcRegistry.read`
unfoldable pub all_records {ℓ} : {S : Type ℓ} → DtcRegistry S → S → Result (List DtcRecord)
all_records [] s = ok []
all_records (provider ∷ rest) s = do
  head ← provider.dtc_records s
  tail ← all_records rest s
  ok (head ++ tail)

-- `record.status & status_mask`, as a condition
unfoldable pub matches : ℕ → DtcRecord → Bool
matches status_mask r = not (bit_and r.status status_mask == 0)

-- `DtcRegistry.read`
unfoldable pub read {ℓ} : {S : Type ℓ} → DtcRegistry S → S → ℕ → Result (List DtcRecord)
read registry s status_mask =
    raise_if (not (leb status_mask 0xFF)) value_error
    >> (do records ← all_records registry s; ok (select (matches status_mask) records))

-- `DidProvider`
pub record DidProvider : Type 0 where
  pub name : String
  pub data_identifiers : List ℕ
  pub read : ℕ → Option Bytes

-- `DidRegistry`: the providers, and the owner of each data identifier
pub record DidRegistry : Type 0 where
  pub providers : List DidProvider
  pub by_did : List (ℕ × DidProvider)

-- `self._by_did.get(did)`: the entry set last
unfoldable pub provider_for : List (ℕ × DidProvider) → ℕ → Option DidProvider
provider_for [] did = none
provider_for ((d, provider) ∷ rest) did = if d == did then some provider else provider_for rest did

abbrev pub is_owned : List (ℕ × DidProvider) → ℕ → Bool
is_owned table did = any (λ (entry : ℕ × DidProvider). entry.0 == did) table

abbrev pub claim : List ℕ → DidProvider → List (ℕ × DidProvider) → List (ℕ × DidProvider)
claim dids provider table = map (λ (did : ℕ). (did, provider)) dids ++ table

abbrev pub is_empty {ℓ} : {A : Type ℓ} → List A → Bool
is_empty [] = true
is_empty (x ∷ xs) = false

-- `DidRegistry.register`
unfoldable pub register_did : DidRegistry → DidProvider → Result DidRegistry
register_did registry provider =
    let dids = provider.data_identifiers in
    raise_if (is_empty dids) value_error
    >> (raise_if (not (all (λ (did : ℕ). leb did 0xFFFF) dids)) value_error
        >> (raise_if (any (λ (p : DidProvider). str_eq p.name provider.name) registry.providers)
              provider_conflict
            >> (raise_if (any (is_owned registry.by_did) dids) provider_conflict
                >> ok (record {
                  providers = registry.providers ++ provider ∷ [];
                  by_did = claim dids provider registry.by_did;
                }))))

-- `DidRegistry.read`
unfoldable pub read_did : DidRegistry → ℕ → Option Bytes
read_did registry did = elim (provider_for registry.by_did did) [
  | none ↦ none
  | some provider ↦ provider.read did
]
