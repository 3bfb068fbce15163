-- ===== src/Observe/HandOff.antt =====
-- src/ecu_simulator/observe/handoff.py: the bounded buffer between the request handler and the
-- publisher. The deque is a list with its oldest record first; clock readings are nanoseconds.
pub mod Laws
use ecu_simulator.Prelude.{
  ℕ, ◌+◌, ◌-◌, String, Bool, true, false, ◌||◌, Option, none, some, List, [], ◌∷◌, ◌++◌, ltb, leb,
  if◌then◌else◌, length, index_error, Result, ok, err,
}
use ecu_simulator.Transport.Messages.{DiagnosticRequest, DiagnosticResponse}
use ecu_simulator.Observe.Limits.{handoff_max_records, handoff_max_bytes}

pub record ExchangeRecord : Type 0 where
  pub seq : ℕ
  pub t0_ns : ℕ
  pub elapsed_ns : ℕ
  pub request : DiagnosticRequest
  pub response : Option DiagnosticResponse
  pub error : Option String

abbrev pub response_size : Option DiagnosticResponse → ℕ
response_size none = 0
response_size (some response) = length response.payload

-- `_size`
unfoldable pub size : ExchangeRecord → ℕ
size r = length r.request.payload + response_size r.response

pub record HandOff : Type 0 where
  pub records : List ExchangeRecord
  pub max_records : ℕ
  pub max_bytes : ℕ
  pub bytes : ℕ
  pub dropped : ℕ

-- `HandOff()`
abbrev pub new : HandOff
new = record {
  records = [];
  max_records = handoff_max_records;
  max_bytes = handoff_max_bytes;
  bytes = 0;
  dropped = 0;
}

-- the test of `append`
abbrev pub is_full : HandOff → ExchangeRecord → Bool
is_full h r = leb h.max_records (length h.records) || ltb h.max_bytes (h.bytes + size r)

-- `HandOff.append`
unfoldable pub append : HandOff → ExchangeRecord → Bool × HandOff
append h r =
    if is_full h r
    then (false, record h { dropped = h.dropped + 1 })
    else (true, record h { records = h.records ++ r ∷ []; bytes = h.bytes + size r })

-- `self._records.popleft()`, and the count that follows it
abbrev pub popped : HandOff → List ExchangeRecord → Result (ExchangeRecord × HandOff)
popped h [] = err index_error
popped h (r ∷ rest) = ok (r, record h { records = rest; bytes = h.bytes - size r })

-- `HandOff.popleft`
unfoldable pub popleft : HandOff → Result (ExchangeRecord × HandOff)
popleft h = popped h h.records
