-- ===== src/Base.antt =====
-- src/ecu_simulator/protocols/base.py: what an ECU and its diagnostic protocols agree on.
use ecu_simulator.Prelude.{
  ℕ, ◌+◌, String, Bool, not, Option, List, [], ◌∷◌, leb, get_elem?, value_error, index_error,
  Result, ok, err, ◌>>◌, raise_if, or_raise,
}
use ecu_simulator.Bytes.{Bytes}

abbrev pub negative_response_sid : ℕ
negative_response_sid = 0x7F

abbrev pub nrc_service_not_supported : ℕ
nrc_service_not_supported = 0x11

abbrev pub nrc_sub_function_not_supported : ℕ
nrc_sub_function_not_supported = 0x12

abbrev pub nrc_incorrect_message_length_or_invalid_format : ℕ
nrc_incorrect_message_length_or_invalid_format = 0x13

abbrev pub nrc_request_out_of_range : ℕ
nrc_request_out_of_range = 0x31

-- `_check_byte`
abbrev pub check_byte : ℕ → Result (Unit {0})
check_byte value = raise_if (not (leb value 0xFF)) value_error

unfoldable pub positive_response_sid : ℕ → Result ℕ
positive_response_sid sid = check_byte sid >> ok (sid + 0x40)

-- `7F <sid> <nrc>`
unfoldable pub negative_response : ℕ → ℕ → Result Bytes
negative_response sid nrc =
    check_byte sid >> (check_byte nrc >> ok (negative_response_sid ∷ sid ∷ nrc ∷ []))

pub record ServiceRequest : Type 0 where
  pub payload : Bytes
  pub functional : Bool

-- `ServiceRequest(payload, functional=...)` with its check
unfoldable pub service_request : Bytes → Bool → Result ServiceRequest
service_request [] functional = err value_error
service_request (sid ∷ rest) functional =
    ok (record { payload = sid ∷ rest; functional = functional })

-- `request.sid`
unfoldable pub sid_of : ServiceRequest → Result ℕ
sid_of request = or_raise (get_elem? request.payload 0) index_error

-- The interface `DiagnosticProtocol`. The objects that a handler mutates are the state `S`: what it
-- holds when the handler returns or raises is part of the answer.
pub record DiagnosticProtocol {ℓ} (S : Type ℓ) : Type ℓ where
  pub name : String
  pub service_ids : List ℕ
  pub handle : S → ServiceRequest → Result (Option Bytes) × S
