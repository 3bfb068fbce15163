-- ===== src/Transport/Messages.antt =====
-- src/ecu_simulator/transport/messages.py: requests and responses without an ECU. `context` and
-- `source_address` are carried by the source and read by no component modelled here; `delay` is
-- always its default of zero.
use ecu_simulator.Prelude.{ℕ, Bool, [], ◌∷◌, value_error, Result, ok, err}
use ecu_simulator.Bytes.{Bytes}

pub data AddressingMode : Type 0 where
  normal_11bit normal_fixed_29bit : AddressingMode

pub record DiagnosticRequest : Type 0 where
  pub payload : Bytes
  pub target_address : ℕ
  pub functional : Bool
  pub addressing_mode : AddressingMode

pub record DiagnosticResponse : Type 0 where
  pub payload : Bytes

-- `DiagnosticResponse(payload)` with its check
unfoldable pub diagnostic_response : Bytes → Result DiagnosticResponse
diagnostic_response [] = err value_error
diagnostic_response (b ∷ bs) = ok (record { payload = b ∷ bs })
