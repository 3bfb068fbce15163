-- ===== src/Transport/IsoTp.antt =====
-- src/ecu_simulator/transport/socketcan/isotp.py: the addresses and options of a kernel ISO-TP
-- socket, and what its calls make of the kernel's answers. `Os` is what a call of the socket object
-- does: it returns, raises BlockingIOError, or raises an OSError with a number.
use ecu_simulator.Prelude.{
  ℕ, Bool, true, false, not, Option, none, List, [], ◌∷◌, leb, ◌==◌, if◌then◌else◌, contains, Error,
  Result, ok, err, ◌>>◌, raise_if,
}
use ecu_simulator.Prelude.{
  address_error, bind_error, interface_not_found, isotp_unsupported, transport_error,
  transport_io_error, flow_control_timeout,
}
use ecu_simulator.Bytes.{Bytes}
use ecu_simulator.Transport.Messages.{AddressingMode, normal_11bit, normal_fixed_29bit}

abbrev pub can_sff_mask : ℕ
can_sff_mask = 0x7FF

abbrev pub can_eff_mask : ℕ
can_eff_mask = 0x1FFFFFFF

pub record IsoTpAddress : Type 0 where
  pub rx_id : ℕ
  pub tx_id : ℕ
  pub mode : AddressingMode

abbrev pub limit_of : AddressingMode → ℕ
limit_of normal_11bit = can_sff_mask
limit_of normal_fixed_29bit = can_eff_mask

-- `IsoTpAddress(rx_id, tx_id, mode)` with its checks
unfoldable pub iso_tp_address : ℕ → ℕ → AddressingMode → Result IsoTpAddress
iso_tp_address rx_id tx_id mode =
    raise_if (not (leb rx_id (limit_of mode))) address_error
    >> (raise_if (not (leb tx_id (limit_of mode))) address_error
        >> (raise_if (rx_id == tx_id) address_error
            >> ok (record { rx_id = rx_id; tx_id = tx_id; mode = mode })))

pub record IsoTpOptions : Type 0 where
  pub tx_padding : Bool
  pub pad_byte : ℕ
  pub block_size : ℕ
  pub st_min : ℕ

-- `IsoTpOptions(...)` with its checks
unfoldable pub iso_tp_options : Bool → ℕ → ℕ → ℕ → Result IsoTpOptions
iso_tp_options tx_padding pad_byte block_size st_min =
    raise_if (not (leb pad_byte 0xFF)) address_error
    >> (raise_if (not (leb block_size 0xFF)) address_error
        >> (raise_if (not (leb st_min 0xFF)) address_error
            >> ok (record {
              tx_padding = tx_padding;
              pad_byte = pad_byte;
              block_size = block_size;
              st_min = st_min;
            })))

pub data Os {ℓ} (A : Type ℓ) : Type ℓ where
  returned : A → Os A
  blocking : Os A
  os_error : ℕ → Os A

-- the numbers of ENODEV, ECOMM, EPROTONOSUPPORT, ESOCKTNOSUPPORT and EAFNOSUPPORT on Linux
abbrev pub enodev : ℕ
enodev = 19

abbrev pub ecomm : ℕ
ecomm = 70

abbrev pub unsupported_numbers : List ℕ
unsupported_numbers = 93 ∷ 94 ∷ 97 ∷ []

-- `_map_socket_creation_error`
unfoldable pub map_socket_creation_error : ℕ → Error
map_socket_creation_error number =
    if contains number unsupported_numbers then isotp_unsupported else transport_error

-- `_map_bind_error`
unfoldable pub map_bind_error : ℕ → Error
map_bind_error number = if number == enodev then interface_not_found else bind_error

-- `_map_io_error`
unfoldable pub map_io_error : ℕ → Error
map_io_error number = if number == ecomm then flow_control_timeout else transport_io_error

-- `IsoTpSocket.recv` of an open socket; the kernel's answer may be `None`
unfoldable pub recv : Os (Option Bytes) → Result (Option Bytes)
recv (returned payload) = ok payload
recv blocking = ok none
recv (os_error number) = err (map_io_error number)

-- `IsoTpSocket.send` of an open socket
unfoldable pub send : Os (Unit {0}) → Result Bool
send (returned _) = ok true
send blocking = ok false
send (os_error number) = err (map_io_error number)

-- `IsoTpSocket.open` of a closed socket: what making it, setting it up and binding it did. A blocking
-- error is an OSError with another number, EAGAIN.
unfoldable pub open_socket : Os (Unit {0}) → Os (Unit {0}) → Result (Unit {0})
open_socket (os_error number) setup = err (map_socket_creation_error number)
open_socket blocking setup = err (map_socket_creation_error 11)
open_socket (returned _) (os_error number) = err (map_bind_error number)
open_socket (returned _) blocking = err (map_bind_error 11)
open_socket (returned _) (returned _) = ok tt
