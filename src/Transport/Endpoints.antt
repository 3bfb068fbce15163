-- ===== src/Transport/Endpoints.antt =====
-- src/ecu_simulator/transport/socketcan/transport.py: the endpoints, their queues and the callbacks.
-- `S` is the state that the request handler changes. What the kernel answers to each call of a socket
-- is an argument. `log` is kept for the theorems only: each payload that left the queue of an
-- endpoint, with whether the kernel took it.
pub mod Order
pub mod Replies
use ecu_simulator.Prelude.{
  ℕ, zero, suc, ◌+◌, ◌-◌, ◌*◌, ◌/◌, ◌%◌, ◌^◌, ◌≤◌, ◌<◌, bit_and, bit_or, String, ◌≡◌, refl, sym, ap,
  ◌∙◌, ◌≢◌, ◌↔◌, ◌⊎◌, inl, inr, Bool, true, false, not, ◌&&◌, ◌||◌, Option, none, some, List, [],
  ◌∷◌, ◌++◌, map, arith, str_eq, eq_iff, ltb, leb, ◌==◌, if◌then◌else◌, ltb→lt, lt→ltb, leb→le,
  le→leb, ==_iff, Bool-cases, Option-cases, Result-cases, ok-injective, &&-true, length, get_elem?,
  take, drop, replicate, any, all, select, All, length-append, length-take, length-replicate,
  length-map, All-append, contains, ℤ, pos, negsuc, clamp, ◌+ℤ◌, ◌*ℤ◌, sub_ℕ, ltb_ℤ, Error,
  value_error, key_error, type_error, overflow_error, index_error, traverse, as_some,
  not_implemented, unknown_signal, service_conflict, route_conflict, provider_conflict,
  assertion_error, Result, ok, err, ◌>>=◌, ◌>>◌, raise_if, or_raise, >>=-eq-ok,
}
use ecu_simulator.Prelude.{address_error, transport_error}
use ecu_simulator.Bytes.{Bytes}
use ecu_simulator.Transport.Messages.{
  AddressingMode, DiagnosticRequest, DiagnosticResponse, normal_11bit, normal_fixed_29bit,
}
use ecu_simulator.Transport.IsoTp.{IsoTpAddress, IsoTpOptions, Os, recv, send, open_socket}

pub record EndpointConfig : Type 0 where
  pub name : String
  pub address : IsoTpAddress
  pub functional : Bool
  pub options : IsoTpOptions
  pub reply_via : Option String
  pub receive : Bool

pub record Endpoint : Type 0 where
  pub config : EndpointConfig
  pub pending : List Bytes
  pub writer_armed : Bool
  pub log : List (Bytes × Bool)

-- `_Endpoint(config, sock)`
abbrev pub fresh : EndpointConfig → Endpoint
fresh config = record { config = config; pending = []; writer_armed = false; log = [] }

-- `_send`, once the queue is empty: what the kernel's answer makes of it
abbrev pub sent_now : Endpoint → Bytes → Result Bool → Endpoint
sent_now e payload (ok true) = record e { log = e.log ++ (payload, true) ∷ [] }
sent_now e payload (ok false) = record e {
  pending = e.pending ++ payload ∷ [];
  writer_armed = true;
}
sent_now e payload (err raised) = record e { log = e.log ++ (payload, false) ∷ [] }

abbrev pub is_nil : List Bytes → Bool
is_nil [] = true
is_nil (p ∷ ps) = false

-- `_send`, with `_arm_writer`, on a running loop
unfoldable pub send_on : Endpoint → Bytes → Os (Unit {0}) → Endpoint
send_on e payload kernel =
    if is_nil e.pending
    then sent_now e payload (send kernel)
    else record e { pending = e.pending ++ payload ∷ []; writer_armed = true }

-- the loop of `_on_writable` over the queue; `kernel n` answers the n-th call of `send`
unfoldable pub flush : Endpoint → List Bytes → ℕ → (ℕ → Os (Unit {0})) → Endpoint
flush e [] n kernel = record e { pending = []; writer_armed = false }
flush e (payload ∷ rest) n kernel = elim (send (kernel n)) [
  | ok taken ↦ elim taken [
    | true ↦ flush (record e { log = e.log ++ (payload, true) ∷ [] }) rest (suc n) kernel
    | false ↦ record e { pending = payload ∷ rest }
  ]
  | err raised ↦ flush (record e { log = e.log ++ (payload, false) ∷ [] }) rest (suc n) kernel
]

-- `_on_writable`
unfoldable pub on_writable : Endpoint → (ℕ → Os (Unit {0})) → Endpoint
on_writable e kernel = flush e e.pending 0 kernel

pub record IsoTpTransport : Type 0 where
  pub configs : List EndpointConfig
  pub endpoints : List Endpoint
  pub is_running : Bool

abbrev pub has_name : String → List EndpointConfig → Bool
has_name name = any (λ (c : EndpointConfig). str_eq c.name name)

abbrev pub same_mode : AddressingMode → AddressingMode → Bool
same_mode normal_11bit normal_11bit = true
same_mode normal_fixed_29bit normal_fixed_29bit = true
same_mode normal_11bit normal_fixed_29bit = false
same_mode normal_fixed_29bit normal_11bit = false

abbrev pub same_pair : EndpointConfig → EndpointConfig → Bool
same_pair a b =
    same_mode a.address.mode b.address.mode
    && (a.address.rx_id == b.address.rx_id && a.address.tx_id == b.address.tx_id)

-- `len(set(names)) != len(names)`, and the same of the pairs
unfoldable pub repeats : (EndpointConfig → EndpointConfig → Bool) → List EndpointConfig → Bool
repeats same [] = false
repeats same (c ∷ rest) = any (same c) rest || repeats same rest

abbrev pub same_name : EndpointConfig → EndpointConfig → Bool
same_name a b = str_eq a.name b.name

-- `reply_via is not None and reply_via not in names`
abbrev pub goes_nowhere : List EndpointConfig → Option String → Bool
goes_nowhere configs none = false
goes_nowhere configs (some name) = not (has_name name configs)

abbrev pub is_lost : List EndpointConfig → EndpointConfig → Bool
is_lost configs c = goes_nowhere configs c.reply_via

abbrev pub is_empty : List EndpointConfig → Bool
is_empty [] = true
is_empty (c ∷ cs) = false

-- `IsoTpTransport.__init__`
unfoldable pub make_transport : List EndpointConfig → Result IsoTpTransport
make_transport configs =
    raise_if (is_empty configs) address_error
    >> (raise_if (repeats same_name configs) address_error
        >> (raise_if (repeats same_pair configs) address_error
            >> (raise_if (any (is_lost configs) configs) address_error
                >> ok (record { configs = configs; endpoints = []; is_running = false }))))

-- the loop of `start` that opens the sockets, whose answers are by name: making one, and setting it up
unfoldable pub open_all :
    (String → Os (Unit {0}) × Os (Unit {0})) → List EndpointConfig → Result (List Endpoint)
open_all kernel =
    traverse (λ (c : EndpointConfig).
      open_socket (kernel c.name).0 (kernel c.name).1 >>= λ _. ok (fresh c))

-- `start`, whose environment checks return
unfoldable pub start :
    IsoTpTransport → (String → Os (Unit {0}) × Os (Unit {0})) → Result IsoTpTransport
start t kernel =
    raise_if t.is_running transport_error
    >> (open_all kernel t.configs >>= λ opened.
        ok (record t { endpoints = opened; is_running = true }))

-- `stop`
unfoldable pub stop : IsoTpTransport → IsoTpTransport
stop t = if t.is_running then record t { endpoints = []; is_running = false } else t

-- `self._by_name[name]`; names are unique
unfoldable pub by_name : List Endpoint → String → Option Endpoint
by_name [] name = none
by_name (e ∷ rest) name = if str_eq e.config.name name then some e else by_name rest name

-- `_send` on the endpoint of this name
unfoldable pub send_at : List Endpoint → String → Bytes → Os (Unit {0}) → List Endpoint
send_at [] name payload kernel = []
send_at (e ∷ rest) name payload kernel =
    if str_eq e.config.name name
    then send_on e payload kernel ∷ rest
    else e ∷ send_at rest name payload kernel

-- the request that `_on_readable` makes
abbrev pub request_from : EndpointConfig → Bytes → DiagnosticRequest
request_from config payload = record {
  payload = payload;
  target_address = config.address.rx_id;
  functional = config.functional;
  addressing_mode = config.address.mode;
}

-- the endpoint that answers
abbrev pub via_of : String → Option String → String
via_of name none = name
via_of name (some other) = other

abbrev pub via : EndpointConfig → String
via config = via_of config.name config.reply_via

-- from the handler's answer on; an exception is logged
abbrev pub replied :
    List Endpoint
    → EndpointConfig
    → Result (Option DiagnosticResponse)
    → Os (Unit {0})
    → List Endpoint
replied endpoints config (err raised) kernel = endpoints
replied endpoints config (ok none) kernel = endpoints
replied endpoints config (ok (some response)) kernel =
    send_at endpoints (via config) response.payload kernel

module _ {ℓ} {S : Type ℓ}
    (handler : S → DiagnosticRequest → Result (Option DiagnosticResponse) × S) where
  abbrev pub received :
      IsoTpTransport
      → S
      → EndpointConfig
      → Result (Option Bytes)
      → Os (Unit {0})
      → IsoTpTransport × S
  received t s config (err raised) kernel = (t, s)
  received t s config (ok none) kernel = (t, s)
  received t s config (ok (some payload)) kernel =
      let out = handler s (request_from config payload) in
      (record t { endpoints = replied t.endpoints config out.0 kernel }, out.1)

  -- `_on_readable` of the endpoint with this configuration: the kernel's answers to `recv` and to
  -- the `send` of the response
  unfoldable pub on_readable :
      IsoTpTransport → S → EndpointConfig → Os (Option Bytes) → Os (Unit {0}) → IsoTpTransport × S
  on_readable t s config kernel reply = received t s config (recv kernel) reply
