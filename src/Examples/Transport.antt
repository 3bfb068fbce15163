-- ===== src/Examples/Transport.antt =====
-- A physical and a functional endpoint of one ECU, and a kernel that is busy for a while.
use ecu_simulator.Prelude.{
  ℕ, String, ◌≡◌, refl, true, false, not, none, some, List, [], ◌∷◌, ◌++◌, ◌==◌, if◌then◌else◌, ok,
}
use ecu_simulator.Ecu.Router.{is_some}
use ecu_simulator.Transport.Messages.{normal_11bit}
use ecu_simulator.Transport.IsoTp.{IsoTpOptions, Os, returned, blocking, os_error, open_socket}
use ecu_simulator.Transport.Endpoints.{
  EndpointConfig, Endpoint, fresh, is_nil, on_writable, IsoTpTransport, make_transport, start,
  by_name, repeats, open_all,
}
use ecu_simulator.Transport.Endpoints.Order.{
  Use, submitting, writable, use_all, submitted, payloads, use_all_lem, all_taken, on_writable-free,
}
use ecu_simulator.Transport.Endpoints.Replies.{start-via}

abbrev plain : IsoTpOptions
plain = record { tx_padding = false; pad_byte = 0; block_size = 0; st_min = 0 }

abbrev physical : EndpointConfig
physical = record {
  name = "ECM.physical";
  address = record { rx_id = 0x7E0; tx_id = 0x7E8; mode = normal_11bit };
  functional = false;
  options = plain;
  reply_via = none;
  receive = true;
}

abbrev broadcast : EndpointConfig
broadcast = record {
  name = "ECM.functional";
  address = record { rx_id = 0x7DF; tx_id = 0x7E8; mode = normal_11bit };
  functional = true;
  options = plain;
  reply_via = some "ECM.physical";
  receive = true;
}

abbrev kernel : ℕ → Os (Unit {0})
kernel n = if n == 0 then returned tt else blocking

abbrev uses : List Use
uses =
    submitting (1 ∷ []) blocking
    ∷ submitting (2 ∷ []) (returned tt)
    ∷ writable kernel
    ∷ submitting (3 ∷ []) (os_error 70)
    ∷ []

use_all_lem_example :
    let e = use_all (fresh physical) uses in
    (payloads e.log ++ e.pending ≡ submitted uses) × (e.writer_armed ≡ not (is_nil e.pending))
use_all_lem_example = use_all_lem physical uses

abbrev busy : Endpoint
busy = record {
  config = physical;
  pending = (2 ∷ []) ∷ (3 ∷ []) ∷ [];
  writer_armed = true;
  log = (1 ∷ [], true) ∷ [];
}

on_writable-free_example :
    let after = on_writable busy (λ _. returned tt) in
    (after.log ≡ busy.log ++ all_taken busy.pending)
    × (after.pending ≡ [])
    × (after.writer_armed ≡ false)
on_writable-free_example = on_writable-free busy

abbrev ready : String → Os (Unit {0}) × Os (Unit {0})
ready name = (returned tt, returned tt)

abbrev stopped : IsoTpTransport
stopped = record { configs = physical ∷ broadcast ∷ []; endpoints = []; is_running = false }

abbrev running : IsoTpTransport
running = record {
  configs = physical ∷ broadcast ∷ [];
  endpoints = fresh physical ∷ fresh broadcast ∷ [];
  is_running = true;
}

accepted : make_transport (physical ∷ broadcast ∷ []) ≡ ok stopped
unfolding make_transport repeats
accepted = refl

started : start stopped ready ≡ ok running
unfolding start open_all open_socket
started = refl

start-via_example : is_some (by_name running.endpoints "ECM.physical") ≡ true
start-via_example = start-via (physical ∷ []) broadcast [] ready stopped running accepted started
