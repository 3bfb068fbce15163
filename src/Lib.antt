-- ===== src/Lib.antt =====
-- The ECU simulator: a program that answers OBD-II and UDS diagnostic requests for simulated ECUs.
--
-- A transport (src/ecu_simulator/transport) receives a payload on an address. The dispatcher
-- (src/ecu_simulator/ecu) first lets the scenario bring the vehicle and the trouble codes up to the
-- present, looks up the route of the address, and hands the request to that ECU, which passes it to
-- the protocol that claims its service identifier, if the route permits that protocol. A protocol
-- reads the vehicle's signals (src/ecu_simulator/vehicle) and the ECU's trouble codes
-- (src/ecu_simulator/dtc), which all protocols of the ECU share, and returns bytes or nothing.
--
--   Prelude: names of the libraries, Boolean tests and lists over the native numbers, integers, bits,
--   and Exec, which has exceptions as values. Bytes: int.to_bytes, int.from_bytes, str.encode.
--   Dtc.Codes is src/ecu_simulator/dtc/codes.py with _is_encodable_dtc of config/schema.py;
--   Dtc.Store is dtc/store.py.
--   Vehicle.Signals and Vehicle.State are vehicle/signals.py and vehicle/state.py. Vehicle.Floats is
--   what the program uses of Python's floats, a record that every definition over floats takes.
--   Base is protocols/base.py; its DiagnosticProtocol is the interface that an ECU calls.
--   Obd.Masks, Obd.Dtc, Obd.Pids and Obd.Protocol are the files of protocols/obd of those names.
--   Uds.Providers, Uds.Dtc and Uds.Protocol are the files of protocols/uds of those names.
--   Transport.Messages is transport/messages.py: requests and responses.
--   Ecu.Router, Ecu.Ecu and Ecu.Dispatcher are the files of src/ecu_simulator/ecu of those names.
--   Transport.IsoTp and Transport.Endpoints are isotp.py and transport.py of transport/socketcan: the
--   addresses of the sockets, and the queue of responses of each endpoint.
--   Scenario.Generators, Scenario.Events and Scenario.Runner are the files of scenario of those names;
--   Scenario.Runner has the call of sync.py too.
--   Observe: HandOff, History, Connection, Writer, Publisher (with its children Publish and Clients),
--   Wrapper, Events and Limits are the files of src/ecu_simulator/observe of those names. The watched
--   handler appends a record of each exchange to the hand-off; the publisher takes records out in
--   bounded turns, keeps them in the history and offers them to each connection; the writer of a
--   connection sends what is queued there. Observe.Publisher.Reach has one move for everything that
--   any of these tasks does between two awaits, so a list of moves is an interleaving of the tasks.
--   Config.Schema is the part of config/schema.py about ECUs; App.Routing, App.Ecus and App.Runtime are
--   the parts of app.py that build sockets and routes, ECUs and the dispatcher from it. There the state
--   of all handlers is the vehicle and the stores of all ECUs (App.Ecus.World).
--   Examples: each theorem at a concrete input, with whole numbers in place of floats.
--
-- Methods that mutate objects take their state and return it, also beside an exception where they
-- can leave something behind. Dictionaries are lists in insertion order; sets are lists too, and are
-- compared as sets where the program compares them. All recursion is on lists or on a number of bits
-- or ranges, so no fuel stands in a definition of the program. The reader of Mode 01 responses in
-- Obd.Protocol.Reading takes the length of the response as its bound, and each step takes a byte.
--
-- In the observer, what an encoder, a clock, the kernel or a WebSocket answers is an argument: a text,
-- a reading or an exception. Clock readings are whole numbers (nanoseconds in records, milliseconds in
-- connections, microseconds in turns). A connection object that stands in several lists of the
-- publisher is updated in each. The turns of the publisher and the loops of a writer and of a socket
-- take a bound that the program has too: max_turn_records, or the queue.
--
-- Not modelled: log lines and representations (__repr__, __len__); the sockets themselves and asyncio;
-- the JSON text of events, notices and snapshots, and the one-line summary of a request; the web
-- server, the command line and the reading of YAML, which are input and output around this core; the
-- vehicle and scenario sections of a profile, and the builders of the vehicle and the scenario; the
-- scripts. Times that are only reported (last_ok_at, last_failed_at) are left out. What
-- Python raises for an argument of another type than the annotated one is modelled only where a
-- signal's value decides it.
pub mod Prelude
pub mod Bytes
pub mod Dtc
pub mod Vehicle
pub mod Base
pub mod Obd
pub mod Uds
pub mod Transport
pub mod Ecu
pub mod Scenario
pub mod Observe
pub mod Config
pub mod App
pub mod Examples
