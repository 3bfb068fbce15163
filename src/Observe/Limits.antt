-- ===== src/Observe/Limits.antt =====
-- src/ecu_simulator/observe/limits.py: the bounds of the observer. Durations are in milliseconds.
use ecu_simulator.Prelude.{ℕ, ◌+◌, ◌*◌, String, ltb, if◌then◌else◌}
use Prim.Native.Char.{code}

abbrev pub handoff_max_records : ℕ
handoff_max_records = 4096

abbrev pub handoff_max_bytes : ℕ
handoff_max_bytes = 1048576

abbrev pub history_max_events : ℕ
history_max_events = 500

abbrev pub history_max_bytes : ℕ
history_max_bytes = 2 * 1048576

abbrev pub client_max_messages : ℕ
client_max_messages = 1024

abbrev pub client_max_bytes : ℕ
client_max_bytes = 4 * 1048576

abbrev pub max_clients : ℕ
max_clients = 4

abbrev pub overflow_disconnect : ℕ
overflow_disconnect = 5000

abbrev pub close_too_slow : ℕ
close_too_slow = 1013

abbrev pub close_internal_error : ℕ
close_internal_error = 1011

abbrev pub exchanges_max_limit : ℕ
exchanges_max_limit = 500

abbrev pub closed_ledgers_kept : ℕ
closed_ledgers_kept = 64

-- bytes of one character in UTF-8
abbrev pub char_size : ℕ → ℕ
char_size c = if ltb c 0x80 then 1 else if ltb c 0x800 then 2 else if ltb c 0x10000 then 3 else 4

-- `len(text.encode())`
unfoldable pub encoded_size : String → ℕ
encoded_size String.[] = 0
encoded_size (String.◌∷◌ c rest) = char_size (code c) + encoded_size rest
