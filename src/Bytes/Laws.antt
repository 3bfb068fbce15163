-- ===== src/Bytes/Laws.antt =====
-- Round trips of the big-endian conversions at the widths that the program uses.
use ecu_simulator.Prelude.{ℕ, zero, suc, ◌<◌, ◌≡◌, length, arith, ap, refl}
use ecu_simulator.Bytes.{AreBytes, big_endian, from_bytes}

pub length-big_endian : (n v : ℕ) → length (big_endian n v) ≡ n
unfolding big_endian
length-big_endian zero v = refl
length-big_endian (suc n) v = ap suc (length-big_endian n v)

pub big_endian-AreBytes : (n v : ℕ) → AreBytes (big_endian n v)
unfolding big_endian
big_endian-AreBytes zero v = tt
big_endian-AreBytes (suc n) v = (omega arith, big_endian-AreBytes n v)

pub from_bytes-two : (v : ℕ) → v < 65536 → from_bytes (big_endian 2 v) ≡ v
unfolding big_endian from_bytes
from_bytes-two v h = omega arith

pub from_bytes-three : (v : ℕ) → v < 16777216 → from_bytes (big_endian 3 v) ≡ v
unfolding big_endian from_bytes
from_bytes-three v h = omega arith

pub from_bytes-four : (v : ℕ) → v < 4294967296 → from_bytes (big_endian 4 v) ≡ v
unfolding big_endian from_bytes
from_bytes-four v h = omega arith
