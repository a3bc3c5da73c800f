-- ===== src/Daemon/Ring/Tests.antt =====
-- ring.h on one operation.
use mod_socket_handoff.Base.{◌^◌, ◌<◌, ◌≡◌, some, arith}
use mod_socket_handoff.Daemon.Ring.{write, ring_pack_data, ring_unpack_data}
use mod_socket_handoff.Daemon.Ring.Packing.{unpack-pack}

unpack-pack_example :
    (ring_unpack_data (ring_pack_data write 4095) ≡ (some write, 4095))
    × (ring_pack_data write 4095 < 2 ^ 64)
unpack-pack_example = unpack-pack write 4095 (omega arith)
