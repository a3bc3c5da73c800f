-- ===== src/Daemon/WriteBuffer/Tests.antt =====
-- write_buffer.c on small buffers.
use mod_socket_handoff.Base.{
  ℕ, ◌+◌, ◌≡◌, refl, true, false, some, List, [], ◌∷◌, Bytes, arith, length, replicate, codes,
  length-replicate,
}
use mod_socket_handoff.Daemon.WriteBuffer.{
  WriteBuffer, Allocator, write_buffer_append, write_buffer_consume, write_buffer_set_pending,
  write_buffer_get_next,
}
use mod_socket_handoff.Daemon.WriteBuffer.Append.{IsValid, IsAppended, append-IsAppended}
use mod_socket_handoff.Daemon.WriteBuffer.Stream.{
  IsConserved, stream-IsConserved, calls, untouched, Call, queue, written, set_pending,
}

-- Every allocation gives a new address.
abbrev heap : Allocator
heap = record { malloc = λ n. some 1; realloc = λ p n. some (p + 1); junk = 0 }

-- Six bytes of eight, of which two are gone.
abbrev small : WriteBuffer
small = record {
  block = 1;
  buffer = codes "abcdef??";
  capacity = 8;
  head = 6;
  tail = 2;
  bytes_written = 2;
  write_pending = false;
}

small-IsValid : IsValid small
small-IsValid = record {
  ordered = omega arith;
  inside = omega arith;
  sized = refl;
  limited = omega arith;
}

append-IsAppended_example :
    IsAppended small (codes "xyz") (write_buffer_append heap small (codes "xyz"))
append-IsAppended_example = append-IsAppended heap small (codes "xyz") small-IsValid (omega arith)

abbrev session : List Call
session =
    queue (codes "xyz")
    ∷ written 3
    ∷ set_pending true
    ∷ queue (codes "0123456789")
    ∷ written 99
    ∷ []

stream-IsConserved_example : IsConserved small (calls heap (untouched small) session)
stream-IsConserved_example =
    stream-IsConserved heap small session small-IsValid (omega arith)
      (omega arith, (tt, (tt, (omega arith, (tt, tt)))))

-- What was taken in that session.
session_taken : (calls heap (untouched small) session).taken ≡ codes "cdefxyz0123456789"
unfolding write_buffer_append write_buffer_consume write_buffer_set_pending write_buffer_get_next
session_taken = refl

block_of : (n : ℕ) → (bytes : Bytes) × (length bytes ≡ n)
block_of n = (replicate n 0, length-replicate n 0)

-- A block of 600000 bytes, which is never computed.
abbrev zeros : Bytes
zeros = (block_of 600000).0

length-zeros : length zeros ≡ 600000
length-zeros = (block_of 600000).1

-- A buffer with such a block and one byte pending.
abbrev large : WriteBuffer
large = record {
  block = 1;
  buffer = zeros;
  capacity = 600000;
  head = 1;
  tail = 0;
  bytes_written = 0;
  write_pending = false;
}
