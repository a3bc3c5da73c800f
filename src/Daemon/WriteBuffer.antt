-- ===== src/Daemon/WriteBuffer.antt =====
-- examples/streaming-daemon-uring/write_buffer.c and write_buffer.h. `size_t` arithmetic wraps at
-- 2 ^ 64. `malloc` and `realloc` are parameters; a block is its address and the list of its bytes.
pub mod Blocks
pub mod Append
pub mod Limits
pub mod Stream
mod Tests
use mod_socket_handoff.Base.{
  ℕ, zero, suc, ◌+◌, ◌-◌, ◌*◌, ◌%◌, ◌^◌, Bool, true, false, Option, none, some, List, [], ◌∷◌, ◌++◌,
  Bytes, length, take, drop, replicate, ltb, leb, ◌==◌, if◌then◌else◌,
}

abbrev pub default_size : ℕ
default_size = 8192

abbrev pub max_size : ℕ
max_size = 1048576

-- `block` is the address of `buffer`; 0 is NULL.
pub record WriteBuffer : Type 0 where
  pub block : ℕ
  pub buffer : Bytes
  pub capacity : ℕ
  pub head : ℕ
  pub tail : ℕ
  pub bytes_written : ℕ
  pub write_pending : Bool

-- The results 0, -1 and -2.
pub data Status : Type 0 where
  ok no_memory full : Status

-- The address that an allocation of so many bytes gives, or none, and the value of a fresh byte.
pub record Allocator : Type 0 where
  pub malloc : ℕ → Option ℕ
  -- of the old address and the new size
  pub realloc : ℕ → ℕ → Option ℕ
  pub junk : ℕ

abbrev pub add_size : ℕ → ℕ → ℕ
add_size a b = (a + b) % 2 ^ 64

abbrev pub sub_size : ℕ → ℕ → ℕ
sub_size a b = (a + 2 ^ 64 - b) % 2 ^ 64

abbrev pub double_size : ℕ → ℕ
double_size a = a * 2 % 2 ^ 64

-- `memcpy` or `memmove` of the bytes to offset `i`.
abbrev pub write_at : Bytes → ℕ → Bytes → Bytes
write_at buffer i bytes = take i buffer ++ (bytes ++ drop (i + length bytes) buffer)

-- What `realloc` keeps of the bytes.
abbrev pub resize : ℕ → Bytes → ℕ → Bytes
resize junk buffer n = take n buffer ++ replicate (n - length buffer) junk

module _ (alloc : Allocator) where
  -- `init` stands for the record that the caller passes in, of which nothing is kept.
  unfoldable pub write_buffer_init_sized : WriteBuffer → ℕ → Status × WriteBuffer
  write_buffer_init_sized wb n = elim (alloc.malloc n) [
    | none ↦ (no_memory, record wb { block = 0; buffer = [] })
    | some p ↦ (
      ok,
      record {
        block = p;
        buffer = replicate n alloc.junk;
        capacity = n;
        head = 0;
        tail = 0;
        bytes_written = 0;
        write_pending = false;
      },
    )
  ]

  unfoldable pub write_buffer_init : WriteBuffer → Status × WriteBuffer
  write_buffer_init wb = write_buffer_init_sized wb default_size

unfoldable pub write_buffer_cleanup : WriteBuffer → WriteBuffer
write_buffer_cleanup wb = record wb { block = 0; buffer = []; capacity = 0; head = 0; tail = 0 }

unfoldable pub write_buffer_reset : WriteBuffer → WriteBuffer
write_buffer_reset wb = record wb { head = 0; tail = 0; write_pending = false }

abbrev pub pending : WriteBuffer → ℕ
pending wb = sub_size wb.head wb.tail

-- The end of `write_buffer_append`.
pub store : Bytes → WriteBuffer → Status × WriteBuffer
store bytes wb = (
  ok,
  record wb { buffer = write_at wb.buffer wb.head bytes; head = add_size wb.head (length bytes) },
)

-- With a write in flight: the new capacity, clamped and then raised to what is needed.
abbrev pub clamped_capacity : ℕ → ℕ
clamped_capacity c = if ltb max_size (double_size c) then max_size else double_size c

pub pending_capacity : ℕ → WriteBuffer → ℕ
pending_capacity len wb =
    let n = clamped_capacity wb.capacity in
    if ltb n (add_size wb.head len) then add_size (add_size wb.head len) default_size else n

-- With none: the data moves to the start.
pub compact : WriteBuffer → WriteBuffer
compact wb = record wb {
  buffer =
      if ltb 0 (pending wb)
      then write_at wb.buffer 0 (take (pending wb) (drop wb.tail wb.buffer))
      else wb.buffer;
  head = pending wb;
  tail = 0;
}

pub raised_capacity : ℕ → WriteBuffer → ℕ
raised_capacity len wb =
    if ltb (double_size wb.capacity) (add_size wb.head len)
    then add_size wb.head len
    else double_size wb.capacity

module _ (alloc : Allocator) where
  -- `realloc` to `n` bytes, and then the store.
  pub grow_to : ℕ → Bytes → WriteBuffer → Status × WriteBuffer
  grow_to n bytes wb = if ltb max_size n then (full, wb) else elim (alloc.realloc wb.block n) [
    | none ↦ (no_memory, wb)
    | some p ↦
        store bytes (record wb { block = p; buffer = resize alloc.junk wb.buffer n; capacity = n })
  ]

  pub append_pending : Bytes → WriteBuffer → Status × WriteBuffer
  unfolding pending_capacity
  append_pending bytes wb = grow_to (pending_capacity (length bytes) wb) bytes wb

  -- After compaction `head` is the number of pending bytes.
  pub append_compacted : Bytes → WriteBuffer → Status × WriteBuffer
  unfolding raised_capacity
  append_compacted bytes wb =
      if ltb wb.capacity (add_size wb.head (length bytes))
      then grow_to (raised_capacity (length bytes) wb) bytes wb
      else store bytes wb

  unfoldable pub write_buffer_append : WriteBuffer → Bytes → Status × WriteBuffer
  unfolding store grow_to append_pending compact append_compacted
  write_buffer_append wb bytes =
      let len = length bytes in
      if ltb max_size (add_size (pending wb) len)
      then (full, wb)
      else if ltb (sub_size wb.capacity wb.head) len
      then (if wb.write_pending
          then append_pending bytes wb
          else append_compacted bytes (compact wb))
      else store bytes wb

-- The number of bytes consumed, and the buffer.
unfoldable pub write_buffer_consume : WriteBuffer → ℕ → ℕ × WriteBuffer
write_buffer_consume wb bytes =
    let n = if ltb (pending wb) bytes then pending wb else bytes in
    let tail = add_size wb.tail n in
    let drained = tail == wb.head in
    (
      n,
      record wb {
        head = if drained then 0 else wb.head;
        tail = if drained then 0 else tail;
        bytes_written = add_size wb.bytes_written n;
      },
    )

-- The bytes from the pointer on, and none for NULL.
unfoldable pub write_buffer_get_next : WriteBuffer → Option Bytes
write_buffer_get_next wb =
    if pending wb == 0 then none else some (take (pending wb) (drop wb.tail wb.buffer))

unfoldable pub write_buffer_has_data : WriteBuffer → Bool
write_buffer_has_data wb = ltb wb.tail wb.head

unfoldable pub write_buffer_set_pending : WriteBuffer → Bool → WriteBuffer
write_buffer_set_pending wb b = record wb { write_pending = b }

unfoldable pub write_buffer_is_busy : WriteBuffer → Bool
write_buffer_is_busy wb = wb.write_pending

unfoldable pub write_buffer_size : WriteBuffer → ℕ
write_buffer_size wb = pending wb

unfoldable pub write_buffer_is_full : WriteBuffer → Bool
write_buffer_is_full wb = leb max_size (pending wb)
