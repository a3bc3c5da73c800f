-- ===== src/Daemon/WriteBuffer/Limits.antt =====
-- write_buffer.c, `write_buffer_append`: growth with a write in flight, and early refusals.
use mod_socket_handoff.Base.{
  ℕ, ◌+◌, ◌-◌, ◌*◌, ◌≤◌, ◌<◌, ◌≡◌, refl, ◌∙◌, false, Bytes, arith, length, ltb, lt→ltb, le→ltb,
  if◌then◌else◌,
}
use mod_socket_handoff.Daemon.WriteBuffer.{
  WriteBuffer, Allocator, full, max_size, add_size, sub_size, pending, grow_to, pending_capacity,
  append_pending, compact, raised_capacity, append_compacted, write_buffer_append, default_size,
  double_size,
}
use mod_socket_handoff.Daemon.WriteBuffer.Append.{IsValid, append-eq, pending-eq}

capacity_in_flight :
    (len : ℕ) (wb : WriteBuffer)
    → IsValid wb
    → wb.head + len + default_size ≤ max_size
    → ltb max_size (pending_capacity len wb) ≡ false
unfolding pending_capacity
capacity_in_flight len wb v l = ground arith

compact_sizes :
    (wb : WriteBuffer) → ((compact wb).capacity ≡ wb.capacity) × ((compact wb).head ≡ pending wb)
unfolding compact
compact_sizes wb = (refl, refl)

module _ (alloc : Allocator) where
  to_crowded :
      (wb : WriteBuffer) (bytes : Bytes)
      → IsValid wb
      → wb.head - wb.tail + length bytes ≤ max_size
      → wb.capacity < wb.head + length bytes
      → write_buffer_append alloc wb bytes ≡ (
          if wb.write_pending
          then append_pending alloc bytes wb
          else append_compacted alloc bytes (compact wb))
  to_crowded wb bytes v l h =
      append-eq alloc wb bytes
      ∙ rw (
        le→ltb max_size (add_size (pending wb) (length bytes)) (omega arith),
        lt→ltb (sub_size wb.capacity wb.head) (length bytes) (omega arith),
      )

  compacted_refused :
      (bytes : Bytes) (wb : WriteBuffer)
      → wb.capacity < add_size wb.head (length bytes)
      → max_size < double_size wb.capacity
      → (append_compacted alloc bytes wb).0 ≡ full
  unfolding append_compacted grow_to raised_capacity
  compacted_refused bytes wb h c = ground arith

  -- With none in flight, a buffer of more than half the limit that would have to grow is refused, although
  -- the data would be within the limit.
  pub append_refused_early :
      (wb : WriteBuffer) (bytes : Bytes)
      → IsValid wb
      → wb.write_pending ≡ false
      → max_size < wb.capacity * 2
      → wb.capacity < wb.head - wb.tail + length bytes
      → wb.head - wb.tail + length bytes ≤ max_size
      → (write_buffer_append alloc wb bytes).0 ≡ full
  append_refused_early wb bytes v w c h l = rw (to_crowded wb bytes v l (omega arith)) (
      simp w (
        compacted_refused bytes (compact wb) (omega (arith, compact_sizes wb, pending-eq v))
          (omega (arith, compact_sizes wb))))
