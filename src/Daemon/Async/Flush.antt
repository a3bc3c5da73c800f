-- ===== src/Daemon/Async/Flush.antt =====
-- daemon.c, `flush_streaming_connections`.
use mod_socket_handoff.Base.{
  ℕ, zero, suc, Bool, true, false, ◌&&◌, not, Option, none, some, length, get_elem?, if◌then◌else◌,
}
use mod_socket_handoff.Daemon.WriteBuffer.{WriteBuffer, write_buffer_has_data, write_buffer_is_busy}
use mod_socket_handoff.Daemon.ConnPool.{Connection, ConnState, streaming, curl_active, closing}
use mod_socket_handoff.Daemon.Loop.State.{Kernel, Daemon}
use mod_socket_handoff.Daemon.Loop.Dirty.{set_dirty_next, set_flags, is_index}
use mod_socket_handoff.Daemon.Async.Writing.{Async, with_daemon, start_async_write}

abbrev pub is_writing : ConnState → Bool
is_writing streaming = true
is_writing curl_active = true
is_writing closing = true
is_writing _ = false

-- `conn` is taken out between `prev` and `next`.
unfoldable pub relink : Daemon → Option ℕ → Option ℕ → Daemon
unfolding set_dirty_next
relink d none next = record d { dirty_head = next }
relink d (some p) next = set_dirty_next d p next

unfoldable pub take_out : Daemon → ℕ → Option ℕ → Option ℕ → Daemon
unfolding relink set_flags
take_out d c prev next =
    let d' = relink d prev next in
    let d'' = if is_index d.dirty_tail c then record d' { dirty_tail = prev } else d' in
    set_flags d'' c false

-- `stale` is what is read at the place of a write buffer after it was freed.
module _ (k : Kernel) (stale : ℕ → WriteBuffer) where
  -- The round for `c` after `start_async_write`, which may have freed the connection and the buffer at `b`: the buffer is read
  -- all the same, and if it has nothing left the connection leaves the list.
  unfoldable pub after_start : ℕ → ℕ → Option ℕ → Option ℕ → Bool × Async → Option ℕ × Async
  unfolding take_out
  after_start c b prev next (freed, s) =
      let wb = if freed then stale b else s.buffers b in
      if not (write_buffer_has_data wb) && not (write_buffer_is_busy wb)
      then (prev, with_daemon s (take_out s.daemon c prev next))
      else (some c, s)

  unfoldable pub flush_one : Async → ℕ → Connection → Option ℕ → Option ℕ → Option ℕ × Async
  unfolding after_start
  flush_one s c conn prev none = (some c, s)
  flush_one s c conn prev (some b) =
      after_start c b prev conn.dirty_next (start_async_write k c conn b s)

  unfoldable pub flush_round : Async → ℕ → Connection → Option ℕ → Option ℕ × Async
  unfolding flush_one
  flush_round s c conn prev =
      if is_writing conn.state
      then flush_one s c conn prev conn.async_write_buf
      else (prev, with_daemon s (take_out s.daemon c prev conn.dirty_next))

  -- The connection of an index; there always is one.
  unfoldable pub flush_at :
      (Option ℕ → Option ℕ → Async → Async) → Async → ℕ → Option ℕ → Option Connection → Async
  unfolding flush_round
  flush_at loop s c prev none = s
  flush_at loop s c prev (some conn) =
      let (prev', s') = flush_round s c conn prev in loop prev' conn.dirty_next s'

  -- For at most as many rounds as there are connections.
  unfoldable pub flush_from : ℕ → Option ℕ → Option ℕ → Async → Async
  unfolding flush_at
  flush_from n prev none s = s
  flush_from zero prev (some c) s = s
  flush_from (suc n) prev (some c) s =
      flush_at (flush_from n) s c prev (get_elem? s.daemon.pool.connections c)

  unfoldable pub flush_streaming_connections : Async → Async
  unfolding flush_from
  flush_streaming_connections s =
      flush_from (length s.daemon.pool.connections) none s.daemon.dirty_head s
