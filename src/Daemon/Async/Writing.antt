-- ===== src/Daemon/Async/Writing.antt =====
-- daemon.c, `start_async_write`, `handle_async_write`; curl_manager.c, `try_immediate_write`, `curl_manager_cancel_request`.
use mod_socket_handoff.Base.{
  ℕ, ◌+◌, ◌-◌, ◌%◌, ◌^◌, Bool, true, false, ◌&&◌, not, Option, none, some, Bytes, length, get_elem?,
  ◌==◌, if◌then◌else◌,
}
use mod_socket_handoff.Base.Int.{ℤ, pos, negsuc}
use mod_socket_handoff.Daemon.WriteBuffer.{
  WriteBuffer, write_buffer_has_data, write_buffer_is_busy, write_buffer_get_next,
  write_buffer_set_pending, write_buffer_consume,
}
use mod_socket_handoff.Daemon.ConnPool.{Connection}
use mod_socket_handoff.Daemon.Ring.{
  Ring, ring_submit, ring_submit_write, ring_submit_linked_timeout,
}
use mod_socket_handoff.Daemon.Loop.State.{
  Kernel, Daemon, set_conn, with_ring, count_failed, count_completed,
}
use mod_socket_handoff.Daemon.Loop.Dirty.{cleanup_connection}
use mod_socket_handoff.Daemon.Loop.Writes.{is_closing}

pub record Async : Type 0 where
  pub daemon : Daemon
  pub buffers : ℕ → WriteBuffer
  pub active_requests : ℕ

abbrev pub with_daemon : Async → Daemon → Async
with_daemon s d = record s { daemon = d }

abbrev pub set_buffer : Async → ℕ → WriteBuffer → Async
set_buffer s b wb = record s { buffers = λ a. if a == b then wb else s.buffers a }

-- The handle is removed and freed with its request; NULL is none.
unfoldable pub cancel_request : Async → ℕ → Connection → Option ℕ → Async
cancel_request s c conn none = s
cancel_request s c conn (some easy) = record s {
  daemon = set_conn s.daemon c (record conn { curl_easy = none });
  active_requests = s.active_requests - 1;
}

unfoldable pub cancel_at : Async → ℕ → Option Connection → Async
unfolding cancel_request
cancel_at s c none = s
cancel_at s c (some conn) = cancel_request s c conn conn.curl_easy

-- `cleanup_connection` with `use_curl_multi` set; `note` counts first.
unfoldable pub cleanup_async : (Daemon → Daemon) → ℕ → Async → Async
unfolding cancel_at
cleanup_async note c s =
    let s' = cancel_at (with_daemon s (note s.daemon)) c (get_elem? s.daemon.pool.connections c) in
    with_daemon s' (cleanup_connection s'.daemon c)

-- Whether the connection was freed, and with it its write buffer, and the state. The C function does not tell.
module _ (k : Kernel) where
  unfoldable pub after_timeout : ℕ → ℕ → WriteBuffer → Async → Bool × Ring → Bool × Async
  after_timeout c b wb s (true, r) = (
    false,
    set_buffer (with_daemon s (with_ring s.daemon (ring_submit r))) b
        (write_buffer_set_pending wb true),
  )
  after_timeout c b wb s (false, r) =
      (true, cleanup_async count_failed c (with_daemon s (with_ring s.daemon r)))

  unfoldable pub after_async_write : ℕ → ℕ → ℕ → WriteBuffer → Async → Bool × Ring → Bool × Async
  unfolding after_timeout
  after_async_write c id b wb s (true, r) =
      after_timeout c b wb s (ring_submit_linked_timeout k.room id s.daemon.write_timeout_ms r)
  after_async_write c id b wb s (false, r) =
      (true, cleanup_async count_failed c (with_daemon s (with_ring s.daemon r)))

  unfoldable pub write_next : ℕ → Connection → ℕ → WriteBuffer → Async → Option Bytes → Bool × Async
  unfolding after_async_write
  write_next c conn b wb s none = (false, s)
  write_next c conn b wb s (some text) = after_async_write c conn.id b wb s (
      ring_submit_write k.room conn.id conn.client_fd (wb.block + wb.tail) (length text)
        s.daemon.ring)

  unfoldable pub start_async_write : ℕ → Connection → ℕ → Async → Bool × Async
  unfolding write_next
  start_async_write c conn b s =
      let wb = s.buffers b in
      if write_buffer_has_data wb && not (write_buffer_is_busy wb)
      then write_next c conn b wb s (write_buffer_get_next wb)
      else (false, s)

  -- With the buffer at `b` consumed and free.
  unfoldable pub after_consume : ℕ → Connection → ℕ → Async → Async
  unfolding start_async_write
  after_consume c conn b s =
      if write_buffer_has_data (s.buffers b)
      then (start_async_write c conn b s).1
      else if is_closing conn.state
      then cleanup_async (count_completed conn.bytes_sent) c s
      else s

  -- With no buffer there is nothing to consume.
  unfoldable pub written_async : ℕ → Connection → ℕ → Async → Option ℕ → Async
  unfolding after_consume
  written_async c conn n s none =
      if is_closing conn.state then cleanup_async (count_completed conn.bytes_sent) c s else s
  written_async c conn n s (some b) =
      let wb = (write_buffer_consume (s.buffers b) n).1 in
      after_consume c conn b (set_buffer s b (write_buffer_set_pending wb false))

  unfoldable pub handle_async_write : Async → ℕ → Connection → ℤ → Async
  unfolding written_async
  handle_async_write s c conn (negsuc e) = cleanup_async count_failed c s
  handle_async_write s c conn (pos n) =
      let conn' = record conn { bytes_sent = (conn.bytes_sent + n) % 2 ^ 64 } in
      written_async c conn' n (with_daemon s (set_conn s.daemon c conn')) conn.async_write_buf

  -- A write that finds no place is left for later; a timeout that finds none is left out.
  unfoldable pub queued_now : ℕ → ℕ → WriteBuffer → Async → Bool × Ring → Async
  queued_now id b wb s (true, r) =
      let r' = (ring_submit_linked_timeout k.room id s.daemon.write_timeout_ms r).1 in
      set_buffer (with_daemon s (with_ring s.daemon (ring_submit r'))) b
        (write_buffer_set_pending wb true)
  queued_now id b wb s (false, r) = with_daemon s (with_ring s.daemon r)

  unfoldable pub write_now : Connection → ℕ → WriteBuffer → Async → Option Bytes → Async
  unfolding queued_now
  write_now conn b wb s none = s
  write_now conn b wb s (some text) = queued_now conn.id b wb s (
      ring_submit_write k.room conn.id conn.client_fd (wb.block + wb.tail) (length text)
        s.daemon.ring)

  unfoldable pub try_immediate_write : Connection → Async → Option ℕ → Async
  unfolding write_now
  try_immediate_write conn s none = s
  try_immediate_write conn s (some b) =
      let wb = s.buffers b in
      if write_buffer_has_data wb && not (write_buffer_is_busy wb)
      then write_now conn b wb s (write_buffer_get_next wb)
      else s
