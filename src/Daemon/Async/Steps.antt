-- ===== src/Daemon/Async/Steps.antt =====
-- daemon.c, the build with BACKEND_OPENAI: `handle_recv_fd` and `process_cqe` where they differ from the other build,
-- and the steps of the daemon with `use_curl_multi`.
pub mod Safety
use mod_socket_handoff.Base.{
  ℕ, ◌+◌, ◌≡◌, ◌<◌, ◌^◌, Bool, true, false, Option, none, some, Bytes, get_elem?, if◌then◌else◌,
}
use mod_socket_handoff.Base.Int.{ℤ, pos, negsuc}
use mod_socket_handoff.Daemon.WriteBuffer.{Allocator, WriteBuffer}
use mod_socket_handoff.Daemon.ConnPool.{
  Connection, ConnState, receiving_fd, parsing, curl_pending, conn_get, Pool, conn_pool_init,
}
use mod_socket_handoff.Daemon.Loop.State.{Kernel, Daemon, Cqe, set_conn, close, with_ring}
use mod_socket_handoff.Daemon.Loop.Handlers.{drop_failed}
use mod_socket_handoff.Daemon.Loop.Writes.{text_at, handle_write}
use mod_socket_handoff.Daemon.Loop.Steps.{found, on_write, dispatch_op}
use mod_socket_handoff.Daemon.Loop.Sound.{Live}
use mod_socket_handoff.Daemon.Ring.{Op, recv_fd, write, ring_unpack_data, ring_submit}
use mod_socket_handoff.Daemon.Curl.Lines.{Outcome, failed, fine}
use mod_socket_handoff.Daemon.Curl.Request.{Setup, Sent, curl_manager_start_request}
use mod_socket_handoff.Daemon.Async.Writing.{Async, with_daemon, handle_async_write}
use mod_socket_handoff.Daemon.Async.Flush.{is_writing, flush_streaming_connections}
use mod_socket_handoff.Daemon.Async.Receiving.{Request, write_callback, finish_request}

-- A request that could not be started is dropped; it has no handle.
unfoldable pub requested : Async → ℕ → Connection → Option Sent → Async
requested s c conn none = with_daemon s (drop_failed c (set_conn s.daemon c conn))
requested s c conn (some sent) = record s {
  daemon = set_conn s.daemon c (record conn { curl_easy = some sent.easy; state = curl_pending });
  active_requests = s.active_requests + 1;
}

module _ (k : Kernel) (u : Setup) where
  unfoldable pub start_request_for : Async → ℕ → Connection → Async
  unfolding requested
  start_request_for s c conn = requested s c conn (
      curl_manager_start_request u (text_at k.memory conn.handoff_data.prompt)
        (text_at k.memory conn.handoff_data.model) conn.handoff_data.max_tokens)

  unfoldable pub received_fd_async : Async → ℕ → Connection → Option ℕ → Async
  unfolding start_request_for
  received_fd_async s c conn none = with_daemon s (drop_failed c (set_conn s.daemon c conn))
  received_fd_async s c conn (some fd) =
      let conn' = record conn { client_fd = pos fd; unix_fd = negsuc 0 } in
      let s' = with_daemon s (close conn.unix_fd (set_conn s.daemon c conn')) in
      if k.is_stream fd
      then start_request_for s' c (record conn' {
        state = parsing;
        handoff_data = k.parse conn.handoff_buf conn.handoff_len;
      })
      else with_daemon s' (drop_failed c s'.daemon)

  unfoldable pub received_async : Async → ℕ → Connection → Option ℕ → ℤ → Async
  unfolding received_fd_async
  received_async s c conn fd (negsuc e) = with_daemon s (drop_failed c s.daemon)
  received_async s c conn fd (pos n) = received_fd_async s c (record conn { handoff_len = n }) fd

  -- Only in the state in which the descriptor is awaited.
  unfoldable pub on_recv_async : Async → ℕ → Connection → ConnState → Cqe → Async
  unfolding received_async
  on_recv_async s c conn receiving_fd cqe = received_async s c conn cqe.received cqe.res
  on_recv_async s c conn _ cqe = s

  unfoldable pub at_recv_async : Async → ℕ → Option Connection → Cqe → Async
  unfolding on_recv_async
  at_recv_async s c none cqe = s
  at_recv_async s c (some conn) cqe = on_recv_async s c conn conn.state cqe

  -- With an asynchronous buffer in its states, without one as in the other build.
  unfoldable pub on_write_async : Async → ℕ → Connection → Option ℕ → Cqe → Async
  on_write_async s c conn none cqe = with_daemon s (on_write k s.daemon c cqe conn conn.state)
  on_write_async s c conn (some b) cqe =
      if is_writing conn.state then handle_async_write k s c conn cqe.res else s

  unfoldable pub at_write_async : Async → ℕ → Option Connection → Cqe → Async
  unfolding on_write_async
  at_write_async s c none cqe = s
  at_write_async s c (some conn) cqe = on_write_async s c conn conn.async_write_buf cqe

  -- A poll or a timer only has libcurl call back.
  unfoldable pub dispatch_async : Async → Cqe → Option Op → ℕ → Async
  unfolding at_recv_async at_write_async
  dispatch_async s cqe (some recv_fd) c =
      at_recv_async s c (found k s.daemon (conn_get s.daemon.pool c)) cqe
  dispatch_async s cqe (some write) c =
      at_write_async s c (found k s.daemon (conn_get s.daemon.pool c)) cqe
  dispatch_async s cqe op c = with_daemon s (dispatch_op k s.daemon cqe op c)

  unfoldable pub process_cqe_async : Async → Cqe → Async
  unfolding dispatch_async
  process_cqe_async s cqe =
      let (op, conn_id) = ring_unpack_data cqe.user_data in dispatch_async s cqe op conn_id

-- The state that a callback leaves.
abbrev pub left_by : {A : Type 0} → Outcome (Async × Request) ((Async × Request) × A) → Async
left_by (failed (s, req)) = s
left_by (fine ((s, req), held)) = s

-- The main loop takes a completion, flushes or submits; libcurl hands over bytes of a response or the end of a request of a
-- connection that is in use, since the handle goes with the connection; a signal asks for the end.
pub data Step (s : Async) : Async → Type 0 where
  complete : (k : Kernel) (u : Setup) (cqe : Cqe) → Step s (process_cqe_async k u s cqe)
  receive :
      (k : Kernel) (alloc : Allocator) (req : Request) (held bytes : Bytes)
      → Live s.daemon req.conn
      → Step s (left_by (write_callback k alloc ((s, req), held) bytes))
  end :
      (k : Kernel) (alloc : Allocator) (req : Request) (result : Bool) (http_code : ℕ)
      → Live s.daemon req.conn
      → Step s (finish_request k alloc s req result http_code)
  flush : (k : Kernel) (stale : ℕ → WriteBuffer) → Step s (flush_streaming_connections k stale s)
  wait : Step s (with_daemon s (with_ring s.daemon (ring_submit s.daemon.ring)))
  stop : Step s (with_daemon s (record s.daemon { shutdown_requested = true }))

-- From the pool as `conn_pool_init` leaves it, with nothing counted.
pub data Reach : Async → Type 0 where
  start :
      (s : Async) (pool : Pool)
      → pool.max_connections < 2 ^ 31
      → s.daemon.pool ≡ (conn_pool_init true pool).1
      → s.daemon.total_completed + s.daemon.total_failed ≡ 0
      → Reach s
  later : {s s' : Async} → Reach s → Step s s' → Reach s'
