-- ===== src/Daemon/Loop/Steps.antt =====
-- daemon.c: `process_cqe` and the loop of `daemon_run`, over the completions in their order.
use mod_socket_handoff.Base.{
  ℕ, ◌&&◌, not, Option, none, some, List, [], ◌∷◌, get_elem?, if◌then◌else◌,
}
use mod_socket_handoff.Daemon.ConnPool.{
  Connection, ConnState, receiving_fd, streaming, closing, conn_get,
}
use mod_socket_handoff.Daemon.Ring.{
  Op, accept, recv_fd, write, eventfd, ring_unpack_data, ring_submit_eventfd_read, ring_submit,
}
use mod_socket_handoff.Daemon.Loop.State.{Kernel, Daemon, Cqe, with_ring}
use mod_socket_handoff.Daemon.Loop.Handlers.{handle_accept, handle_recv_fd, handle_eventfd}
use mod_socket_handoff.Daemon.Loop.Writes.{handle_write}

module _ (k : Kernel) where
  -- Only in the state in which the operation was submitted.
  unfoldable pub on_recv : Daemon → ℕ → Cqe → Connection → ConnState → Daemon
  on_recv d c cqe conn receiving_fd = handle_recv_fd k d c conn cqe
  on_recv d c cqe conn _ = d

  unfoldable pub on_write : Daemon → ℕ → Cqe → Connection → ConnState → Daemon
  on_write d c cqe conn streaming = handle_write k d c conn cqe
  on_write d c cqe conn closing = handle_write k d c conn cqe
  on_write d c cqe conn _ = d

  unfoldable pub at_recv : Daemon → ℕ → Cqe → Option Connection → Daemon
  unfolding on_recv
  at_recv d c cqe none = d
  at_recv d c cqe (some conn) = on_recv d c cqe conn conn.state

  -- An asynchronous write buffer is of the other build.
  unfoldable pub at_write : Daemon → ℕ → Cqe → Option Connection → Daemon
  unfolding on_write
  at_write d c cqe none = d
  at_write d c cqe (some conn) = elim conn.async_write_buf [
    | none ↦ on_write d c cqe conn conn.state
    | some b ↦ d
  ]

  abbrev pub found : Daemon → Option ℕ → Option Connection
  found d none = none
  found d (some c) = get_elem? d.pool.connections c

  unfoldable pub after_eventfd : Daemon → Daemon
  after_eventfd d =
      if d.use_thread_pool && not d.shutdown_requested
      then with_ring d (ring_submit_eventfd_read k.room d.event_fd d.ring).1
      else d

  unfoldable pub dispatch_op : Daemon → Cqe → Option Op → ℕ → Daemon
  unfolding at_recv at_write after_eventfd
  dispatch_op d cqe (some accept) c = handle_accept k d cqe
  dispatch_op d cqe (some recv_fd) c = at_recv d c cqe (found d (conn_get d.pool c))
  dispatch_op d cqe (some write) c = at_write d c cqe (found d (conn_get d.pool c))
  dispatch_op d cqe (some eventfd) c = after_eventfd (handle_eventfd k d)
  dispatch_op d cqe _ c = d

  unfoldable pub process_cqe : Daemon → Cqe → Daemon
  unfolding dispatch_op
  process_cqe d cqe =
      let (op, conn_id) = ring_unpack_data cqe.user_data in dispatch_op d cqe op conn_id

  -- The completions that one wait brings, and then the submission.
  unfoldable pub process_all : Daemon → List Cqe → Daemon
  process_all d [] = with_ring d (ring_submit d.ring)
  process_all d (cqe ∷ cqes) = process_all (process_cqe d cqe) cqes
