-- ===== src/Daemon/Loop/Handlers.antt =====
-- daemon.c: `handle_accept`, `start_streaming`, `handle_recv_fd` and `handle_eventfd`.
use mod_socket_handoff.Base.{
  ℕ, zero, suc, Bool, true, false, Option, none, some, ◌++◌, Bytes, codes, length, get_elem?,
  if◌then◌else◌,
}
use mod_socket_handoff.Base.Int.{ℤ, pos, negsuc}
use mod_socket_handoff.Daemon.ConnPool.{
  Connection, ConnState, receiving_fd, parsing, llm_queued, streaming, streamed, closing,
  conn_alloc,
}
use mod_socket_handoff.Daemon.Ring.{
  Ring, ring_submit_accept, ring_submit_recvmsg, ring_submit_write, ring_submit_linked_timeout,
}
use mod_socket_handoff.Daemon.ThreadPool.{ThreadPool, pool_submit, pool_get_completion}
use mod_socket_handoff.Daemon.Loop.State.{
  Kernel, Daemon, Cqe, set_conn, with_ring, count_started, count_failed, count_completed, close,
}
use mod_socket_handoff.Daemon.Loop.Dirty.{cleanup_connection}

abbrev pub sse_headers : Bytes
sse_headers =
    codes "HTTP/1.1 200 OK\r\n"
    ++ (codes "Content-Type: text/event-stream\r\n"
        ++ (codes "Cache-Control: no-cache\r\n"
            ++ (codes "Connection: close\r\n" ++ codes "X-Accel-Buffering: no\r\n\r\n")))

abbrev pub sse_done : Bytes
sse_done = codes "data: [DONE]\n\n"

abbrev pub drop_failed : ℕ → Daemon → Daemon
drop_failed c d = cleanup_connection (count_failed d) c

module _ (k : Kernel) where
  -- A first call, and so many more while the queue is full.
  unfoldable pub accept_again : ℕ → ℤ → Bool × Ring → Ring
  accept_again zero fd (ok, r) = r
  accept_again (suc n) fd (true, r) = r
  accept_again (suc n) fd (false, r) = accept_again n fd (ring_submit_accept k.room fd r)

  unfoldable pub resubmit_accept : Cqe → Daemon → Daemon
  unfolding accept_again
  resubmit_accept cqe d =
      if cqe.more
      then d
      else if d.shutdown_requested
      then d
      else with_ring d (accept_again 3 d.listen_fd (ring_submit_accept k.room d.listen_fd d.ring))

  -- The result of the submission that was the last step of a handler.
  unfoldable pub or_drop : ℕ → (Daemon → Daemon) → Daemon → Bool × Ring → Daemon
  or_drop c note d (true, r) = with_ring d r
  or_drop c note d (false, r) = cleanup_connection (note (with_ring d r)) c

  -- A connection that was accepted waits for the descriptor.
  unfoldable pub receive : Daemon → ℕ → ℕ → Option Connection → Daemon
  unfolding or_drop
  receive d c fd none = d
  receive d c fd (some conn) =
      let d' =
        count_started (set_conn d c (record conn { unix_fd = pos fd; state = receiving_fd })) in
      or_drop c (λ (x : Daemon). x) d'
        (ring_submit_recvmsg k.room conn.id (pos fd) (k.recv_context conn.id) d'.ring)

  unfoldable pub accepted : Daemon → ℕ → Option ℕ → Daemon
  unfolding receive
  accepted d fd none = close (pos fd) d
  accepted d fd (some c) = receive d c fd (get_elem? d.pool.connections c)

  unfoldable pub accept_fd : Daemon → ℤ → Daemon
  unfolding accepted
  accept_fd d (negsuc e) = d
  accept_fd d (pos fd) =
      let (got, pool') = conn_alloc k.malloc d.pool in accepted (record d { pool = pool' }) fd got

  unfoldable pub handle_accept : Daemon → Cqe → Daemon
  unfolding resubmit_accept accept_fd
  handle_accept d cqe = accept_fd (resubmit_accept cqe d) cqe.res

  -- A write and its timeout; `note` counts a write that could not be submitted.
  unfoldable pub after_write : ℕ → ℕ → (Daemon → Daemon) → Daemon → Bool × Ring → Daemon
  unfolding or_drop
  after_write c id note d (true, r) =
      or_drop c count_failed d (ring_submit_linked_timeout k.room id d.write_timeout_ms r)
  after_write c id note d (false, r) = cleanup_connection (note (with_ring d r)) c

  unfoldable pub send : ℕ → Connection → ℕ → ℕ → (Daemon → Daemon) → Daemon → Daemon
  unfolding after_write
  send c conn buf len note d =
      after_write c conn.id note d (ring_submit_write k.room conn.id conn.client_fd buf len d.ring)

  unfoldable pub start_streaming : Daemon → ℕ → Connection → Daemon
  unfolding send
  start_streaming d c conn =
      let conn' = record conn { write_len = length sse_headers; write_offset = 0 } in
      send c conn' k.headers_at (length sse_headers) count_failed (set_conn d c conn')

  unfoldable pub queue_or_drop : Daemon → ℕ → Bool × ThreadPool → Daemon
  queue_or_drop d c (true, tp') = record d { tp = tp' }
  queue_or_drop d c (false, tp') = drop_failed c (record d { tp = tp' })

  -- Whether `malloc` gives the memory of a work item.
  abbrev has_block : Option ℕ → Bool
  has_block none = false
  has_block (some b) = true

  -- With the client's socket in place.
  unfoldable pub dispatch : Daemon → ℕ → Connection → Daemon
  unfolding queue_or_drop
  dispatch d c conn =
      if d.use_thread_pool
      then queue_or_drop (set_conn d c (record conn { state = llm_queued })) c
          (pool_submit (has_block (k.malloc 16)) d.tp c)
      else start_streaming d c (record conn { state = streaming; stream_index = 0 })

  unfoldable pub received_fd : Daemon → ℕ → Connection → Option ℕ → Daemon
  unfolding dispatch
  received_fd d c conn none = drop_failed c (set_conn d c conn)
  received_fd d c conn (some fd) =
      let conn' = record conn { client_fd = pos fd; unix_fd = negsuc 0 } in
      let d' = close conn.unix_fd (set_conn d c conn') in
      if k.is_stream fd
      then dispatch d' c (record conn' {
        state = parsing;
        handoff_data = k.parse conn.handoff_buf conn.handoff_len;
      })
      else drop_failed c d'

  unfoldable pub received : Daemon → ℕ → Connection → Option ℕ → ℤ → Daemon
  unfolding received_fd
  received d c conn fd (negsuc e) = drop_failed c d
  received d c conn fd (pos n) = received_fd d c (record conn { handoff_len = n }) fd

  unfoldable pub handle_recv_fd : Daemon → ℕ → Connection → Cqe → Daemon
  unfolding received
  handle_recv_fd d c conn cqe = received d c conn cqe.received cqe.res

  -- A connection that a worker has handed back.
  unfoldable pub finish : Daemon → ℕ → Connection → ConnState → Daemon
  finish d c conn streaming = start_streaming d c conn
  finish d c conn streamed = cleanup_connection (count_completed conn.bytes_sent d) c
  finish d c conn closing = drop_failed c d
  finish d c conn _ = d

  unfoldable pub finish_at : Daemon → ℕ → Option Connection → Daemon
  unfolding finish
  finish_at d c none = d
  finish_at d c (some conn) = finish d c conn conn.state

  unfoldable pub fetched : (Daemon → Daemon) → Daemon → Option ℕ × ThreadPool → Daemon
  unfolding finish_at
  fetched rest d (none, tp') = record d { tp = tp' }
  fetched rest d (some c, tp') =
      let d' = record d { tp = tp' } in rest (finish_at d' c (get_elem? d'.pool.connections c))

  -- At most so many completions; the ring of the thread pool holds fewer than its size.
  unfoldable pub all_completions : ℕ → Daemon → Daemon
  unfolding fetched
  all_completions zero d = d
  all_completions (suc n) d = fetched (all_completions n) d (pool_get_completion d.tp)

  unfoldable pub handle_eventfd : Daemon → Daemon
  unfolding all_completions
  handle_eventfd d = all_completions d.tp.completion_size d
