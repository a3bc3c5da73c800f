-- ===== src/Daemon/Loop/Safety/Outgoing.antt =====
-- daemon.c: sending and `process_cqe` keep the daemon sound.
use mod_socket_handoff.Base.{
  ℕ, ◌+◌, ◌-◌, ◌%◌, ◌^◌, ◌≡◌, ◌≢◌, refl, ◌&&◌, not, Option, some, none, List, [], ◌∷◌, Bytes,
  length, get_elem?, ltb, Bool-cases, inl, inr,
}
use mod_socket_handoff.Base.Int.{ℤ, pos, negsuc}
use mod_socket_handoff.Daemon.Streaming
use mod_socket_handoff.Daemon.Streaming.{stream_next_message, stream_format_sse}
use mod_socket_handoff.Daemon.ConnPool.{
  Connection, ConnState, unused, receiving_fd, streaming, closing, conn_get,
}
use mod_socket_handoff.Daemon.Ring.{
  Op, accept, recv_fd, write, eventfd, ring_unpack_data, ring_submit_eventfd_read, ring_submit,
}
use mod_socket_handoff.Daemon.Loop.State.{Kernel, Daemon, Cqe, set_conn}
use mod_socket_handoff.Daemon.Loop.Sound.{Sound, Live, if-Sound, set-Sound, set-Live, ring-Sound}
use mod_socket_handoff.Daemon.Loop.Handlers.{sse_done, handle_eventfd}
use mod_socket_handoff.Daemon.Loop.Writes.{
  is_closing, view, updated, resend, send_event, with_buffer, send_done, send_next, after_message,
  written_part, written, handle_write,
}
use mod_socket_handoff.Daemon.Loop.Steps.{
  on_recv, on_write, at_recv, at_write, found, after_eventfd, dispatch_op, process_cqe, process_all,
}
use mod_socket_handoff.Daemon.Loop.Handlers.{handle_recv_fd}
use mod_socket_handoff.Daemon.Loop.Safety.Sending.{
  failed-IsNote, completed-IsNote, cleanup_note-Sound, drop-Sound, send-Sound,
}
use mod_socket_handoff.Daemon.Loop.Safety.Incoming.{
  handle_accept-Sound, recv-Sound, handle_eventfd-Sound,
}

elim-Sound :
    (o : Option ℕ) (a b : Daemon)
    → Sound 0 a
    → Sound 0 b
    → Sound 0 (elim o [ none ↦ a | some x ↦ b ])
elim-Sound none a b p q = p
elim-Sound (some x) a b p q = q

module _ (k : Kernel) where
  resend-Sound :
      (d : Daemon) (c : ℕ) (conn : Connection) (buf : Option ℕ)
      → Sound 0 d
      → Live d c
      → Sound 0 (resend k d c conn buf)
  unfolding resend
  resend-Sound d c conn none s l = drop-Sound c s l
  resend-Sound d c conn (some b) s l =
      send-Sound k conn (b + conn.write_offset) (conn.write_len - conn.write_offset) d
        (failed-IsNote c) s l

  send_event-Sound :
      (d : Daemon) (c : ℕ) (conn : Connection) (b : ℕ) (text : Option Bytes)
      → conn.state ≢ unused
      → Sound 0 d
      → Live d c
      → Sound 0 (send_event k d c conn b text)
  unfolding send_event
  send_event-Sound d c conn b none n s l = drop-Sound c s l
  send_event-Sound d c conn b (some text) n s l =
      let v : Connection = record conn { write_len = length text; write_offset = 0 } in
      send-Sound k v b (length text) (set_conn d c v) (failed-IsNote c) (set-Sound c v s l)
        (set-Live c v n l)

  with_buffer-Sound :
      (d : Daemon) (c : ℕ) (conn : Connection) (msg : Bytes) (buf : Option ℕ)
      → conn.state ≢ unused
      → Sound 0 d
      → Live d c
      → Sound 0 (with_buffer k d c conn msg buf)
  unfolding with_buffer
  with_buffer-Sound d c conn msg none n s l = drop-Sound c s l
  with_buffer-Sound d c conn msg (some b) n s l =
      let v : Connection = record conn { write_buf = some b } in
      send_event-Sound (set_conn d c v) c v b (stream_format_sse 4096 msg) n (set-Sound c v s l)
        (set-Live c v n l)

  send_done-Sound :
      (d : Daemon) (c : ℕ) (conn : Connection)
      → Sound 0 d
      → Live d c
      → Sound 0 (send_done k d c conn)
  unfolding send_done
  send_done-Sound d c conn s l =
      let v : Connection = record conn {
        state = closing;
        write_len = length sse_done;
        write_offset = 0;
      } in
      send-Sound k v k.done_at (length sse_done) (set_conn d c v)
        (completed-IsNote c conn.bytes_sent) (set-Sound c v s l) (set-Live c v (λ z. cc) l)

  send_next-Sound :
      (d : Daemon) (c : ℕ) (conn : Connection) (o : Option Bytes × Streaming.Connection)
      → conn.state ≢ unused
      → Sound 0 d
      → Live d c
      → Sound 0 (send_next k d c conn o)
  unfolding send_next
  send_next-Sound d c conn (none, w) n s l = send_done-Sound d c (updated k conn w) s l
  send_next-Sound d c conn (some msg, w) n s l =
      let v = updated k conn w in
      with_buffer-Sound (set_conn d c v) c v msg (k.malloc 4096) n (set-Sound c v s l)
        (set-Live c v n l)

  after_message-Sound :
      (d : Daemon) (c : ℕ) (conn : Connection)
      → conn.state ≢ unused
      → Sound 0 d
      → Live d c
      → Sound 0 (after_message k d c conn)
  unfolding after_message
  after_message-Sound d c conn n s l =
      if-Sound _ _ (is_closing conn.state)
        (cleanup_note-Sound d (completed-IsNote c conn.bytes_sent) s l)
        (send_next-Sound d c conn (stream_next_message k.print (view k conn)) n s l)

  written_part-Sound :
      (d : Daemon) (c : ℕ) (conn : Connection)
      → conn.state ≢ unused
      → Sound 0 d
      → Live d c
      → Sound 0 (written_part k d c conn)
  unfolding written_part
  written_part-Sound d c conn n s l =
      let v : Connection = record conn { write_len = 0; write_offset = 0; write_buf = none } in
      if-Sound _ _ (ltb 0 conn.write_len && ltb conn.write_offset conn.write_len)
        (resend-Sound d c conn conn.write_buf s l)
        (after_message-Sound (set_conn d c v) c v n (set-Sound c v s l) (set-Live c v n l))

  written-Sound :
      (d : Daemon) (c : ℕ) (conn : Connection) (res : ℤ)
      → conn.state ≢ unused
      → Sound 0 d
      → Live d c
      → Sound 0 (written k d c conn res)
  unfolding written
  written-Sound d c conn (negsuc e) n s l = drop-Sound c s l
  written-Sound d c conn (pos m) n s l =
      let v : Connection = record conn {
        bytes_sent = (conn.bytes_sent + m) % 2 ^ 64;
        write_offset = (conn.write_offset + m) % 2 ^ 64;
      } in
      written_part-Sound (set_conn d c v) c v n (set-Sound c v s l) (set-Live c v n l)

  pub on_write-Sound :
      (d : Daemon) (c : ℕ) (cqe : Cqe) (conn : Connection) (state : ConnState)
      → state ≡ conn.state
      → get_elem? d.pool.connections c ≡ some conn
      → Sound 0 d
      → Sound 0 (on_write k d c cqe conn state)
  unfolding on_write handle_write
  on_write-Sound d c cqe conn streaming e f s =
      written-Sound d c conn cqe.res (λ z. cc) s (record { conn = conn; found = f; used = λ z. cc })
  on_write-Sound d c cqe conn closing e f s =
      written-Sound d c conn cqe.res (λ z. cc) s (record { conn = conn; found = f; used = λ z. cc })
  on_write-Sound d c cqe conn _ e f s = s

  on_recv-Sound :
      (d : Daemon) (c : ℕ) (cqe : Cqe) (conn : Connection) (state : ConnState)
      → state ≡ conn.state
      → get_elem? d.pool.connections c ≡ some conn
      → Sound 0 d
      → Sound 0 (on_recv k d c cqe conn state)
  unfolding on_recv handle_recv_fd
  on_recv-Sound d c cqe conn receiving_fd e f s =
      recv-Sound k d c conn cqe.received cqe.res (λ z. cc) s
        (record { conn = conn; found = f; used = λ z. cc })
  on_recv-Sound d c cqe conn _ e f s = s

  at_recv-Sound :
      (d : Daemon) (c : ℕ) (cqe : Cqe) (o : Option Connection)
      → get_elem? d.pool.connections c ≡ o
      → Sound 0 d
      → Sound 0 (at_recv k d c cqe o)
  unfolding at_recv
  at_recv-Sound d c cqe none e s = s
  at_recv-Sound d c cqe (some conn) e s = on_recv-Sound d c cqe conn conn.state refl e s

  at_write-Sound :
      (d : Daemon) (c : ℕ) (cqe : Cqe) (o : Option Connection)
      → get_elem? d.pool.connections c ≡ o
      → Sound 0 d
      → Sound 0 (at_write k d c cqe o)
  unfolding at_write
  at_write-Sound d c cqe none e s = s
  at_write-Sound d c cqe (some conn) e s =
      elim-Sound conn.async_write_buf (on_write k d c cqe conn conn.state) d
        (on_write-Sound d c cqe conn conn.state refl e s) s

  -- A completion names a slot of the pool or none.
  pub found_cases :
      (P : Option Connection → Type 0) (d : Daemon) (c : ℕ)
      → P none
      → P (get_elem? d.pool.connections c)
      → P (found k d (conn_get d.pool c))
  unfolding conn_get
  found_cases P d c p q = elim (Bool-cases (ltb c d.pool.max_connections)) [
    | inl e ↦ simp e q
    | inr e ↦ simp e p
  ]

  after_eventfd-Sound : (d : Daemon) → Sound 0 d → Sound 0 (after_eventfd k d)
  unfolding after_eventfd
  after_eventfd-Sound d s =
      if-Sound _ _ (d.use_thread_pool && not d.shutdown_requested)
        (ring-Sound (ring_submit_eventfd_read k.room d.event_fd d.ring).1 s) s

  pub dispatch_op-Sound :
      (d : Daemon) (cqe : Cqe) (op : Option Op) (c : ℕ)
      → Sound 0 d
      → Sound 0 (dispatch_op k d cqe op c)
  unfolding dispatch_op
  dispatch_op-Sound d cqe (some accept) c s = handle_accept-Sound k d cqe s
  dispatch_op-Sound d cqe (some recv_fd) c s =
      found_cases (λ (o : Option Connection). Sound 0 (at_recv k d c cqe o)) d c
        ((unfold at_recv in s)) (at_recv-Sound d c cqe _ refl s)
  dispatch_op-Sound d cqe (some write) c s =
      found_cases (λ (o : Option Connection). Sound 0 (at_write k d c cqe o)) d c
        (unfold at_write in s) (at_write-Sound d c cqe _ refl s)
  dispatch_op-Sound d cqe (some eventfd) c s =
      after_eventfd-Sound (handle_eventfd k d) (handle_eventfd-Sound k d s)
  dispatch_op-Sound d cqe _ c s = s

  pub process_cqe-Sound : (d : Daemon) (cqe : Cqe) → Sound 0 d → Sound 0 (process_cqe k d cqe)
  unfolding process_cqe
  process_cqe-Sound d cqe s =
      let (op, c) = ring_unpack_data cqe.user_data in dispatch_op-Sound d cqe op c s

  pub process_all-Sound :
      (d : Daemon) (cqes : List Cqe) → Sound 0 d → Sound 0 (process_all k d cqes)
  unfolding process_all
  process_all-Sound d [] s = ring-Sound (ring_submit d.ring) s
  process_all-Sound d (cqe ∷ cqes) s =
      process_all-Sound (process_cqe k d cqe) cqes (process_cqe-Sound d cqe s)
