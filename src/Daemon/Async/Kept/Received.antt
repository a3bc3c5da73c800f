-- ===== src/Daemon/Async/Kept/Received.antt =====
-- curl_manager.c: what queues text for a connection.
use mod_socket_handoff.Base.{
  ℕ, ◌+◌, ◌&&◌, not, ◌≡◌, ◌≢◌, Bool, true, false, Option, none, some, Bytes, length, get_elem?,
}
use mod_socket_handoff.Daemon.WriteBuffer.{
  WriteBuffer, Status, ok, no_memory, full, Allocator, write_buffer_has_data, write_buffer_is_busy,
  write_buffer_get_next, write_buffer_init, write_buffer_append,
}
use mod_socket_handoff.Daemon.ConnPool.{Connection, curl_active, closing, unused}
use mod_socket_handoff.Daemon.Ring.{
  Ring, ring_submit, ring_submit_write, ring_submit_linked_timeout,
}
use mod_socket_handoff.Daemon.Streaming.{stream_format_sse}
use mod_socket_handoff.Daemon.Loop.State.{Kernel}
use mod_socket_handoff.Daemon.Loop.Relinked.{mark-IsRelinked}
use mod_socket_handoff.Daemon.Curl.Lines.{Outcome, failed, fine}
use mod_socket_handoff.Daemon.Async.Writing.{
  Async, set_buffer, queued_now, write_now, try_immediate_write,
}
use mod_socket_handoff.Daemon.Async.Receiving.{
  Request, change_conn, new_buffer, init_buffer, get_buffer, appended, append_to, queue_text,
  write_at_once, content_queued, queue_event, queue_content, headers_queued,
}
use mod_socket_handoff.Daemon.Async.Kept.{Good, if-Good, ring-Good, relinked-Good, change-Good}

pub closing_used : closing ≢ unused
closing_used e = cc

active_used : curl_active ≢ unused
active_used e = cc

-- Whatever the outcome, the connection is in use in a sound state.
abbrev pub Kept : ℕ → Outcome Async Async → Type 0
Kept c (failed s) = Good c s.daemon
Kept c (fine s) = Good c s.daemon

abbrev pub KeptRequest : ℕ → Outcome (Async × Request) (Async × Request) → Type 0
KeptRequest c (failed (s, req)) = Good c s.daemon
KeptRequest c (fine (s, req)) = Good c s.daemon × (req.conn ≡ c)

abbrev pub KeptLines : ℕ → Outcome (Async × Request) ((Async × Request) × Bytes) → Type 0
KeptLines c (failed (s, req)) = Good c s.daemon
KeptLines c (fine ((s, req), held)) = Good c s.daemon × (req.conn ≡ c)

module _ (k : Kernel) where
  queued_now-Good :
      {c : ℕ} (id b : ℕ) (wb : WriteBuffer) (s : Async) (o : Bool × Ring)
      → Good c s.daemon
      → Good c (queued_now k id b wb s o).daemon
  unfolding queued_now
  queued_now-Good id b wb s (true, r) g =
      ring-Good (ring_submit (ring_submit_linked_timeout k.room id s.daemon.write_timeout_ms r).1) g
  queued_now-Good id b wb s (false, r) g = ring-Good r g

  write_now-Good :
      {c : ℕ} (conn : Connection) (b : ℕ) (wb : WriteBuffer) (s : Async) (next : Option Bytes)
      → Good c s.daemon
      → Good c (write_now k conn b wb s next).daemon
  unfolding write_now
  write_now-Good conn b wb s none g = g
  write_now-Good conn b wb s (some text) g =
      queued_now-Good conn.id b wb s
        (ring_submit_write k.room conn.id conn.client_fd (wb.block + wb.tail) (length text)
          s.daemon.ring)
        g

  try-Good :
      {c : ℕ} (conn : Connection) (s : Async) (buf : Option ℕ)
      → Good c s.daemon
      → Good c (try_immediate_write k conn s buf).daemon
  try-Good conn s none g = unfold try_immediate_write in g
  try-Good conn s (some b) g =
      unfold try_immediate_write in
      let wb = s.buffers b in
      if-Good (write_now k conn b wb s (write_buffer_get_next wb)) s
        (write_buffer_has_data wb && not (write_buffer_is_busy wb))
        (write_now-Good conn b wb s (write_buffer_get_next wb) g) g

module _ (k : Kernel) (alloc : Allocator) where
  pub at_once-Good :
      {c : ℕ} (i : ℕ) (s : Async) (conn : Option Connection)
      → Good c s.daemon
      → Good c (write_at_once k alloc i s conn).daemon
  unfolding write_at_once
  at_once-Good i s none g = g
  at_once-Good i s (some conn) g = try-Good k conn s conn.async_write_buf g

  pub appended-Kept :
      {c : ℕ} (s : Async) (b : ℕ) (o : Status × WriteBuffer)
      → Good c s.daemon
      → Kept c (appended k alloc s c b o)
  unfolding appended
  appended-Kept {c} s b (ok, wb) g = relinked-Good (mark-IsRelinked s.daemon c) g
  appended-Kept s b (no_memory, wb) g = g
  appended-Kept s b (full, wb) g = g

  init-Kept :
      {c : ℕ} (s : Async) (text : Bytes) (b : ℕ) (o : Status × WriteBuffer)
      → Good c s.daemon
      → Kept c (append_to k alloc s c text (new_buffer k alloc s c b o))
  unfolding append_to new_buffer
  init-Kept {c} s text b (ok, wb) g =
      let change : Connection → Connection =
        λ (x : Connection). record x { async_write_buf = some b } in
      let s' = set_buffer (change_conn c change s) b wb in
      appended-Kept s' b (write_buffer_append alloc (s'.buffers b) text)
        (change-Good change s (λ x u. u) g)
  init-Kept s text b (no_memory, wb) g = g
  init-Kept s text b (full, wb) g = g

  made-Kept :
      {c : ℕ} (s : Async) (text : Bytes) (o : Option ℕ)
      → Good c s.daemon
      → Kept c (append_to k alloc s c text (init_buffer k alloc s c o))
  unfolding init_buffer append_to
  made-Kept s text none g = g
  made-Kept s text (some b) g = init-Kept s text b (write_buffer_init alloc (s.buffers b)) g

  pub queue_text-Kept :
      {c : ℕ} (s : Async) (text : Bytes)
      → Good c s.daemon
      → Kept c (queue_text k alloc s c text (get_elem? s.daemon.pool.connections c))
  unfolding queue_text get_buffer append_to
  queue_text-Kept {c} s text (v, l) = rw l.found (at_buffer l.conn.async_write_buf)
    where
      at_buffer :
          (buf : Option ℕ)
          → Kept c (
              append_to k alloc s c text (elim buf [
                | none ↦ init_buffer k alloc s c (alloc.malloc 48)
                | some b ↦ some (b, s)
              ]))
      at_buffer none = made-Kept s text (alloc.malloc 48) (v, l)
      at_buffer (some b) = appended-Kept s b (write_buffer_append alloc (s.buffers b) text) (v, l)

  content-KeptRequest :
      {c : ℕ} (req : Request) (o : Outcome Async Async)
      → req.conn ≡ c
      → Kept c o
      → KeptRequest c (content_queued k alloc req o)
  unfolding content_queued
  content-KeptRequest req (failed s) e g = g
  content-KeptRequest req (fine s) e g =
      (at_once-Good req.conn s (get_elem? s.daemon.pool.connections req.conn) g, e)

  pub headers-KeptRequest :
      {c : ℕ} (req : Request) (o : Outcome Async Async)
      → req.conn ≡ c
      → Kept c o
      → KeptRequest c (headers_queued k alloc req o)
  unfolding headers_queued
  headers-KeptRequest req (failed s) e g = g
  headers-KeptRequest {c} req (fine s) e g =
      let change : Connection → Connection = λ (x : Connection). record x { state = curl_active } in
      let s' = change_conn req.conn change s in
      (
        at_once-Good req.conn s' (get_elem? s'.daemon.pool.connections req.conn)
            (rw e (change-Good change s (λ x u. active_used) g)),
        e,
      )

  event-KeptRequest :
      {c : ℕ} (s : Async) (req : Request) (o : Option Bytes)
      → req.conn ≡ c
      → Good c s.daemon
      → KeptRequest c (queue_event k alloc (s, req) o)
  unfolding queue_event
  event-KeptRequest s req none e g = g
  event-KeptRequest {c} s req (some text) e g =
      content-KeptRequest req
        (queue_text k alloc s req.conn text (get_elem? s.daemon.pool.connections req.conn)) e
        (rw e (queue_text-Kept s text g))

  pub line-KeptRequest :
      {c : ℕ} (s : Async) (req : Request) (o : Option Bytes)
      → req.conn ≡ c
      → Good c s.daemon
      → KeptRequest c (queue_content k alloc (s, req) o)
  unfolding queue_content
  line-KeptRequest s req none e g = (g, e)
  line-KeptRequest s req (some content) e g =
      event-KeptRequest s req (stream_format_sse 8192 content) e g
