-- ===== src/Daemon/Async/Kept/Ends.antt =====
-- curl_manager.c: the bytes of a response and the end of a request.
use mod_socket_handoff.Base.{
  ℕ, zero, suc, ◌-◌, ◌&&◌, ◌||◌, ◌==◌, ◌≡◌, ◌≢◌, refl, sym, ◌∙◌, ◌++◌, Bool, true, false, Option,
  none, some, Bytes, length, get_elem?, Option-cases, Bool-cases, inl, inr, if◌then◌else◌,
}
use mod_socket_handoff.Daemon.WriteBuffer.{Allocator, write_buffer_append}
use mod_socket_handoff.Daemon.ConnPool.{Connection, closing, unused}
use mod_socket_handoff.Daemon.Loop.State.{Kernel, set_conn}
use mod_socket_handoff.Daemon.Loop.Handlers.{sse_headers, sse_done}
use mod_socket_handoff.Daemon.Curl.Lines.{
  Outcome, failed, fine, each_line, take_bytes, split_line, strip_return, after_process,
}
use mod_socket_handoff.Daemon.Curl.Content.{line_content}
use mod_socket_handoff.Daemon.Curl.Lines.{line_capacity}
use mod_socket_handoff.Daemon.Async.Writing.{Async, with_daemon}
use mod_socket_handoff.Daemon.Async.Receiving.{
  Request, change_conn, appended, append_to, queue_text, queue_content, process_sse_line,
  send_headers, grown, grow_line, made_line, line_memory, lines_done, take_lines, with_line,
  after_headers, write_callback, state_of, queue_marker, finish_request, buffer_of,
}
use mod_socket_handoff.Daemon.Async.Kept.{Good, if-Good, set-Good, change-Good}
use mod_socket_handoff.Daemon.Async.Kept.Received.{
  Kept, KeptRequest, KeptLines, closing_used, at_once-Good, appended-Kept, queue_text-Kept,
  headers-KeptRequest, line-KeptRequest,
}

module _ (k : Kernel) (alloc : Allocator) where
  after-KeptLines :
      {c : ℕ} (go : Async × Request → Outcome (Async × Request) ((Async × Request) × Bytes))
      (o : Outcome (Async × Request) (Async × Request))
      → ((s : Async) (req : Request) → req.conn ≡ c → Good c s.daemon → KeptLines c (go (s, req)))
      → KeptRequest c o
      → KeptLines c (after_process go o)
  after-KeptLines go (failed (s, req)) h v = v
  after-KeptLines go (fine (s, req)) h (v, e) = h s req e v

  lines-KeptLines :
      {c : ℕ} (n : ℕ) (s : Async) (req : Request) (text : Bytes)
      → req.conn ≡ c
      → Good c s.daemon
      → KeptLines c (each_line (process_sse_line k alloc) n (s, req) text)
  unfolding each_line process_sse_line
  lines-KeptLines zero s req text e g = (g, e)
  lines-KeptLines {c} (suc n) s req text e g = elim (Option-cases (split_line text)) [
    | inl f ↦ rw f (g, e)
    | inr ((line, rest), f) ↦ rw f (
        after-KeptLines (λ (st : Async × Request). each_line (process_sse_line k alloc) n st rest)
          (queue_content k alloc (s, req) (line_content (strip_return line)))
          (λ s' req' e' g'. lines-KeptLines n s' req' rest e' g')
          (line-KeptRequest k alloc s req (line_content (strip_return line)) e g))
  ]

  grown_state :
      (bytes : ℕ) (conn : Connection) (cap : ℕ) (o : Option ℕ)
      → (grown k alloc bytes conn cap o).1.state ≡ conn.state
  unfolding grown
  grown_state bytes conn cap none = refl
  grown_state bytes conn cap (some a) = refl

  grow_state :
      (bytes : ℕ) (conn : Connection) (a : ℕ)
      → (grow_line k alloc bytes conn a).1.state ≡ conn.state
  unfolding grow_line
  grow_state bytes conn a =
      let cap = line_capacity conn.sse_line_cap conn.sse_line_len bytes in
      elim (Bool-cases (cap == conn.sse_line_cap)) [
        | inl e ↦ rw e (grown_state bytes conn cap (some a))
        | inr e ↦ rw e (grown_state bytes conn cap (alloc.realloc a cap))
      ]

  made_state :
      (bytes : ℕ) (conn : Connection) (o : Option ℕ)
      → (made_line k alloc bytes conn o).1.state ≡ conn.state
  unfolding made_line
  made_state bytes conn none = refl
  made_state bytes conn (some a) =
      grow_state bytes
        (record conn { sse_line_buf = some a; sse_line_len = 0; sse_line_cap = 4096 }) a

  line_state :
      (bytes : ℕ) (conn : Connection) (buf : Option ℕ)
      → (line_memory k alloc bytes conn buf).1.state ≡ conn.state
  unfolding line_memory
  line_state bytes conn none = made_state bytes conn (alloc.malloc 4096)
  line_state bytes conn (some a) = grow_state bytes conn a

  done-KeptLines :
      (c : ℕ) (o : Outcome (Async × Request) ((Async × Request) × Bytes))
      → KeptLines c o
      → KeptLines c (lines_done k alloc o)
  unfolding lines_done
  done-KeptLines c (failed (s, req)) v = v
  done-KeptLines c (fine ((s, req), held)) (g, e) =
      let change : Connection → Connection =
        λ (x : Connection). record x { sse_line_len = length held } in
      let s' = change_conn req.conn change s in
      (
        at_once-Good k alloc req.conn s' (get_elem? s'.daemon.pool.connections req.conn)
            (rw e (change-Good change s (λ x u. u) g)),
        e,
      )

  take-KeptLines :
      {c : ℕ} (s : Async) (req : Request) (held bytes : Bytes) (o : Bool × Connection)
      → req.conn ≡ c
      → o.1.state ≢ unused
      → Good c s.daemon
      → KeptLines c (take_lines k alloc (s, req) held bytes o)
  unfolding take_lines take_bytes
  take-KeptLines s req held bytes (false, conn) e u g = rw e (set-Good s.daemon conn u g)
  take-KeptLines {c} s req held bytes (true, conn) e u g =
      let s' = with_daemon s (set_conn s.daemon req.conn conn) in
      let g' : Good c s'.daemon = rw e (set-Good s.daemon conn u g) in
      done-KeptLines c
        (each_line (process_sse_line k alloc) (suc (length (held ++ bytes))) (s', req)
          (held ++ bytes))
        (lines-KeptLines (suc (length (held ++ bytes))) s' req (held ++ bytes) e g')

  headers-KeptLines :
      (c : ℕ) (held bytes : Bytes) (o : Outcome (Async × Request) (Async × Request))
      → KeptRequest c o
      → KeptLines c (after_headers k alloc held bytes o)
  unfolding after_headers with_line
  headers-KeptLines c held bytes (failed (s, req)) v = v
  headers-KeptLines c held bytes (fine (s, req)) ((v, l), e) =
      simp (e, l.found)
        (take-KeptLines s req held bytes
          (line_memory k alloc (length bytes) l.conn l.conn.sse_line_buf) e
          (λ z. l.used (sym (line_state (length bytes) l.conn l.conn.sse_line_buf) ∙ z)) (v, l))

  sent-KeptRequest :
      (s : Async) (req : Request)
      → Good req.conn s.daemon
      → KeptRequest req.conn (send_headers k alloc (s, req))
  unfolding send_headers
  sent-KeptRequest s req g = elim (Bool-cases req.headers_sent) [
    | inl e ↦ simp e (g, refl)
    | inr e ↦ simp e (
        headers-KeptRequest k alloc req
          (queue_text k alloc s req.conn sse_headers (get_elem? s.daemon.pool.connections req.conn))
          refl (queue_text-Kept k alloc s sse_headers g))
  ]

  pub write_callback-KeptLines :
      (s : Async) (req : Request) (held bytes : Bytes)
      → Good req.conn s.daemon
      → KeptLines req.conn (write_callback k alloc ((s, req), held) bytes)
  unfolding write_callback
  write_callback-KeptLines s req held bytes g =
      headers-KeptLines req.conn held bytes (send_headers k alloc (s, req))
        (sent-KeptRequest s req g)

  state-Good : {c : ℕ} (o : Outcome Async Async) → Kept c o → Good c (state_of k alloc o).daemon
  state-Good (failed s) v = v
  state-Good (fine s) v = v

  marker-Good :
      {c : ℕ} (s : Async) (buf : Option ℕ)
      → Good c s.daemon
      → Good c (queue_marker k alloc s c buf).daemon
  unfolding queue_marker append_to
  marker-Good s none g = g
  marker-Good {c} s (some b) g =
      state-Good (appended k alloc s c b (write_buffer_append alloc (s.buffers b) sse_done))
        (appended-Kept k alloc s b (write_buffer_append alloc (s.buffers b) sse_done) g)

  pub finish_request-Good :
      (s : Async) (req : Request) (result : Bool) (http_code : ℕ)
      → Good req.conn s.daemon
      → Good req.conn (finish_request k alloc s req result http_code).daemon
  finish_request-Good s req result http_code g =
      unfold finish_request in
      let s' = record s { active_requests = s.active_requests - 1 } in
      let buf = buffer_of k alloc (get_elem? s.daemon.pool.connections req.conn) in
      let success = (result && (http_code == 200 || req.headers_sent)) && req.headers_sent in
      change-Good (λ (x : Connection). record x { state = closing; curl_easy = none })
        (if success then queue_marker k alloc s' req.conn buf else s') (λ x u. closing_used)
        (if-Good (queue_marker k alloc s' req.conn buf) s' success (marker-Good s' buf g) g)
