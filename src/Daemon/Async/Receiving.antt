-- ===== src/Daemon/Async/Receiving.antt =====
-- curl_manager.c, `write_callback` and `process_sse_line` with what they queue, and `curl_manager_check_completions`.
-- The memory comes from an allocator, which is an argument.
use mod_socket_handoff.Base.{
  ℕ, ◌+◌, ◌-◌, Bool, true, false, ◌&&◌, ◌||◌, Option, none, some, List, [], ◌∷◌, Bytes, length,
  get_elem?, ◌==◌, if◌then◌else◌,
}
use mod_socket_handoff.Daemon.WriteBuffer.{
  WriteBuffer, Status, ok, Allocator, write_buffer_init, write_buffer_append,
}
use mod_socket_handoff.Daemon.ConnPool.{Connection, curl_active, closing}
use mod_socket_handoff.Daemon.Streaming.{stream_format_sse}
use mod_socket_handoff.Daemon.Loop.State.{Kernel, set_conn}
use mod_socket_handoff.Daemon.Loop.Dirty.{put_dirty, daemon_mark_connection_dirty}
use mod_socket_handoff.Daemon.Loop.Handlers.{sse_headers, sse_done}
use mod_socket_handoff.Daemon.Curl.Lines.{Outcome, failed, fine, take_bytes, line_capacity}
use mod_socket_handoff.Daemon.Curl.Content.{line_content}
use mod_socket_handoff.Daemon.Async.Writing.{Async, with_daemon, set_buffer, try_immediate_write}

-- `conn` is the index of the connection.
pub record Request : Type 0 where
  pub conn : ℕ
  pub headers_sent : Bool
  pub chunk_count : ℕ

-- A change of one connection.
unfoldable pub change_conn : ℕ → (Connection → Connection) → Async → Async
unfolding put_dirty
change_conn c change s =
    with_daemon s (put_dirty s.daemon c change (get_elem? s.daemon.pool.connections c))

module _ (k : Kernel) (alloc : Allocator) where
  unfoldable pub new_buffer : Async → ℕ → ℕ → Status × WriteBuffer → Option (ℕ × Async)
  unfolding change_conn
  new_buffer s c b (ok, wb) = some (
    b,
    set_buffer (change_conn c (λ (x : Connection). record x { async_write_buf = some b }) s) b wb,
  )
  new_buffer s c b (_, wb) = none

  unfoldable pub init_buffer : Async → ℕ → Option ℕ → Option (ℕ × Async)
  unfolding new_buffer
  init_buffer s c none = none
  init_buffer s c (some b) = new_buffer s c b (write_buffer_init alloc (s.buffers b))

  -- The connection's buffer, which is made if there is none. A `write_buffer_t` takes 48 bytes.
  unfoldable pub get_buffer : Async → ℕ → Connection → Option (ℕ × Async)
  unfolding init_buffer
  get_buffer s c conn = elim conn.async_write_buf [
    | none ↦ init_buffer s c (alloc.malloc 48)
    | some b ↦ some (b, s)
  ]

  unfoldable pub appended : Async → ℕ → ℕ → Status × WriteBuffer → Outcome Async Async
  appended s c b (ok, wb) =
      let s' = set_buffer s b wb in fine (with_daemon s' (daemon_mark_connection_dirty s'.daemon c))
  appended s c b (_, wb) = failed (set_buffer s b wb)

  unfoldable pub append_to : Async → ℕ → Bytes → Option (ℕ × Async) → Outcome Async Async
  unfolding appended
  append_to s c text none = failed s
  append_to s c text (some (b, s')) =
      appended s' c b (write_buffer_append alloc (s'.buffers b) text)

  -- The text goes to the buffer, and the connection to the dirty list.
  unfoldable pub queue_text : Async → ℕ → Bytes → Option Connection → Outcome Async Async
  unfolding get_buffer append_to
  queue_text s c text none = failed s
  queue_text s c text (some conn) = append_to s c text (get_buffer s c conn)

  unfoldable pub write_at_once : ℕ → Async → Option Connection → Async
  write_at_once c s none = s
  write_at_once c s (some conn) = try_immediate_write k conn s conn.async_write_buf

  abbrev pub try_now : ℕ → Async → Async
  try_now c s = write_at_once c s (get_elem? s.daemon.pool.connections c)

  unfoldable pub content_queued :
      Request → Outcome Async Async → Outcome (Async × Request) (Async × Request)
  unfolding write_at_once
  content_queued req (failed s) = failed (s, req)
  content_queued req (fine s) =
      fine (try_now req.conn s, record req { chunk_count = req.chunk_count + 1 })

  unfoldable pub queue_event :
      Async × Request → Option Bytes → Outcome (Async × Request) (Async × Request)
  unfolding queue_text content_queued
  queue_event (s, req) none = failed (s, req)
  queue_event (s, req) (some text) =
      content_queued req (queue_text s req.conn text (get_elem? s.daemon.pool.connections req.conn))

  unfoldable pub queue_content :
      Async × Request → Option Bytes → Outcome (Async × Request) (Async × Request)
  unfolding queue_event
  queue_content st none = fine st
  queue_content st (some content) = queue_event st (stream_format_sse 8192 content)

  unfoldable pub process_sse_line :
      Async × Request → Bytes → Outcome (Async × Request) (Async × Request)
  unfolding queue_content
  process_sse_line st line = queue_content st (line_content line)

  unfoldable pub headers_queued :
      Request → Outcome Async Async → Outcome (Async × Request) (Async × Request)
  unfolding change_conn write_at_once
  headers_queued req (failed s) = failed (s, req)
  headers_queued req (fine s) = fine (
    try_now req.conn
        (change_conn req.conn (λ (x : Connection). record x { state = curl_active }) s),
    record req { headers_sent = true },
  )

  unfoldable pub send_headers : Async × Request → Outcome (Async × Request) (Async × Request)
  unfolding queue_text headers_queued
  send_headers (s, req) =
      let sent =
        headers_queued req
          (queue_text s req.conn sse_headers (get_elem? s.daemon.pool.connections req.conn)) in
      if req.headers_sent then fine (s, req) else sent

  -- The line buffer for so many more bytes: made if there is none, and grown if it is too small.
  unfoldable pub grown : ℕ → Connection → ℕ → Option ℕ → Bool × Connection
  grown bytes conn cap none = (false, conn)
  grown bytes conn cap (some a) = (
    true,
    record conn {
      sse_line_buf = some a;
      sse_line_cap = cap;
      sse_line_len = conn.sse_line_len + bytes;
    },
  )

  unfoldable pub grow_line : ℕ → Connection → ℕ → Bool × Connection
  unfolding grown
  grow_line bytes conn a =
      let cap = line_capacity conn.sse_line_cap conn.sse_line_len bytes in
      if cap == conn.sse_line_cap
      then grown bytes conn cap (some a)
      else grown bytes conn cap (alloc.realloc a cap)

  unfoldable pub made_line : ℕ → Connection → Option ℕ → Bool × Connection
  unfolding grow_line
  made_line bytes conn none = (false, conn)
  made_line bytes conn (some a) =
      grow_line bytes (record conn { sse_line_buf = some a; sse_line_len = 0; sse_line_cap = 4096 })
        a

  unfoldable pub line_memory : ℕ → Connection → Option ℕ → Bool × Connection
  unfolding made_line
  line_memory bytes conn none = made_line bytes conn (alloc.malloc 4096)
  line_memory bytes conn (some a) = grow_line bytes conn a

  unfoldable pub lines_done :
      Outcome (Async × Request) ((Async × Request) × Bytes)
      → Outcome (Async × Request) ((Async × Request) × Bytes)
  unfolding change_conn write_at_once
  lines_done (failed st) = failed st
  lines_done (fine ((s, req), held)) = fine (
    (
      try_now req.conn
          (change_conn req.conn (λ (x : Connection). record x { sse_line_len = length held }) s),
      req,
    ),
    held,
  )

  unfoldable pub take_lines :
      Async × Request
      → Bytes
      → Bytes
      → Bool × Connection
      → Outcome (Async × Request) ((Async × Request) × Bytes)
  unfolding lines_done process_sse_line
  take_lines (s, req) held bytes (false, conn) =
      failed (with_daemon s (set_conn s.daemon req.conn conn), req)
  take_lines (s, req) held bytes (true, conn) = lines_done (
      take_bytes process_sse_line ((with_daemon s (set_conn s.daemon req.conn conn), req), held)
        bytes)

  unfoldable pub with_line :
      Async × Request
      → Bytes
      → Bytes
      → Option Connection
      → Outcome (Async × Request) ((Async × Request) × Bytes)
  unfolding line_memory take_lines
  with_line st held bytes none = failed st
  with_line st held bytes (some conn) =
      take_lines st held bytes (line_memory (length bytes) conn conn.sse_line_buf)

  unfoldable pub after_headers :
      Bytes
      → Bytes
      → Outcome (Async × Request) (Async × Request)
      → Outcome (Async × Request) ((Async × Request) × Bytes)
  unfolding with_line
  after_headers held bytes (failed st) = failed st
  after_headers held bytes (fine (s, req)) =
      with_line (s, req) held bytes (get_elem? s.daemon.pool.connections req.conn)

  -- `held` is the text in the line buffer. A failure is the result 0, and libcurl then ends the transfer.
  unfoldable pub write_callback :
      (Async × Request) × Bytes → Bytes → Outcome (Async × Request) ((Async × Request) × Bytes)
  unfolding send_headers after_headers
  write_callback (st, held) bytes = after_headers held bytes (send_headers st)

  abbrev pub state_of : Outcome Async Async → Async
  state_of (failed s) = s
  state_of (fine s) = s

  -- The end marker is left out where it does not fit.
  unfoldable pub queue_marker : Async → ℕ → Option ℕ → Async
  unfolding append_to
  queue_marker s c none = s
  queue_marker s c (some b) = state_of (append_to s c sse_done (some (b, s)))

  abbrev pub buffer_of : Option Connection → Option ℕ
  buffer_of none = none
  buffer_of (some conn) = conn.async_write_buf

  -- `result` says CURLE_OK.
  unfoldable pub finish_request : Async → Request → Bool → ℕ → Async
  unfolding change_conn queue_marker
  finish_request s req result http_code =
      let success = result && (http_code == 200 || req.headers_sent) in
      let s' = record s { active_requests = s.active_requests - 1 } in
      let marked =
        queue_marker s' req.conn (buffer_of (get_elem? s'.daemon.pool.connections req.conn)) in
      change_conn req.conn (λ (x : Connection). record x { state = closing; curl_easy = none })
        (if success && req.headers_sent then marked else s')

-- A message of libcurl: the end of a request, or another one.
pub data Message : Type 0 where
  finished : Request → Bool → ℕ → Message
  other : Message

module _ (k : Kernel) (alloc : Allocator) where
  unfoldable pub curl_manager_check_completions : Async → List Message → Async
  unfolding finish_request
  curl_manager_check_completions s [] = s
  curl_manager_check_completions s (finished req result http_code ∷ messages) =
      curl_manager_check_completions (finish_request k alloc s req result http_code) messages
  curl_manager_check_completions s (other ∷ messages) = curl_manager_check_completions s messages
