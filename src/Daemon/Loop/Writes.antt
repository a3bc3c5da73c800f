-- ===== src/Daemon/Loop/Writes.antt =====
-- daemon.c: `handle_write`, which sends the next message when the last one is out. The delay between
-- messages is left out: it only passes time.
use mod_socket_handoff.Base.{
  ℕ, ◌+◌, ◌-◌, ◌%◌, ◌^◌, Bool, true, false, ◌&&◌, Option, none, some, [], Bytes, length, ltb,
  if◌then◌else◌,
}
use mod_socket_handoff.Base.Int.{ℤ, pos, negsuc}
use mod_socket_handoff.Daemon.Streaming
use mod_socket_handoff.Daemon.Streaming.{stream_next_message, stream_format_sse}
use mod_socket_handoff.Daemon.ConnPool.{Connection, ConnState, closing}
use mod_socket_handoff.Daemon.Loop.State.{
  Kernel, Daemon, Cqe, set_conn, count_failed, count_completed,
}
use mod_socket_handoff.Daemon.Loop.Dirty.{cleanup_connection}
use mod_socket_handoff.Daemon.Loop.Handlers.{send, sse_done, drop_failed}

abbrev pub is_closing : ConnState → Bool
is_closing closing = true
is_closing _ = false

-- A text in memory, by its address.
abbrev pub text_at : (ℕ → Bytes) → Option ℕ → Option Bytes
text_at memory none = none
text_at memory (some a) = some (memory a)

abbrev buffer_at : (ℕ → Bytes) → Option ℕ → Bytes
buffer_at memory none = []
buffer_at memory (some a) = memory a

module _ (k : Kernel) where
  -- What `stream_next_message` reads of a connection.
  abbrev pub view : Connection → Streaming.Connection
  view conn = record {
    prompt = text_at k.memory conn.handoff_data.prompt;
    user_id = conn.handoff_data.user_id;
    handoff_buf = buffer_at k.memory conn.handoff_buf;
    handoff_len = conn.handoff_len;
    stream_index = conn.stream_index;
    use_llm_response = conn.use_llm_response;
    llm_response_pos = conn.llm_response_pos;
  }

  -- And what it changes.
  abbrev pub updated : Connection → Streaming.Connection → Connection
  updated conn v = record conn {
    stream_index = v.stream_index;
    llm_response_pos = v.llm_response_pos;
  }

  -- The rest of a message of which only a part was written.
  unfoldable pub resend : Daemon → ℕ → Connection → Option ℕ → Daemon
  unfolding send
  resend d c conn none = drop_failed c d
  resend d c conn (some b) =
      send k c conn (b + conn.write_offset) (conn.write_len - conn.write_offset) count_failed d

  -- The message in the new buffer, if it fits.
  unfoldable pub send_event : Daemon → ℕ → Connection → ℕ → Option Bytes → Daemon
  unfolding send
  send_event d c conn b none = drop_failed c d
  send_event d c conn b (some text) =
      let conn' = record conn { write_len = length text; write_offset = 0 } in
      send k c conn' b (length text) count_failed (set_conn d c conn')

  unfoldable pub with_buffer : Daemon → ℕ → Connection → Bytes → Option ℕ → Daemon
  unfolding send_event
  with_buffer d c conn msg none = drop_failed c d
  with_buffer d c conn msg (some b) =
      let conn' = record conn { write_buf = some b } in
      send_event (set_conn d c conn') c conn' b (stream_format_sse 4096 msg)

  -- The connection is marked as closing before the end marker is submitted.
  unfoldable pub send_done : Daemon → ℕ → Connection → Daemon
  unfolding send
  send_done d c conn =
      let conn' = record conn { state = closing; write_len = length sse_done; write_offset = 0 } in
      send k c conn' k.done_at (length sse_done) (count_completed conn.bytes_sent)
        (set_conn d c conn')

  unfoldable pub send_next : Daemon → ℕ → Connection → Option Bytes × Streaming.Connection → Daemon
  unfolding with_buffer send_done
  send_next d c conn (none, v) = send_done d c (updated conn v)
  send_next d c conn (some msg, v) =
      let conn' = updated conn v in with_buffer (set_conn d c conn') c conn' msg (k.malloc 4096)

  -- With the message out.
  unfoldable pub after_message : Daemon → ℕ → Connection → Daemon
  unfolding send_next
  after_message d c conn =
      if is_closing conn.state
      then cleanup_connection (count_completed conn.bytes_sent d) c
      else send_next d c conn (stream_next_message k.print (view conn))

  -- With so many bytes out.
  unfoldable pub written_part : Daemon → ℕ → Connection → Daemon
  unfolding resend after_message
  written_part d c conn =
      if ltb 0 conn.write_len && ltb conn.write_offset conn.write_len
      then resend d c conn conn.write_buf
      else (let conn' = record conn { write_len = 0; write_offset = 0; write_buf = none } in
          after_message (set_conn d c conn') c conn')

  unfoldable pub written : Daemon → ℕ → Connection → ℤ → Daemon
  unfolding written_part
  written d c conn (negsuc e) = drop_failed c d
  written d c conn (pos n) =
      let conn' = record conn {
        bytes_sent = (conn.bytes_sent + n) % 2 ^ 64;
        write_offset = (conn.write_offset + n) % 2 ^ 64;
      } in
      written_part (set_conn d c conn') c conn'

  unfoldable pub handle_write : Daemon → ℕ → Connection → Cqe → Daemon
  unfolding written
  handle_write d c conn cqe = written d c conn cqe.res
