-- ===== src/Daemon/Backend.antt =====
-- backend_openai.c, which a worker thread calls. The answers of `write` come in their order, a call behind the last one fails;
-- libcurl, the allocator and `%d` are parameters, and the bytes of the response come in pieces.
pub mod Answered
pub mod Pieces
mod Tests
use mod_socket_handoff.Base.{
  ℕ, suc, ◌+◌, ◌*◌, Bool, true, false, ◌&&◌, ◌||◌, not, Option, none, some, List, [], ◌∷◌, ◌++◌,
  Bytes, codes, take, drop, length, ltb, ◌==◌, if◌then◌else◌,
}
use mod_socket_handoff.Base.Int.{ℤ}
use mod_socket_handoff.Daemon.Streaming.{escape, stream_format_sse}
use mod_socket_handoff.Daemon.Loop.Handlers.{sse_headers, sse_done}
use mod_socket_handoff.Daemon.Curl.Lines.{Outcome, failed, fine, take_bytes, line_capacity}
use mod_socket_handoff.Daemon.Curl.Content.{line_content}
use mod_socket_handoff.Daemon.Curl.Request.{Setup, or_text, whole_body, request_url, token_limit}

-- A call of `write`: so many bytes, EINTR, or another error.
pub data Write : Type 0 where
  wrote : ℕ → Write
  interrupted broken : Write

-- The client: the answers to come, and what it got.
pub record Client : Type 0 where
  pub answers : List Write
  pub out : Bytes

pub record Response : Type 0 where
  pub client : Client
  pub line_capacity : ℕ
  pub chunk_count : ℕ
  pub bytes_sent : ℕ
  pub error : Bool
  pub headers_sent : Bool

unfoldable pub write_all : List Write → Bytes → Bytes → Bool × Client
write_all answers [] out = (true, record { answers = answers; out = out })
write_all [] (c ∷ bytes) out = (false, record { answers = []; out = out })
write_all (interrupted ∷ answers) (c ∷ bytes) out = write_all answers (c ∷ bytes) out
write_all (broken ∷ answers) (c ∷ bytes) out = (false, record { answers = answers; out = out })
write_all (wrote n ∷ answers) (c ∷ bytes) out =
    write_all answers (drop n (c ∷ bytes)) (out ++ take n (c ∷ bytes))

abbrev pub write_client : Client → Bytes → Bool × Client
write_client client bytes = write_all client.answers bytes client.out

abbrev pub Step : Type 0
Step = Outcome Response Response

unfoldable pub headers_written : Response → Bool × Client → Step
headers_written r (true, client) = fine (record r {
  client = client;
  bytes_sent = r.bytes_sent + length sse_headers;
  headers_sent = true;
})
headers_written r (false, client) = failed (record r { client = client; error = true })

unfoldable pub send_headers : Response → Step
unfolding headers_written
send_headers r =
    let sent = headers_written r (write_client r.client sse_headers) in
    if r.headers_sent then fine r else sent

unfoldable pub chunk_written : Response → Bytes → Bool × Client → Step
chunk_written r text (true, client) = fine (record r {
  client = client;
  bytes_sent = r.bytes_sent + length text;
  chunk_count = r.chunk_count + 1;
})
chunk_written r text (false, client) = failed (record r { client = client; error = true })

unfoldable pub forward_text : Response → Option Bytes → Step
unfolding chunk_written
forward_text r none = failed r
forward_text r (some text) = chunk_written r text (write_client r.client text)

unfoldable pub forward_chunk : Response → Bytes → Step
unfolding forward_text
forward_chunk r content = forward_text r (stream_format_sse 8192 content)

unfoldable pub forward_content : Response → Option Bytes → Step
unfolding forward_chunk
forward_content r none = fine r
forward_content r (some content) = forward_chunk r content

unfoldable pub process_line : Response → Bytes → Step
unfolding forward_content
process_line r line = forward_content r (line_content line)

module _ (realloc : ℕ → Bool) where
  -- With the headers sent: the line buffer is grown and the bytes are taken.
  unfoldable pub grown_line : Response → ℕ → Bool → Step
  grown_line r cap true = fine (record r { line_capacity = cap })
  grown_line r cap false = failed (record r { error = true })

  unfoldable pub line_room : Response → ℕ → ℕ → Step
  unfolding grown_line
  line_room r held bytes =
      let cap = line_capacity r.line_capacity held bytes in
      if cap == r.line_capacity then fine r else grown_line r cap (realloc cap)

  unfoldable pub with_room : Bytes → Bytes → Step → Outcome Response (Response × Bytes)
  unfolding process_line
  with_room held bytes (failed r) = failed r
  with_room held bytes (fine r) = take_bytes process_line (r, held) bytes

  unfoldable pub with_headers : Bytes → Bytes → Step → Outcome Response (Response × Bytes)
  unfolding line_room with_room
  with_headers held bytes (failed r) = failed r
  with_headers held bytes (fine r) = with_room held bytes (line_room r (length held) (length bytes))

  -- A failure is the result 0.
  unfoldable pub write_callback : Response × Bytes → Bytes → Outcome Response (Response × Bytes)
  unfolding send_headers with_headers
  write_callback (r, held) bytes =
      let taken = with_headers held bytes (send_headers r) in if r.error then failed r else taken

  abbrev pub then_perform :
      (Response → Bytes → Bool × Response) → Outcome Response (Response × Bytes) → Bool × Response
  then_perform go (failed r) = (false, r)
  then_perform go (fine (r, held)) = go r held

  -- `curl_easy_perform` hands over the pieces until a call fails; whether all were taken, and what is left.
  unfoldable pub perform : List Bytes → Response → Bytes → Bool × Response
  perform [] r held = (true, r)
  perform (piece ∷ pieces) r held = then_perform (perform pieces) (write_callback (r, held) piece)

-- What the API does with a request: the pieces of its response, whether the transfer is CURLE_OK where all are taken,
-- and the status.
pub record Transfer : Type 0 where
  pub pieces : List Bytes
  pub result : Bool
  pub http_code : ℕ

-- The result 1 or -1, the client, and `bytes_sent` of the connection.
pub record Processed : Type 0 where
  pub streamed : Bool
  pub client : Client
  pub bytes_sent : ℕ

abbrev pub not_streamed : Client → ℕ → Processed
not_streamed client bytes = record { streamed = false; client = client; bytes_sent = bytes }

-- The end marker may be lost, and is counted all the same.
unfoldable pub end_stream : Response → Processed
end_stream r = record {
  streamed = true;
  client = (write_client r.client sse_done).1;
  bytes_sent = r.bytes_sent + length sse_done;
}

unfoldable pub finish_stream : ℕ → Bool → ℕ → Bool × Response → Processed
unfolding end_stream
finish_stream before result http_code (taken, r) =
    if r.headers_sent
    then end_stream r
    else if not (taken && result) || r.error
    then not_streamed r.client before
    else if not (http_code == 200)
    then not_streamed r.client before
    else not_streamed r.client r.bytes_sent

abbrev pub new_response : Client → Response
new_response client = record {
  client = client;
  line_capacity = 4096;
  chunk_count = 0;
  bytes_sent = 0;
  error = false;
  headers_sent = false;
}

-- The body, whose prompt has at most 8191 bytes before and after the escapes; the model has at most 127.
unfoldable pub process_body : (ℤ → Bytes) → Bytes → Bytes → ℤ → Option Bytes
process_body print prompt model max_tokens =
    let body = whole_body print (take 127 model) (escape 8191 (take 8191 prompt)) max_tokens in
    if ltb (length body) 16384 then some body else none

module _ (u : Setup) (respond : Bytes → Bytes → Transfer) where
  unfoldable pub transfer_body : Client → ℕ → Option Bytes → Processed
  unfolding perform finish_stream
  transfer_body client before none = not_streamed client before
  transfer_body client before (some body) =
      let t = respond (request_url u.api.api_base) body in
      if u.malloc 4096
      then finish_stream before t.result t.http_code
          (perform u.malloc t.pieces (new_response client) [])
      else not_streamed client before

  unfoldable pub with_easy : Client → ℕ → Option Bytes → Option Bytes → ℤ → Option ℕ → Processed
  unfolding transfer_body process_body
  with_easy client before prompt model max_tokens none = not_streamed client before
  with_easy client before prompt model max_tokens (some easy) = transfer_body client before (
      process_body u.print (or_text prompt (codes "Hello")) (or_text model u.api.default_model)
        (token_limit max_tokens))

  unfoldable pub with_key : Client → ℕ → Option Bytes → Option Bytes → ℤ → Option Bytes → Processed
  unfolding with_easy
  with_key client before prompt model max_tokens none = not_streamed client before
  with_key client before prompt model max_tokens (some key) =
      with_easy client before prompt model max_tokens u.curl_easy_init

  unfoldable pub backend_process : Client → ℕ → Option Bytes → Option Bytes → ℤ → Processed
  unfolding with_key
  backend_process client before prompt model max_tokens =
      with_key client before prompt model max_tokens u.api.api_key
