-- ===== src/Daemon/Streaming.antt =====
-- examples/streaming-daemon-uring/streaming.c. C strings are lists of bytes without the NUL, and
-- `snprintf` to a buffer of n bytes keeps n - 1. `stream_index` counts up without a bound, since an
-- `int` does not overflow for fewer than 2 ^ 31 messages.
pub mod Chunks
pub mod Json
mod Tests
use mod_socket_handoff.Base.{
  ℕ, zero, suc, ◌+◌, ◌-◌, ◌/◌, ◌%◌, ◌^◌, Bool, true, false, ◌||◌, Option, none, some, List, [], ◌∷◌,
  ◌++◌, Bytes, length, get_elem?, take, drop, ltb, ◌==◌, if◌then◌else◌, codes,
}
use mod_socket_handoff.Base.Int.{ℤ}

-- The fields of `connection_t` that `stream_next_message` reads.
pub record Connection : Type 0 where
  pub prompt : Option Bytes
  pub user_id : ℤ
  pub handoff_buf : Bytes
  pub handoff_len : ℕ
  pub stream_index : ℕ
  pub use_llm_response : Bool
  pub llm_response_pos : ℕ

abbrev pub demo_messages : List Bytes
demo_messages =
    codes "This daemon uses io_uring for async I/O."
    ∷ codes "Single-threaded event loop with high concurrency."
    ∷ codes "Expected capacity: 100,000+ concurrent connections."
    ∷ codes "Memory per connection: ~68 KB (64KB handoff + 4KB write buffer)."
    ∷ codes "The Apache worker was freed immediately after handoff."
    ∷ codes "Replace this mock backend with your LLM API integration."
    ∷ codes "io_uring provides true async I/O with kernel polling."
    ∷ codes "Zero-copy operations minimize memory bandwidth."
    ∷ codes "Multishot accept reduces syscall overhead."
    ∷ codes "This is pure C with no runtime overhead."
    ∷ codes "This is message 13 of 18."
    ∷ codes "This is message 14 of 18."
    ∷ codes "This is message 15 of 18."
    ∷ codes "This is message 16 of 18."
    ∷ codes "This is message 17 of 18."
    ∷ codes "[DONE-CONTENT]"
    ∷ []

abbrev pub chunk_target : ℕ
chunk_target = 150

-- With `max_len` at most 60, so that the ellipsis and the NUL fit in 64 bytes.
abbrev clamp_length : ℕ → ℕ
clamp_length max_len = if ltb 60 max_len then 60 else max_len

unfoldable pub truncate_prompt : Option Bytes → ℕ → Bytes
truncate_prompt none max_len = codes "(none)"
truncate_prompt (some prompt) max_len =
    if ltb max_len (length prompt)
    then take 63 (take (clamp_length max_len) prompt ++ codes "...")
    else prompt

abbrev is_break : Option ℕ → Bool
is_break none = false
is_break (some c) = (c == 32) || (c == 10)

-- The last place from `i` down to 1 at which there is a blank or a newline, or 0.
unfoldable pub look_back : Bytes → ℕ → ℕ
look_back start zero = 0
look_back start (suc i) = if is_break (get_elem? start (suc i)) then suc i else look_back start i

abbrev whole_chunk : ℕ → ℕ
whole_chunk remaining = if ltb remaining chunk_target then remaining else chunk_target

abbrev word_chunk : ℕ → ℕ → ℕ
word_chunk i c = if ltb 0 i then i + 1 else c

-- `start` is the text from the current position on.
pub chunk_size : Bytes → ℕ → ℕ
unfolding look_back
chunk_size start remaining =
    let c = whole_chunk remaining in if ltb c remaining then word_chunk (look_back start c) c else c

abbrev pub remaining : Connection → ℕ
remaining conn = (conn.handoff_len + 2 ^ 64 - conn.llm_response_pos) % 2 ^ 64

-- `llm_chunk_buf` and the number of its bytes, or none for NULL.
pub next_chunk : Connection → Option Bytes × Connection
unfolding chunk_size
next_chunk conn =
    let start = drop conn.llm_response_pos conn.handoff_buf in
    let n = chunk_size start (remaining conn) in
    if remaining conn == 0 then (none, conn) else (
      some (take n start),
      record conn {
        llm_response_pos = (conn.llm_response_pos + n) % 2 ^ 64;
        stream_index = conn.stream_index + 1;
      },
    )

abbrev advance : Connection → Option Bytes → Option Bytes × Connection
advance conn none = (none, conn)
advance conn (some m) = (some m, record conn { stream_index = conn.stream_index + 1 })

-- `print` is `%ld`.
module _ (print : ℤ → Bytes) where
  abbrev pub greeting : Connection → Bytes
  greeting conn =
      take 255 (codes "Hello from C io_uring daemon! Prompt: " ++ truncate_prompt conn.prompt 50)

  abbrev pub user_message : Connection → Bytes
  user_message conn = take 127 (codes "User ID: " ++ print conn.user_id)

  abbrev demo_message : Connection → ℕ → Option Bytes
  demo_message conn zero = some (greeting conn)
  demo_message conn (suc zero) = some (user_message conn)
  demo_message conn (suc (suc i)) = get_elem? demo_messages i

  unfoldable pub stream_next_message : Connection → Option Bytes × Connection
  unfolding next_chunk
  stream_next_message conn =
      if conn.use_llm_response
      then next_chunk conn
      else advance conn (demo_message conn conn.stream_index)

-- `%x` of a number below 16.
abbrev pub hex_digit : ℕ → ℕ
hex_digit d = if ltb d 10 then 48 + d else 87 + d

abbrev pub escape_control : ℕ → Bytes
escape_control c = 92 ∷ 117 ∷ 48 ∷ 48 ∷ hex_digit (c / 16) ∷ hex_digit (c % 16) ∷ []

unfoldable pub escape_char : ℕ → Bytes
escape_char c =
    if c == 34
    then 92 ∷ 34 ∷ []
    else if c == 92
    then 92 ∷ 92 ∷ []
    else if c == 10
    then 92 ∷ 110 ∷ []
    else if c == 13
    then 92 ∷ 114 ∷ []
    else if c == 9
    then 92 ∷ 116 ∷ []
    else if ltb c 32
    then escape_control c
    else c ∷ []

-- The loop of `stream_format_sse`: it stops with 6 bytes or fewer left.
unfoldable pub escape : ℕ → Bytes → Bytes
escape left [] = []
escape left (c ∷ content) =
    if ltb 6 left then escape_char c ++ escape (left - length (escape_char c)) content else []

abbrev pub frame : Bytes → Bytes
frame escaped = codes "data: {\"content\":\"" ++ (escaped ++ codes "\"}\n\n")

-- The frame, or none for -1, where the buffer of `size` bytes is too small.
unfoldable pub stream_format_sse : ℕ → Bytes → Option Bytes
stream_format_sse size content =
    let text = frame (escape 4095 content) in if ltb (length text) size then some text else none

unfoldable pub stream_start : Connection → Connection
stream_start conn = record conn { stream_index = 0 }
