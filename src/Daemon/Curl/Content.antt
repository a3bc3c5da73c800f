-- ===== src/Daemon/Curl/Content.antt =====
-- curl_manager.c, `process_sse_line`: the content that a line carries. A line is a C string.
pub mod Relay
use mod_socket_handoff.Base.{
  ℕ, zero, suc, Bool, true, false, ◌&&◌, Option, none, some, List, [], ◌∷◌, Bytes, codes, drop,
  length, ◌==◌, if◌then◌else◌,
}

-- `strncmp(text, s, strlen(s)) == 0`
unfoldable pub starts_with : Bytes → Bytes → Bool
starts_with text [] = true
starts_with [] (c ∷ s) = false
starts_with (x ∷ text) (c ∷ s) = x == c && starts_with text s

-- `strstr`, and past what it looks for.
unfoldable pub after_key : Bytes → Bytes → Option Bytes
unfolding starts_with
after_key [] key = none
after_key (c ∷ text) key =
    let rest = after_key text key in
    if starts_with (c ∷ text) key then some (drop (length key) (c ∷ text)) else rest

abbrev pub unescape : ℕ → ℕ
unescape e = if e == b'n' then 10 else if e == b'r' then 13 else if e == b't' then 9 else e

-- The loop that fills `content`, with so many places left.
unfoldable pub extract : ℕ → Bytes → Bytes
extract zero text = []
extract (suc left) [] = []
extract (suc left) (c ∷ []) = if c == 34 then [] else c ∷ []
extract (suc left) (c ∷ e ∷ text) =
    let escaped = unescape e ∷ extract left text in
    let plain = c ∷ extract left (e ∷ text) in
    if c == 34 then [] else if c == 92 then escaped else plain

abbrev pub content_key : Bytes
content_key = codes "\"content\":\""

abbrev pub not_empty : Bytes → Option Bytes
not_empty [] = none
not_empty (c ∷ content) = some (c ∷ content)

abbrev pub extract_from : Option Bytes → Option Bytes
extract_from none = none
extract_from (some text) = not_empty (extract 4095 text)

-- What is forwarded of a line, or none for a line with nothing to forward.
unfoldable pub line_content : Bytes → Option Bytes
unfolding starts_with after_key extract
line_content line =
    if starts_with line (codes "data: ")
    then (let json = drop 6 line in
        if starts_with json (codes "[DONE]")
        then none
        else extract_from (after_key json content_key))
    else none
