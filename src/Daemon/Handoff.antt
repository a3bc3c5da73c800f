-- ===== src/Daemon/Handoff.antt =====
-- examples/streaming-daemon-uring/json.c and handoff.c: looking up the keys of the handoff data. jsmn and
-- `strtoll` are parameters. The tokens are as many as jsmn reports, and an offset is at most 2 ^ 31 - 1.
pub mod Keys
pub mod Trim
pub mod Receive
mod Tests
use mod_socket_handoff.Base.{
  ℕ, zero, suc, ◌+◌, ◌-◌, ◌*◌, ◌%◌, ◌^◌, Bool, true, false, ◌&&◌, ◌||◌, Option, none, some, List,
  [], ◌∷◌, Bytes, codes, length, get_elem?, set, take, drop, ltb, leb, ◌==◌, if◌then◌else◌,
}
use mod_socket_handoff.Base.Int.{ℤ, pos, negsuc}

-- What the code reads of a token of jsmn.
pub data Kind : Type 0 where
  undefined object array string primitive : Kind

pub record Token : Type 0 where
  pub kind : Kind
  pub start : ℕ
  pub end : ℕ
  pub size : ℕ

abbrev pub is_string : Kind → Bool
is_string string = true
is_string _ = false

abbrev pub is_primitive : Kind → Bool
is_primitive primitive = true
is_primitive _ = false

abbrev pub is_nested : Kind → Bool
is_nested object = true
is_nested array = true
is_nested _ = false

-- `strncmp(json, s, n) == 0` for an `s` of n bytes.
unfoldable pub same_bytes : Bytes → Bytes → Bool
same_bytes json [] = true
same_bytes [] (c ∷ s) = false
same_bytes (x ∷ json) (c ∷ s) = x == c && same_bytes json s

unfoldable pub json_tok_len : Token → ℕ
json_tok_len tok = tok.end - tok.start

unfoldable pub json_tok_eq : Bytes → Token → Bytes → Bool
unfolding same_bytes
json_tok_eq json tok s =
    is_string tok.kind && (length s == tok.end - tok.start && same_bytes (drop tok.start json) s)

-- The bytes without the NUL, or none for -1.
unfoldable pub json_tok_copy : Bytes → Token → ℕ → Option Bytes
json_tok_copy json tok buflen =
    let len = tok.end - tok.start in
    if leb buflen len then none else some (take len (drop tok.start json))

unfoldable pub json_tok_int : (Bytes → ℤ) → Bytes → Token → ℤ
json_tok_int strtoll json tok =
    let len = tok.end - tok.start in
    if is_primitive tok.kind
    then if leb 32 len then pos 0 else strtoll (take len (drop tok.start json))
    else pos 0

-- The index of a value, if there is a token.
abbrev pub value_at : ℕ → List Token → Option ℕ
value_at i [] = none
value_at i (v ∷ ts) = some i

-- The tokens that are skipped behind a value.
abbrev pub to_skip : Token → ℕ
to_skip v = if is_nested v.kind then v.size * 2 else 0

-- Behind the key at `i`, with `ts` the tokens from `i + 1` on.
abbrev pub skip_value : (ℕ → List Token → Option ℕ) → ℕ → List Token → Option ℕ
skip_value go i [] = none
skip_value go i (v ∷ ts) = go (i + 2 + to_skip v) (drop (to_skip v) ts)

-- The loop of `json_find_key` from index `i` on, for at most so many rounds.
unfoldable pub find_from : ℕ → Bytes → Bytes → ℕ → List Token → Option ℕ
find_from zero json key i ts = none
find_from (suc n) json key i [] = none
find_from (suc n) json key i (t ∷ ts) =
    let rest = skip_value (find_from n json key) i ts in
    if json_tok_eq json t key then value_at (i + 1) ts else rest

abbrev pub object_keys : Kind → Option ℕ → Option ℕ
object_keys object found = found
object_keys _ found = none

-- The index of the value, or none for -1. A round takes at least one token.
unfoldable pub json_find_key : Bytes → List Token → Bytes → Option ℕ
unfolding find_from
json_find_key json [] key = none
json_find_key json (t ∷ ts) key = object_keys t.kind (find_from (suc (length ts)) json key 1 ts)

abbrev pub is_blank : Option ℕ → Bool
is_blank none = false
is_blank (some c) = c == 0 || (c == 32 || (c == 9 || (c == 10 || c == 13)))

-- How many of the first `len` bytes are skipped.
unfoldable pub leading : ℕ → Bytes → ℕ
leading zero text = 0
leading (suc len) [] = 0
leading (suc len) (c ∷ text) = if is_blank (some c) then suc (leading len text) else 0

-- The length that is left.
unfoldable pub trailing : Bytes → ℕ → ℕ
trailing text zero = 0
trailing text (suc len) = if is_blank (get_elem? text len) then trailing text len else suc len

-- `(int)` of an `int64_t`.
abbrev pub to_int : ℤ → ℤ
to_int (pos n) = let m = n % 2 ^ 32 in if ltb m (2 ^ 31) then pos m else negsuc (2 ^ 32 - 1 - m)
to_int (negsuc n) = let m = n % 2 ^ 32 in if ltb m (2 ^ 31) then negsuc m else pos (2 ^ 32 - 1 - m)

-- `handoff_data_t`, with places in the buffer for the strings, and the buffer behind them.
pub record Parsed : Type 0 where
  pub user_id : ℤ
  pub max_tokens : ℤ
  pub prompt : Option ℕ
  pub model : Option ℕ
  pub text : Bytes

abbrev pub token_at : List Token → Option ℕ → Option Token
token_at tokens none = none
token_at tokens (some i) = get_elem? tokens i

module _ (strtoll : Bytes → ℤ) where
  abbrev pub int_value : Bytes → Option Token → ℤ
  int_value text none = pos 0
  int_value text (some tok) = json_tok_int strtoll text tok

  -- The place of a string, and the buffer with a NUL behind it.
  abbrev pub text_value : Bytes → Option Token → Option ℕ × Bytes
  text_value text none = (none, text)
  text_value text (some tok) =
      if is_string tok.kind then (some tok.start, set text tok.end 0) else (none, text)

  unfoldable pub with_tokens : Bytes → Option (List Token) → Parsed
  unfolding json_find_key json_tok_int
  with_tokens text none = record {
    user_id = pos 0;
    max_tokens = pos 0;
    prompt = none;
    model = none;
    text = text;
  }
  with_tokens text (some tokens) =
      let value = λ (s : Bytes) (key : Bytes). token_at tokens (json_find_key s tokens key) in
      let p = text_value text (value text (codes "prompt")) in
      let m = text_value p.1 (value p.1 (codes "model")) in
      record {
        user_id = int_value text (value text (codes "user_id"));
        max_tokens = to_int (int_value text (value text (codes "max_tokens")));
        prompt = p.0;
        model = m.0;
        text = m.1;
      }

  -- The text from the first byte that is not skipped on, and the result, for whose places it counts. `parse`
  -- is `json_parse` with 32 tokens.
  unfoldable pub handoff_parse_data : (Bytes → ℕ → Option (List Token)) → Bytes → ℕ → Parsed
  unfolding with_tokens leading trailing
  handoff_parse_data parse data' len =
      let skipped = leading len data' in
      let text = drop skipped data' in
      let left = trailing text (len - skipped) in
      with_tokens text (if left == 0 then none else parse text left)
