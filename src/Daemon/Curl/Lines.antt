-- ===== src/Daemon/Curl/Lines.antt =====
-- curl_manager.c, `write_callback`: the line buffer. The text in it is a C string of `sse_line_len` bytes; the
-- function that is called for each line is an argument; -1 is `failed`, with what was done until then.
pub mod Chunks
use mod_socket_handoff.Base.{
  ℕ, zero, suc, ◌+◌, ◌*◌, ◌%◌, ◌^◌, Bool, true, false, Option, none, some, List, [], ◌∷◌, ◌++◌,
  Bytes, length, ltb, ◌==◌, if◌then◌else◌,
}

abbrev pub with_byte : ℕ → Option (Bytes × Bytes) → Option (Bytes × Bytes)
with_byte c none = none
with_byte c (some (line, rest)) = some (c ∷ line, rest)

-- `strchr(text, '\n')`: the bytes before the newline and those behind it.
unfoldable pub split_line : Bytes → Option (Bytes × Bytes)
split_line [] = none
split_line (c ∷ text) =
    if c == 10 then some ([], text) else if c == 0 then none else with_byte c (split_line text)

-- Without a carriage return at the end.
unfoldable pub strip_return : Bytes → Bytes
strip_return [] = []
strip_return (c ∷ []) = if c == 13 then [] else c ∷ []
strip_return (c ∷ d ∷ line) = c ∷ strip_return (d ∷ line)

-- The new capacity for `len` bytes, so many more, and the NUL; 0 stands for a buffer that is not there yet.
unfoldable pub line_capacity : ℕ → ℕ → ℕ → ℕ
line_capacity cap len bytes =
    let cap' = if cap == 0 then 4096 else cap in
    let need = (len + bytes + 1) % 2 ^ 64 in
    if ltb cap' need
    then (if ltb (cap' * 2 % 2 ^ 64) need then need else cap' * 2 % 2 ^ 64)
    else cap'

pub data Outcome (S A : Type 0) : Type 0 where
  failed : S → Outcome S A
  fine : A → Outcome S A

module _ {S : Type 0} where
  abbrev pub after_process : (S → Outcome S (S × Bytes)) → Outcome S S → Outcome S (S × Bytes)
  after_process go (failed s) = failed s
  after_process go (fine s) = go s

  abbrev pub after_split :
      (S → Bytes → Outcome S S)
      → (S → Bytes → Outcome S (S × Bytes))
      → S
      → Bytes
      → Option (Bytes × Bytes)
      → Outcome S (S × Bytes)
  after_split process go s text none = fine (s, text)
  after_split process go s text (some (line, rest)) =
      after_process (λ (s' : S). go s' rest) (process s (strip_return line))

  abbrev pub then_take :
      (S × Bytes → Outcome S (S × Bytes)) → Outcome S (S × Bytes) → Outcome S (S × Bytes)
  then_take go (failed s) = failed s
  then_take go (fine st) = go st

module _ {S : Type 0} (process : S → Bytes → Outcome S S) where
  -- The loop over the complete lines, for at most so many; what is left is the partial line.
  unfoldable pub each_line : ℕ → S → Bytes → Outcome S (S × Bytes)
  each_line zero s text = fine (s, text)
  each_line (suc n) s text = after_split process (each_line n) s text (split_line text)

  -- New bytes behind the partial line. A line takes at least one byte.
  unfoldable pub take_bytes : S × Bytes → Bytes → Outcome S (S × Bytes)
  unfolding each_line
  take_bytes (s, held) bytes = let text = held ++ bytes in each_line (suc (length text)) s text

  -- The bytes as they come, in pieces.
  abbrev pub take_pieces : S × Bytes → List Bytes → Outcome S (S × Bytes)
  take_pieces st [] = fine st
  take_pieces st (piece ∷ pieces) =
      then_take (λ (st' : S × Bytes). take_pieces st' pieces) (take_bytes st piece)
