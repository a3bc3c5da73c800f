-- ===== src/Daemon/Curl/Content/Relay.antt =====
-- curl_manager.c: the content of an event in JSON is read back.
use mod_socket_handoff.Base.{
  ℕ, zero, suc, ◌≤◌, ◌≡◌, ◌≢◌, refl, ap, some, [], ◌∷◌, ◌++◌, Bytes, codes, length, arith,
}
use mod_socket_handoff.Daemon.Curl.Content.{
  extract, line_content, starts_with, after_key, not_empty, unescape,
}

-- The text between the quotes of a JSON string with none of the escapes \u, \b and \f, and what it stands for, after
-- RFC 8259: a control character only stands in an escape.
pub data Spells : Bytes → Bytes → Type 0 where
  nothing : Spells [] []
  plain :
      (c : ℕ) {text value : Bytes}
      → 32 ≤ c
      → c ≢ 34
      → c ≢ 92
      → Spells text value
      → Spells (c ∷ text) (c ∷ value)
  quote : {text value : Bytes} → Spells text value → Spells (92 ∷ 34 ∷ text) (34 ∷ value)
  backslash : {text value : Bytes} → Spells text value → Spells (92 ∷ 92 ∷ text) (92 ∷ value)
  slash : {text value : Bytes} → Spells text value → Spells (92 ∷ 47 ∷ text) (47 ∷ value)
  newline : {text value : Bytes} → Spells text value → Spells (92 ∷ 110 ∷ text) (10 ∷ value)
  return : {text value : Bytes} → Spells text value → Spells (92 ∷ 114 ∷ text) (13 ∷ value)
  tab : {text value : Bytes} → Spells text value → Spells (92 ∷ 116 ∷ text) (9 ∷ value)

extract_end : (n : ℕ) (rest : Bytes) → extract n (34 ∷ rest) ≡ []
unfolding extract
extract_end zero rest = refl
extract_end (suc n) [] = refl
extract_end (suc n) (d ∷ rest) = refl

extract_plain :
    (n c : ℕ) (text rest value : Bytes)
    → c ≢ 34
    → c ≢ 92
    → extract n (text ++ (34 ∷ rest)) ≡ value
    → extract (suc n) (c ∷ (text ++ (34 ∷ rest))) ≡ c ∷ value
unfolding extract
extract_plain n c [] rest value a b h = ground (arith, h)
extract_plain n c (x ∷ text) rest value a b h = ground (arith, h)

extract_escape :
    (n e : ℕ) (text value : Bytes)
    → extract n text ≡ value
    → extract (suc n) (92 ∷ e ∷ text) ≡ unescape e ∷ value
unfolding extract
extract_escape n e text value h = ap (◌∷◌ (unescape e)) h

extract-Spells :
    (n : ℕ) (rest : Bytes) {text value : Bytes}
    → Spells text value
    → length value ≤ n
    → extract n (text ++ (34 ∷ rest)) ≡ value
extract-Spells n rest nothing h = extract_end n rest
extract-Spells zero rest (plain c l a b s) h = absurd (omega arith)
extract-Spells (suc n) rest (plain c {text} {value} l a b s) h =
    extract_plain n c text rest value a b (extract-Spells n rest s (omega arith))
extract-Spells zero rest (quote s) h = absurd (omega arith)
extract-Spells (suc n) rest (quote {text} {value} s) h =
    extract_escape n 34 (text ++ (34 ∷ rest)) value (extract-Spells n rest s (omega arith))
extract-Spells zero rest (backslash s) h = absurd (omega arith)
extract-Spells (suc n) rest (backslash {text} {value} s) h =
    extract_escape n 92 (text ++ (34 ∷ rest)) value (extract-Spells n rest s (omega arith))
extract-Spells zero rest (slash s) h = absurd (omega arith)
extract-Spells (suc n) rest (slash {text} {value} s) h =
    extract_escape n 47 (text ++ (34 ∷ rest)) value (extract-Spells n rest s (omega arith))
extract-Spells zero rest (newline s) h = absurd (omega arith)
extract-Spells (suc n) rest (newline {text} {value} s) h =
    extract_escape n 110 (text ++ (34 ∷ rest)) value (extract-Spells n rest s (omega arith))
extract-Spells zero rest (return s) h = absurd (omega arith)
extract-Spells (suc n) rest (return {text} {value} s) h =
    extract_escape n 114 (text ++ (34 ∷ rest)) value (extract-Spells n rest s (omega arith))
extract-Spells zero rest (tab s) h = absurd (omega arith)
extract-Spells (suc n) rest (tab {text} {value} s) h =
    extract_escape n 116 (text ++ (34 ∷ rest)) value (extract-Spells n rest s (omega arith))

-- A line in the form that the comment gives, whose content is a JSON string of any length without the escapes \u, \b and
-- \f: for a content of 1 to 4095 bytes, what is extracted is what the string stands for, and what
-- follows its closing quote does not matter.
pub content-Spells :
    (text content rest : Bytes)
    → Spells text content
    → content ≢ []
    → length content ≤ 4095
    → line_content (codes "data: {\"choices\":[{\"delta\":{\"content\":\"" ++ (text ++ (34 ∷ rest)))
      ≡ some content
unfolding line_content starts_with after_key
content-Spells text [] rest s n h = absurd (n refl)
content-Spells text (c ∷ content) rest s n h = ap not_empty (extract-Spells 4095 rest s h)
