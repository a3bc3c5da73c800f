-- ===== src/Daemon/Streaming/Json.antt =====
-- streaming.c, `stream_format_sse`: what is escaped is a JSON string.
use mod_socket_handoff.Base.{
  ℕ, ◌+◌, ◌-◌, ◌/◌, ◌%◌, ◌≤◌, ◌<◌, ◌≡◌, ◌≢◌, refl, Option, some, none, [], ◌∷◌, ◌++◌, Bytes, arith,
  length, take, Bool-cases, inl, inr, ltb, ltb→lt, ltb→le, ◌==◌, if◌then◌else◌,
}
use mod_socket_handoff.Daemon.Streaming.{escape, escape_char, hex_digit, frame}

-- The digit of a number below 16 in hexadecimal, after RFC 8259.
pub data Digit : ℕ → ℕ → Type 0 where
  decimal : (d : ℕ) → d < 10 → Digit d (48 + d)
  letter : (d : ℕ) → 10 ≤ d → d < 16 → Digit d (87 + d)

-- The text between the quotes of a JSON string, and the characters that it stands for.
pub data Denotes : Bytes → Bytes → Type 0 where
  nothing : Denotes [] []
  plain :
      (c : ℕ) (text value : Bytes)
      → 32 ≤ c
      → c ≢ 34
      → c ≢ 92
      → Denotes text value
      → Denotes (c ∷ text) (c ∷ value)
  quote : (text value : Bytes) → Denotes text value → Denotes (92 ∷ 34 ∷ text) (34 ∷ value)
  backslash : (text value : Bytes) → Denotes text value → Denotes (92 ∷ 92 ∷ text) (92 ∷ value)
  newline : (text value : Bytes) → Denotes text value → Denotes (92 ∷ 110 ∷ text) (10 ∷ value)
  return : (text value : Bytes) → Denotes text value → Denotes (92 ∷ 114 ∷ text) (13 ∷ value)
  tab : (text value : Bytes) → Denotes text value → Denotes (92 ∷ 116 ∷ text) (9 ∷ value)
  unicode :
      (c a b : ℕ) (text value : Bytes)
      → Digit (c / 16) a
      → Digit (c % 16) b
      → c < 256
      → Denotes text value
      → Denotes (92 ∷ 117 ∷ 48 ∷ 48 ∷ a ∷ b ∷ text) (c ∷ value)

hex-Digit : (d : ℕ) → d < 16 → Digit d (hex_digit d)
hex-Digit d h = elim (Bool-cases (ltb d 10)) [
  | inl t ↦ rw t (decimal d (ltb→lt d 10 t))
  | inr t ↦ rw t (letter d (ltb→le d 10 t) h)
]

-- One more character in front.
pub escape_char-Denotes :
    (c : ℕ) (text value : Bytes) → Denotes text value → Denotes (escape_char c ++ text) (c ∷ value)
unfolding escape_char
escape_char-Denotes c text value d = elim (Bool-cases (c == 34)) [
  | inl e ↦ let n : c ≡ 34 = ground arith in rw n (quote text value d)
  | inr q ↦ rw q (elim (Bool-cases (c == 92)) [
    | inl e ↦ let n : c ≡ 92 = ground arith in rw n (backslash text value d)
    | inr b ↦ rw b (elim (Bool-cases (c == 10)) [
      | inl e ↦ let n : c ≡ 10 = ground arith in rw n (newline text value d)
      | inr e ↦ rw e (elim (Bool-cases (c == 13)) [
        | inl f ↦ let n : c ≡ 13 = ground arith in rw n (return text value d)
        | inr f ↦ rw f (elim (Bool-cases (c == 9)) [
          | inl g ↦ let n : c ≡ 9 = ground arith in rw n (tab text value d)
          | inr g ↦ rw g (elim (Bool-cases (ltb c 32)) [
            | inl l ↦ rw l (
                unicode c (hex_digit (c / 16)) (hex_digit (c % 16)) text value
                  (hex-Digit (c / 16) (ground arith)) (hex-Digit (c % 16) (omega arith))
                  (ground arith) d)
            | inr l ↦
                rw l (plain c text value (ltb→le c 32 l) (λ n. ground arith) (λ n. ground arith) d)
          ])
        ])
      ])
    ])
  ])
]

-- The length of the whole content when it is escaped.
abbrev pub escaped_length : Bytes → ℕ
escaped_length [] = 0
escaped_length (c ∷ content) = length (escape_char c) + escaped_length content

-- `text` stands for the first `k` bytes of the content, and for all of it if it has room.
record IsEscaped (left : ℕ) (content text : Bytes) : Type 0 where
  k : ℕ
  denotes : Denotes text (take k content)
  bounded : length text ≤ left
  whole : escaped_length content + 6 ≤ left → k ≡ length content
  filled : k ≢ length content → left ≤ length text + 6

escape-eq :
    (left c : ℕ) (content : Bytes)
    → escape left (c ∷ content)
      ≡ (if ltb 6 left then escape_char c ++ escape (left - length (escape_char c)) content else [])
unfolding escape
escape-eq left c content = refl

-- An event of the stream: the JSON object with the content, or a refusal if it does not fit.
pub record IsEvent (size : ℕ) (content : Bytes) (out : Option Bytes) : Type 0 where
  pub k : ℕ
  pub text : Bytes
  pub denotes : Denotes text (take k content)
  pub whole : escaped_length content ≤ 4089 → k ≡ length content
  pub filled : k ≢ length content → 4089 ≤ length text
  pub sent : length text + 22 < size → out ≡ some (frame text)
  pub refused : size ≤ length text + 22 → out ≡ none
