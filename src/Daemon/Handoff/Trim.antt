-- ===== src/Daemon/Handoff/Trim.antt =====
-- handoff.c, `handoff_parse_data`: the blanks around the data.
use mod_socket_handoff.Base.{
  ℕ, zero, suc, ◌+◌, ◌-◌, ◌≤◌, ◌<◌, ◌≡◌, ◌≢◌, refl, sym, ap, ◌∙◌, Bool, true, false, some, [], ◌∷◌,
  Bytes, length, get_elem?, drop, ltb, arith, Bool-cases, inl, inr,
}
use mod_socket_handoff.Daemon.Handoff.{is_blank, leading, trailing}

abbrev pub blank_at : Bytes → ℕ → Bool
blank_at text i = is_blank (get_elem? text i)

-- Of the first `len` bytes, `left` from `skipped` on are kept: all others are blank, and neither the first nor the
-- last of those that are kept.
pub record IsTrimmed (text : Bytes) (len skipped left : ℕ) : Type 0 where
  pub inside : skipped + left ≤ len
  pub before : (i : ℕ) → i < skipped → blank_at text i ≡ true
  pub behind : (i : ℕ) → skipped + left ≤ i → i < len → blank_at text i ≡ true
  pub first : left ≢ 0 → blank_at text skipped ≡ false
  pub last : left ≢ 0 → blank_at text (skipped + left - 1) ≡ false

get_elem?-drop : (text : Bytes) (n i : ℕ) → get_elem? (drop n text) i ≡ get_elem? text (n + i)
get_elem?-drop text zero i = ap (get_elem? text) {x = i} {y = 0 + i} (omega arith)
get_elem?-drop [] (suc n) i = refl
get_elem?-drop (c ∷ text) (suc n) i =
    get_elem?-drop text n i
    ∙ ap (get_elem? (c ∷ text)) {x = suc (n + i)} {y = suc n + i} (omega arith)

record IsFront (text : Bytes) (len n : ℕ) : Type 0 where
  inside : n ≤ len
  blank : (i : ℕ) → i < n → blank_at text i ≡ true
  stop : n < len → blank_at text n ≡ false

leading-IsFront : (len : ℕ) (text : Bytes) → len ≤ length text → IsFront text len (leading len text)
unfolding leading
leading-IsFront zero text h = record {
  inside = omega arith;
  blank = λ i l. absurd (omega arith);
  stop = λ l. absurd (omega arith);
}
leading-IsFront (suc len) [] h = absurd (omega arith)
leading-IsFront (suc len) (c ∷ text) h = elim (Bool-cases (is_blank (some c))) [
  | inl e ↦
      let r = leading-IsFront len text (omega arith) in
      rw e (record {
        inside = omega (arith, r.inside);
        blank = step c text e r.blank;
        stop = λ l. r.stop (omega arith);
      })
  | inr e ↦
      rw e (record { inside = omega arith; blank = λ i l. absurd (omega arith); stop = λ l. e })
]
  where
    step :
        (c : ℕ) (text : Bytes) {n : ℕ}
        → is_blank (some c) ≡ true
        → ((i : ℕ) → i < n → blank_at text i ≡ true)
        → (i : ℕ) → i < suc n
        → blank_at (c ∷ text) i ≡ true
    step c text e b zero l = e
    step c text e b (suc i) l = b i (omega arith)

record IsBack (text : Bytes) (len n : ℕ) : Type 0 where
  inside : n ≤ len
  blank : (i : ℕ) → n ≤ i → i < len → blank_at text i ≡ true
  stop : n ≢ 0 → blank_at text (n - 1) ≡ false

trailing-IsBack : (text : Bytes) (len : ℕ) → IsBack text len (trailing text len)
unfolding trailing
trailing-IsBack text zero = record {
  inside = omega arith;
  blank = λ i m l. absurd (omega arith);
  stop = λ l. absurd (l refl);
}
trailing-IsBack text (suc len) = elim (Bool-cases (blank_at text len)) [
  | inl e ↦
      let r = trailing-IsBack text len in
      rw e (record {
        inside = omega (arith, r.inside);
        blank = λ i m l. elim (Bool-cases (ltb i len)) [
          | inl t ↦ r.blank i m (ground arith)
          | inr t ↦ ap (blank_at text) {x = i} {y = len} (ground arith) ∙ e
        ];
        stop = r.stop;
      })
  | inr e ↦ rw e (record {
    inside = omega arith;
    blank = λ i m l. absurd (omega arith);
    stop = λ l. ap (blank_at text) {x = suc len - 1} {y = len} (omega arith) ∙ e;
  })
]

blank-drop : (text : Bytes) (n i : ℕ) → blank_at (drop n text) i ≡ blank_at text (n + i)
blank-drop text n i = ap is_blank (get_elem?-drop text n i)

-- For data that is in its buffer, what `handoff_parse_data` keeps to parse starts and ends with a byte that is not
-- blank (NUL, space, tab, newline or carriage return), unless it is empty, and all that it leaves out is blank.
pub trim-IsTrimmed :
    (text : Bytes) (len : ℕ)
    → len ≤ length text
    → let skipped = leading len text in
      IsTrimmed text len skipped (trailing (drop skipped text) (len - skipped))
trim-IsTrimmed text len h =
    let s = leading len text in
    let a = leading-IsFront len text h in
    let b = trailing-IsBack (drop s text) (len - s) in
    let left = trailing (drop s text) (len - s) in
    record {
      inside = omega (arith, a.inside, b.inside);
      before = a.blank;
      behind = λ i m l.
          ap (blank_at text) {x = i} {y = s + (i - s)} (omega arith)
          ∙ sym (blank-drop text s (i - s))
          ∙ b.blank (i - s) (omega arith) (omega arith);
      first = λ z. a.stop (omega (arith, a.inside, b.inside));
      last = λ z.
          ap (blank_at text) {x = s + left - 1} {y = s + (left - 1)} (omega arith)
          ∙ sym (blank-drop text s (left - 1))
          ∙ b.stop z;
    }
