-- ===== src/Daemon/Settings/Lines.antt =====
-- config.c: the spaces in a line.
use mod_socket_handoff.Base.{
  ℕ, ◌≡◌, ◌≢◌, refl, sym, ap, ◌∙◌, true, false, some, [], ◌∷◌, ◌++◌, append_assoc, Bytes,
  append-nil, arith, ne→==, if◌then◌else◌,
}
use mod_socket_handoff.Daemon.Settings.{
  Settings, Libc, is_space, keep, skip_spaces, drop_spaces, trim, split_at_equals, is_skipped,
  parse_line, parse_pair, settings_or, config_line,
}

-- Only spaces.
abbrev pub Blank : Bytes → Type 0
Blank [] = Unit
Blank (c ∷ s) = (is_space c ≡ true) × Blank s

-- A word that neither starts nor ends with a space.
pub record Tight (w : Bytes) : Type 0 where
  pub first : ℕ
  pub others : Bytes
  pub shape : w ≡ first ∷ others
  pub starts : is_space first ≡ false
  pub ends : drop_spaces w ≡ w

skip-Blank : (p s : Bytes) → Blank p → skip_spaces (p ++ s) ≡ skip_spaces s
unfolding skip_spaces
skip-Blank [] s b = refl
skip-Blank (c ∷ p) s (e, b) = rw e (skip-Blank p s b)

skip-Tight : (w s : Bytes) → Tight w → skip_spaces (w ++ s) ≡ w ++ s
unfolding skip_spaces
skip-Tight w s t =
    ap (λ (x : Bytes). skip_spaces (x ++ s)) t.shape
    ∙ head t.first t.others t.starts
    ∙ ap (λ (x : Bytes). x ++ s) (sym t.shape)
  where
    head : (c : ℕ) (r : Bytes) → is_space c ≡ false → skip_spaces (c ∷ (r ++ s)) ≡ c ∷ (r ++ s)
    head c r e = rw e refl

drop-Blank : (p : Bytes) → Blank p → drop_spaces p ≡ []
unfolding drop_spaces
drop-Blank [] b = refl
drop-Blank (c ∷ p) (e, b) = rw (drop-Blank p b, e) refl

drop_behind : (s p : Bytes) → Blank p → drop_spaces (s ++ p) ≡ drop_spaces s
unfolding drop_spaces
drop_behind [] p b = drop-Blank p b
drop_behind (c ∷ s) p b = ap (keep c) (drop_behind s p b)

-- What ends in a tight word stays.
drop-Tight : (s w : Bytes) → Tight w → drop_spaces (s ++ w) ≡ s ++ w
unfolding drop_spaces
drop-Tight [] w t = t.ends
drop-Tight (c ∷ s) w t = ap (keep c) (drop-Tight s w t) ∙ kept (s ++ w) (not_empty s)
  where
    kept : (r : Bytes) → r ≢ [] → keep c r ≡ c ∷ r
    kept [] n = absurd (n refl)
    kept (d ∷ r) n = refl

    not_empty : (s' : Bytes) → s' ++ w ≢ []
    not_empty [] e = empty_word (sym t.shape ∙ e)
      where
        empty_word : t.first ∷ t.others ≢ []
        empty_word f = cc
    not_empty (d ∷ s') e = cc

trim-Tight : (p w q : Bytes) → Blank p → Tight w → Blank q → trim (p ++ (w ++ q)) ≡ w
unfolding trim
trim-Tight p w q b t b' =
    ap drop_spaces (skip-Blank p (w ++ q) b ∙ skip-Tight w q t) ∙ drop_behind w q b' ∙ t.ends

-- No byte is an equals sign.
abbrev pub Unequal : Bytes → Type 0
Unequal [] = Unit
Unequal (c ∷ s) = (c ≢ 61) × Unequal s

Blank-Unequal : (p : Bytes) → Blank p → Unequal p
Blank-Unequal [] b = tt
Blank-Unequal (c ∷ p) (e, b) = ((λ f. ground arith), Blank-Unequal p b)

append-Unequal : (a b : Bytes) → Unequal a → Unequal b → Unequal (a ++ b)
append-Unequal [] b h g = g
append-Unequal (c ∷ a) b (n, h) g = (n, append-Unequal a b h g)

split_first : (a b : Bytes) → Unequal a → split_at_equals (a ++ (61 ∷ b)) ≡ some (a, b)
unfolding split_at_equals
split_first [] b h = refl
split_first (c ∷ a) b (n, h) = rw (ne→== c 61 n, split_first a b h) refl

trim_line :
    (p key q p' value q' : Bytes)
    → Blank p
    → Tight key
    → Tight value
    → Blank q'
    → trim (p ++ (key ++ (q ++ (61 ∷ (p' ++ (value ++ q')))))) ≡ key ++ (q ++ (61 ∷ (p' ++ value)))
unfolding trim
trim_line p key q p' value q' b t t' b' =
    let rest = key ++ (q ++ (61 ∷ (p' ++ value))) in
    let front = key ++ (q ++ (61 ∷ p')) in
    let e : key ++ (q ++ (61 ∷ (p' ++ (value ++ q')))) ≡ rest ++ q' = simp append_assoc refl in
    let f : rest ≡ front ++ value = simp append_assoc refl in
    ap drop_spaces (
      skip-Blank p (key ++ (q ++ (61 ∷ (p' ++ (value ++ q'))))) b
      ∙ skip-Tight key (q ++ (61 ∷ (p' ++ (value ++ q')))) t
      ∙ e)
    ∙ drop_behind rest q' b'
    ∙ ap drop_spaces f
    ∙ drop-Tight front value t'
    ∙ sym f

unskipped :
    (key rest : Bytes) (t : Tight key)
    → t.first ≢ 35
    → t.first ≢ 91
    → is_skipped (key ++ rest) ≡ false
unskipped key rest t n m =
    ap (λ (k : Bytes). is_skipped (k ++ rest)) t.shape
    ∙ rw (ne→== t.first 35 n, ne→== t.first 91 m) refl

-- A line with a key, an equals sign and a value, with any spaces before, between and behind them: it does what
-- `parse_line` does for the key and the value, and changes nothing where that is an error. The key and the
-- value neither start nor end with a space, the key has no equals sign and starts no comment or section.
pub line-Tight :
    (u : Libc) (s : Settings) (p key q p' value q' : Bytes)
    → Blank p
    → Blank q
    → Blank p'
    → Blank q'
    → (t : Tight key) → Tight value
    → Unequal key
    → t.first ≢ 35
    → t.first ≢ 91
    → config_line u s (p ++ (key ++ (q ++ (61 ∷ (p' ++ (value ++ q'))))))
      ≡ settings_or s (parse_line u s key value)
unfolding config_line
line-Tight u s p key q p' value q' b c b' c' t t' h n m =
    let rest = q ++ (61 ∷ (p' ++ value)) in
    ap (λ (x : Bytes). if is_skipped x then s else parse_pair u s (split_at_equals x))
      (trim_line p key q p' value q' b t t' c')
    ∙ simp (unskipped key rest t n m) (
        ap (λ (x : Bytes). parse_pair u s (split_at_equals x))
          (sym (append_assoc key q (61 ∷ (p' ++ value))))
        ∙ ap (parse_pair u s)
            (split_first (key ++ q) (p' ++ value) (append-Unequal key q h (Blank-Unequal q c)))
        ∙ pair (key ++ q) (p' ++ value) (trim-Tight [] key q tt t c) (
            ap (λ (x : Bytes). trim (p' ++ x)) (sym (append-nil value))
            ∙ trim-Tight p' value [] b' t' tt))
  where
    pair :
        (a d : Bytes)
        → trim a ≡ key
        → trim d ≡ value
        → parse_pair u s (some (a, d)) ≡ settings_or s (parse_line u s key value)
    pair a d e f = unfold parse_pair in rw (e, f) refl
