-- ===== src/Daemon/Handoff/Keys.antt =====
-- json.c, `json_find_key`: the keys of an object.
use mathlib.Core.Path.{subst}
use mod_socket_handoff.Base.{
  ℕ, zero, suc, ◌+◌, ◌*◌, ◌≤◌, ◌<◌, ◌≡◌, refl, sym, ap, ◌∙◌, true, false, Option, none, some, List,
  [], ◌∷◌, ◌++◌, Bytes, length, get_elem?, drop, drop-all, length-append, if◌then◌else◌, arith,
  Bool-cases, inl, inr,
}
use mod_socket_handoff.Daemon.Handoff.{
  object, array, Token, is_nested, json_tok_eq, to_skip, find_from, json_find_key, token_at,
}

-- The keys with their values, as jsmn lists them.
abbrev pub tokens_of : List (Token × Token) → List Token
tokens_of [] = []
tokens_of ((k, v) ∷ pairs) = k ∷ v ∷ tokens_of pairs

-- No value is an object or an array.
abbrev pub Plain : List (Token × Token) → Type 0
Plain [] = Unit
Plain ((k, v) ∷ pairs) = (is_nested v.kind ≡ false) × Plain pairs

-- The value of the first pair with the key.
abbrev pub lookup : Bytes → Bytes → List (Token × Token) → Option Token
lookup json key [] = none
lookup json key ((k, v) ∷ pairs) = if json_tok_eq json k key then some v else lookup json key pairs

find-lookup :
    (n : ℕ) (json key : Bytes) (all : List Token) (i : ℕ) (pairs : List (Token × Token))
    → Plain pairs
    → length pairs < n
    → ((j : ℕ) → get_elem? all (i + j) ≡ get_elem? (tokens_of pairs) j)
    → token_at all (find_from n json key i (tokens_of pairs)) ≡ lookup json key pairs
unfolding find_from
find-lookup zero json key all i pairs p h g = absurd (omega arith)
find-lookup (suc n) json key all i [] p h g = refl
find-lookup (suc n) json key all i ((k, v) ∷ pairs) p h g =
    elim (Bool-cases (json_tok_eq json k key)) [
      | inl e ↦ rw e (g 1)
      | inr e ↦
          rw (e, p.0)
            (find-lookup n json key all (i + 2 + 0) pairs p.1 (omega arith) (λ j.
              ap (get_elem? all) {x = i + 2 + 0 + j} {y = i + suc (suc j)} (omega arith)
              ∙ g (suc (suc j))))
    ]

pairs_bound : (pairs : List (Token × Token)) → length pairs ≤ length (tokens_of pairs)
pairs_bound [] = omega arith
pairs_bound ((k, v) ∷ pairs) = omega (arith, pairs_bound pairs)

-- In an object in which no value is an object or an array, `json_find_key` finds the value of the first pair with the
-- key, and nothing when there is none.
pub find_key-lookup :
    (json key : Bytes) (t : Token) (pairs : List (Token × Token))
    → t.kind ≡ object
    → Plain pairs
    → token_at (t ∷ tokens_of pairs) (json_find_key json (t ∷ tokens_of pairs) key)
      ≡ lookup json key pairs
unfolding json_find_key
find_key-lookup json key t pairs o p = simp o (
    find-lookup (suc (length (tokens_of pairs))) json key (t ∷ tokens_of pairs) 1 pairs p
      (omega (arith, pairs_bound pairs))
      (λ j. ap (get_elem? (t ∷ tokens_of pairs)) {x = 1 + j} {y = suc j} (omega arith)))

last_value :
    (n : ℕ) (json key : Bytes) (i : ℕ) (v : Token)
    → json_tok_eq json v key ≡ false
    → find_from n json key i (v ∷ []) ≡ none
unfolding find_from
last_value zero json key i v e = refl
last_value (suc n) json key i v e = rw e refl

no_tokens : (n : ℕ) (json key : Bytes) (i : ℕ) → find_from n json key i [] ≡ none
unfolding find_from
no_tokens zero json key i = refl
no_tokens (suc n) json key i = refl

-- The scan behind an array that holds `elems`, when one pair is left.
behind :
    (n : ℕ) (json key : Bytes) (i size : ℕ) (k v : Token) (elems : List Token)
    → size ≡ length elems
    → 1 ≤ length elems
    → json_tok_eq json v key ≡ false
    → find_from n json key i (drop (size * 2) (elems ++ (k ∷ v ∷ []))) ≡ none
behind n json key i size k v [] z h e = absurd (omega arith)
behind n json key i size k v (x ∷ []) z h e = rw z (last_value n json key i v e)
behind n json key i size k v (x ∷ y ∷ elems) z h e =
    let all = x ∷ y ∷ elems ++ (k ∷ v ∷ []) in
    rw (drop-all (size * 2) all (omega (arith, length-append elems (k ∷ v ∷ []), z)))
      (no_tokens n json key i)

-- With an array of one value or more as the first value of an object, and one pair behind it, `json_find_key` finds
-- nothing for the key of that pair: it skips twice as many tokens as the array has. (The other key, and the value of
-- the pair, are not the key themselves.)
pub array-hides :
    (json key : Bytes) (t a k k' v' : Token) (elems : List Token)
    → t.kind ≡ object
    → a.kind ≡ array
    → a.size ≡ length elems
    → 1 ≤ length elems
    → json_tok_eq json k key ≡ false
    → json_tok_eq json k' key ≡ true
    → json_tok_eq json v' key ≡ false
    → json_find_key json (t ∷ k ∷ a ∷ elems ++ (k' ∷ v' ∷ [])) key ≡ none
unfolding json_find_key find_from
array-hides json key t a k k' v' elems o b z h e y w =
    let ts = elems ++ (k' ∷ v' ∷ []) in
    let skip : to_skip a ≡ a.size * 2 = simp b refl in
    let n = suc (suc (length ts)) in
    simp (o, e)
      (subst (λ (m : ℕ). find_from n json key (1 + 2 + m) (drop m ts) ≡ none) (sym skip)
        (behind n json key (1 + 2 + a.size * 2) a.size k' v' elems z h w))
