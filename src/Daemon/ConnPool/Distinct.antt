-- ===== src/Daemon/ConnPool/Distinct.antt =====
-- Lists of different indices, of which there are not more than there are indices.
use mod_socket_handoff.Base.{
  ℕ, zero, suc, ◌≤◌, ◌<◌, ◌≡◌, ◌≢◌, sym, List, [], ◌∷◌, arith, length, ◌==◌, if◌then◌else◌,
  Bool-cases, inl, inr,
}

abbrev pub Absent : ℕ → List ℕ → Type 0
Absent c [] = Unit
Absent c (i ∷ ids) = (i ≢ c) × Absent c ids

abbrev pub Distinct : List ℕ → Type 0
Distinct [] = Unit
Distinct (i ∷ ids) = Absent i ids × Distinct ids

abbrev pub Below : ℕ → List ℕ → Type 0
Below n [] = Unit
Below n (i ∷ ids) = (i < n) × Below n ids

remove : ℕ → List ℕ → List ℕ
remove c [] = []
remove c (i ∷ ids) = if i == c then ids else i ∷ remove c ids

Absent-remove : (a c : ℕ) (ids : List ℕ) → Absent a ids → Absent a (remove c ids)
unfolding remove
Absent-remove a c [] h = tt
Absent-remove a c (i ∷ ids) h = elim (Bool-cases (i == c)) [
  | inl e ↦ rw e h.1
  | inr e ↦ rw e (h.0, Absent-remove a c ids h.1)
]

Distinct-remove : (c : ℕ) (ids : List ℕ) → Distinct ids → Distinct (remove c ids)
unfolding remove
Distinct-remove c [] h = tt
Distinct-remove c (i ∷ ids) h = elim (Bool-cases (i == c)) [
  | inl e ↦ rw e h.1
  | inr e ↦ rw e (Absent-remove i c ids h.0, Distinct-remove c ids h.1)
]

Below-lower : (n : ℕ) (ids : List ℕ) → Absent n ids → Below (suc n) ids → Below n ids
Below-lower n [] a b = tt
Below-lower n (i ∷ ids) a b = (omega (arith, ne_lt i n a.0 b.0), Below-lower n ids a.1 b.1)
  where
    ne_lt : (x y : ℕ) → x ≢ y → x < suc y → x < y
    ne_lt x y h k = omega arith

Below-remove : (n : ℕ) (ids : List ℕ) → Distinct ids → Below (suc n) ids → Below n (remove n ids)
unfolding remove
Below-remove n [] d b = tt
Below-remove n (i ∷ ids) d b = elim (Bool-cases (i == n)) [
  | inl e ↦ rw e (let z : i ≡ n = ground arith in Below-lower n ids (rw (sym z) d.0) b.1)
  | inr e ↦ rw e (ground arith, Below-remove n ids d.1 b.1)
]

length-remove : (c : ℕ) (ids : List ℕ) → length ids ≤ suc (length (remove c ids))
unfolding remove
length-remove c [] = omega arith
length-remove c (i ∷ ids) = elim (Bool-cases (i == c)) [
  | inl e ↦ rw e (omega arith)
  | inr e ↦ rw e (omega (arith, length-remove c ids))
]

pub length-le : (n : ℕ) (ids : List ℕ) → Distinct ids → Below n ids → length ids ≤ n
length-le zero [] d b = omega arith
length-le zero (i ∷ ids) d b = absurd (omega arith)
length-le (suc n) ids d b = omega (
  arith,
  length-remove n ids,
  length-le n (remove n ids) (Distinct-remove n ids d) (Below-remove n ids d b),
)
