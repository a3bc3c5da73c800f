-- ===== src/Base/Bits.antt =====
-- `|` of a multiple of a power of two and a number below that power is their sum.
use Prim.Native.Nat.{
  ℕ, zero, suc, ◌+◌, ◌*◌, ◌/◌, ◌^◌, ◌≤◌, ◌<◌, max, bit_or, digits, bit_or-bitwise,
}
use mathlib.Core.Path.{◌≡◌, refl, ◌∙◌}
use native.Mathlib.Omega.{arith}
use native.Mathlib.Nat.{pow-suc}

-- What `bit_or` computes, for a first number of at most `n`.
abbrev joined : ℕ → ℕ → ℕ → ℕ
joined n a b = digits (λ d. d) max n a b

joined-zero : (n a : ℕ) → a ≤ n → joined n a 0 ≡ a
joined-zero n zero h = nothing_left n
  where
    nothing_left : (m : ℕ) → joined m 0 0 ≡ 0
    nothing_left zero = refl
    nothing_left (suc m) = refl
joined-zero zero (suc a) h = absurd (omega arith)
joined-zero (suc n) (suc a) h = omega (arith, joined-zero n (suc a / 2) (omega arith))

joined-shift : (k n c a b : ℕ) → a ≡ c * 2 ^ k → a ≤ n → b < 2 ^ k → joined n a b ≡ a + b
joined-shift zero n c a b e h l =
    let z : b ≡ 0 = omega arith in rw z (joined-zero n a h ∙ omega arith)
joined-shift (suc k) zero c zero b e h l = omega arith
joined-shift (suc k) zero c (suc a) b e h l = absurd (omega arith)
joined-shift (suc k) (suc n) c zero b e h l = omega arith
joined-shift (suc k) (suc n) c (suc a) b e h l =
    let twice : suc a ≡ c * 2 ^ k * 2 = e ∙ rw (pow-suc 2 k) (grind arith) in
    let low : b < 2 ^ k * 2 = rw (pow-suc 2 k) at l in
    omega (arith, joined-shift k n c (suc a / 2) (b / 2) (omega arith) (omega arith) (omega arith))

pub bit_or-shift : (k c b : ℕ) → b < 2 ^ k → bit_or (c * 2 ^ k) b ≡ c * 2 ^ k + b
bit_or-shift k c b h =
    bit_or-bitwise (c * 2 ^ k) b ∙ joined-shift k (c * 2 ^ k) c (c * 2 ^ k) b refl (omega arith) h
