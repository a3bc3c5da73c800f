-- ===== src/Daemon/WriteBuffer/Blocks.antt =====
-- write_buffer.c: slices of a block of memory under `memcpy`, `memmove` and `realloc`.
use mod_socket_handoff.Base.{
  ℕ, zero, suc, ◌+◌, ◌-◌, ◌≤◌, ◌≡◌, refl, sym, ap, ◌∙◌, [], ◌∷◌, ◌++◌, append_assoc, Bytes, arith,
  length, take, drop, replicate, length-append, length-take, length-drop, length-replicate,
  take-all, take-append_exact, drop-drop,
}
use mod_socket_handoff.Daemon.WriteBuffer.{write_at, resize}

-- The `n` bytes from offset `i` on.
abbrev pub slice : ℕ → ℕ → Bytes → Bytes
slice i n buffer = take n (drop i buffer)

drop-append_le : (t : ℕ) (xs ys : Bytes) → t ≤ length xs → drop t (xs ++ ys) ≡ drop t xs ++ ys
drop-append_le zero xs ys h = refl
drop-append_le (suc t) [] ys h = absurd (omega arith)
drop-append_le (suc t) (x ∷ xs) ys h = drop-append_le t xs ys (omega arith)

take-append_le : (n : ℕ) (xs ys : Bytes) → n ≤ length xs → take n (xs ++ ys) ≡ take n xs
take-append_le zero xs ys h = refl
take-append_le (suc n) [] ys h = absurd (omega arith)
take-append_le (suc n) (x ∷ xs) ys h = ap (◌∷◌ x) (take-append_le n xs ys (omega arith))

take-nil : (n : ℕ) → take {A = ℕ} n [] ≡ []
take-nil zero = refl
take-nil (suc n) = refl

drop-take : (t h : ℕ) (xs : Bytes) → drop t (take (t + h) xs) ≡ take h (drop t xs)
drop-take zero h xs = ap (λ (k : ℕ). take k xs) (omega arith)
drop-take (suc t) h [] = ap (drop (suc t)) (take-nil (suc t + h)) ∙ sym (take-nil h)
drop-take (suc t) h (x ∷ xs) =
    ap (λ (k : ℕ). drop (suc t) (take k (x ∷ xs))) {x = suc t + h} {y = suc (t + h)} (omega arith)
    ∙ drop-take t h xs

-- Bytes written behind a slice extend it.
pub slice-write_at :
    (t n : ℕ) (buffer bytes : Bytes)
    → t + n + length bytes ≤ length buffer
    → slice t (n + length bytes) (write_at buffer (t + n) bytes) ≡ slice t n buffer ++ bytes
slice-write_at t n buffer bytes h =
    let rest = drop (t + n + length bytes) buffer in
    ap (take (n + length bytes)) (
      drop-append_le t (take (t + n) buffer) (bytes ++ rest)
        (omega (arith, length-take (t + n) buffer))
      ∙ ap (λ (xs : Bytes). xs ++ (bytes ++ rest)) (drop-take t n buffer)
      ∙ sym (append_assoc (take n (drop t buffer)) bytes rest))
    ∙ take-append_exact (n + length bytes) (take n (drop t buffer) ++ bytes) rest (
        omega (
          arith,
          length-append (take n (drop t buffer)) bytes,
          length-take n (drop t buffer),
          length-drop t buffer,
        ))

pub length-write_at :
    (i : ℕ) (buffer bytes : Bytes)
    → i + length bytes ≤ length buffer
    → length (write_at buffer i bytes) ≡ length buffer
length-write_at i buffer bytes h = omega (
  arith,
  length-append (take i buffer) (bytes ++ drop (i + length bytes) buffer),
  length-append bytes (drop (i + length bytes) buffer),
  length-take i buffer,
  length-drop (i + length bytes) buffer,
)

pub length-slice :
    (t n : ℕ) (buffer : Bytes) → t + n ≤ length buffer → length (slice t n buffer) ≡ n
length-slice t n buffer h = omega (arith, length-take n (drop t buffer), length-drop t buffer)

-- What is moved to the start can be read there.
pub slice-move :
    (t n : ℕ) (buffer : Bytes)
    → t + n ≤ length buffer
    → slice 0 n (write_at buffer 0 (slice t n buffer)) ≡ slice t n buffer
slice-move t n buffer h =
    take-append_exact n (slice t n buffer) (drop (0 + length (slice t n buffer)) buffer)
      (sym (length-slice t n buffer h))

-- `realloc` to a size that is not smaller keeps every slice.
pub slice-resize :
    (junk m t n : ℕ) (buffer : Bytes)
    → length buffer ≤ m
    → t + n ≤ length buffer
    → slice t n (resize junk buffer m) ≡ slice t n buffer
slice-resize junk m t n buffer h k =
    ap (λ (xs : Bytes). take n (drop t (xs ++ replicate (m - length buffer) junk)))
      (take-all m buffer h)
    ∙ ap (take n) (drop-append_le t buffer (replicate (m - length buffer) junk) (omega arith))
    ∙ take-append_le n (drop t buffer) (replicate (m - length buffer) junk)
        (omega (arith, length-drop t buffer))

pub length-resize :
    (junk m : ℕ) (buffer : Bytes) → length buffer ≤ m → length (resize junk buffer m) ≡ m
length-resize junk m buffer h = omega (
  arith,
  length-append (take m buffer) (replicate (m - length buffer) junk),
  length-take m buffer,
  length-replicate (m - length buffer) junk,
)

-- Reading a slice in two parts.
pub slice-drop :
    (t n k : ℕ) (buffer : Bytes) → k ≤ n → slice (t + k) (n - k) buffer ≡ drop k (slice t n buffer)
slice-drop t n k buffer h =
    ap (take (n - k)) (sym (drop-drop k t buffer))
    ∙ sym (drop-take k (n - k) (drop t buffer))
    ∙ ap (λ (m : ℕ). drop k (take m (drop t buffer))) {x = k + (n - k)} {y = n} (omega arith)
