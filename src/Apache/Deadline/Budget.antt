-- ===== src/Apache/Deadline/Budget.antt =====
-- mod_socket_handoff.c: the overall deadline covers every attempt, every delay and the send.
use native.Mathlib.Nat.{pow-suc}
use native.Mathlib.Decide.{dec_le}
use mod_socket_handoff.Base.{ℕ, zero, suc, ◌+◌, ◌*◌, ◌^◌, ◌≤◌, ◌<◌, ◌≡◌, refl, arith}
use mod_socket_handoff.Apache.Config.{Config}
use mod_socket_handoff.Apache.Config.Range.{InRange}
use mod_socket_handoff.Apache.Deadline.{
  remaining_timeout_ms, max_backoff_ms, full_budget_ms, total_ms, compute_handoff_deadline,
  retry_delay_ms, int_max,
}

-- What is left, in whole milliseconds: it never runs past the deadline, fits an int, and is 0 exactly when less
-- than a millisecond is left.
pub remaining_bounds :
    (now deadline : ℕ)
    → (now ≤ deadline → now + remaining_timeout_ms now deadline * 1000 ≤ deadline)
      × (remaining_timeout_ms now deadline ≤ int_max)
      × (remaining_timeout_ms now deadline ≡ 0 → deadline < now + 1000)
      × (deadline < now + 1000 → remaining_timeout_ms now deadline ≡ 0)
unfolding remaining_timeout_ms
remaining_bounds now deadline =
    (λ h. ground arith, ground arith, λ h. ground arith, λ h. ground arith)

-- The delays after the first `n` attempts together.
abbrev pub delays : ℕ → ℕ
delays zero = 0
delays (suc n) = delays n + retry_delay_ms n

delays-closed : (n : ℕ) → n ≤ 21 → delays n + 10 ≡ 10 * 2 ^ n
unfolding retry_delay_ms
delays-closed zero h = refl
delays-closed (suc n) h = ground (arith, delays-closed n, pow-suc 2 n)

pow_pos : (n : ℕ) → 1 ≤ 2 ^ n
pow_pos zero = omega arith
pow_pos (suc n) = omega (arith, pow_pos n, pow-suc 2 n)

-- The backoff that the deadline allows for is the sum of the delays that the retry loop takes.
pub delays-eq-max_backoff : (n : ℕ) → n ≤ 21 → delays n ≡ max_backoff_ms n
unfolding max_backoff_ms
delays-eq-max_backoff zero h = refl
delays-eq-max_backoff (suc n) h = ground (arith, delays-closed (suc n), pow_pos (suc n))

delays_mono : (n m : ℕ) → n ≤ m → delays n ≤ delays m
delays_mono zero m h = omega arith
delays_mono (suc n) zero h = absurd (omega arith)
delays_mono (suc n) (suc m) h = elim (dec_le (suc n) m) [
  | yes p ↦ omega (arith, delays_mono (suc n) m p)
  | no p ↦ let e : n ≡ m = omega arith in rw e (omega arith)
]

-- At ten retries, the most that can be configured.
pub delays_bound : (n : ℕ) → n ≤ 10 → delays n ≤ 10230
unfolding retry_delay_ms
delays_bound n h = delays_mono n 10 h

mul_bound : (r c : ℕ) → r ≤ 10 → c ≤ 60000 → (r + 1) * c ≤ 660000
mul_bound r c h k = grind arith

-- For a configuration that the directives can produce nothing is clamped: the deadline is now
-- and, in milliseconds, a connect timeout for each attempt, the send timeout and all the delays.
pub deadline_covers :
    (now : ℕ) (conf : Config)
    → InRange conf
    → compute_handoff_deadline now conf
      ≡ now
        + ((conf.max_retries + 1) * conf.connect_timeout_ms
            + conf.send_timeout_ms
            + delays conf.max_retries)
          * 1000
unfolding compute_handoff_deadline total_ms full_budget_ms
deadline_covers now conf v =
    let r = conf.max_retries in
    ground (arith, delays-eq-max_backoff r, delays_bound r, mul_bound r conf.connect_timeout_ms)
