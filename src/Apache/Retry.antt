-- ===== src/Apache/Retry.antt =====
-- mod_socket_handoff.c: `is_transient_error` and `connect_with_retry`.
pub mod Bounds
mod Tests
use mod_socket_handoff.Base.{
  ℕ, zero, suc, ◌+◌, Bool, true, false, not, ◌||◌, Option, none, some, Bytes, ltb, leb, ◌==◌,
  if◌then◌else◌,
}
use mod_socket_handoff.Apache.Os.{Os, Errno, enoent, econnrefused, Result, ok, err, World, S, tick}
use mod_socket_handoff.Apache.Deadline.{remaining_timeout_ms, retry_delay_ms}
use mod_socket_handoff.Apache.Connect.{connect_to_socket}

unfoldable pub is_transient_error : Errno → Bool
is_transient_error enoent = true
is_transient_error econnrefused = true
is_transient_error _ = false

-- `remaining_timeout_ms(deadline)`: reads the clock.
abbrev pub remaining_now : Os → ℕ → S ℕ
remaining_now os deadline w = (remaining_timeout_ms (os.now w.calls) deadline, tick w)

-- `a < b ? a : b`
abbrev pub lesser : ℕ → ℕ → ℕ
lesser a b = if ltb a b then a else b

-- The world after the clock was read and `nanosleep` asked for the delay, or for what remains.
abbrev pub rested : Os → ℕ → ℕ → World → World
rested os deadline attempt w = record w {
  calls = w.calls + 1;
  slept =
      w.slept + lesser (remaining_timeout_ms (os.now w.calls) deadline) (retry_delay_ms attempt);
}

-- Sleep, and go on with the next attempt.
back_off : Os → ℕ → ℕ → S (Option ℕ) → S (Option ℕ)
back_off os deadline attempt next w =
    let (remaining, w') = remaining_now os deadline w in
    if remaining == 0 then (none, w') else next (rested os deadline attempt w)

after_attempt : Os → ℕ → ℕ → ℕ → S (Option ℕ) → Result ℕ × World → Option ℕ × World
unfolding back_off
after_attempt os max_retries deadline attempt next (ok sock, w) = (some sock, w)
after_attempt os max_retries deadline attempt next (err e, w) =
    if leb max_retries attempt || not (is_transient_error e)
    then (none, w)
    else back_off os deadline attempt next w

-- One round of the loop.
try_once : Os → Bytes → ℕ → ℕ → ℕ → ℕ → S (Option ℕ) → S (Option ℕ)
unfolding after_attempt
try_once os path timeout max_retries deadline attempt next w =
    let (remaining, w') = remaining_now os deadline w in
    if remaining == 0
    then (none, w')
    else after_attempt os max_retries deadline attempt next
        (connect_to_socket os path (lesser remaining timeout) w')

-- `left` rounds of the `for` are left; `attempt` counts up to `max_retries`.
retry_loop : Os → Bytes → ℕ → ℕ → ℕ → ℕ → ℕ → S (Option ℕ)
unfolding try_once
retry_loop os path timeout max_retries deadline zero attempt w = (none, w)
retry_loop os path timeout max_retries deadline (suc left) attempt w =
    try_once os path timeout max_retries deadline attempt
      (retry_loop os path timeout max_retries deadline left (attempt + 1)) w

-- `none` is the -1 of the C function.
unfoldable pub connect_with_retry : Os → Bytes → ℕ → ℕ → ℕ → S (Option ℕ)
unfolding retry_loop
connect_with_retry os path timeout max_retries deadline w =
    retry_loop os path timeout max_retries deadline (max_retries + 1) 0 w
