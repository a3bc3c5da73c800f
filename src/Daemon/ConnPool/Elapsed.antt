-- ===== src/Daemon/ConnPool/Elapsed.antt =====
-- connection.c, `conn_elapsed_ms`. The clock's reading is an argument; its nanoseconds are below 10 ^ 9.
use mod_socket_handoff.Base.{ℕ, ◌+◌, ◌-◌, ◌*◌, ◌/◌, ◌%◌, ◌^◌, ◌≤◌, ◌<◌, arith}

pub record Timespec : Type 0 where
  pub tv_sec : ℕ
  pub tv_nsec : ℕ

abbrev to_ms : Timespec → ℕ
to_ms t = (t.tv_sec * 1000 % 2 ^ 64 + t.tv_nsec / 1000000) % 2 ^ 64

unfoldable pub conn_elapsed_ms : Timespec → Timespec → ℕ
conn_elapsed_ms start now = (to_ms now + 2 ^ 64 - to_ms start) % 2 ^ 64

abbrev pub nanoseconds : Timespec → ℕ
nanoseconds t = t.tv_sec * 1000000000 + t.tv_nsec

-- For readings of a clock that has not gone back, with seconds below 2 ^ 53, the result of
-- `conn_elapsed_ms` is within one millisecond of the time elapsed.
pub elapsed_accuracy :
    (start now : Timespec)
    → start.tv_nsec < 1000000000
    → now.tv_nsec < 1000000000
    → now.tv_sec < 2 ^ 53
    → nanoseconds start ≤ nanoseconds now
    → let ms = conn_elapsed_ms start now in
      let ns = nanoseconds now - nanoseconds start in
      (ms * 1000000 < ns + 1000000) × (ns < ms * 1000000 + 1000000)
unfolding conn_elapsed_ms
elapsed_accuracy start now a b c d = (omega arith, omega arith)
