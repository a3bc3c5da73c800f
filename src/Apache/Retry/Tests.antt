-- ===== src/Apache/Retry/Tests.antt =====
-- mod_socket_handoff.c, `connect_with_retry` on two systems.
use mod_socket_handoff.Base.{◌+◌, ◌≡◌, refl, none}
use mod_socket_handoff.Apache.Os.{poll, poll_until}
use mod_socket_handoff.Apache.Samples.{refusing, start, daemon_path}
use mod_socket_handoff.Apache.Deadline.{remaining_timeout_ms, retry_delay_ms}
use mod_socket_handoff.Apache.Deadline.Budget.{delays}
use mod_socket_handoff.Apache.Connect.{connect_to_socket}
use mod_socket_handoff.Apache.Retry.{connect_with_retry, is_transient_error}
use mod_socket_handoff.Apache.Retry.Bounds.{IsBounded, retry-IsBounded}

-- Three attempts, with delays of 10 and 20 ms between them.
retry_refused :
    let (r, w) = connect_with_retry refusing daemon_path 100 2 530000 start in
    (r ≡ none) × (w.connects ≡ 3) × (w.slept ≡ 30)
unfolding connect_with_retry connect_to_socket poll poll_until remaining_timeout_ms retry_delay_ms
    is_transient_error
retry_refused = (refl, refl, refl)

retry-IsBounded_example :
    let (r, w) = connect_with_retry refusing daemon_path 100 2 530000 start in
    IsBounded (2 + 1) 100 (delays 2) start r w
retry-IsBounded_example = retry-IsBounded refusing daemon_path 100 2 530000 start
