-- ===== src/Apache/Deadline/Tests.antt =====
-- mod_socket_handoff.c: the deadline at concrete configurations.
use mod_socket_handoff.Base.{◌+◌, ◌*◌, ◌≡◌, refl}
use mod_socket_handoff.Apache.Config.{create_server_config}
use mod_socket_handoff.Apache.Config.Range.{create-InRange}
use mod_socket_handoff.Apache.Deadline.{
  compute_handoff_deadline, total_ms, full_budget_ms, max_backoff_ms,
}
use mod_socket_handoff.Apache.Deadline.Budget.{delays, deadline_covers}

-- Three attempts of 100 ms, the send of 200 ms, and delays of 10 and 20 ms.
default_deadline : compute_handoff_deadline 7 create_server_config ≡ 530007
unfolding compute_handoff_deadline total_ms full_budget_ms max_backoff_ms create_server_config
default_deadline = refl

deadline_covers_example :
    compute_handoff_deadline 7 create_server_config
    ≡ 7
      + ((create_server_config.max_retries + 1) * create_server_config.connect_timeout_ms
          + create_server_config.send_timeout_ms
          + delays create_server_config.max_retries)
        * 1000
deadline_covers_example = deadline_covers 7 create_server_config create-InRange
