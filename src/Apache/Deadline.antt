-- ===== src/Apache/Deadline.antt =====
-- mod_socket_handoff.c: `remaining_timeout_ms`, `compute_handoff_deadline` and the delay between
-- two attempts. Times are microseconds (`apr_time_t`); the clock's reading is an argument.
pub mod Budget
mod Tests
use mod_socket_handoff.Base.{ℕ, zero, suc, ◌+◌, ◌-◌, ◌*◌, ◌/◌, ◌^◌, ltb, leb, if◌then◌else◌}
use mod_socket_handoff.Apache.Config.{Config}

abbrev pub int_max : ℕ
int_max = 2147483647

abbrev pub apr_int32_max : ℕ
apr_int32_max = 2147483647

abbrev pub retry_base_delay_ms : ℕ
retry_base_delay_ms = 10

unfoldable pub remaining_timeout_ms : ℕ → ℕ → ℕ
remaining_timeout_ms now deadline =
    if leb deadline now
    then 0
    else (let diff = deadline - now in if ltb int_max (diff / 1000) then int_max else diff / 1000)

-- The shift is capped at 30.
unfoldable pub max_backoff_ms : ℕ → ℕ
max_backoff_ms retries =
    if ltb 0 retries
    then retry_base_delay_ms * (2 ^ (if ltb 30 retries then 30 else retries) - 1)
    else 0

-- The sum before it is clamped.
unfoldable pub full_budget_ms : Config → ℕ
full_budget_ms conf =
    (conf.max_retries + 1) * conf.connect_timeout_ms
    + conf.send_timeout_ms
    + max_backoff_ms conf.max_retries

-- `total_ms`, clamped to [1, APR_INT32_MAX]
unfoldable pub total_ms : Config → ℕ
total_ms conf =
    let raised = if ltb (full_budget_ms conf) 1 then 1 else full_budget_ms conf in
    if ltb apr_int32_max raised then apr_int32_max else raised

unfoldable pub compute_handoff_deadline : ℕ → Config → ℕ
compute_handoff_deadline now conf = now + total_ms conf * 1000

-- The delay after attempt number `attempt`, from 0; the shift is capped at 20.
unfoldable pub retry_delay_ms : ℕ → ℕ
retry_delay_ms attempt =
    let safe_attempt = if ltb 20 attempt then 20 else attempt in
    retry_base_delay_ms * 2 ^ safe_attempt
