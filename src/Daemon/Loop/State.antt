-- ===== src/Daemon/Loop/State.antt =====
-- daemon.h, `daemon_ctx_t`, and what daemon.c does to it in several places. What the kernel, liburing and
-- the allocator answer, the reading of the handoff data and the memory that holds text are
-- parameters. The 64-bit statistics count without a bound.
use mod_socket_handoff.Base.{ℕ, ◌+◌, Bool, Option, List, ◌∷◌, Bytes, set, if◌then◌else◌}
use mod_socket_handoff.Base.Int.{ℤ, pos, negsuc}
use mod_socket_handoff.Daemon.ConnPool.{Connection, HandoffData, Pool}
use mod_socket_handoff.Daemon.Ring.{Ring}
use mod_socket_handoff.Daemon.ThreadPool.{ThreadPool}

pub record Kernel : Type 0 where
  -- whether a call of `io_uring_get_sqe` gives an entry
  pub room : ℕ → Bool
  pub malloc : ℕ → Option ℕ
  -- `handoff_validate_socket`: `getsockopt` says SOCK_STREAM
  pub is_stream : ℕ → Bool
  -- `handoff_parse_data`, of the buffer's address and the length
  pub parse : Option ℕ → ℕ → HandoffData
  -- the bytes at an address
  pub memory : ℕ → Bytes
  -- `%ld`
  pub print : ℤ → Bytes
  -- the addresses of the message headers of a connection, of the response headers and of the end marker
  pub recv_context : ℕ → ℕ
  pub headers_at : ℕ
  pub done_at : ℕ

pub record Daemon : Type 0 where
  pub pool : Pool
  pub ring : Ring
  pub tp : ThreadPool
  pub dirty_head : Option ℕ
  pub dirty_tail : Option ℕ
  pub listen_fd : ℤ
  pub benchmark_mode : Bool
  pub use_thread_pool : Bool
  pub shutdown_requested : Bool
  pub event_fd : ℤ
  pub write_timeout_ms : ℕ
  pub total_started : ℕ
  pub total_completed : ℕ
  pub total_failed : ℕ
  pub total_bytes : ℕ

-- `received` is what `handoff_extract_fd` finds in the message, and `more` is IORING_CQE_F_MORE.
pub record Cqe : Type 0 where
  pub user_data : ℕ
  pub res : ℤ
  pub more : Bool
  pub received : Option ℕ

abbrev pub set_conn : Daemon → ℕ → Connection → Daemon
set_conn d c conn = record d {
  pool = record d.pool { connections = set d.pool.connections c conn };
}

abbrev pub with_ring : Daemon → Ring → Daemon
with_ring d r = record d { ring = r }

-- The counters, which only count in benchmark mode.
unfoldable pub count_started : Daemon → Daemon
count_started d = record d {
  total_started = if d.benchmark_mode then d.total_started + 1 else d.total_started;
}

unfoldable pub count_failed : Daemon → Daemon
count_failed d = record d {
  total_failed = if d.benchmark_mode then d.total_failed + 1 else d.total_failed;
}

unfoldable pub count_completed : ℕ → Daemon → Daemon
count_completed bytes d = record d {
  total_completed = if d.benchmark_mode then d.total_completed + 1 else d.total_completed;
  total_bytes = if d.benchmark_mode then d.total_bytes + bytes else d.total_bytes;
}

abbrev pub close_number : ℤ → List ℕ → List ℕ
close_number (pos fd) closed = fd ∷ closed
close_number (negsuc n) closed = closed

-- `close` of a descriptor; of a negative one it does nothing.
abbrev pub close : ℤ → Daemon → Daemon
close fd d = record d { pool = record d.pool { closed = close_number fd d.pool.closed } }
