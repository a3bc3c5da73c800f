-- ===== src/Daemon/Loop/Tests.antt =====
-- daemon.c with two connections.
use mod_socket_handoff.Base.{◌≡◌, ◌==◌, refl, Bool, true, false, none, some, [], ◌∷◌, arith}
use mod_socket_handoff.Base.Int.{pos}
use mod_socket_handoff.Daemon.ConnPool.{
  Connection, Pool, no_data, conn_pool_init, link_all, first_state, streaming,
}
use mod_socket_handoff.Daemon.Ring.{accept, recv_fd, write, ring_pack_data}
use mod_socket_handoff.Daemon.ThreadPool.{idle_pool}
use mod_socket_handoff.Daemon.Loop.State.{Kernel, Daemon, Cqe, count_failed}
use mod_socket_handoff.Daemon.Loop.Handlers.{handle_accept, send}
use mod_socket_handoff.Daemon.Loop.Steps.{process_cqe}
use mod_socket_handoff.Daemon.Loop.Sound.{Sound, Live}
use mod_socket_handoff.Daemon.Loop.Safety.{
  Reach, start, later, complete, start-IsSound, Reach-Sound,
}
use mod_socket_handoff.Daemon.Loop.Stale.{stale_completion}
use mod_socket_handoff.Daemon.Loop.Orphan.{IsAbandoned, orphan_write}
use mod_socket_handoff.Daemon.Loop.Uncounted.{IsUncounted, unsubmitted_recv}

abbrev empty : Pool
empty = record {
  connections = [];
  free_list = none;
  max_connections = 2;
  active_connections = 0;
  peak_connections = 0;
  closed = [];
}

-- A kernel with or without room in the queue.
abbrev kernel : Bool → Kernel
kernel b = record {
  room = λ n. b;
  malloc = λ n. some 4096;
  is_stream = λ fd. true;
  parse = λ buf len. no_data;
  memory = λ a. [];
  print = λ z. [];
  recv_context = λ id. id;
  headers_at = 1;
  done_at = 2;
}

abbrev daemon : Daemon
daemon = record {
  pool = (conn_pool_init true empty).1;
  ring = record { calls = 0; log = [] };
  tp = idle_pool 2;
  dirty_head = none;
  dirty_tail = none;
  listen_fd = pos 3;
  benchmark_mode = true;
  use_thread_pool = false;
  shutdown_requested = false;
  event_fd = pos 4;
  write_timeout_ms = 5000;
  total_started = 0;
  total_completed = 0;
  total_failed = 0;
  total_bytes = 0;
}

abbrev accepted : Cqe
accepted = record { user_data = ring_pack_data accept 0; res = pos 9; more = true; received = none }

abbrev with_fd : Cqe
with_fd = record {
  user_data = ring_pack_data recv_fd 0;
  res = pos 0;
  more = false;
  received = some 10;
}

-- One connection is accepted and gets its socket; then its headers are out.
abbrev two_steps : Daemon
two_steps = process_cqe (kernel true) (process_cqe (kernel true) daemon accepted) with_fd

two_steps-Reach : Reach two_steps
two_steps-Reach =
    later (later (start daemon empty (omega arith) refl refl) (complete (kernel true) accepted))
      (complete (kernel true) with_fd)

Reach-Sound_example : Sound 0 two_steps
Reach-Sound_example = Reach-Sound two_steps-Reach

-- The second slot is still free.
stale_completion_example :
    process_cqe (kernel true) daemon (record accepted { user_data = ring_pack_data write 1 })
    ≡ daemon
unfolding conn_pool_init link_all
stale_completion_example =
    stale_completion (kernel true) daemon 1 accepted write (omega arith) (λ e. cc) (λ e. cc) refl

unsubmitted_recv_example : IsUncounted daemon (handle_accept (kernel false) daemon accepted)
unsubmitted_recv_example =
    unsubmitted_recv (kernel false) daemon accepted 9 (1 ∷ []) 0
      (start-IsSound daemon empty (omega arith) refl refl) (λ n. refl) (λ e. cc) refl refl

-- A connection that streams.
abbrev conn : Connection
conn = record (first_state 0 none) { state = streaming; client_fd = pos 9 }

abbrev in_use : Daemon
in_use = record daemon {
  pool = record empty { connections = conn ∷ []; max_connections = 1; active_connections = 1 };
}

abbrev nearly_full : Kernel
nearly_full = record (kernel true) { room = λ n. n == 0 }

in_use-Live : Live in_use 0
in_use-Live = record { conn = conn; found = refl; used = λ e. cc }

orphan_write_example :
    IsAbandoned nearly_full in_use 0 conn 1 135 (send nearly_full 0 conn 1 135 count_failed in_use)
orphan_write_example =
    orphan_write nearly_full in_use 0 conn 1 135 count_failed in_use-Live refl refl
