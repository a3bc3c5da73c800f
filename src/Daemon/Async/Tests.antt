-- ===== src/Daemon/Async/Tests.antt =====
-- The daemon with asynchronous writes and two connections.
use mod_socket_handoff.Base.{ℕ, refl, Bool, true, false, Option, none, some, [], codes, arith}
use mod_socket_handoff.Base.Int.{pos}
use mod_socket_handoff.Daemon.WriteBuffer.{WriteBuffer, Allocator}
use mod_socket_handoff.Daemon.ConnPool.{Pool, no_data, conn_pool_init}
use mod_socket_handoff.Daemon.Ring.{accept, recv_fd, ring_pack_data}
use mod_socket_handoff.Daemon.ThreadPool.{idle_pool}
use mod_socket_handoff.Daemon.Loop.State.{Kernel, Cqe}
use mod_socket_handoff.Daemon.Loop.Sound.{Sound}
use mod_socket_handoff.Daemon.Curl.Request.{Setup}
use mod_socket_handoff.Daemon.Async.Writing.{Async}
use mod_socket_handoff.Daemon.Async.Flush.{flush_streaming_connections}
use mod_socket_handoff.Daemon.Async.Steps.{start, later, complete, flush, process_cqe_async}
use mod_socket_handoff.Daemon.Async.Steps.Safety.{async-Sound}

abbrev empty : Pool
empty = record {
  connections = [];
  free_list = none;
  max_connections = 2;
  active_connections = 0;
  peak_connections = 0;
  closed = [];
}

abbrev kernel : Bool → Kernel
kernel b = record {
  room = λ n. b;
  malloc = λ n. some 4096;
  is_stream = λ fd. true;
  parse = λ buf len. no_data;
  memory = λ a. [];
  print = λ z. [];
  recv_context = λ id. id;
  headers_at = 1;
  done_at = 2;
}

abbrev allocator : Allocator
allocator = record { malloc = λ n. some 64; realloc = λ p n. some 128; junk = 0 }

abbrev setup : Setup
setup = record {
  api = record {
    api_key = some (codes "key");
    api_base = codes "http://localhost/v1";
    api_socket = none;
    default_model = codes "gpt-4";
    insecure_ssl = false;
    http2_enabled = true;
  };
  malloc = λ n. true;
  curl_easy_init = some 7;
  add_handle = λ easy. true;
  print = λ z. codes "1024";
}

-- "hi" is to be written.
abbrev hi_buffer : WriteBuffer
hi_buffer = record {
  block = 64;
  buffer = codes "hi";
  capacity = 2;
  head = 2;
  tail = 0;
  bytes_written = 0;
  write_pending = false;
}

abbrev async : Pool → Option ℕ → Async
async pool dirty = record {
  daemon = record {
    pool = pool;
    ring = record { calls = 0; log = [] };
    tp = idle_pool 2;
    dirty_head = dirty;
    dirty_tail = dirty;
    listen_fd = pos 3;
    benchmark_mode = true;
    use_thread_pool = false;
    shutdown_requested = false;
    event_fd = pos 4;
    write_timeout_ms = 5000;
    total_started = 1;
    total_completed = 0;
    total_failed = 0;
    total_bytes = 0;
  };
  buffers = λ a. hi_buffer;
  active_requests = 1;
}

-- A connection is accepted and its request begins.
abbrev accepted : Cqe
accepted = record { user_data = ring_pack_data accept 0; res = pos 9; more = true; received = none }

abbrev with_fd : Cqe
with_fd = record {
  user_data = ring_pack_data recv_fd 0;
  res = pos 0;
  more = false;
  received = some 10;
}

abbrev begun : Async
begun = async (conn_pool_init true empty).1 none

abbrev two_steps : Async
two_steps =
    process_cqe_async (kernel true) setup (process_cqe_async (kernel true) setup begun accepted)
      with_fd

abbrev flushed : Async
flushed = flush_streaming_connections (kernel false) (λ a. hi_buffer) two_steps

async-Sound_example : Sound 0 flushed.daemon
async-Sound_example = async-Sound (
    later
      (later
        (later (start begun empty (omega arith) refl refl) (complete (kernel true) setup accepted))
        (complete (kernel true) setup with_fd))
      (flush (kernel false) (λ a. hi_buffer)))
