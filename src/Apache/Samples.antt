-- ===== src/Apache/Samples.antt =====
-- Systems to run the tests of mod_socket_handoff.c on.
use mod_socket_handoff.Base.{◌+◌, ◌*◌, none, some, [], Bytes, codes}
use mod_socket_handoff.Apache.Os.{
  Os, World, ok, econnrefused, einprogress, interrupted, ended, ready,
}

-- The clock moves 1 ms a call; descriptors are 10 and up; connections are set up after one signal.
abbrev pub calm : Os
calm = record {
  now = λ n. n * 1000;
  socket_nonblock = λ n. ok (10 + n);
  socket = λ n. ok (10 + n);
  get_flags = λ n. none;
  set_flags = λ n. none;
  set_cloexec = λ n. none;
  connect = λ n. some einprogress;
  poll = λ n. interrupted (ended (ready 4));
  so_error = λ n. ok none;
  sendmsg = λ n. ok 11;
}

-- Nobody listens.
abbrev pub refusing : Os
refusing = record calm { connect = λ n. some econnrefused }

abbrev pub start : World
start = record { calls = 0; fds = []; connects = 0; slept = 0; waited = 0; sent = [] }

abbrev pub handoff_json : Bytes
handoff_json = codes "{id: 12345}"

abbrev pub daemon_path : Bytes
daemon_path = codes "/run/streaming.sock"
