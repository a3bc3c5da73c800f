-- ===== src/Apache/Connect.antt =====
-- mod_socket_handoff.c, `connect_to_socket`: one attempt to connect to the daemon. The logging is
-- left out. The result is the socket, or the errno that goes to `*returned_errno`.
pub mod Sockets
mod Tests
use mod_socket_handoff.Base.{
  ℕ, ◌+◌, Bool, true, false, Option, none, some, Bytes, length, leb, if◌then◌else◌,
}
use mod_socket_handoff.Apache.Os.{
  Os, Errno, einval, einprogress, enametoolong, econnrefused, etimedout, Result, ok, err, Poll,
  timed_out, failed, ready, M, ◌>>=◌, ◌>>◌, pure, throw, ask, opened, fail, poll, hung_up,
}

-- sizeof(addr.sun_path) on Linux
abbrev pub sun_path_size : ℕ
sun_path_size = 108

-- socket() gives the descriptor and whether it is non-blocking already.
after_plain : Result ℕ → M (ℕ × Bool)
after_plain (ok sock) = opened sock >> pure (sock, false)
after_plain (err e) = throw e

after_nonblock : Os → Result ℕ → M (ℕ × Bool)
unfolding after_plain
after_nonblock os (ok sock) = opened sock >> pure (sock, true)
after_nonblock os (err einval) = ask os.socket >>= after_plain
after_nonblock os (err e) = throw e

pub open_socket : Os → M (ℕ × Bool)
unfolding after_nonblock
open_socket os = ask os.socket_nonblock >>= after_nonblock os

-- A failed call closes the socket; none goes on.
or_close : ℕ → Option Errno → M (Unit {0})
or_close sock none = pure tt
or_close sock (some e) = fail sock e

-- The result of FD_CLOEXEC is not looked at.
pub set_nonblocking : Os → ℕ → Bool → M (Unit {0})
unfolding or_close
set_nonblocking os sock true = pure tt
set_nonblocking os sock false = do
  got ← ask os.get_flags
  or_close sock got
  put ← ask os.set_flags
  or_close sock put
  _ ← ask os.set_cloexec
  pure tt

-- After POLLERR, POLLHUP or POLLNVAL: the pending error, or ECONNREFUSED.
hang_up_error : Result (Option Errno) → Errno
hang_up_error (ok (some e)) = e
hang_up_error (ok none) = econnrefused
hang_up_error (err e) = econnrefused

pending_error : ℕ → Result (Option Errno) → M (Unit {0})
pending_error sock (err e) = fail sock e
pending_error sock (ok (some e)) = fail sock e
pending_error sock (ok none) = pure tt

after_poll : Os → ℕ → Poll → M (Unit {0})
unfolding hang_up_error pending_error
after_poll os sock timed_out = fail sock etimedout
after_poll os sock (failed e) = fail sock e
after_poll os sock (ready revents) =
    if hung_up revents
    then ask os.so_error >>= (λ r. fail sock (hang_up_error r))
    else ask os.so_error >>= pending_error sock

pub await_connect : Os → ℕ → ℕ → M (Unit {0})
unfolding after_poll
await_connect os sock timeout w = let (p, w') = poll os timeout w in after_poll os sock p w'

after_connect : Os → ℕ → ℕ → Option Errno → M (Unit {0})
after_connect os sock timeout none = pure tt
after_connect os sock timeout (some einprogress) = await_connect os sock timeout
after_connect os sock timeout (some e) = fail sock e

count_connect : M (Unit {0})
count_connect w = (ok tt, record w { connects = w.connects + 1 })

pub finish_connect : Os → ℕ → ℕ → M (Unit {0})
unfolding after_connect count_connect
finish_connect os sock timeout = count_connect >> (ask os.connect >>= after_connect os sock timeout)

pub check_length : Bytes → ℕ → M (Unit {0})
check_length path sock = if leb sun_path_size (length path) then fail sock enametoolong else pure tt

pub use_socket : Os → Bytes → ℕ → ℕ × Bool → M ℕ
use_socket os path timeout (sock, nonblock) = do
  check_length path sock
  set_nonblocking os sock nonblock
  finish_connect os sock timeout
  pure sock

unfoldable pub connect_to_socket : Os → Bytes → ℕ → M ℕ
unfolding open_socket use_socket set_nonblocking finish_connect await_connect check_length
connect_to_socket os path timeout = open_socket os >>= use_socket os path timeout
