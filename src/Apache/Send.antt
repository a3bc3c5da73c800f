-- ===== src/Apache/Send.antt =====
-- mod_socket_handoff.c: `wait_for_write` and `send_fd_with_data`. The message header is what the
-- code puts into `msghdr`, `iovec` and the SCM_RIGHTS control message.
pub mod Delivery
mod Tests
use mod_socket_handoff.Base.{
  ℕ, Bool, true, false, not, ◌&&◌, Option, none, some, List, [], ◌∷◌, ◌++◌, Bytes, length, take,
  ltb, ◌==◌, if◌then◌else◌,
}
use mod_socket_handoff.Apache.Os.{
  Os, Errno, eagain, etimedout, epipe, emsgsize, Result, ok, err, Poll, timed_out, failed, ready,
  World, Message, M, S, ◌>>=◌, ◌>>◌, pure, throw, ask, tick, poll, hung_up,
}
use mod_socket_handoff.Apache.Retry.{remaining_now, lesser}

write_ready : Poll → M (Unit {0})
write_ready timed_out = throw etimedout
write_ready (failed e) = throw e
write_ready (ready revents) = if hung_up revents then throw epipe else pure tt

-- An error stands for a result of 0 or -1, with the errno that it sets.
pub wait_for_write : Os → ℕ → M (Unit {0})
unfolding write_ready
wait_for_write os timeout w = let (p, w') = poll os timeout w in write_ready p w'

-- `data && data_len > 0`, with `data_len` the length of `data`, 0 for NULL
abbrev pub has_data : Option Bytes → Bool
has_data none = false
has_data (some []) = false
has_data (some (c ∷ cs)) = true

abbrev pub data_len : Option Bytes → ℕ
data_len none = 0
data_len (some s) = length s

-- `iov`: the data, or one NUL byte where there is none.
abbrev pub payload : Option Bytes → Bytes
payload none = 0 ∷ []
payload (some []) = 0 ∷ []
payload (some (c ∷ cs)) = c ∷ cs

-- The kernel takes the bytes that it counts, with the descriptor.
deliver : ℕ → ℕ → Option Bytes → ℕ → M (Unit {0})
deliver sock fd handoff_data n w = (
  ok tt,
  record w {
    sent = w.sent ++ (record { via = sock; fd = fd; bytes = take n (payload handoff_data) } ∷ []);
  },
)

send_error : Errno → Errno
send_error eagain = etimedout
send_error e = e

after_sendmsg : ℕ → ℕ → Option Bytes → Result ℕ → M (Unit {0})
unfolding deliver send_error
after_sendmsg sock fd handoff_data (err e) = throw (send_error e)
after_sendmsg sock fd handoff_data (ok n) = do
  deliver sock fd handoff_data n
  if has_data handoff_data && ltb n (data_len handoff_data) then throw emsgsize else pure tt

pub send_message : Os → ℕ → ℕ → Option Bytes → ℕ → ℕ → M (Unit {0})
send_message os sock fd handoff_data timeout remaining = do
  wait_for_write os (lesser remaining timeout)
  sent ← ask os.sendmsg
  after_sendmsg sock fd handoff_data sent

-- `*fd_was_sent` is 0 until the end.
abbrev pub fd_was_sent : Result (Unit {0}) → Bool
fd_was_sent (ok u) = true
fd_was_sent (err e) = false

-- The result, and the flag that goes out through `fd_was_sent`.
unfoldable pub send_fd_with_data : Os → ℕ → ℕ → Option Bytes → ℕ → ℕ → S (Result (Unit {0}) × Bool)
unfolding send_message wait_for_write after_sendmsg
send_fd_with_data os sock fd handoff_data timeout deadline w =
    let (remaining, w₁) = remaining_now os deadline w in
    let (r, w₂) = send_message os sock fd handoff_data timeout remaining w₁ in
    if remaining == 0 then ((err etimedout, false), w₁) else ((r, fd_was_sent r), w₂)
