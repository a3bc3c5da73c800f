-- ===== src/Apache/Send/Delivery.antt =====
-- mod_socket_handoff.c, `send_fd_with_data`: when the daemon has the descriptor.
use mod_socket_handoff.Base.{
  lt→ltb, ◌<◌, take, ℕ, ◌+◌, ◌≤◌, ◌≡◌, Option, none, some, List, [], ◌∷◌, ◌++◌, Bytes, arith,
  length, take-all,
}
use mod_socket_handoff.Apache.Os.{emsgsize, Os, Result, ok, err, World, tick, Message, poll-world}
use mod_socket_handoff.Apache.Send.{
  data_len, payload, send_message, wait_for_write, after_sendmsg, send_fd_with_data, fd_was_sent,
}
use mod_socket_handoff.Apache.Retry.{lesser}
use mod_socket_handoff.Apache.Deadline.{remaining_timeout_ms}
use mod_socket_handoff.Apache.Retry.Bounds.{lesser-le}

-- SOCK_SEQPACKET: `sendmsg` takes the whole message or none of it.
abbrev pub IsAtomic : Os → Option Bytes → Type 0
IsAtomic os handoff_data = (n k : ℕ) → os.sendmsg n ≡ ok k → k ≡ length (payload handoff_data)

-- Sent whole, or not at all.
abbrev pub Delivered :
    ℕ → ℕ → Option Bytes → Result (Unit {0}) → List Message → List Message → Type 0
Delivered sock fd handoff_data (ok u) before after =
    after ≡ before ++ (record { via = sock; fd = fd; bytes = payload handoff_data } ∷ [])
Delivered sock fd handoff_data (err e) before after = after ≡ before

pub record IsDelivery (timeout sock fd : ℕ) (handoff_data : Option Bytes) (w : World)
    (r : Result (Unit {0})) (w' : World) : Type 0 where
  pub delivered : Delivered sock fd handoff_data r w.sent w'.sent
  pub fds : w'.fds ≡ w.fds
  pub slept : w'.slept ≡ w.slept
  pub waited : w'.waited ≤ w.waited + timeout

module _ (os : Os) (sock fd : ℕ) (handoff_data : Option Bytes) where
  wait-sent :
      (timeout : ℕ) (w : World)
      → let (r, w') = wait_for_write os timeout w in
        (w'.sent ≡ w.sent)
        × (w'.fds ≡ w.fds)
        × (w'.slept ≡ w.slept)
        × (w'.waited ≡ w.waited + timeout)
  unfolding wait_for_write
  wait-sent timeout w = ground (arith, poll-world os timeout w)

  after-IsDelivery :
      (handoff : Option Bytes) (sent : Result ℕ) (w : World)
      → ((k : ℕ) → sent ≡ ok k → k ≡ length (payload handoff))
      → let (r, w') = after_sendmsg sock fd handoff sent w in IsDelivery 0 sock fd handoff w r w'
  unfolding after_sendmsg
  after-IsDelivery handoff (err e) w h = ground arith
  after-IsDelivery none (ok k) w h = ground (arith, h k, take-all {A = ℕ} k (0 ∷ []))
  after-IsDelivery (some []) (ok k) w h = ground (arith, h k, take-all {A = ℕ} k (0 ∷ []))
  after-IsDelivery (some (c ∷ cs)) (ok k) w h = ground (arith, h k, take-all k (c ∷ cs))

  message-IsDelivery :
      (timeout remaining : ℕ) (w : World)
      → IsAtomic os handoff_data
      → let (r, w') = send_message os sock fd handoff_data timeout remaining w in
        IsDelivery timeout sock fd handoff_data w r w'
  unfolding send_message
  message-IsDelivery timeout remaining w atomic =
      let w' = (wait_for_write os (lesser remaining timeout) w).1 in
      ground (
        arith,
        wait-sent (lesser remaining timeout) w,
        lesser-le remaining timeout,
        after-IsDelivery handoff_data (os.sendmsg w'.calls) (record w' { calls = w'.calls + 1 })
            (atomic w'.calls),
      )

  -- With an atomic `sendmsg` a success means that the daemon has the descriptor with all of the
  -- data, once, and an error that it has nothing. Either way no descriptor is opened or closed,
  -- and `poll` is asked to wait at most the send timeout between signals.
  pub send-IsDelivery :
      (timeout deadline : ℕ) (w : World)
      → IsAtomic os handoff_data
      → let (r, w') = send_fd_with_data os sock fd handoff_data timeout deadline w in
        IsDelivery timeout sock fd handoff_data w r.0 w'
  unfolding send_fd_with_data
  send-IsDelivery timeout deadline w atomic =
      let remaining = remaining_timeout_ms (os.now w.calls) deadline in
      ground (arith, message-IsDelivery timeout remaining (tick w) atomic)

  -- The flag `fd_was_sent` is up exactly when the result is a success.
  pub send-flag :
      (timeout deadline : ℕ) (w : World)
      → let r = (send_fd_with_data os sock fd handoff_data timeout deadline w).0 in
        r.1 ≡ fd_was_sent r.0
  unfolding send_fd_with_data
  send-flag timeout deadline w = ground arith

  after_short :
      (handoff : Option Bytes) (k : ℕ) (w : World)
      → k < data_len handoff
      → after_sendmsg sock fd handoff (ok k) w ≡ (
        err emsgsize,
        record w {
          sent = w.sent ++ (record { via = sock; fd = fd; bytes = take k (payload handoff) } ∷ []);
        },
      )
  unfolding after_sendmsg
  after_short none k w h = absurd (omega arith)
  after_short (some []) k w h = absurd (omega arith)
  after_short (some (c ∷ cs)) k w h = rw (lt→ltb k (length (c ∷ cs)) h)

  -- The wait for the socket, with what remains and the timeout.
  abbrev pub wait : ℕ → ℕ → World → Result (Unit {0}) × World
  wait timeout deadline w =
      wait_for_write os (lesser (remaining_timeout_ms (os.now w.calls) deadline) timeout) (tick w)
