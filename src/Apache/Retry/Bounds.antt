-- ===== src/Apache/Retry/Bounds.antt =====
-- mod_socket_handoff.c, `connect_with_retry`: what it leaves open, and how long it may take.
use mod_socket_handoff.Base.{
  ℕ, zero, suc, ◌+◌, ◌*◌, ◌≤◌, ◌≡◌, refl, Option, none, some, List, ◌∷◌, Bytes, arith, ltb,
  if◌then◌else◌,
}
use mod_socket_handoff.Apache.Os.{Os, Result, ok, err, World, S, tick}
use mod_socket_handoff.Apache.Deadline.{remaining_timeout_ms, retry_delay_ms}
use mod_socket_handoff.Apache.Deadline.Budget.{delays}
use mod_socket_handoff.Apache.Connect.{connect_to_socket}
use mod_socket_handoff.Apache.Connect.Sockets.{IsAttempt, connect-IsAttempt}
use mod_socket_handoff.Apache.Retry.{
  back_off, after_attempt, try_once, retry_loop, connect_with_retry, lesser, rested,
}

-- The returned socket is the only one left open.
abbrev pub OwnsFound : Option ℕ → List ℕ → List ℕ → Type 0
OwnsFound (some sock) before after = after ≡ sock ∷ before
OwnsFound none before after = after ≡ before

-- `tries` attempts at `timeout` each, and `sleep` milliseconds of sleep.
pub record IsBounded (tries timeout sleep : ℕ) (w : World) (r : Option ℕ) (w' : World)
    : Type 0 where
  pub sockets : OwnsFound r w.fds w'.fds
  pub connects : w'.connects ≤ w.connects + tries
  pub waited : w'.waited ≤ w.waited + tries * timeout
  pub slept : w'.slept ≤ w.slept + sleep
  pub sent : w'.sent ≡ w.sent

-- The delays after attempts `attempt`, `attempt + 1`, … of `left` rounds.
abbrev delays_from : ℕ → ℕ → ℕ
delays_from attempt zero = 0
delays_from attempt (suc left) = retry_delay_ms attempt + delays_from (attempt + 1) left

delays_from-snoc :
    (attempt left : ℕ)
    → delays_from attempt (suc left) ≡ delays_from attempt left + retry_delay_ms (attempt + left)
delays_from-snoc attempt zero = ground arith
delays_from-snoc attempt (suc left) = ground (arith, delays_from-snoc (attempt + 1) left)

delays_from-zero : (n : ℕ) → delays_from 0 n ≡ delays n
delays_from-zero zero = refl
delays_from-zero (suc n) = ground (arith, delays_from-snoc 0 n, delays_from-zero n)

-- What `left` rounds sleep: there is no delay after the last.
abbrev sleeps : ℕ → ℕ → ℕ
sleeps attempt zero = 0
sleeps attempt (suc left) = delays_from attempt left

IsAttempt-relax :
    {t timeout : ℕ} {w : World} (r : Result ℕ) (w' : World)
    → IsAttempt t (tick w) r w'
    → t ≤ timeout
    → IsAttempt timeout w r w'
IsAttempt-relax r w' a h = record {
  sockets = a.sockets;
  connects = a.connects;
  waited = omega arith;
  slept = a.slept;
  sent = a.sent;
}

pub lesser-le : (a b : ℕ) → lesser a b ≤ b
lesser-le a b = ground arith

module _ (os : Os) (path : Bytes) (timeout max_retries deadline : ℕ) where
  back_off-IsBounded :
      (attempt tries sleep : ℕ) (next : S (Option ℕ)) (w : World)
      → ((w' : World) → IsBounded tries timeout sleep w' (next w').0 (next w').1)
      → let (r, w') = back_off os deadline attempt next w in
        IsBounded tries timeout (retry_delay_ms attempt + sleep) w r w'
  unfolding back_off
  back_off-IsBounded attempt tries sleep next w h = ground (arith, h (rested os deadline attempt w))

  -- After a failed attempt, with `sleep` allowed for what follows unless it was the last.
  after-IsBounded :
      (attempt tries sleep : ℕ) (next : S (Option ℕ)) (w : World) (out : Result ℕ × World)
      → IsAttempt timeout w out.0 out.1
      → ((w' : World) → IsBounded tries timeout sleep w' (next w').0 (next w').1)
      → let (r, w') = after_attempt os max_retries deadline attempt next out in
        IsBounded
          (tries + 1)
          timeout
          (if ltb attempt max_retries then retry_delay_ms attempt + sleep else 0)
          w
          r
          w'
  unfolding after_attempt
  after-IsBounded attempt tries sleep next w (ok sock, w') a h = ground arith
  after-IsBounded attempt tries sleep next w (err e, w') a h =
      ground (arith, back_off-IsBounded attempt tries sleep next w' h)

  once-IsBounded :
      (attempt tries sleep : ℕ) (next : S (Option ℕ)) (w : World)
      → ((w' : World) → IsBounded tries timeout sleep w' (next w').0 (next w').1)
      → let (r, w') = try_once os path timeout max_retries deadline attempt next w in
        IsBounded
          (tries + 1)
          timeout
          (if ltb attempt max_retries then retry_delay_ms attempt + sleep else 0)
          w
          r
          w'
  unfolding try_once
  once-IsBounded attempt tries sleep next w h =
      let t = lesser (remaining_timeout_ms (os.now w.calls) deadline) timeout in
      let out = connect_to_socket os path t (tick w) in
      ground (
        arith,
        after-IsBounded attempt tries sleep next w out
            (IsAttempt-relax out.0 out.1 (connect-IsAttempt os path t (tick w))
              (lesser-le _ timeout))
            h,
      )

  loop-IsBounded :
      (left attempt : ℕ) (w : World)
      → attempt + left ≡ max_retries + 1
      → let (r, w') = retry_loop os path timeout max_retries deadline left attempt w in
        IsBounded left timeout (sleeps attempt left) w r w'
  unfolding retry_loop
  loop-IsBounded zero attempt w e = ground arith
  loop-IsBounded (suc zero) attempt w e = ground (
    arith,
    once-IsBounded attempt 0 0 (retry_loop os path timeout max_retries deadline 0 (attempt + 1)) w
        (λ w'. loop-IsBounded zero (attempt + 1) w' (omega arith)),
  )
  loop-IsBounded (suc (suc left)) attempt w e = ground (
    arith,
    once-IsBounded attempt (suc left) (delays_from (attempt + 1) left)
        (retry_loop os path timeout max_retries deadline (suc left) (attempt + 1)) w
        (λ w'. loop-IsBounded (suc left) (attempt + 1) w' (omega arith)),
  )

  -- `connect_with_retry` leaves open the socket that it returns and no other. It makes at most
  -- `max_retries + 1` connections, has `poll` wait at most a connect timeout for each, polls
  -- that a signal interrupts left aside, and sleeps at most as long as the deadline allows for.
  pub retry-IsBounded :
      (w : World)
      → let (r, w') = connect_with_retry os path timeout max_retries deadline w in
        IsBounded (max_retries + 1) timeout (delays max_retries) w r w'
  unfolding connect_with_retry
  retry-IsBounded w =
      ground
        (arith, loop-IsBounded (max_retries + 1) 0 w (omega arith), delays_from-zero max_retries)
