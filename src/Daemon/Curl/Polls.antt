-- ===== src/Daemon/Curl/Polls.antt =====
-- curl_manager.c and curl_manager.h: the sockets and the timer that libcurl asks to be told of. `sockets` is an array
-- indexed by descriptor, `room` says whether a call of `io_uring_get_sqe` gives an entry, and `realloc` whether there is
-- memory for so many elements. What libcurl does inside `curl_multi_socket_action` are further calls.
pub mod Timers
use mod_socket_handoff.Base.{
  ℕ, zero, suc, ◌+◌, ◌-◌, ◌%◌, ◌^◌, Bool, true, false, ◌&&◌, ◌||◌, not, Option, none, some, List,
  [], ◌∷◌, ◌++◌, length, get_elem?, set, replicate, ltb, ◌==◌, if◌then◌else◌,
}
use mod_socket_handoff.Base.Int.{ℤ, pos, negsuc}
use mod_socket_handoff.Daemon.Ring.{
  Ring, ring_submit, ring_submit_poll_add, ring_submit_poll_cancel, ring_submit_curl_timeout,
  ring_cancel_curl_timeout, ring_unpack_data, Op, curl_timeout,
}
use mod_socket_handoff.Daemon.Loop.State.{Cqe}

pub record SocketInfo : Type 0 where
  pub sockfd : ℕ
  pub poll_mask : ℕ
  pub poll_active : Bool

pub record Manager : Type 0 where
  pub timer_id : ℕ
  pub timer_active : Bool
  pub sockets : List SocketInfo
  pub active_requests : ℕ

abbrev pub no_poll : SocketInfo
no_poll = record { sockfd = 0; poll_mask = 0; poll_active = false }

-- CURL_POLL_NONE, IN, OUT, INOUT and REMOVE.
pub data What : Type 0 where
  poll_none poll_in poll_out poll_inout poll_remove : What

-- POLLIN is 1, POLLOUT is 4.
abbrev pub mask_of : What → ℕ
mask_of poll_in = 1
mask_of poll_out = 4
mask_of poll_inout = 5
mask_of _ = 0

abbrev pub is_remove : What → Bool
is_remove poll_remove = true
is_remove _ = false

-- None for -1.
unfoldable pub ensure_socket_capacity : (ℕ → Bool) → Manager → ℕ → Option Manager
ensure_socket_capacity realloc mgr fd =
    if ltb fd (length mgr.sockets)
    then some mgr
    else if realloc (fd + 256)
    then some
        (record mgr { sockets = mgr.sockets ++ replicate (fd + 256 - length mgr.sockets) no_poll })
    else none

module _ (room : ℕ → Bool) where
  -- An existing poll is cancelled if the mask changes or the socket is removed.
  unfoldable pub cancel_poll : ℕ → What → SocketInfo → Ring → SocketInfo × Ring
  cancel_poll fd what info r =
      if info.poll_active && (not (mask_of what == info.poll_mask) || is_remove what)
      then (record info { poll_active = false }, (ring_submit_poll_cancel room (pos fd) r).1)
      else (info, r)

  unfoldable pub added_poll : ℕ → ℕ → SocketInfo → Bool × Ring → SocketInfo × Ring
  added_poll fd mask info (true, r) =
      (record { sockfd = fd; poll_mask = mask; poll_active = true }, ring_submit r)
  added_poll fd mask info (false, r) = (info, ring_submit r)

  unfoldable pub add_poll : ℕ → What → SocketInfo × Ring → SocketInfo × Ring
  unfolding added_poll
  add_poll fd what (info, r) =
      if ltb 0 (mask_of what)
      then added_poll fd (mask_of what) info (ring_submit_poll_add room (pos fd) (mask_of what) r)
      else (info, r)

  unfoldable pub update_poll : ℕ → What → SocketInfo → Ring → SocketInfo × Ring
  unfolding cancel_poll add_poll
  update_poll fd what info r =
      let (info', r') = add_poll fd what (cancel_poll fd what info r) in
      (if is_remove what then no_poll else info', r')

  unfoldable pub put_info : ℕ → Manager → Ring → SocketInfo × Ring → Manager × Ring
  put_info fd mgr r (info, r') = (record mgr { sockets = set mgr.sockets fd info }, r')

  unfoldable pub at_socket : ℕ → What → Manager → Ring → Option SocketInfo → Manager × Ring
  unfolding update_poll put_info
  at_socket fd what mgr r none = (mgr, r)
  at_socket fd what mgr r (some info) = put_info fd mgr r (update_poll fd what info r)

  unfoldable pub with_capacity : ℕ → What → Manager → Ring → Option Manager → Manager × Ring
  unfolding at_socket
  with_capacity fd what mgr r none = (mgr, r)
  with_capacity fd what mgr r (some mgr') = at_socket fd what mgr' r (get_elem? mgr'.sockets fd)

  unfoldable pub socket_callback : (ℕ → Bool) → Manager → Ring → ℕ → What → Manager × Ring
  unfolding with_capacity
  socket_callback realloc mgr r fd what =
      with_capacity fd what mgr r (ensure_socket_capacity realloc mgr fd)

  -- 0 is not used as an identifier.
  abbrev pub next_id : ℕ → ℕ
  next_id id = if (id + 1) % 2 ^ 32 == 0 then 1 else (id + 1) % 2 ^ 32

  unfoldable pub set_timer : Manager → ℕ → Ring → Manager × Ring
  set_timer mgr ms r =
      let id = next_id mgr.timer_id in
      let (ok, r') = ring_submit_curl_timeout room ms id r in
      (
        record mgr { timer_id = id; timer_active = if ok then true else mgr.timer_active },
        ring_submit r',
      )

  unfoldable pub cancel_timer : Manager → Ring → Manager × Ring
  cancel_timer mgr r =
      if mgr.timer_active
      then (record mgr { timer_active = false }, (ring_cancel_curl_timeout room mgr.timer_id r).1)
      else (mgr, r)

  -- -1 deletes the timer; there is no other negative time. 0 becomes 1.
  unfoldable pub timer_after : ℤ → Manager × Ring → Manager × Ring
  unfolding set_timer
  timer_after (negsuc n) (mgr, r) = (mgr, r)
  timer_after (pos ms) (mgr, r) = set_timer mgr (if ms == 0 then 1 else ms) r

  unfoldable pub timer_callback : Manager → Ring → ℤ → Manager × Ring
  unfolding cancel_timer timer_after
  timer_callback mgr r timeout_ms = timer_after timeout_ms (cancel_timer mgr r)

-- Before `curl_multi_socket_action`.
unfoldable pub curl_manager_timeout_action : Manager → Manager
curl_manager_timeout_action mgr = record mgr { timer_active = false }

abbrev pub on_timer : Manager → Option Op → Manager
on_timer mgr (some curl_timeout) = curl_manager_timeout_action mgr
on_timer mgr _ = mgr

-- What `process_cqe` and `handle_curl_timeout` make of the timer before libcurl is called: only the operation of the completion is looked at.
unfoldable pub process_timer_cqe : Manager → Cqe → Manager
process_timer_cqe mgr cqe = on_timer mgr (ring_unpack_data cqe.user_data).0
