-- ===== src/Daemon/Ring.antt =====
-- examples/streaming-daemon-uring/ring.c, ring.h and the operations of daemon.h. liburing is a parameter:
-- whether a call of `io_uring_get_sqe` gives an entry, by the number of the call, and whether the
-- queue can be set up. A ring is the log of what was put in its queue and of the submissions.
pub mod Packing
pub mod Full
mod Tests
use mod_socket_handoff.Base.{
  ℕ, ◌+◌, ◌-◌, ◌*◌, ◌/◌, ◌%◌, ◌^◌, Bool, true, false, ◌&&◌, not, Option, none, some, List, [], ◌∷◌,
  bit_or, ◌==◌, if◌then◌else◌,
}
use mod_socket_handoff.Base.Int.{ℤ, pos, negsuc}

-- OP_ACCEPT and so on, which count from 1.
pub data Op : Type 0 where
  accept recv_fd write timeout cancel eventfd curl_poll curl_timeout poll_cancel : Op

abbrev pub code : Op → ℕ
code accept = 1
code recv_fd = 2
code write = 3
code timeout = 4
code cancel = 5
code eventfd = 6
code curl_poll = 7
code curl_timeout = 8
code poll_cancel = 9

-- The operation with a code, if there is one.
abbrev pub op_of : ℕ → Option Op
op_of n =
    if n == 1
    then some accept
    else if n == 2
    then some recv_fd
    else if n == 3
    then some write
    else if n == 4
    then some timeout
    else if n == 5
    then some cancel
    else if n == 6
    then some eventfd
    else if n == 7
    then some curl_poll
    else if n == 8
    then some curl_timeout
    else if n == 9
    then some poll_cancel
    else none

-- `conn_id` is below 2 ^ 32.
unfoldable pub ring_pack_data : Op → ℕ → ℕ
ring_pack_data op conn_id = bit_or (code op * 2 ^ 32 % 2 ^ 64) conn_id

-- `data & 0xFFFFFFFF` is the remainder by 2 ^ 32.
unfoldable pub ring_unpack_data : ℕ → Option Op × ℕ
ring_unpack_data user_data = (op_of (user_data / 2 ^ 32), user_data % 2 ^ 32)

-- An `int` as the 32 bits of `(uint32_t)`.
abbrev pub to_u32 : ℤ → ℕ
to_u32 (pos n) = n % 2 ^ 32
to_u32 (negsuc n) = 2 ^ 32 - 1 - n % 2 ^ 32

pub record Timespec : Type 0 where
  pub tv_sec : ℕ
  pub tv_nsec : ℕ

abbrev pub timespec_of : ℕ → Timespec
timespec_of ms = record { tv_sec = ms / 1000; tv_nsec = ms % 1000 * 1000000 }

-- What the `io_uring_prep` functions put in an entry. A buffer is its address.
pub data Request : Type 0 where
  multishot_accept : (fd : ℤ) → Request
  recvmsg : (fd : ℤ) (msg : ℕ) → Request
  write_fd : (fd : ℤ) (buf len : ℕ) → Request
  link_timeout : (ts : Timespec) → Request
  cancel_fd : (fd : ℤ) → Request
  read_counter : (fd : ℤ) → Request
  multishot_poll : (fd : ℤ) (mask : ℕ) → Request
  timer : (ts : Timespec) → Request
  remove_timer : (user_data : ℕ) → Request

-- `linked` is IOSQE_IO_LINK: the next entry depends on this one.
pub record Sqe : Type 0 where
  pub request : Request
  pub user_data : ℕ
  pub linked : Bool

pub data Event : Type 0 where
  entry : Sqe → Event
  submission : Event

-- The number of calls of `io_uring_get_sqe`, and the events, the last one first.
pub record Ring : Type 0 where
  pub calls : ℕ
  pub log : List Event

pub put : Sqe → Ring → Ring
put sqe r = record r { log = entry sqe ∷ r.log }

abbrev pub plain : Request → ℕ → Sqe
plain request user_data = record { request = request; user_data = user_data; linked = false }

unfoldable pub ring_submit : Ring → Ring
ring_submit r = record r { log = submission ∷ r.log }

-- With an entry: it is filled, and the result is 0; without: -EAGAIN.
pub fill : Sqe → Bool × Ring → Bool × Ring
unfolding put
fill sqe (true, r) = (true, put sqe r)
fill sqe (false, r) = (false, r)

module _ (room : ℕ → Bool) where
  pub get_sqe : Ring → Bool × Ring
  get_sqe r = (room r.calls, record r { calls = r.calls + 1 })

  -- Without room the queue is submitted, and that makes a second call.
  pub retry_sqe : Bool × Ring → Bool × Ring
  unfolding get_sqe ring_submit
  retry_sqe (true, r) = (true, r)
  retry_sqe (false, r) = get_sqe (ring_submit r)

  pub ring_get_sqe_flush : Ring → Bool × Ring
  unfolding get_sqe retry_sqe
  ring_get_sqe_flush r = retry_sqe (get_sqe r)

  unfoldable pub ring_submit_accept : ℤ → Ring → Bool × Ring
  unfolding get_sqe fill
  ring_submit_accept listen_fd r =
      fill (plain (multishot_accept listen_fd) (ring_pack_data accept 0)) (get_sqe r)

  unfoldable pub ring_submit_recvmsg : ℕ → ℤ → ℕ → Ring → Bool × Ring
  unfolding ring_get_sqe_flush fill
  ring_submit_recvmsg id unix_fd msg r =
      fill (plain (recvmsg unix_fd msg) (ring_pack_data recv_fd id)) (ring_get_sqe_flush r)

  unfoldable pub ring_submit_write : ℕ → ℤ → ℕ → ℕ → Ring → Bool × Ring
  unfolding ring_get_sqe_flush fill
  ring_submit_write id client_fd buf len r =
      fill
        (record {
          request = write_fd client_fd buf len;
          user_data = ring_pack_data write id;
          linked = true;
        })
        (ring_get_sqe_flush r)

  unfoldable pub ring_submit_linked_timeout : ℕ → ℕ → Ring → Bool × Ring
  unfolding get_sqe fill
  ring_submit_linked_timeout id timeout_ms r =
      fill (plain (link_timeout (timespec_of timeout_ms)) (ring_pack_data timeout id)) (get_sqe r)

  unfoldable pub ring_submit_cancel : ℕ → ℤ → Ring → Bool × Ring
  unfolding get_sqe fill
  ring_submit_cancel id client_fd r =
      fill (plain (cancel_fd client_fd) (ring_pack_data cancel id)) (get_sqe r)

  unfoldable pub ring_submit_eventfd_read : ℤ → Ring → Bool × Ring
  unfolding ring_get_sqe_flush fill
  ring_submit_eventfd_read fd r =
      fill (plain (read_counter fd) (ring_pack_data eventfd 0)) (ring_get_sqe_flush r)

  unfoldable pub ring_submit_poll_add : ℤ → ℕ → Ring → Bool × Ring
  unfolding ring_get_sqe_flush fill
  ring_submit_poll_add sockfd poll_mask r =
      fill (plain (multishot_poll sockfd poll_mask) (ring_pack_data curl_poll (to_u32 sockfd)))
        (ring_get_sqe_flush r)

  unfoldable pub ring_submit_poll_cancel : ℤ → Ring → Bool × Ring
  unfolding ring_get_sqe_flush fill
  ring_submit_poll_cancel sockfd r =
      fill (plain (cancel_fd sockfd) (ring_pack_data poll_cancel (to_u32 sockfd)))
        (ring_get_sqe_flush r)

  -- The caller gives a time that is not negative.
  unfoldable pub ring_submit_curl_timeout : ℕ → ℕ → Ring → Bool × Ring
  unfolding ring_get_sqe_flush fill
  ring_submit_curl_timeout timeout_ms timer_id r =
      fill (plain (timer (timespec_of timeout_ms)) (ring_pack_data curl_timeout timer_id))
        (ring_get_sqe_flush r)

  unfoldable pub ring_cancel_curl_timeout : ℕ → Ring → Bool × Ring
  unfolding ring_get_sqe_flush fill
  ring_cancel_curl_timeout timer_id r =
      fill
        (plain (remove_timer (ring_pack_data curl_timeout timer_id))
          (ring_pack_data cancel timer_id))
        (ring_get_sqe_flush r)

pub record Setup : Type 0 where
  pub use_sqpoll : Bool
  pub initialized : Bool

-- Whether `io_uring_queue_init_params` succeeds, with the kernel's polling or without, and whether
-- `io_uring_queue_init` does. The first result says that it went well.
unfoldable pub ring_init : (Bool → Bool) → Bool → Setup → Bool × Setup
ring_init init_params init ctx =
    if init_params ctx.use_sqpoll
    then (true, record ctx { initialized = true })
    else if init
    then (true, record { use_sqpoll = false; initialized = true })
    else (false, ctx)

unfoldable pub ring_cleanup : Setup → Setup
ring_cleanup ctx = if ctx.initialized then record ctx { initialized = false } else ctx
