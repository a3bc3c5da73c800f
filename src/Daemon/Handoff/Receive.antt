-- ===== src/Daemon/Handoff/Receive.antt =====
-- handoff.c: the descriptor of a message. `recvmsg` and `getsockopt` are parameters, by their answers.
use mod_socket_handoff.Base.{ℕ, Bool, false, Option, none, some, if◌then◌else◌}

-- The first control message, if it is SOL_SOCKET and SCM_RIGHTS or not, and the descriptor in it.
pub record Control : Type 0 where
  pub is_rights : Bool
  pub fd : ℕ

-- The bytes that were read, the flags MSG_TRUNC and MSG_CTRUNC, and the first control message.
pub record Message : Type 0 where
  pub bytes : ℕ
  pub is_cut : Bool
  pub control_is_cut : Bool
  pub control : Option Control

pub data RecvResult : Type 0 where
  received : (fd len : ℕ) → RecvResult
  emsgsize eproto failed : RecvResult

-- None for -1.
unfoldable pub handoff_extract_fd : Option Control → Option ℕ
handoff_extract_fd none = none
handoff_extract_fd (some c) = if c.is_rights then some c.fd else none

abbrev pub received_or : RecvResult → ℕ → Option ℕ → RecvResult
received_or other len none = other
received_or other len (some fd) = received fd len

unfoldable pub handoff_recv_fd : Option Message → RecvResult
unfolding handoff_extract_fd
handoff_recv_fd none = failed
handoff_recv_fd (some msg) =
    if msg.is_cut
    then emsgsize
    else if msg.control_is_cut
    then emsgsize
    else received_or eproto msg.bytes (handoff_extract_fd msg.control)

-- Whether the type that `getsockopt` gives is SOCK_STREAM, if it gives one.
unfoldable pub handoff_validate_socket : Option Bool → Bool
handoff_validate_socket none = false
handoff_validate_socket (some is_stream) = is_stream
