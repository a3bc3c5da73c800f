-- ===== src/Apache/Os.antt =====
-- The system below mod_socket_handoff.c. The answers of the kernel and of APR are a parameter: a
-- function of the number of calls made before. The world counts the calls and keeps what the
-- process has done to the kernel's state.
use mod_socket_handoff.Base.{
  ℕ, ◌+◌, ◌≡◌, refl, Bool, not, Option, List, [], ◌∷◌, Bytes, ◌==◌, bit_and, if◌then◌else◌,
}

-- The errno values that the code tests or sets. EWOULDBLOCK is EAGAIN.
pub data Errno : Type 0 where
  eagain einval einprogress enametoolong enoent econnrefused etimedout epipe emsgsize : Errno
  other : ℕ → Errno

pub data Result {ℓ} (A : Type ℓ) : Type ℓ where
  ok : A → Result A
  err : Errno → Result A

-- How a `poll` of one descriptor ends, and the polls of a `do … while (ret < 0 && errno == EINTR)`
-- loop: finitely many are interrupted by a signal.
pub data Poll : Type 0 where
  timed_out : Poll
  failed : Errno → Poll
  ready : ℕ → Poll

pub data PollRun : Type 0 where
  interrupted : PollRun → PollRun
  ended : Poll → PollRun

-- `some e` of an `Option Errno` is a call that returned -1 with that errno.
pub record Os : Type 0 where
  pub now : ℕ → ℕ
  pub socket_nonblock : ℕ → Result ℕ
  pub socket : ℕ → Result ℕ
  pub get_flags : ℕ → Option Errno
  pub set_flags : ℕ → Option Errno
  pub set_cloexec : ℕ → Option Errno
  pub connect : ℕ → Option Errno
  pub poll : ℕ → PollRun
  -- getsockopt(SO_ERROR): the pending error, none for 0
  pub so_error : ℕ → Result (Option Errno)
  -- the number of bytes sent
  pub sendmsg : ℕ → Result ℕ

-- A message that the kernel has taken: the socket it went to, the descriptor and the bytes.
pub record Message : Type 0 where
  pub via : ℕ
  pub fd : ℕ
  pub bytes : Bytes

pub record World : Type 0 where
  pub calls : ℕ
  -- the sockets that the module has open
  pub fds : List ℕ
  -- connect(2) calls made
  pub connects : ℕ
  -- milliseconds asked of nanosleep
  pub slept : ℕ
  -- the timeouts of the polls that were not interrupted, in milliseconds
  pub waited : ℕ
  pub sent : List Message

-- A computation over the world, and one that can fail with an errno.
abbrev pub S : Type 0 → Type 0
S A = World → A × World

abbrev pub M : Type 0 → Type 0
M A = World → Result A × World

abbrev pub bind : {A B : Type 0} → Result A × World → (A → M B) → Result B × World
bind (ok a, w) f = f a w
bind (err e, w) f = (err e, w)

infixl 5 ◌>>=◌ ◌>>◌
abbrev pub ◌>>=◌ : {A B : Type 0} → M A → (A → M B) → M B
◌>>=◌ m f w = bind (m w) f

abbrev pub ◌>>◌ : {B : Type 0} → M (Unit {0}) → M B → M B
m >> k = m >>= λ _. k

abbrev pub pure : {A : Type 0} → A → M A
pure a w = (ok a, w)

abbrev pub throw : {A : Type 0} → Errno → M A
throw e w = (err e, w)

abbrev pub tick : World → World
tick w = record w { calls = w.calls + 1 }

-- One call of the system.
abbrev pub ask : {A : Type 0} → (ℕ → A) → M A
ask f w = (ok (f w.calls), tick w)

abbrev pub opened : ℕ → M (Unit {0})
opened s w = (ok tt, record w { fds = s ∷ w.fds })

abbrev pub remove : ℕ → List ℕ → List ℕ
remove s [] = []
remove s (x ∷ xs) = if x == s then xs else x ∷ remove s xs

abbrev pub closed : ℕ → World → World
closed s w = record w { fds = remove s w.fds }

abbrev pub close : ℕ → M (Unit {0})
close s w = (ok tt, closed s w)

-- Close the socket and report the error.
abbrev pub fail : {A : Type 0} → ℕ → Errno → M A
fail s e = close s >> throw e

-- The loop around `poll`.
unfoldable pub poll_until : ℕ → PollRun → S Poll
poll_until timeout (interrupted rest) w = poll_until timeout rest w
poll_until timeout (ended p) w = (p, record w { waited = w.waited + timeout })

unfoldable pub poll : Os → ℕ → S Poll
poll os timeout w = poll_until timeout (os.poll w.calls) (tick w)

-- `revents & (POLLERR | POLLHUP | POLLNVAL)`
abbrev pub hung_up : ℕ → Bool
hung_up revents = not (bit_and revents 56 == 0)

-- What `poll` leaves behind.
pub poll_until-world :
    (timeout : ℕ) (run : PollRun) (w : World)
    → (poll_until timeout run w).1 ≡ record w { waited = w.waited + timeout }
unfolding poll_until
poll_until-world timeout (interrupted rest) w = poll_until-world timeout rest w
poll_until-world timeout (ended p) w = refl

pub poll-world :
    (os : Os) (timeout : ℕ) (w : World)
    → (poll os timeout w).1 ≡ record w { calls = w.calls + 1; waited = w.waited + timeout }
unfolding poll
poll-world os timeout w = poll_until-world timeout (os.poll w.calls) (tick w)
