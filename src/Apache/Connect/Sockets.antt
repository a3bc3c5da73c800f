-- ===== src/Apache/Connect/Sockets.antt =====
-- mod_socket_handoff.c, `connect_to_socket`: the descriptors it leaves open and the time it asks for.
use mod_socket_handoff.Base.{
  ℕ, ◌+◌, ◌≤◌, ◌≡◌, refl, ◌∙◌, Bool, true, false, Option, none, some, List, ◌∷◌, Bytes, arith,
}
use mod_socket_handoff.Apache.Os.{
  Os, Errno, Result, ok, err, World, poll-world, M, bind, einprogress,
}
use mod_socket_handoff.Apache.Connect.{
  open_socket, set_nonblocking, await_connect, after_connect, finish_connect, check_length,
  use_socket, connect_to_socket,
}

-- A success leaves one more socket open, the one returned; a failure none.
abbrev pub Owns : Result ℕ → List ℕ → List ℕ → Type 0
Owns (ok sock) before after = after ≡ sock ∷ before
Owns (err e) before after = after ≡ before

pub record IsAttempt (timeout : ℕ) (w : World) (r : Result ℕ) (w' : World) : Type 0 where
  pub sockets : Owns r w.fds w'.fds
  pub connects : w'.connects ≤ w.connects + 1
  pub waited : w'.waited ≤ w.waited + timeout
  pub slept : w'.slept ≡ w.slept
  pub sent : w'.sent ≡ w.sent

-- A stage on an open socket `sock`, above the others.
abbrev Keeps : {A : Type 0} → ℕ → List ℕ → Result A → World → Type 0
Keeps sock old (ok a) w' = w'.fds ≡ sock ∷ old
Keeps sock old (err e) w' = w'.fds ≡ old

record IsStage {A : Type 0} (tries timeout sock : ℕ) (old : List ℕ) (w : World) (r : Result A)
    (w' : World) : Type 0 where
  kept : Keeps sock old r w'
  connects : w'.connects ≤ w.connects + tries
  waited : w'.waited ≤ w.waited + timeout
  slept : w'.slept ≡ w.slept
  sent : w'.sent ≡ w.sent

await-IsStage :
    (os : Os) (sock timeout : ℕ) (old : List ℕ) (w : World)
    → w.fds ≡ sock ∷ old
    → let (r, w') = await_connect os sock timeout w in IsStage 0 timeout sock old w r w'
unfolding await_connect
await-IsStage os sock timeout old w e = ground (arith, poll-world os timeout w)

after-IsStage :
    (os : Os) (sock timeout : ℕ) (old : List ℕ) (o : Option Errno) (w : World)
    → w.fds ≡ sock ∷ old
    → let (r, w') = after_connect os sock timeout o w in IsStage 0 timeout sock old w r w'
unfolding after_connect
after-IsStage os sock timeout old none w e = ground arith
after-IsStage os sock timeout old (some einprogress) w e = await-IsStage os sock timeout old w e
after-IsStage os sock timeout old (some _) w e = ground arith

finish-IsStage :
    (os : Os) (sock timeout : ℕ) (old : List ℕ) (w : World)
    → w.fds ≡ sock ∷ old
    → let (r, w') = finish_connect os sock timeout w in IsStage 1 timeout sock old w r w'
unfolding finish_connect
finish-IsStage os sock timeout old w e = ground (
  arith,
  after-IsStage os sock timeout old (os.connect w.calls)
      (record w { calls = w.calls + 1; connects = w.connects + 1 }),
)

nonblocking-IsStage :
    (os : Os) (sock : ℕ) (nonblock : Bool) (old : List ℕ) (w : World)
    → w.fds ≡ sock ∷ old
    → let (r, w') = set_nonblocking os sock nonblock w in IsStage 0 0 sock old w r w'
unfolding set_nonblocking
nonblocking-IsStage os sock true old w e = ground arith
nonblocking-IsStage os sock false old w e = ground arith

length-IsStage :
    (path : Bytes) (sock : ℕ) (old : List ℕ) (w : World)
    → w.fds ≡ sock ∷ old
    → let (r, w') = check_length path sock w in IsStage 0 0 sock old w r w'
unfolding check_length
length-IsStage path sock old w e = ground arith

abbrev Opens : Result (ℕ × Bool) → World → World → Type 0
Opens (ok (sock, nonblock)) w w' = w'.fds ≡ sock ∷ w.fds
Opens (err e) w w' = w'.fds ≡ w.fds

record Opened (w : World) (r : Result (ℕ × Bool)) (w' : World) : Type 0 where
  fds : Opens r w w'
  connects : w'.connects ≡ w.connects
  waited : w'.waited ≡ w.waited
  slept : w'.slept ≡ w.slept
  sent : w'.sent ≡ w.sent

open-Opened : (os : Os) (w : World) → let (r, w') = open_socket os w in Opened w r w'
unfolding open_socket
open-Opened os w = ground arith

-- Two stages in a row.
bind-IsStage :
    {A B : Type 0} {c d t u sock : ℕ} {old : List ℕ} {w : World} (out : Result A × World)
    (f : A → M B)
    → IsStage c t sock old w out.0 out.1
    → ((a : A) (w' : World)
        → w'.fds ≡ sock ∷ old
        → let (r, w'') = f a w' in IsStage d u sock old w' r w'')
    → let (r, w'') = bind out f in IsStage (c + d) (t + u) sock old w r w''
bind-IsStage (ok a, w') f st k =
    let st' = k a w' st.kept in
    record {
      kept = st'.kept;
      connects = omega arith;
      waited = omega arith;
      slept = st'.slept ∙ st.slept;
      sent = st'.sent ∙ st.sent;
    }
bind-IsStage (err e, w') f st k = record {
  kept = st.kept;
  connects = omega arith;
  waited = omega arith;
  slept = st.slept;
  sent = st.sent;
}

use-IsStage :
    (os : Os) (path : Bytes) (timeout sock : ℕ) (nonblock : Bool) (old : List ℕ) (w : World)
    → w.fds ≡ sock ∷ old
    → let (r, w') = use_socket os path timeout (sock, nonblock) w in
      IsStage (0 + (0 + (1 + 0))) (0 + (0 + (timeout + 0))) sock old w r w'
unfolding use_socket
use-IsStage os path timeout sock nonblock old w e =
    bind-IsStage {d = 0 + (1 + 0)} {u = 0 + (timeout + 0)} (check_length path sock w) _
      (length-IsStage path sock old w e)
      λ _ w₁ e₁.
        bind-IsStage {d = 1 + 0} {u = timeout + 0} (set_nonblocking os sock nonblock w₁) _
          (nonblocking-IsStage os sock nonblock old w₁ e₁)
          λ _ w₂ e₂.
            bind-IsStage {d = 0} {u = 0} (finish_connect os sock timeout w₂) _
              (finish-IsStage os sock timeout old w₂ e₂)
              λ _ w₃ e₃. record {
                kept = e₃;
                connects = omega arith;
                waited = omega arith;
                slept = refl;
                sent = refl;
              }

use-result :
    (os : Os) (path : Bytes) (timeout sock : ℕ) (nonblock : Bool) (w : World) {s : ℕ}
    → (use_socket os path timeout (sock, nonblock) w).0 ≡ ok s
    → s ≡ sock
unfolding use_socket
use-result os path timeout sock nonblock w e = ground arith

stage-IsAttempt :
    {timeout sock : ℕ} {w w₁ : World} (out : Result ℕ × World)
    → IsStage (0 + (0 + (1 + 0))) (0 + (0 + (timeout + 0))) sock w.fds w₁ out.0 out.1
    → ((s : ℕ) → out.0 ≡ ok s → s ≡ sock)
    → w₁.connects ≡ w.connects
    → w₁.waited ≡ w.waited
    → w₁.slept ≡ w.slept
    → w₁.sent ≡ w.sent
    → IsAttempt timeout w out.0 out.1
stage-IsAttempt (ok s, w') st same c t sl se = record {
  sockets = rw (same s refl) st.kept;
  connects = omega arith;
  waited = omega arith;
  slept = st.slept ∙ sl;
  sent = st.sent ∙ se;
}
stage-IsAttempt (err e, w') st same c t sl se = record {
  sockets = st.kept;
  connects = omega arith;
  waited = omega arith;
  slept = st.slept ∙ sl;
  sent = st.sent ∙ se;
}

open-IsAttempt :
    (os : Os) (path : Bytes) (timeout : ℕ) (w : World) (out : Result (ℕ × Bool) × World)
    → Opened w out.0 out.1
    → let (r, w') = bind out (use_socket os path timeout) in IsAttempt timeout w r w'
open-IsAttempt os path timeout w (ok (sock, nonblock), w') o =
    stage-IsAttempt {timeout = timeout} {sock = sock}
      (use_socket os path timeout (sock, nonblock) w')
      (use-IsStage os path timeout sock nonblock w.fds w' o.fds)
      (λ s. use-result os path timeout sock nonblock w') o.connects o.waited o.slept o.sent
open-IsAttempt os path timeout w (err e, w') o = record {
  sockets = o.fds;
  connects = omega arith;
  waited = omega arith;
  slept = o.slept;
  sent = o.sent;
}

-- An attempt leaves open the one socket that it returns, and none if it fails, on every path. It
-- calls connect(2) at most once, asks `poll` to wait for at most the timeout, polls that a signal
-- interrupts left aside, and neither sleeps nor sends.
pub connect-IsAttempt :
    (os : Os) (path : Bytes) (timeout : ℕ) (w : World)
    → let (r, w') = connect_to_socket os path timeout w in IsAttempt timeout w r w'
unfolding connect_to_socket
connect-IsAttempt os path timeout w =
    open-IsAttempt os path timeout w (open_socket os w) (open-Opened os w)
