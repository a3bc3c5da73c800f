-- ===== src/Daemon/Async/Kept.antt =====
-- daemon.c and curl_manager.c: what the asynchronous writes do keeps the free list and the statistics.
pub mod Written
pub mod Received
pub mod Ends
use mod_socket_handoff.Base.{
  ℕ, ◌≡◌, ◌≢◌, refl, Bool, true, false, Option, none, some, get_elem?, Option-cases, inl, inr,
  if◌then◌else◌,
}
use mod_socket_handoff.Daemon.ConnPool.{Connection, unused}
use mod_socket_handoff.Daemon.Ring.{Ring}
use mod_socket_handoff.Daemon.Loop.State.{Daemon, set_conn, with_ring}
use mod_socket_handoff.Daemon.Loop.Dirty.{put_dirty}
use mod_socket_handoff.Daemon.Loop.Relinked.{IsRelinked}
use mod_socket_handoff.Daemon.Loop.Sound.{
  Sound, Live, set-Sound, set-Live, ring-Sound, ring-Live, relinked-IsSound, relinked-Live,
}
use mod_socket_handoff.Daemon.Async.Writing.{Async, with_daemon}
use mod_socket_handoff.Daemon.Async.Receiving.{change_conn}

-- Sound, with the connection `c` in use.
abbrev pub Good : ℕ → Daemon → Type 0
Good c d = Sound 0 d × Live d c

pub if-Good :
    {c : ℕ} (a b : Async) (t : Bool)
    → Good c a.daemon
    → Good c b.daemon
    → Good c (if t then a else b).daemon
if-Good a b true p q = p
if-Good a b false p q = q

pub set-Good :
    {c : ℕ} (d : Daemon) (v : Connection) → v.state ≢ unused → Good c d → Good c (set_conn d c v)
set-Good {c} d v u (s, l) = (set-Sound c v s l, set-Live c v u l)

pub ring-Good : {c : ℕ} {d : Daemon} (r : Ring) → Good c d → Good c (with_ring d r)
ring-Good r (s, l) = (ring-Sound r s, ring-Live r l)

pub relinked-Sound : {d d' : Daemon} → IsRelinked d d' → Sound 0 d → Sound 0 d'
relinked-Sound r (ids, s) = (ids, relinked-IsSound ids r s)

pub relinked-Good : {c : ℕ} {d d' : Daemon} → IsRelinked d d' → Good c d → Good c d'
relinked-Good r (s, l) = (relinked-Sound r s, relinked-Live r l)

pub change-Good :
    {c : ℕ} (change : Connection → Connection) (s : Async)
    → ((x : Connection) → x.state ≢ unused → (change x).state ≢ unused)
    → Good c s.daemon
    → Good c (change_conn c change s).daemon
unfolding change_conn put_dirty
change-Good {c} change s u (v, l) =
    simp l.found (set-Good s.daemon (change l.conn) (u l.conn l.used) (v, l))
