-- ===== src/Daemon/Loop/Orphan.antt =====
-- daemon.c: a write that is in the queue when its timeout finds no place.
use mod_socket_handoff.Base.{
  ℕ, ◌+◌, ◌≡◌, refl, sym, ap, ◌∙◌, Bool, true, false, some, ◌∷◌, get_elem?,
}
use mathlib.Core.Path.{subst}
use mod_socket_handoff.Daemon.ConnPool.{Connection, unused}
use mod_socket_handoff.Daemon.ConnPool.Kept.{free-unused}
use mod_socket_handoff.Daemon.Ring.{Ring, entry}
use mod_socket_handoff.Daemon.Ring.Full.{last_place, write_sqe}
use mod_socket_handoff.Daemon.Loop.State.{Kernel, Daemon, with_ring, count_failed}
use mod_socket_handoff.Daemon.Loop.Dirty.{cleanup_connection, daemon_unmark_connection_dirty}
use mod_socket_handoff.Daemon.Loop.Handlers.{or_drop, after_write, send}
use mod_socket_handoff.Daemon.Loop.Relinked.{unmark-IsRelinked}
use mod_socket_handoff.Daemon.Loop.Sound.{Live, failed-Live, ring-Live}

-- The slot `c` is free, and the last entry of the queue writes from `buf` for it.
pub record IsAbandoned (k : Kernel) (d : Daemon) (c : ℕ) (conn : Connection) (buf len : ℕ)
    (d' : Daemon) : Type 0 where
  pub freed : (x : Connection) × (get_elem? d'.pool.connections c ≡ some x) × (x.state ≡ unused)
  pub queued : d'.ring.log ≡ entry (write_sqe conn.id conn.client_fd buf len) ∷ d.ring.log

cleanup_freed :
    (d : Daemon) (c : ℕ)
    → Live d c
    → ((x : Connection) × (get_elem? (cleanup_connection d c).pool.connections c ≡ some x)
        × (x.state ≡ unused))
      × ((cleanup_connection d c).ring ≡ d.ring)
unfolding cleanup_connection
cleanup_freed d c l =
    let u = unmark-IsRelinked d c in
    let (y, f, n, t) = u.kept.same c l.conn l.found in
    let (x, e, g, w, m) = free-unused (daemon_unmark_connection_dirty d c).pool c y f in
    ((x, g, w), u.ring)

count_failed_ring : (d : Daemon) → (count_failed d).ring ≡ d.ring
unfolding count_failed
count_failed_ring d = refl

module _ (k : Kernel) where
  -- When the queue has one place left, the write of a connection takes it, its timeout finds none, and the
  -- connection is freed: the write stays in the queue, with the address of the buffer and the
  -- descriptor, while the slot is not in use any more.
  pub orphan_write :
      (d : Daemon) (c : ℕ) (conn : Connection) (buf len : ℕ) (note : Daemon → Daemon)
      → Live d c
      → k.room d.ring.calls ≡ true
      → k.room (d.ring.calls + 1) ≡ false
      → IsAbandoned k d c conn buf len (send k c conn buf len note d)
  unfolding send after_write or_drop
  orphan_write d c conn buf len note l h e =
      let (p, q) = last_place k.room conn.id conn.client_fd buf len d.write_timeout_ms d.ring h e in
      let log = entry (write_sqe conn.id conn.client_fd buf len) ∷ d.ring.log in
      let last : Ring = record { calls = d.ring.calls + 1 + 1; log = log } in
      let x = count_failed (with_ring d last) in
      let (f, r) = cleanup_freed x c (failed-Live (ring-Live last l)) in
      subst (λ (o : Bool × Ring). IsAbandoned k d c conn buf len (after_write k c conn.id note d o))
        (sym p)
        (subst (λ (o : Bool × Ring). IsAbandoned k d c conn buf len (or_drop k c count_failed d o))
          (sym q)
          (record {
            freed = f;
            queued = ap (λ (ring : Ring). ring.log) (r ∙ count_failed_ring (with_ring d last));
          }))
