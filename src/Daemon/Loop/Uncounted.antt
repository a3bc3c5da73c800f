-- ===== src/Daemon/Loop/Uncounted.antt =====
-- daemon.c, `handle_accept`: a connection whose receive could not be submitted.
use mathlib.Core.Path.{subst}
use mod_socket_handoff.Base.{
  ℕ, ◌+◌, ◌-◌, ◌%◌, ◌^◌, ◌≡◌, ◌≢◌, refl, sym, ap, ◌∙◌, Bool, true, false, Option, some, none, List,
  ◌∷◌, arith, get_elem?, lt-get_elem?, get_elem?-set, if◌then◌else◌,
}
use mod_socket_handoff.Base.Int.{ℤ, pos}
use mod_socket_handoff.Daemon.ConnPool.{Connection, receiving_fd, Pool, conn_alloc}
use mod_socket_handoff.Daemon.ConnPool.FreeList.{IsAllocation, given, no_memory, alloc-IsAllocation}
use mod_socket_handoff.Daemon.ConnPool.Kept.{free-unused}
use mod_socket_handoff.Daemon.Ring.{Ring, ring_submit_recvmsg, ring_submit_accept}
use mod_socket_handoff.Daemon.Ring.Full.{recvmsg_full}
use mod_socket_handoff.Daemon.Loop.State.{Kernel, Daemon, Cqe, set_conn, with_ring, count_started}
use mod_socket_handoff.Daemon.Loop.Dirty.{cleanup_connection, daemon_unmark_connection_dirty}
use mod_socket_handoff.Daemon.Loop.Handlers.{
  accept_again, or_drop, receive, accepted, accept_fd, handle_accept, resubmit_accept,
}
use mod_socket_handoff.Daemon.Loop.Relinked.{unmark-IsRelinked}
use mod_socket_handoff.Daemon.Loop.Sound.{IsSound}

-- One connection more was started, and nothing else has changed of the statistics and of the number in use.
pub record IsUncounted (d d' : Daemon) : Type 0 where
  pub started : d'.total_started ≡ d.total_started + 1
  pub completed : d'.total_completed ≡ d.total_completed
  pub failed : d'.total_failed ≡ d.total_failed
  pub active : d'.pool.active_connections ≡ d.pool.active_connections

module _ (k : Kernel) (d : Daemon) where
  dropped :
      (c : ℕ) (x : Daemon) (w : Connection) (o : Bool × Ring)
      → o.0 ≡ false
      → get_elem? x.pool.connections c ≡ some w
      → x.total_started ≡ d.total_started + 1
      → x.total_completed ≡ d.total_completed
      → x.total_failed ≡ d.total_failed
      → (x.pool.active_connections + 2 ^ 32 - 1) % 2 ^ 32 ≡ d.pool.active_connections
      → IsUncounted d (or_drop k c (λ (y : Daemon). y) x o)
  unfolding or_drop cleanup_connection
  dropped c x w (true, r) e g s f b n = cc
  dropped c x w (false, r) e g s f b n =
      let u = unmark-IsRelinked (with_ring x r) c in
      let (y, q, z, z') = u.kept.same c w g in
      let (a, p, v, t, m) =
        free-unused (daemon_unmark_connection_dirty (with_ring x r) c).pool c y q in
      record {
        started = u.started ∙ s;
        completed = u.completed ∙ f;
        failed = u.failed ∙ b;
        active = m ∙ ap (λ (j : ℕ). (j + 2 ^ 32 - 1) % 2 ^ 32) u.active ∙ n;
      }

  accepted_full :
      (fd : ℕ) (ids : List ℕ) (o : Option ℕ × Pool) (c : ℕ)
      → IsSound 0 d (c ∷ ids)
      → ((n : ℕ) → k.room n ≡ false)
      → k.malloc 4096 ≢ none
      → d.benchmark_mode ≡ true
      → IsAllocation k.malloc d.pool (c ∷ ids) o
      → IsUncounted d (accepted k (record d { pool = o.1 }) fd o.0)
  unfolding accepted receive count_started
  accepted_full fd _ _ c s h m b (no_memory ids after e p) = absurd (m e)
  accepted_full fd _ _ c s h m b (given _ ids after p a g n) =
      let w = g.conn in
      let v : Connection = record w { unix_fd = pos fd; state = receiving_fd } in
      simp (g.found) (
        dropped c (count_started (set_conn (record d { pool = after }) c v)) v
          (ring_submit_recvmsg k.room w.id (pos fd) (k.recv_context w.id) d.ring)
          (recvmsg_full k.room h w.id (pos fd) (k.recv_context w.id) d.ring)
          (get_elem?-set after.connections c v (lt-get_elem? after.connections c w g.found))
          (simp b refl) refl refl (omega (arith, n, s.pool.active, s.pool.small)))

-- Only the ring changes before the connection is looked at.
if_ring :
    (d : Daemon) (r : Ring) (a b : Bool)
    → (r' : Ring) × ((if a then d else if b then d else with_ring d r) ≡ with_ring d r')
if_ring d r true b = (d.ring, refl)
if_ring d r false true = (d.ring, refl)
if_ring d r false false = (r, refl)

accept_full :
    (k : Kernel) (d : Daemon) (fd : ℕ) (ids : List ℕ) (c : ℕ) (r : Ring)
    → IsSound 0 d (c ∷ ids)
    → ((n : ℕ) → k.room n ≡ false)
    → k.malloc 4096 ≢ none
    → d.benchmark_mode ≡ true
    → IsUncounted d (accept_fd k (with_ring d r) (pos fd))
unfolding accept_fd
accept_full k d fd ids c r s h m b =
    let x = with_ring d r in
    let u =
      accepted_full k x fd ids (conn_alloc k.malloc d.pool) c
        (record { pool = s.pool; idle = s.idle; tally = s.tally }) h m b
        (alloc-IsAllocation k.malloc d.pool (c ∷ ids) s.pool) in
    record { started = u.started; completed = u.completed; failed = u.failed; active = u.active }

-- In benchmark mode, with a free connection and memory for its buffer, but no place in the queue before and after a
-- submission: an accepted socket is counted as started, its connection is given back, and it is counted neither as
-- completed nor as failed.
pub unsubmitted_recv :
    (k : Kernel) (d : Daemon) (cqe : Cqe) (fd : ℕ) (ids : List ℕ) (c : ℕ)
    → IsSound 0 d (c ∷ ids)
    → ((n : ℕ) → k.room n ≡ false)
    → k.malloc 4096 ≢ none
    → d.benchmark_mode ≡ true
    → cqe.res ≡ pos fd
    → IsUncounted d (handle_accept k d cqe)
unfolding handle_accept resubmit_accept
unsubmitted_recv k d cqe fd ids c s h m b e =
    let r = accept_again k 3 d.listen_fd (ring_submit_accept k.room d.listen_fd d.ring) in
    let (r', p) = if_ring d r cqe.more d.shutdown_requested in
    subst (λ (x : Daemon). IsUncounted d (accept_fd k x cqe.res)) (sym p)
      (subst (λ (z : ℤ). IsUncounted d (accept_fd k (with_ring d r') z)) (sym e)
        (accept_full k d fd ids c r' s h m b))
