-- ===== src/Daemon/Loop/Safety.antt =====
-- daemon.c: no order of completions makes the daemon unsound.
pub mod Sending
pub mod Incoming
pub mod Outgoing
use mod_socket_handoff.Base.{
  ℕ, ◌+◌, ◌^◌, ◌<◌, ◌≡◌, ◌≢◌, ◌⊎◌, refl, sym, ap, ◌∙◌, Bool, true, false, Option, some, none, List,
  inl, inr, arith, get_elem?,
}
use mathlib.Core.Path.{subst}
use mod_socket_handoff.Base.Int.{ℤ}
use mod_socket_handoff.Daemon.ConnPool.{
  Connection, ConnState, unused, llm_queued, Pool, conn_pool_init, conn_get,
}
use mod_socket_handoff.Daemon.ConnPool.FreeList.{IsPool}
use mod_socket_handoff.Daemon.ConnPool.Kept.{Unused}
use mod_socket_handoff.Daemon.ConnPool.Start.{indices, init-IsPool, init-Unused}
use mod_socket_handoff.Daemon.Ring.{
  Op, accept, recv_fd, write, eventfd, code, ring_pack_data, ring_unpack_data, ring_submit,
}
use mod_socket_handoff.Daemon.Ring.Packing.{unpack-pack}
use mod_socket_handoff.Daemon.ThreadPool.{
  ThreadPool, Worker, worker_take, result_state, pool_add_completion, pool_shutdown,
}
use mod_socket_handoff.Daemon.Loop.State.{Kernel, Daemon, Cqe, set_conn, with_ring}
use mod_socket_handoff.Daemon.Loop.Steps.{
  process_cqe, dispatch_op, at_recv, at_write, on_recv, on_write, found,
}
use mod_socket_handoff.Daemon.Loop.Sound.{IsSound, Sound, Live, set-Sound, ring-Sound, tp-Sound}
use mod_socket_handoff.Daemon.Loop.Safety.Outgoing.{process_cqe-Sound}

-- The main loop takes any completion, or submits; a worker thread takes work, changes the connection that it has,
-- which is still the queued one, and hands it back; a signal asks for the end.
pub data Step (d : Daemon) : Daemon → Type 0 where
  complete : (k : Kernel) (cqe : Cqe) → Step d (process_cqe k d cqe)
  wait : Step d (with_ring d (ring_submit d.ring))
  take :
      (w : Worker) (tp' : ThreadPool)
      → worker_take d.tp ≡ some (w, tp')
      → Step d (record d { tp = tp' })
  work :
      (c : ℕ) (conn conn' : Connection) (result : ℤ)
      → get_elem? d.pool.connections c ≡ some conn
      → conn.state ≡ llm_queued
      → Step d (set_conn d c (record conn' { state = result_state result }))
  add :
      (c : ℕ) (tp' : ThreadPool)
      → pool_add_completion d.tp c ≡ some tp'
      → Step d (record d { tp = tp' })
  stop : Step d (record d { shutdown_requested = true; tp = pool_shutdown d.tp })

-- From the pool of connections as `conn_pool_init` leaves it, with nothing counted.
pub data Reach : Daemon → Type 0 where
  start :
      (d : Daemon) (pool : Pool)
      → pool.max_connections < 2 ^ 31
      → d.pool ≡ (conn_pool_init true pool).1
      → d.total_completed + d.total_failed ≡ 0
      → Reach d
  later : {d d' : Daemon} → Reach d → Step d d' → Reach d'

init_active : (pool : Pool) → (conn_pool_init true pool).1.active_connections ≡ 0
unfolding conn_pool_init
init_active pool = refl

pub start-IsSound :
    (d : Daemon) (pool : Pool)
    → pool.max_connections < 2 ^ 31
    → d.pool ≡ (conn_pool_init true pool).1
    → d.total_completed + d.total_failed ≡ 0
    → IsSound 0 d (indices 0 pool.max_connections)
start-IsSound d pool h e z =
    let ids = indices 0 pool.max_connections in
    let active : d.pool.active_connections ≡ 0 =
      ap (λ (p : Pool). p.active_connections) e ∙ init_active pool in
    record {
      pool = subst (λ (p : Pool). IsPool p ids) (sym e) (init-IsPool pool h);
      idle = subst (λ (p : Pool). Unused p.connections ids) (sym e) (init-Unused pool h);
      tally = λ b. omega (arith, z, active);
    }

queued_used : llm_queued ≢ unused
queued_used e = cc

step-Sound : {d d' : Daemon} → Step d d' → Sound 0 d → Sound 0 d'
step-Sound {d} (complete k cqe) s = process_cqe-Sound k d cqe s
step-Sound {d} wait s = ring-Sound (ring_submit d.ring) s
step-Sound (take w tp' e) s = tp-Sound tp' s
step-Sound (work c conn conn' result e f) s =
    set-Sound c _ s (record { conn = conn; found = e; used = λ z. queued_used (sym f ∙ z) })
step-Sound (add c tp' e) s = tp-Sound tp' s
step-Sound {d} stop (ids, s) = (ids, record { pool = s.pool; idle = s.idle; tally = s.tally })

-- In every state that can be reached, by any completions in any order, also repeated ones and ones for connections
-- that are gone, with any answers of the kernel, and with worker threads in between: the free list
-- is well formed and without repetition, every slot on it is unused, the slots and those in use
-- are all there are, and in benchmark mode the connections that were completed, have failed or are active are
-- at most those that were started. A worker changes only a connection that is queued for it.
pub Reach-Sound : {d : Daemon} → Reach d → Sound 0 d
Reach-Sound (start d pool h e z) = (indices 0 pool.max_connections, start-IsSound d pool h e z)
Reach-Sound (later r t) = step-Sound t (Reach-Sound r)
