-- ===== src/Daemon/ThreadPool/Schedule/Progress.antt =====
-- pool.c: the pool does not come to a stop with work left.
use mod_socket_handoff.Base.{ℕ, ◌<◌, ◌≡◌, some, get_elem?}
use mod_socket_handoff.Base.Int.{pos}
use mod_socket_handoff.Daemon.ThreadPool.{
  ThreadPool, Worker, waiting, processing, adding, pool_get_completion, pool_add_completion,
  worker_take,
}
use mod_socket_handoff.Daemon.ThreadPool.Schedule.{
  System, Step, take, process, add, notify, handle, deliver, elsewhere, notified, fetching,
}

-- The steps that move a connection on, and not those that bring work or end it.
pub data Advances (s : System) : (t : System) → Step s t → Type 0 where
  by_take :
      (i : ℕ) (w : Worker) (tp' : ThreadPool) (g : get_elem? s.workers i ≡ some waiting)
      (e : worker_take s.tp ≡ some (w, tp'))
      → Advances s _ (take i w tp' g e)
  by_process :
      (i c : ℕ) (g : get_elem? s.workers i ≡ some (processing c))
      → Advances s _ (process i c (pos 0) g)
  by_add :
      (i c : ℕ) (tp' : ThreadPool) (g : get_elem? s.workers i ≡ some (adding c))
      (e : pool_add_completion s.tp c ≡ some tp')
      → Advances s _ (add i c tp' g e)
  by_deliver :
      (c : ℕ) (tp' : ThreadPool) (l : s.loop ≡ fetching)
      (e : pool_get_completion s.tp ≡ (some c, tp'))
      → Advances s _ (deliver c tp' l e)
  by_notify : (l : s.loop ≡ elsewhere) (h : 0 < s.tp.counter) → Advances s _ (notify l h)
  by_handle : (l : s.loop ≡ notified) → Advances s _ (handle l)

abbrev pub CanAdvance : System → Type 0
CanAdvance s = (t : System) × (st : Step s t) × Advances s t st
