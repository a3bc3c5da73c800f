-- ===== src/Daemon/ThreadPool/Tests.antt =====
-- pool.c with one thread and one or two connections.
use mod_socket_handoff.Base.{
  ℕ, ◌+◌, ◌≤◌, ◌≡◌, ◌≢◌, zero, suc, refl, some, List, [], ◌∷◌, get_elem?, arith,
}
use mod_socket_handoff.Base.Int.{pos}
use mod_socket_handoff.Daemon.ThreadPool.{
  waiting, asleep, processing, adding, pool_submit, pool_dequeue, worker_take,
}
use mod_socket_handoff.Daemon.ThreadPool.Queue.{Queued}
use mod_socket_handoff.Daemon.ThreadPool.Completions.{IsRing}
use mod_socket_handoff.Daemon.ThreadPool.Schedule.{
  System, nobody, submit, take, process, Reach, start, later,
}
use mod_socket_handoff.Daemon.ThreadPool.Schedule.Threads.{count, in_work}
use mod_socket_handoff.Daemon.ThreadPool.Schedule.Once.{submitted_once}
use mod_socket_handoff.Daemon.ThreadPool.Schedule.Stuck.{one-connection-stuck}

none_asleep : (i : ℕ) → get_elem? (waiting ∷ []) i ≢ some asleep
none_asleep zero e = cc
none_asleep (suc i) e = cc

-- Two submissions, of which the thread has taken, processed and handed over the first.
after_two :
    (n : ℕ)
    → (s : System) × Reach 1 n s
      × (get_elem? s.workers 0 ≡ some (adding 5))
      × (s.submitted ≡ 5 ∷ 6 ∷ [])
      × (s.delivered ≡ [])
unfolding pool_submit worker_take pool_dequeue
after_two n = (
  _,
  later
      (later
        (later (later start (submit 5 _ (nobody none_asleep))) (submit 6 _ (nobody none_asleep)))
        (take 0 (processing 5) _ refl refl))
      (process 0 5 (pos 0) refl),
  refl,
  refl,
  refl,
)

submitted_once_example :
    let s = (after_two 4).0 in
    (queue : List ℕ) × (ring : List ℕ) × Queued s.tp queue
    × IsRing s.tp ring
    × (count 5 s.submitted
        ≡ count 5 queue + in_work 5 s.workers + count 5 ring + count 5 s.delivered)
    × (count 5 s.delivered ≤ count 5 s.submitted)
submitted_once_example = submitted_once 5 (omega arith) (after_two 4).1

one-connection-stuck_example : (after_two 1).0.delivered ≡ []
one-connection-stuck_example = one-connection-stuck (after_two 1).1
