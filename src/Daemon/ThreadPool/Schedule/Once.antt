-- ===== src/Daemon/ThreadPool/Schedule/Once.antt =====
-- pool.c: each submission is in one place, until it is delivered.
use mod_socket_handoff.Base.{ℕ, ◌+◌, ◌≤◌, ◌<◌, ◌≡◌, List, arith}
use mod_socket_handoff.Daemon.ThreadPool.Queue.{Queued}
use mod_socket_handoff.Daemon.ThreadPool.Completions.{IsRing}
use mod_socket_handoff.Daemon.ThreadPool.Schedule.{System, Reach}
use mod_socket_handoff.Daemon.ThreadPool.Schedule.Threads.{count, in_work}
use mod_socket_handoff.Daemon.ThreadPool.Schedule.Kept.{Reach-Shared}

-- Whatever the order in which the main loop and the threads run, no submission is lost or doubled: for
-- each connection the times it was submitted are the times it is in the work queue, with a
-- thread, in the ring of completions, or has been delivered. So it is delivered at most as often
-- as it was submitted.
pub submitted_once :
    {threads n : ℕ} {s : System} (c : ℕ)
    → 0 < n
    → Reach threads n s
    → (queue : List ℕ) × (ring : List ℕ) × Queued s.tp queue
      × IsRing s.tp ring
      × (count c s.submitted
          ≡ count c queue + in_work c s.workers + count c ring + count c s.delivered)
      × (count c s.delivered ≤ count c s.submitted)
submitted_once c h r =
    let (queue, ring, v) = Reach-Shared h r in
    (queue, ring, v.queued, v.ringed, v.conserved c, omega (arith, v.conserved c))
