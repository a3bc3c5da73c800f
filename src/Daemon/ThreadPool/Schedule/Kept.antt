-- ===== src/Daemon/ThreadPool/Schedule/Kept.antt =====
-- pool.c: every step keeps what holds of the pool.
use mod_socket_handoff.Base.{
  ℕ, ◌+◌, ◌<◌, ◌≡◌, refl, ap, Bool, true, Option, some, none, List, [], arith, length, get_elem?,
  set, length-replicate,
}
use mathlib.Core.Path.{subst}
use mod_socket_handoff.Daemon.ConnPool.{llm_queued}
use mod_socket_handoff.Daemon.ThreadPool.{
  ThreadPool, Worker, waiting, asleep, pool_get_completion, pool_add_completion, pool_shutdown,
  worker_take, result_state,
}
use mod_socket_handoff.Daemon.ThreadPool.Queue.{empty, IsTaking, waits, ends, begins, take-IsTaking}
use mod_socket_handoff.Daemon.ThreadPool.Completions.{
  add-IsAdded, IsTaken, oldest, no_more, get-IsTaken,
}
use mod_socket_handoff.Daemon.ThreadPool.Schedule.{
  update, System, Step, submit, take, sleep, wake_up, process, add, notify, handle, deliver, rest,
  stop, Reach, start, later, start_with, MainLoop, elsewhere, notified, fetching, wake_all,
}
use mod_socket_handoff.Daemon.ThreadPool.Schedule.Threads.{
  in_work, in_work-replicate, set-running, signalled-running, sleeping-wake_all, in_work-signalled,
  in_work-wake_all, in_work-idle,
}
use mod_socket_handoff.Daemon.ThreadPool.Schedule.Shared.{
  some_not_none, attends, IsRoused, IsShared, Shared, submit-Shared, take-Shared, process-Shared,
  add-Shared, deliver-Shared,
}

rest-Shared :
    (n : ℕ) (s : System) (queue ring : List ℕ)
    → IsShared n s queue ring
    → (tp' : ThreadPool) (out : Option ℕ × ThreadPool) → out ≡ (none, tp')
    → (rs : List ℕ) → rs ≡ ring
    → IsTaken s.tp rs out
    → Shared n (record s { tp = tp'; loop = elsewhere })
rest-Shared n s queue ring v tp' _ e rs z no_more =
    subst (λ (p : ThreadPool). Shared n (record s { tp = p; loop = elsewhere }))
      (ap (λ (p : Option ℕ × ThreadPool). p.1) e)
      (
        queue,
        ring,
        record {
          queued = v.queued;
          ringed = v.ringed;
          size = v.size;
          told = λ h. absurd (omega (arith, h, ap (λ (xs : List ℕ). length xs) z));
          roused = v.roused;
          conserved = v.conserved;
        },
      )
rest-Shared n s queue ring v tp' _ e rs z (oldest c' cs h r) =
    absurd (some_not_none (ap (λ (p : Option ℕ × ThreadPool). p.0) e))

-- The same connections in work, and the same pool but for the counter and the flag.
same-IsShared :
    (n counter : ℕ) (shutdown : Bool) (s : System) (loop : MainLoop) (ws : List Worker)
    (queue ring : List ℕ)
    → ((d : ℕ) → in_work d ws ≡ in_work d s.workers)
    → (0 < length ring → 0 < attends loop + counter)
    → IsRoused ws queue
    → IsShared n s queue ring
    → IsShared n
        (record s {
          tp = record s.tp { counter = counter; shutdown = shutdown };
          loop = loop;
          workers = ws;
        })
        queue
        ring
same-IsShared n counter shutdown s loop ws queue ring u told roused v = record {
  queued = v.queued;
  ringed = record {
    head_in = v.ringed.head_in;
    tail_in = v.ringed.tail_in;
    array = v.ringed.array;
    held = v.ringed.held;
    stored = v.ringed.stored;
  };
  size = v.size;
  told = told;
  roused = roused;
  conserved = λ d. omega (arith, u d, v.conserved d);
}

sleep-Shared :
    (n : ℕ) (s : System) (queue ring : List ℕ)
    → IsShared n s queue ring
    → (i : ℕ) (out : Option (Worker × ThreadPool)) → get_elem? s.workers i ≡ some waiting
    → out ≡ none
    → (q : List ℕ) → q ≡ queue
    → IsTaking s.tp q out
    → Shared n (record s { workers = set s.workers i asleep })
sleep-Shared n s queue ring v i _ g e q z (waits k) = (
  queue,
  ring,
  same-IsShared n s.tp.counter s.tp.shutdown s s.loop (set s.workers i asleep) queue ring
      (in_work-idle s.workers i waiting asleep g (λ d. refl)) v.told
      (λ h l. absurd (omega (arith, h, ap (λ (xs : List ℕ). length xs) z))) v,
)
sleep-Shared n s queue ring v i _ g e q z (ends k) = absurd (some_not_none e)
sleep-Shared n s queue ring v i _ g e q z (begins c cs h t k) = absurd (some_not_none e)

Step-Shared : {n : ℕ} {s t : System} → Step s t → Shared n s → Shared n t
unfolding pool_shutdown
Step-Shared {n} {s} (submit c ws g) (q, r, v) =
    submit-Shared n s q r v c (update s.state c llm_queued) ws (in_work-signalled g)
      (signalled-running g)
Step-Shared {n} {s} (take i w tp' g e) (q, r, v) =
    take-Shared n s q r v i w tp' (worker_take s.tp) g e q refl (take-IsTaking s.tp q v.queued)
Step-Shared {n} {s} (sleep i g e) (q, r, v) =
    sleep-Shared n s q r v i (worker_take s.tp) g e q refl (take-IsTaking s.tp q v.queued)
Step-Shared {n} {s} (wake_up i g) (q, r, v) = (
  q,
  r,
  same-IsShared n s.tp.counter s.tp.shutdown s s.loop (set s.workers i waiting) q r
      (in_work-idle s.workers i asleep waiting g (λ d. refl)) v.told
      (λ h k. set-running s.workers i asleep waiting g refl) v,
)
Step-Shared {n} {s} (process i c result g) (q, r, v) =
    process-Shared n s q r v i c (update s.state c (result_state result)) g
Step-Shared {n} {s} (add i c tp' g e) (q, r, v) =
    add-Shared n s q r v i c tp' (pool_add_completion s.tp c) g e (add-IsAdded s.tp c r v.ringed)
Step-Shared {n} {s} (notify l h) (q, r, v) = (
  q,
  r,
  same-IsShared n 0 s.tp.shutdown s notified s.workers q r (λ d. refl) (λ k. omega arith) v.roused
      v,
)
Step-Shared {n} {s} (handle l) (q, r, v) = (
  q,
  r,
  same-IsShared n 0 s.tp.shutdown s fetching s.workers q r (λ d. refl) (λ k. omega arith) v.roused
      v,
)
Step-Shared {n} {s} (deliver c tp' l e) (q, r, v) =
    deliver-Shared n s q r v c tp' (pool_get_completion s.tp) l e r refl
      (get-IsTaken s.tp r v.ringed)
Step-Shared {n} {s} (rest tp' l e) (q, r, v) =
    rest-Shared n s q r v tp' (pool_get_completion s.tp) e r refl (get-IsTaken s.tp r v.ringed)
Step-Shared {n} {s} stop (q, r, v) = (
  q,
  r,
  same-IsShared n s.tp.counter true s s.loop (wake_all s.workers) q r (in_work-wake_all s.workers)
      v.told (λ h k. absurd (omega (arith, sleeping-wake_all s.workers))) v,
)

start-Shared : (threads n : ℕ) → 0 < n → Shared n (start_with threads n)
start-Shared threads n h = (
  [],
  [],
  record {
    queued = empty;
    ringed = record {
      head_in = h;
      tail_in = h;
      array = length-replicate n 0;
      held = refl;
      stored = tt;
    };
    size = refl;
    told = λ k. absurd (omega arith);
    roused = λ k l. absurd (omega arith);
    conserved = λ c. omega (arith, in_work-replicate c threads);
  },
)

pub Reach-Shared : {threads n : ℕ} {s : System} → 0 < n → Reach threads n s → Shared n s
Reach-Shared {threads} {n} h start = start-Shared threads n h
Reach-Shared h (later r st) = Step-Shared st (Reach-Shared h r)
