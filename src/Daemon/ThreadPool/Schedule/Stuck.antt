-- ===== src/Daemon/ThreadPool/Schedule/Stuck.antt =====
-- pool.c: a pool for one connection.
use mod_socket_handoff.Base.{ℕ, ◌≡◌, refl, ap, Option, some, List, [], arith, length}
use mod_socket_handoff.Daemon.ThreadPool.{ThreadPool, pool_get_completion}
use mod_socket_handoff.Daemon.ThreadPool.Completions.{IsRing, IsTaken, oldest, no_more, get-IsTaken}
use mod_socket_handoff.Daemon.ThreadPool.Schedule.{
  System, Step, submit, take, sleep, wake_up, notify, handle, rest, process, add, deliver, stop,
  Reach, start, later,
}
use mod_socket_handoff.Daemon.ThreadPool.Schedule.Shared.{none-ne-some, Shared}
use mod_socket_handoff.Daemon.ThreadPool.Schedule.Kept.{Reach-Shared}

empty_ring :
    (n : ℕ) (s : System) (ring : List ℕ)
    → IsRing s.tp ring
    → s.tp.completion_size ≡ 1
    → length ring ≡ 0
empty_ring n s ring r e = ground (arith, r.held, r.head_in, r.tail_in)

no_delivery : {s t : System} → Shared 1 s → Step s t → s.delivered ≡ [] → t.delivered ≡ []
no_delivery v (submit c ws g) d = d
no_delivery v (sleep i g e) d = d
no_delivery v (wake_up i g) d = d
no_delivery v (notify l h) d = d
no_delivery v (handle l) d = d
no_delivery v (rest tp' l e) d = d
no_delivery v (take i w tp' g e) d = d
no_delivery v (process i c result g) d = d
no_delivery v (add i c tp' g e) d = d
no_delivery {s} (q, r, v) (deliver c tp' l e) d = absurd (
    nothing_taken (pool_get_completion s.tp) r e (empty_ring 1 s r v.ringed v.size)
      (get-IsTaken s.tp r v.ringed))
  where
    nothing_taken :
        (out : Option ℕ × ThreadPool) (rs : List ℕ)
        → out ≡ (some c, tp')
        → length rs ≡ 0
        → IsTaken s.tp rs out
        → ⊥
    nothing_taken _ _ f l no_more = none-ne-some (ap (λ (p : Option ℕ × ThreadPool). p.0) f)
    nothing_taken _ _ f l (oldest c' cs h k) = omega arith
no_delivery v stop d = d

-- A pool for one connection never delivers: its ring has one place, which is always the one that is
-- left free, so that a thread waits for room for ever, whatever the number of threads.
pub one-connection-stuck : {threads : ℕ} {s : System} → Reach threads 1 s → s.delivered ≡ []
one-connection-stuck start = refl
one-connection-stuck (later r st) =
    no_delivery (Reach-Shared (omega arith) r) st (one-connection-stuck r)
