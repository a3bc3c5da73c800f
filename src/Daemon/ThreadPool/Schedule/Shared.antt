-- ===== src/Daemon/ThreadPool/Schedule/Shared.antt =====
-- pool.c: what holds of the queue, the ring, the threads and the main loop between any two steps, and that work that
-- moves on keeps it.
use mod_socket_handoff.Base.{
  ℕ, ◌+◌, ◌<◌, ◌≡◌, refl, ap, ◌∙◌, true, Option, some, none, List, [], ◌∷◌, ◌++◌, arith, length,
  get_elem?, set,
}
use mathlib.Core.Path.{subst}
use mod_socket_handoff.Daemon.ConnPool.{ConnState}
use mod_socket_handoff.Daemon.ThreadPool.{
  ThreadPool, Worker, waiting, processing, adding, finished, pool_submit, enqueue,
}
use mod_socket_handoff.Daemon.ThreadPool.Queue.{
  Queued, submit-Queued, IsTaking, waits, ends, begins,
}
use mod_socket_handoff.Daemon.ThreadPool.Completions.{
  IsRing, IsAdded, is_full, added, IsTaken, oldest, no_more,
}
use mod_socket_handoff.Daemon.ThreadPool.Schedule.{System, MainLoop, elsewhere, notified, fetching}
use mod_socket_handoff.Daemon.ThreadPool.Schedule.Threads.{
  one_if, count, in_work, in_work-set, sleeping, running, set-running,
}

pub some-inj {ℓ} : {A : Type ℓ} {a b : A} → some a ≡ some b → a ≡ b
some-inj {A} {a} {b} e = ap (λ (o : Option A). elim o [ none ↦ a | some x ↦ x ]) e

pub none-ne-some {ℓ} : {A : Type ℓ} {a : A} → none ≡ some a → ⊥
none-ne-some e = cc

pub some_not_none {ℓ} : {A : Type ℓ} {a : A} → some a ≡ none → ⊥
some_not_none e = cc

count-append : (c : ℕ) (xs ys : List ℕ) → count c (xs ++ ys) ≡ count c xs + count c ys
count-append c [] ys = omega arith
count-append c (x ∷ xs) ys = omega (arith, count-append c xs ys)

-- Whether the main loop goes through the completions, or will.
abbrev pub attends : MainLoop → ℕ
attends elsewhere = 0
attends notified = 1
attends fetching = 1

-- The main loop is told of completions, and no thread sleeps over work unless another one runs.
abbrev pub IsTold : System → List ℕ → Type 0
IsTold s ring = 0 < length ring → 0 < attends s.loop + s.tp.counter

abbrev pub IsRoused : List Worker → List ℕ → Type 0
IsRoused ws queue = 0 < length queue → 0 < sleeping ws → 0 < running ws

-- The queue and the ring are well formed, and what was submitted is there, with a thread, or delivered.
pub record IsShared (max_connections : ℕ) (s : System) (queue ring : List ℕ) : Type 0 where
  pub queued : Queued s.tp queue
  pub ringed : IsRing s.tp ring
  pub size : s.tp.completion_size ≡ max_connections
  pub told : IsTold s ring
  pub roused : IsRoused s.workers queue
  pub conserved :
      (c : ℕ)
      → count c s.submitted
        ≡ count c queue + in_work c s.workers + count c ring + count c s.delivered

abbrev pub Shared : ℕ → System → Type 0
Shared max_connections s =
    (queue : List ℕ) × (ring : List ℕ) × IsShared max_connections s queue ring

enqueue-IsRing :
    (tp : ThreadPool) (c : ℕ) (t : Option ℕ) (ring : List ℕ)
    → IsRing tp ring
    → IsRing (enqueue tp c t) ring
      × ((enqueue tp c t).completion_size ≡ tp.completion_size)
      × ((enqueue tp c t).counter ≡ tp.counter)
unfolding enqueue
enqueue-IsRing tp c none ring r = (
  record {
    head_in = r.head_in;
    tail_in = r.tail_in;
    array = r.array;
    held = r.held;
    stored = r.stored;
  },
  refl,
  refl,
)
enqueue-IsRing tp c (some t) ring r = (
  record {
    head_in = r.head_in;
    tail_in = r.tail_in;
    array = r.array;
    held = r.held;
    stored = r.stored;
  },
  refl,
  refl,
)

pub same-IsRing :
    (tp : ThreadPool) (h t : Option ℕ) (ring : List ℕ)
    → IsRing tp ring
    → IsRing (record tp { queue_head = h; queue_tail = t }) ring
same-IsRing tp h t ring r = record {
  head_in = r.head_in;
  tail_in = r.tail_in;
  array = r.array;
  held = r.held;
  stored = r.stored;
}

module _ (n : ℕ) (s : System) (queue ring : List ℕ) (v : IsShared n s queue ring) where
  pub submit-Shared :
      (c : ℕ) (f : ℕ → ConnState) (ws : List Worker)
      → ((d : ℕ) → in_work d ws ≡ in_work d s.workers)
      → (0 < sleeping ws → 0 < running ws)
      → Shared n (record s {
        tp = (pool_submit true s.tp c).1;
        workers = ws;
        state = f;
        submitted = s.submitted ++ (c ∷ []);
      })
  unfolding pool_submit
  submit-Shared c f ws u roused =
      let r = enqueue-IsRing s.tp c s.tp.queue_tail ring v.ringed in
      (
        queue ++ (c ∷ []),
        ring,
        record {
          queued = submit-Queued s.tp c queue v.queued;
          ringed = r.0;
          size = r.1 ∙ v.size;
          told = λ h. omega (arith, r.2, v.told h);
          roused = λ h k. roused k;
          conserved = λ d. omega (
            arith,
            u d,
            v.conserved d,
            count-append d queue (c ∷ []),
            count-append d s.submitted (c ∷ []),
          );
        },
      )

  pub take-Shared :
      (i : ℕ) (w : Worker) (tp' : ThreadPool) (out : Option (Worker × ThreadPool))
      → get_elem? s.workers i ≡ some waiting
      → out ≡ some (w, tp')
      → (q : List ℕ) → q ≡ queue
      → IsTaking s.tp q out
      → Shared n (record s { tp = tp'; workers = set s.workers i w })
  take-Shared i w tp' _ g e q z (waits k) = absurd (none-ne-some e)
  take-Shared i w tp' _ g e q z (ends k) =
      subst
        (λ (p : Worker × ThreadPool).
          Shared n (record s { tp = p.1; workers = set s.workers i p.0 }))
        (some-inj e)
        (
          queue,
          ring,
          record {
            queued = v.queued;
            ringed = v.ringed;
            size = v.size;
            told = v.told;
            roused = λ h k. absurd (omega (arith, h, ap (λ (xs : List ℕ). length xs) z));
            conserved =
                λ d. omega (arith, v.conserved d, in_work-set d s.workers i waiting finished g);
          },
        )
  take-Shared i w tp' _ g e q z (begins c cs h t k) =
      subst
        (λ (p : Worker × ThreadPool).
          Shared n (record s { tp = p.1; workers = set s.workers i p.0 }))
        (some-inj e)
        (
          cs,
          ring,
          record {
            queued = k;
            ringed = same-IsRing s.tp h t ring v.ringed;
            size = v.size;
            told = v.told;
            roused = λ p q'. set-running s.workers i waiting (processing c) g refl;
            conserved = λ d. omega (
              arith,
              v.conserved d,
              in_work-set d s.workers i waiting (processing c) g,
              ap (count d) z,
            );
          },
        )

  pub process-Shared :
      (i c : ℕ) (f : ℕ → ConnState)
      → get_elem? s.workers i ≡ some (processing c)
      → Shared n (record s { workers = set s.workers i (adding c); state = f })
  process-Shared i c f g = (
    queue,
    ring,
    record {
      queued = v.queued;
      ringed = v.ringed;
      size = v.size;
      told = v.told;
      roused = λ p q'. set-running s.workers i (processing c) (adding c) g refl;
      conserved =
          λ d. omega (arith, v.conserved d, in_work-set d s.workers i (processing c) (adding c) g);
    },
  )

  pub add-Shared :
      (i c : ℕ) (tp' : ThreadPool) (out : Option ThreadPool)
      → get_elem? s.workers i ≡ some (adding c)
      → out ≡ some tp'
      → IsAdded s.tp c ring out
      → Shared n (record s { tp = tp'; workers = set s.workers i waiting })
  add-Shared i c tp' _ g e (is_full k) = absurd (none-ne-some e)
  add-Shared i c tp' _ g e (added store t l r) =
      subst (λ (p : ThreadPool). Shared n (record s { tp = p; workers = set s.workers i waiting }))
        (some-inj e)
        (
          queue,
          ring ++ (c ∷ []),
          record {
            queued = v.queued;
            ringed = r;
            size = v.size;
            told = λ h. omega arith;
            roused = λ p q'. set-running s.workers i (adding c) waiting g refl;
            conserved = λ d. omega (
              arith,
              v.conserved d,
              in_work-set d s.workers i (adding c) waiting g,
              count-append d ring (c ∷ []),
            );
          },
        )

  pub deliver-Shared :
      (c : ℕ) (tp' : ThreadPool) (out : Option ℕ × ThreadPool)
      → s.loop ≡ fetching
      → out ≡ (some c, tp')
      → (rs : List ℕ) → rs ≡ ring
      → IsTaken s.tp rs out
      → Shared n (record s { tp = tp'; delivered = s.delivered ++ (c ∷ []) })
  deliver-Shared c tp' _ l e rs z no_more =
      absurd (none-ne-some (ap (λ (p : Option ℕ × ThreadPool). p.0) e))
  deliver-Shared c tp' _ l e rs z (oldest c' cs h r) =
      let same : c' ≡ c = some-inj (ap (λ (p : Option ℕ × ThreadPool). p.0) e) in
      subst
        (λ (p : ThreadPool). Shared n (record s { tp = p; delivered = s.delivered ++ (c ∷ []) }))
        (ap (λ (p : Option ℕ × ThreadPool). p.1) e)
        (
          queue,
          cs,
          record {
            queued = v.queued;
            ringed = r;
            size = v.size;
            told = λ h. omega (arith, ap attends l);
            roused = v.roused;
            conserved = λ d. omega (
              arith,
              v.conserved d,
              count-append d s.delivered (c ∷ []),
              ap (count d) z,
              ap (one_if d) same,
            );
          },
        )
