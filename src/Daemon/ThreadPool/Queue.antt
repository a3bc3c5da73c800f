-- ===== src/Daemon/ThreadPool/Queue.antt =====
-- pool.c: the linked work queue is a list of connections, taken in the order of submission.
use mod_socket_handoff.Base.{
  ℕ, ◌≤◌, ◌<◌, ◌≡◌, refl, sym, ap, ◌∙◌, true, false, Option, some, none, List, [], ◌∷◌, ◌++◌, arith,
  length, get_elem?, set, get_elem?-set_ne, get_elem?-set, length-set, get_elem?-append,
  get_elem?-last, lt-get_elem?, Bool-cases, inl, inr,
}
use mod_socket_handoff.Daemon.ThreadPool.{
  Work, ThreadPool, link_to, new_work, enqueue, pool_submit, pool_dequeue, take_work, find_work,
  Worker, processing, finished, begin, worker_take,
}

-- From the first item on along `next` to the last. Items are allocated in the order of the queue.
pub data IsQueue (works : List Work) : Option ℕ → Option ℕ → List ℕ → Type 0 where
  empty : IsQueue works none none []
  last :
      (a : ℕ) (w : Work)
      → get_elem? works a ≡ some w
      → w.next ≡ none
      → IsQueue works (some a) (some a) (w.conn ∷ [])
  before :
      (a b t : ℕ) (w : Work) (cs : List ℕ)
      → get_elem? works a ≡ some w
      → w.next ≡ some b
      → a < b
      → IsQueue works (some b) (some t) cs
      → IsQueue works (some a) (some t) (w.conn ∷ cs)

tail_le : {works : List Work} {a t : ℕ} {cs : List ℕ} → IsQueue works (some a) (some t) cs → a ≤ t
tail_le (last a w e n) = omega arith
tail_le (before a b t w cs e n l q) = omega (arith, tail_le q)

-- A change behind the queue, and one at its end.
link_to-eq :
    (works : List Work) (t a : ℕ) (w : Work)
    → get_elem? works t ≡ some w
    → link_to works t a ≡ set works t (record w { next = some a })
link_to-eq works t a w e = rw (link_to, e) refl

module _ (works : List Work) (c t : ℕ) (v : Work) (e : get_elem? works t ≡ some v) where
  next_works : List Work
  next_works = set works t (record v { next = some (length works) }) ++ (new_work c ∷ [])

  kept_entry :
      (a : ℕ) (w : Work) → a < t → get_elem? works a ≡ some w → get_elem? next_works a ≡ some w
  unfolding next_works
  kept_entry a w h f =
      get_elem?-append (set works t (record v { next = some (length works) })) (new_work c ∷ []) a (
        omega (
          arith,
          lt-get_elem? works a w f,
          length-set works t (record v { next = some (length works) }),
        ))
      ∙ get_elem?-set_ne works a t (record v { next = some (length works) }) (λ z. omega arith)
      ∙ f

  last_entry : get_elem? next_works (length works) ≡ some (new_work c)
  unfolding next_works
  last_entry =
      let u : Work = record v { next = some (length works) } in
      ap (get_elem? (set works t u ++ (new_work c ∷ []))) (sym (length-set works t u))
      ∙ get_elem?-last (set works t u) (new_work c)

  tail_entry : get_elem? next_works t ≡ some (record v { next = some (length works) })
  unfolding next_works
  tail_entry =
      let u : Work = record v { next = some (length works) } in
      get_elem?-append (set works t u) (new_work c ∷ []) t
        (omega (arith, lt-get_elem? works t v e, length-set works t u))
      ∙ get_elem?-set works t u (lt-get_elem? works t v e)

  append-IsQueue :
      {h : ℕ} {cs : List ℕ}
      → IsQueue works (some h) (some t) cs
      → IsQueue next_works (some h) (some (length works)) (cs ++ (c ∷ []))
  append-IsQueue (last a w f n) =
      let z : w.conn ≡ v.conn =
        ap (λ (o : Option Work). elim o [ none ↦ 0 | some u ↦ u.conn ]) {x = some w} {y = some v}
          (sym f ∙ e) in
      rw z (
        before t (length works) (length works) (record v { next = some (length works) }) (c ∷ [])
          tail_entry refl (lt-get_elem? works t v e)
          (last (length works) (new_work c) last_entry refl))
  append-IsQueue (before a b t w cs f n l q) =
      before a b (length works) w (cs ++ (c ∷ [])) (kept_entry a w (omega (arith, tail_le q)) f) n l
        (append-IsQueue q)

tail_found :
    {works : List Work} {h : Option ℕ} {t : ℕ} {cs : List ℕ}
    → IsQueue works h (some t) cs
    → (v : Work) × (get_elem? works t ≡ some v)
tail_found (last a w e n) = (w, e)
tail_found (before a b t w cs e n l q) = tail_found q

-- The queue of a pool.
abbrev pub Queued : ThreadPool → List ℕ → Type 0
Queued tp cs = IsQueue tp.works tp.queue_head tp.queue_tail cs

enqueue-IsQueue :
    (tp : ThreadPool) (c : ℕ) (h t : Option ℕ) (cs : List ℕ)
    → IsQueue tp.works h t cs
    → Queued (enqueue (record tp { queue_head = h; queue_tail = t }) c t) (cs ++ (c ∷ []))
unfolding enqueue next_works
enqueue-IsQueue tp c _ _ _ empty =
    last (length tp.works) (new_work c) (get_elem?-last tp.works (new_work c)) refl
enqueue-IsQueue tp c (some h) (some t) cs q =
    let (v, e) = tail_found q in
    rw (link_to-eq tp.works t (length tp.works) v e) (append-IsQueue tp.works c t v e q)

-- An item that is submitted goes to the end.
pub submit-Queued :
    (tp : ThreadPool) (c : ℕ) (cs : List ℕ)
    → Queued tp cs
    → Queued (pool_submit true tp c).1 (cs ++ (c ∷ []))
unfolding pool_submit
submit-Queued tp c cs q = enqueue-IsQueue tp c tp.queue_head tp.queue_tail cs q

-- The first item leaves the queue, and nothing else changes.
pub data IsDequeue (tp : ThreadPool) : List ℕ → Option ℕ × ThreadPool → Type 0 where
  nothing : IsDequeue tp [] (none, tp)
  first :
      (c : ℕ) (cs : List ℕ) (h t : Option ℕ)
      → IsQueue tp.works h t cs
      → IsDequeue tp (c ∷ cs) (some c, record tp { queue_head = h; queue_tail = t })

take-IsDequeue :
    (tp : ThreadPool) (h t : Option ℕ) (cs : List ℕ)
    → tp.queue_tail ≡ t
    → IsQueue tp.works h t cs
    → IsDequeue tp cs (take_work tp (find_work tp.works h))
unfolding take_work
take-IsDequeue tp _ _ _ f empty = nothing
take-IsDequeue tp _ _ _ f (last a w e n) = rw e (simp n (first w.conn [] none none empty))
take-IsDequeue tp _ _ _ f (before a b t w cs e n l q) =
    rw e (simp (n, f) (first w.conn cs (some b) (some t) q))

pub dequeue-IsDequeue :
    (tp : ThreadPool) (cs : List ℕ) → Queued tp cs → IsDequeue tp cs (pool_dequeue tp)
unfolding pool_dequeue
dequeue-IsDequeue tp cs q = take-IsDequeue tp tp.queue_head tp.queue_tail cs refl q

-- A thread takes the first item; without any it ends after a shutdown, or waits.
pub data IsTaking (tp : ThreadPool) : List ℕ → Option (Worker × ThreadPool) → Type 0 where
  waits : tp.shutdown ≡ false → IsTaking tp [] none
  ends : tp.shutdown ≡ true → IsTaking tp [] (some (finished, tp))
  begins :
      (c : ℕ) (cs : List ℕ) (h t : Option ℕ)
      → IsQueue tp.works h t cs
      → IsTaking tp (c ∷ cs) (some (processing c, record tp { queue_head = h; queue_tail = t }))

begin_empty : (tp : ThreadPool) (out : Option ℕ × ThreadPool) → IsTaking tp [] (begin tp out none)
unfolding begin
begin_empty tp out = elim (Bool-cases tp.shutdown) [
  | inl e ↦ simp e (ends e)
  | inr e ↦ simp e (waits e)
]

begin-IsTaking :
    (tp : ThreadPool) (h t : Option ℕ) (cs : List ℕ) (out : Option ℕ × ThreadPool)
    → IsQueue tp.works h t cs
    → IsDequeue tp cs out
    → IsTaking tp cs (begin tp out h)
unfolding begin
begin-IsTaking tp _ _ _ out empty d = begin_empty tp out
begin-IsTaking tp _ _ _ _ (last a w e n) (first c cs h t q) = begins c cs h t q
begin-IsTaking tp _ _ _ _ (before a b t' w cs' e n l q') (first c cs h t q) = begins c cs h t q

pub take-IsTaking : (tp : ThreadPool) (cs : List ℕ) → Queued tp cs → IsTaking tp cs (worker_take tp)
unfolding worker_take
take-IsTaking tp cs q =
    begin-IsTaking tp tp.queue_head tp.queue_tail cs (pool_dequeue tp) q (dequeue-IsDequeue tp cs q)
