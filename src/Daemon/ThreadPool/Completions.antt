-- ===== src/Daemon/ThreadPool/Completions.antt =====
-- pool.c: the ring of completions is a queue of at most `completion_size - 1` connections.
use mod_socket_handoff.Base.{
  ℕ, suc, ◌+◌, ◌-◌, ◌%◌, ◌≤◌, ◌<◌, ◌≡◌, ◌≢◌, ap, ◌∙◌, true, Option, some, none, List, [], ◌∷◌, ◌++◌,
  arith, length, get_elem?, set, get_elem?-set_ne, get_elem?-set, length-set, length-append, ltb,
  ◌==◌, if◌then◌else◌, Bool-cases, inl, inr, ne→==,
}
use mod_socket_handoff.Daemon.ThreadPool.{ThreadPool, pool_get_completion, pool_add_completion}

-- The places from `i` to `j`, going up and around.
abbrev distance : ℕ → ℕ → ℕ → ℕ
distance size i j = if ltb j i then j + size - i else j - i

abbrev next_place : ℕ → ℕ → ℕ
next_place size i = (i + 1) % size

next-eq : (size i : ℕ) → i < size → next_place size i ≡ (if i + 1 == size then 0 else i + 1)
next-eq size i h = elim (Bool-cases (i + 1 == size)) [
  | inl e ↦ rw e (let z : i + 1 ≡ size = ground arith in rw z (grind arith))
  | inr e ↦ rw e (grind arith)
]

distance-next :
    (size i j : ℕ)
    → i < size
    → j < size
    → i ≢ j
    → distance size i j ≡ suc (distance size (next_place size i) j)
distance-next size i j h k n = rw (next-eq size i h) (ground arith)

-- The entries from place `i` on.
abbrev Stored : List ℕ → ℕ → ℕ → List ℕ → Type 0
Stored ring size i [] = Unit
Stored ring size i (c ∷ cs) = (get_elem? ring i ≡ some c) × Stored ring size (next_place size i) cs

next-lt : (size i : ℕ) → i < size → next_place size i < size
next-lt size i h = omega arith

distance-full :
    (size i j : ℕ) → i < size → j < size → next_place size j ≡ i → size ≡ suc (distance size i j)
distance-full size i j h k e = let n = next-eq size j k in ground arith

distance-grow :
    (size i j : ℕ)
    → i < size
    → j < size
    → next_place size j ≢ i
    → (distance size i (next_place size j) ≡ suc (distance size i j))
      × (suc (distance size i j) < size)
distance-grow size i j h k n =
    let e = next-eq size j k in
    (
      rw e (let m : (if j + 1 == size then 0 else j + 1) ≢ i = λ z. n (e ∙ z) in ground arith),
      let m : (if j + 1 == size then 0 else j + 1) ≢ i = λ z. n (e ∙ z) in ground arith,
    )

Stored-set :
    (ring : List ℕ) (size i p v : ℕ) (cs : List ℕ)
    → i < size
    → p < size
    → length cs ≤ distance size i p
    → Stored ring size i cs
    → Stored (set ring p v) size i cs
Stored-set ring size i p v [] h k l s = tt
Stored-set ring size i p v (c ∷ cs) h k l s =
    let n : i ≢ p = λ e. ground arith in
    (
      get_elem?-set_ne ring i p v n ∙ s.0,
      Stored-set ring size (next_place size i) p v cs (next-lt size i h) k
          (omega (arith, distance-next size i p h k n)) s.1,
    )

Stored-append :
    (ring : List ℕ) (size i p v : ℕ) (cs : List ℕ)
    → i < size
    → p < size
    → length ring ≡ size
    → distance size i p ≡ length cs
    → Stored ring size i cs
    → Stored (set ring p v) size i (cs ++ (v ∷ []))
Stored-append ring size i p v [] h k r l s =
    let e : i ≡ p = ground arith in
    (ap (get_elem? (set ring p v)) e ∙ get_elem?-set ring p v (omega (arith, r, k)), tt)
Stored-append ring size i p v (c ∷ cs) h k r l s =
    let n : i ≢ p = λ e. ground arith in
    (
      get_elem?-set_ne ring i p v n ∙ s.0,
      Stored-append ring size (next_place size i) p v cs (next-lt size i h) k r
          (omega (arith, distance-next size i p h k n, l)) s.1,
    )

-- The ring holds these completions, the oldest one first.
pub record IsRing (tp : ThreadPool) (cs : List ℕ) : Type 0 where
  pub head_in : tp.completion_head < tp.completion_size
  pub tail_in : tp.completion_tail < tp.completion_size
  pub array : length tp.completions ≡ tp.completion_size
  pub held : distance tp.completion_size tp.completion_head tp.completion_tail ≡ length cs
  pub stored : Stored tp.completions tp.completion_size tp.completion_head cs

-- A completion goes to the end, unless only one place is left.
pub data IsAdded (tp : ThreadPool) (c : ℕ) (cs : List ℕ) : Option ThreadPool → Type 0 where
  is_full : tp.completion_size ≡ suc (length cs) → IsAdded tp c cs none
  added :
      (ring : List ℕ) (t : ℕ)
      → suc (length cs) < tp.completion_size
      → IsRing
          (record tp { completions = ring; completion_tail = t; counter = tp.counter + 1 })
          (cs ++ (c ∷ []))
      → IsAdded tp c cs
          (some (record tp { completions = ring; completion_tail = t; counter = tp.counter + 1 }))

pub add-IsAdded :
    (tp : ThreadPool) (c : ℕ) (cs : List ℕ)
    → IsRing tp cs
    → IsAdded tp c cs (pool_add_completion tp c)
unfolding pool_add_completion
add-IsAdded tp c cs r =
    let size = tp.completion_size in
    elim (Bool-cases (next_place size tp.completion_tail == tp.completion_head)) [
      | inl e ↦ rw e (
          is_full (
            distance-full size tp.completion_head tp.completion_tail r.head_in r.tail_in
              (ground arith)
            ∙ ap suc r.held))
      | inr e ↦
          let d =
            distance-grow size tp.completion_head tp.completion_tail r.head_in r.tail_in
              (ground arith) in
          rw e (
            added (set tp.completions tp.completion_tail c) (next_place size tp.completion_tail)
              (omega (arith, d.1, r.held))
              (record {
                head_in = r.head_in;
                tail_in = next-lt size tp.completion_tail r.tail_in;
                array = length-set tp.completions tp.completion_tail c ∙ r.array;
                held = omega (arith, d.0, r.held, length-append cs (c ∷ []));
                stored =
                    Stored-append tp.completions size tp.completion_head tp.completion_tail c cs
                      r.head_in r.tail_in r.array r.held r.stored;
              }))
    ]

-- The oldest completion leaves the ring.
pub data IsTaken (tp : ThreadPool) : List ℕ → Option ℕ × ThreadPool → Type 0 where
  no_more : IsTaken tp [] (none, tp)
  oldest :
      (c : ℕ) (cs : List ℕ) (h : ℕ)
      → IsRing (record tp { completion_head = h }) cs
      → IsTaken tp (c ∷ cs) (some c, record tp { completion_head = h })

pub get-IsTaken :
    (tp : ThreadPool) (cs : List ℕ) → IsRing tp cs → IsTaken tp cs (pool_get_completion tp)
unfolding pool_get_completion
get-IsTaken tp [] r =
    let e : (tp.completion_head == tp.completion_tail) ≡ true = ground (arith, r.held) in
    rw e no_more
get-IsTaken tp (c ∷ cs) r =
    let n : tp.completion_head ≢ tp.completion_tail = λ e. ground (arith, r.held) in
    let d =
      distance-next tp.completion_size tp.completion_head tp.completion_tail r.head_in r.tail_in
        n in
    rw (ne→== tp.completion_head tp.completion_tail n, r.stored.0)
      (oldest c cs (next_place tp.completion_size tp.completion_head) (record {
        head_in = next-lt tp.completion_size tp.completion_head r.head_in;
        tail_in = r.tail_in;
        array = r.array;
        held = omega (arith, d, r.held);
        stored = r.stored.1;
      }))
