-- ===== src/Daemon/ThreadPool/Schedule/Threads.antt =====
-- pool.c: how many threads have a connection, sleep and run.
use mod_socket_handoff.Base.{
  ℕ, zero, suc, ◌+◌, ◌<◌, ◌≡◌, refl, ap, Option, some, none, List, [], ◌∷◌, arith, ◌≢◌, get_elem?,
  set, replicate, ◌==◌, if◌then◌else◌,
}
use mod_socket_handoff.Daemon.ThreadPool.{Worker, waiting, asleep, processing, adding, finished}
use mod_socket_handoff.Daemon.ThreadPool.Schedule.{IsSignalled, wakes, nobody, wake_all}

abbrev pub one_if : ℕ → ℕ → ℕ
one_if c d = if d == c then 1 else 0

abbrev pub count : ℕ → List ℕ → ℕ
count c [] = 0
count c (d ∷ ds) = one_if c d + count c ds

-- Whether the thread has the connection, and how many have it.
abbrev pub busy : ℕ → Worker → ℕ
busy c waiting = 0
busy c asleep = 0
busy c (processing d) = one_if c d
busy c (adding d) = one_if c d
busy c finished = 0

abbrev pub in_work : ℕ → List Worker → ℕ
in_work c [] = 0
in_work c (w ∷ ws) = busy c w + in_work c ws

pub in_work-set :
    (c : ℕ) (ws : List Worker) (i : ℕ) (w v : Worker)
    → get_elem? ws i ≡ some w
    → in_work c (set ws i v) + busy c w ≡ in_work c ws + busy c v
in_work-set c [] i w v e = cc
in_work-set c (u ∷ ws) zero w v e =
    let z : busy c u ≡ busy c w =
      ap (λ (o : Option Worker). elim o [ none ↦ 0 | some x ↦ busy c x ]) {x = some u} {y = some w}
        e in
    omega arith
in_work-set c (u ∷ ws) (suc i) w v e = omega (arith, in_work-set c ws i w v e)

pub in_work-replicate : (c n : ℕ) → in_work c (replicate n waiting) ≡ 0
in_work-replicate c zero = refl
in_work-replicate c (suc n) = omega (arith, in_work-replicate c n)

-- How many threads sleep, and how many run.
abbrev pub sleeps : Worker → ℕ
sleeps asleep = 1
sleeps _ = 0

abbrev pub runs : Worker → ℕ
runs waiting = 1
runs (processing c) = 1
runs (adding c) = 1
runs _ = 0

abbrev pub sleeping : List Worker → ℕ
sleeping [] = 0
sleeping (w ∷ ws) = sleeps w + sleeping ws

abbrev pub running : List Worker → ℕ
running [] = 0
running (w ∷ ws) = runs w + running ws

pub set-running :
    (ws : List Worker) (i : ℕ) (w v : Worker)
    → get_elem? ws i ≡ some w
    → runs v ≡ 1
    → 0 < running (set ws i v)
set-running [] i w v g e = cc
set-running (u ∷ ws) zero w v g e = omega arith
set-running (u ∷ ws) (suc i) w v g e = omega (arith, set-running ws i w v g e)

pub none-sleeping : (ws : List Worker) → ((i : ℕ) → get_elem? ws i ≢ some asleep) → sleeping ws ≡ 0
none-sleeping [] h = refl
none-sleeping (waiting ∷ ws) h = omega (arith, none-sleeping ws (λ i. h (suc i)))
none-sleeping (asleep ∷ ws) h = absurd (h 0 refl)
none-sleeping (processing c ∷ ws) h = omega (arith, none-sleeping ws (λ i. h (suc i)))
none-sleeping (adding c ∷ ws) h = omega (arith, none-sleeping ws (λ i. h (suc i)))
none-sleeping (finished ∷ ws) h = omega (arith, none-sleeping ws (λ i. h (suc i)))

pub signalled-running : {ws vs : List Worker} → IsSignalled ws vs → 0 < sleeping vs → 0 < running vs
signalled-running {ws} (wakes i g) h = set-running ws i asleep waiting g refl
signalled-running {ws} (nobody n) h = absurd (omega (arith, none-sleeping ws n))

pub sleeping-wake_all : (ws : List Worker) → sleeping (wake_all ws) ≡ 0
sleeping-wake_all [] = refl
sleeping-wake_all (waiting ∷ ws) = omega (arith, sleeping-wake_all ws)
sleeping-wake_all (asleep ∷ ws) = omega (arith, sleeping-wake_all ws)
sleeping-wake_all (processing c ∷ ws) = omega (arith, sleeping-wake_all ws)
sleeping-wake_all (adding c ∷ ws) = omega (arith, sleeping-wake_all ws)
sleeping-wake_all (finished ∷ ws) = omega (arith, sleeping-wake_all ws)

pub in_work-signalled :
    {ws vs : List Worker} → IsSignalled ws vs → (d : ℕ) → in_work d vs ≡ in_work d ws
in_work-signalled {ws} (wakes i g) d = omega (arith, in_work-set d ws i asleep waiting g)
in_work-signalled (nobody h) d = refl

pub in_work-wake_all : (ws : List Worker) (d : ℕ) → in_work d (wake_all ws) ≡ in_work d ws
in_work-wake_all [] d = refl
in_work-wake_all (waiting ∷ ws) d = omega (arith, in_work-wake_all ws d)
in_work-wake_all (asleep ∷ ws) d = omega (arith, in_work-wake_all ws d)
in_work-wake_all (processing c ∷ ws) d = omega (arith, in_work-wake_all ws d)
in_work-wake_all (adding c ∷ ws) d = omega (arith, in_work-wake_all ws d)
in_work-wake_all (finished ∷ ws) d = omega (arith, in_work-wake_all ws d)

pub in_work-idle :
    (ws : List Worker) (i : ℕ) (w v : Worker)
    → get_elem? ws i ≡ some w
    → ((d : ℕ) → busy d w ≡ busy d v)
    → (d : ℕ) → in_work d (set ws i v) ≡ in_work d ws
in_work-idle ws i w v g h d = omega (arith, in_work-set d ws i w v g, h d)
