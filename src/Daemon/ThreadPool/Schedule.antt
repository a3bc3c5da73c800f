-- ===== src/Daemon/ThreadPool/Schedule.antt =====
-- pool.c: the main loop and the worker threads, interleaved in any order.
pub mod Threads
pub mod Shared
pub mod Kept
pub mod Once
pub mod Stuck
pub mod Progress
use mod_socket_handoff.Base.{
  ℕ, ◌<◌, true, ◌≡◌, ◌≢◌, Option, none, some, List, [], ◌∷◌, ◌++◌, get_elem?, set, replicate, ◌==◌,
  if◌then◌else◌,
}
use mod_socket_handoff.Base.Int.{ℤ}
use mod_socket_handoff.Daemon.ConnPool.{ConnState, llm_queued}
use mod_socket_handoff.Daemon.ThreadPool.{
  ThreadPool, Worker, waiting, asleep, processing, adding, idle_pool, pool_submit,
  pool_get_completion, pool_add_completion, pool_shutdown, worker_take, result_state,
}

-- The main loop elsewhere, with the completion of its read of the eventfd, and in the loop of `handle_eventfd`.
pub data MainLoop : Type 0 where
  elsewhere notified fetching : MainLoop

-- With the connections that were submitted and those that the main loop has got back.
pub record System : Type 0 where
  pub tp : ThreadPool
  pub workers : List Worker
  pub state : ℕ → ConnState
  pub loop : MainLoop
  pub submitted : List ℕ
  pub delivered : List ℕ

abbrev pub read_eventfd : ThreadPool → ThreadPool
read_eventfd tp = record tp { counter = 0 }

abbrev pub update : (ℕ → ConnState) → ℕ → ConnState → ℕ → ConnState
update f c v d = if d == c then v else f d

-- `pthread_cond_signal` wakes one of the threads that sleep, if there is one.
pub data IsSignalled (workers : List Worker) : List Worker → Type 0 where
  wakes : (i : ℕ) → get_elem? workers i ≡ some asleep → IsSignalled workers (set workers i waiting)
  nobody : ((i : ℕ) → get_elem? workers i ≢ some asleep) → IsSignalled workers workers

abbrev pub awake : Worker → Worker
awake asleep = waiting
awake w = w

-- `pthread_cond_broadcast`
abbrev pub wake_all : List Worker → List Worker
wake_all [] = []
wake_all (w ∷ ws) = awake w ∷ wake_all ws

-- `handle_recv_fd` submits; a thread runs `worker_thread`, in which it sleeps while there is nothing to do, and may wake up
-- without a cause; the read of the eventfd completes once its counter is not 0, which clears it, and
-- `handle_eventfd` clears it again and asks for completions until there is none.
pub data Step (s : System) : System → Type 0 where
  submit :
      (c : ℕ) (workers : List Worker)
      → IsSignalled s.workers workers
      → Step s (record s {
        tp = (pool_submit true s.tp c).1;
        workers = workers;
        state = update s.state c llm_queued;
        submitted = s.submitted ++ (c ∷ []);
      })
  take :
      (i : ℕ) (w : Worker) (tp' : ThreadPool)
      → get_elem? s.workers i ≡ some waiting
      → worker_take s.tp ≡ some (w, tp')
      → Step s (record s { tp = tp'; workers = set s.workers i w })
  sleep :
      (i : ℕ)
      → get_elem? s.workers i ≡ some waiting
      → worker_take s.tp ≡ none
      → Step s (record s { workers = set s.workers i asleep })
  wake_up :
      (i : ℕ)
      → get_elem? s.workers i ≡ some asleep
      → Step s (record s { workers = set s.workers i waiting })
  process :
      (i c : ℕ) (result : ℤ)
      → get_elem? s.workers i ≡ some (processing c)
      → Step s (record s {
        workers = set s.workers i (adding c);
        state = update s.state c (result_state result);
      })
  add :
      (i c : ℕ) (tp' : ThreadPool)
      → get_elem? s.workers i ≡ some (adding c)
      → pool_add_completion s.tp c ≡ some tp'
      → Step s (record s { tp = tp'; workers = set s.workers i waiting })
  notify :
      s.loop ≡ elsewhere
      → 0 < s.tp.counter
      → Step s (record s { tp = read_eventfd s.tp; loop = notified })
  handle : s.loop ≡ notified → Step s (record s { tp = read_eventfd s.tp; loop = fetching })
  deliver :
      (c : ℕ) (tp' : ThreadPool)
      → s.loop ≡ fetching
      → pool_get_completion s.tp ≡ (some c, tp')
      → Step s (record s { tp = tp'; delivered = s.delivered ++ (c ∷ []) })
  rest :
      (tp' : ThreadPool)
      → s.loop ≡ fetching
      → pool_get_completion s.tp ≡ (none, tp')
      → Step s (record s { tp = tp'; loop = elsewhere })
  stop : Step s (record s { tp = pool_shutdown s.tp; workers = wake_all s.workers })

-- A pool of threads for so many connections.
abbrev pub start_with : ℕ → ℕ → System
start_with threads max_connections = record {
  tp = idle_pool max_connections;
  workers = replicate threads waiting;
  state = λ c. ConnState.unused;
  loop = elsewhere;
  submitted = [];
  delivered = [];
}

pub data Reach (threads max_connections : ℕ) : System → Type 0 where
  start : Reach threads max_connections (start_with threads max_connections)
  later :
      {s t : System} → Reach threads max_connections s → Step s t → Reach threads max_connections t
