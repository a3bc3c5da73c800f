-- ===== src/Daemon/ThreadPool.antt =====
-- examples/streaming-daemon-uring/pool.c. A connection is its index, and a work item its place among
-- those allocated so far; freed ones stay there and are not used again. A mutex makes each of the
-- functions one step; a wait for room is a step that cannot be taken yet. `completions` is the array that `completion_head` and `completion_tail` run through.
pub mod Queue
pub mod Completions
pub mod Schedule
mod Tests
use mod_socket_handoff.Base.{
  ℕ, zero, suc, ◌+◌, ◌%◌, Bool, true, false, Option, none, some, List, [], ◌∷◌, ◌++◌, length,
  get_elem?, set, replicate, ◌==◌, if◌then◌else◌,
}
use mod_socket_handoff.Base.Int.{ℤ, pos, negsuc}
use mod_socket_handoff.Daemon.ConnPool.{ConnState, streaming, streamed, closing}

pub record Work : Type 0 where
  pub conn : ℕ
  pub next : Option ℕ

-- `counter` is the eventfd's.
pub record ThreadPool : Type 0 where
  pub works : List Work
  pub queue_head : Option ℕ
  pub queue_tail : Option ℕ
  pub completions : List ℕ
  pub completion_head : ℕ
  pub completion_tail : ℕ
  pub completion_size : ℕ
  pub counter : ℕ
  pub shutdown : Bool

-- What `pool_init` leaves in these fields.
abbrev pub idle_pool : ℕ → ThreadPool
idle_pool max_connections = record {
  works = [];
  queue_head = none;
  queue_tail = none;
  completions = replicate max_connections 0;
  completion_head = 0;
  completion_tail = 0;
  completion_size = max_connections;
  counter = 0;
  shutdown = false;
}

abbrev pub link_to : List Work → ℕ → ℕ → List Work
link_to works t a = elim (get_elem? works t) [
  | none ↦ works
  | some w ↦ set works t (record w { next = some a })
]

abbrev pub new_work : ℕ → Work
new_work c = record { conn = c; next = none }

-- The new item goes behind the tail, or is the first.
pub enqueue : ThreadPool → ℕ → Option ℕ → ThreadPool
enqueue tp c (some t) =
    let a = length tp.works in
    record tp { works = link_to tp.works t a ++ (new_work c ∷ []); queue_tail = some a }
enqueue tp c none =
    let a = length tp.works in
    record tp { works = tp.works ++ (new_work c ∷ []); queue_head = some a; queue_tail = some a }

-- The first argument says whether `malloc` gives a block.
unfoldable pub pool_submit : Bool → ThreadPool → ℕ → Bool × ThreadPool
unfolding enqueue
pool_submit false tp c = (false, tp)
pool_submit true tp c = (true, enqueue tp c tp.queue_tail)

abbrev tail_after : Option ℕ → Option ℕ → Option ℕ
tail_after none tail = none
tail_after (some a) tail = tail

pub take_work : ThreadPool → Option Work → Option ℕ × ThreadPool
take_work tp none = (none, tp)
take_work tp (some w) =
    (some w.conn, record tp { queue_head = w.next; queue_tail = tail_after w.next tp.queue_tail })

abbrev pub find_work : List Work → Option ℕ → Option Work
find_work works none = none
find_work works (some h) = get_elem? works h

-- The connection of the item.
unfoldable pub pool_dequeue : ThreadPool → Option ℕ × ThreadPool
unfolding take_work
pool_dequeue tp = take_work tp (find_work tp.works tp.queue_head)

unfoldable pub pool_get_completion : ThreadPool → Option ℕ × ThreadPool
pool_get_completion tp = if tp.completion_head == tp.completion_tail then (none, tp) else (
  get_elem? tp.completions tp.completion_head,
  record tp { completion_head = (tp.completion_head + 1) % tp.completion_size },
)

-- None while the ring is full: the worker sleeps and tries again.
unfoldable pub pool_add_completion : ThreadPool → ℕ → Option ThreadPool
pool_add_completion tp c =
    let next_tail = (tp.completion_tail + 1) % tp.completion_size in
    if next_tail == tp.completion_head
    then none
    else some (record tp {
      completions = set tp.completions tp.completion_tail c;
      completion_tail = next_tail;
      counter = tp.counter + 1;
    })

unfoldable pub pool_shutdown : ThreadPool → ThreadPool
pool_shutdown tp = record tp { shutdown = true }

-- A thread at the head of its loop, in `pthread_cond_wait`, in `backend_process`, in `pool_add_completion`, or at its end.
pub data Worker : Type 0 where
  waiting : Worker
  asleep : Worker
  processing : ℕ → Worker
  adding : ℕ → Worker
  finished : Worker

abbrev started : Option ℕ × ThreadPool → Worker × ThreadPool
started (none, tp) = (waiting, tp)
started (some c, tp) = (processing c, tp)

-- With an item at the head of the queue, what `pool_dequeue` gives.
pub begin : ThreadPool → Option ℕ × ThreadPool → Option ℕ → Option (Worker × ThreadPool)
begin tp taken none = if tp.shutdown then some (finished, tp) else none
begin tp taken (some h) = some (started taken)

-- From the head of the loop, or none if the thread has to wait on the condition variable.
unfoldable pub worker_take : ThreadPool → Option (Worker × ThreadPool)
unfolding begin
worker_take tp = begin tp (pool_dequeue tp) tp.queue_head

-- The state for what `backend_process` returned.
unfoldable pub result_state : ℤ → ConnState
result_state (pos zero) = streaming
result_state (pos (suc n)) = streamed
result_state (negsuc n) = closing
