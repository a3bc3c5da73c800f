-- ===== src/Daemon/ConnPool.antt =====
-- examples/streaming-daemon-uring/connection.c and the pool in daemon.h. A pointer into `connections`
-- is an index, a pointer to other memory is its address, and NULL is none. `malloc` and `realloc` are parameters.
-- The atomic counters are only changed by the main loop; an `int` is its two's complement.
-- Of the times in `connection_t`, which are left out, `conn_elapsed_ms` takes `start_time` as an argument.
pub mod Distinct
pub mod FreeList
pub mod Kept
pub mod Allocated
pub mod Start
pub mod Release
pub mod Elapsed
pub mod Tiers
mod Tests
use mod_socket_handoff.Base.{
  ℕ, zero, suc, ◌+◌, ◌-◌, ◌*◌, ◌/◌, ◌%◌, ◌^◌, Bool, true, false, Option, none, some, List, [], ◌∷◌,
  ◌++◌, length, get_elem?, set, replicate, ltb, if◌then◌else◌,
}
use mod_socket_handoff.Base.Int.{ℤ, pos, negsuc}

pub data ConnState : Type 0 where
  unused accepting receiving_fd parsing llm_queued llm_pending curl_pending curl_active : ConnState
  streaming streamed closing : ConnState

-- Of `data` the fields are the user id, the addresses of the prompt and the model, and the limit.
pub record HandoffData : Type 0 where
  pub user_id : ℤ
  pub prompt : Option ℕ
  pub model : Option ℕ
  pub max_tokens : ℤ

pub record Connection : Type 0 where
  pub id : ℕ
  pub state : ConnState
  pub unix_fd : ℤ
  pub client_fd : ℤ
  pub handoff_buf : Option ℕ
  pub handoff_len : ℕ
  pub handoff_cap : ℕ
  pub handoff_data : HandoffData
  pub stream_index : ℕ
  pub bytes_sent : ℕ
  pub use_llm_response : Bool
  pub llm_response_pos : ℕ
  pub write_buf : Option ℕ
  pub write_len : ℕ
  pub write_offset : ℕ
  pub async_write_buf : Option ℕ
  pub curl_easy : Option ℕ
  pub sse_line_buf : Option ℕ
  pub sse_line_len : ℕ
  pub sse_line_cap : ℕ
  pub next_free : Option ℕ
  pub dirty_next : Option ℕ
  pub on_dirty_list : Bool

-- `closed` lists the descriptors that were closed, the last one first.
pub record Pool : Type 0 where
  pub connections : List Connection
  pub free_list : Option ℕ
  pub max_connections : ℕ
  pub active_connections : ℕ
  pub peak_connections : ℕ
  pub closed : List ℕ

abbrev pub no_data : HandoffData
no_data = record { user_id = pos 0; prompt = none; model = none; max_tokens = pos 0 }

-- All bytes 0.
abbrev pub blank : Connection
blank = record {
  id = 0;
  state = unused;
  unix_fd = pos 0;
  client_fd = pos 0;
  handoff_buf = none;
  handoff_len = 0;
  handoff_cap = 0;
  handoff_data = no_data;
  stream_index = 0;
  bytes_sent = 0;
  use_llm_response = false;
  llm_response_pos = 0;
  write_buf = none;
  write_len = 0;
  write_offset = 0;
  async_write_buf = none;
  curl_easy = none;
  sse_line_buf = none;
  sse_line_len = 0;
  sse_line_cap = 0;
  next_free = none;
  dirty_next = none;
  on_dirty_list = false;
}

abbrev pub first_state : ℕ → Option ℕ → Connection
first_state i free = record blank {
  id = i;
  unix_fd = negsuc 0;
  client_fd = negsuc 0;
  next_free = free;
}

-- The loop of `conn_pool_init`, which counts down to 0.
unfoldable pub link_all : ℕ → Pool → Pool
link_all zero pool = pool
link_all (suc i) pool = link_all i (record pool {
  connections = set pool.connections i (first_state i pool.free_list);
  free_list = some i;
})

-- Whether `calloc` gives the memory, and whether the pool is there.
unfoldable pub conn_pool_init : Bool → Pool → Bool × Pool
conn_pool_init false pool = (false, record pool { connections = [] })
conn_pool_init true pool =
    let linked =
      link_all pool.max_connections
        (record pool { connections = replicate pool.max_connections blank; free_list = none }) in
    (true, record linked { active_connections = 0 })

abbrev close_fd : ℤ → List ℕ → List ℕ
close_fd (pos fd) closed = fd ∷ closed
close_fd (negsuc n) closed = closed

abbrev closed_fd : ℤ → ℤ
closed_fd (pos fd) = negsuc 0
closed_fd (negsuc n) = negsuc n

unfoldable pub conn_close_fds : Connection → List ℕ → Connection × List ℕ
conn_close_fds conn closed = (
  record conn { unix_fd = closed_fd conn.unix_fd; client_fd = closed_fd conn.client_fd },
  close_fd conn.client_fd (close_fd conn.unix_fd closed),
)

-- Buffers that it frees are none afterwards; `handoff_buf` is kept.
unfoldable pub conn_reset : Connection → Connection
conn_reset conn = record conn {
  state = unused;
  unix_fd = negsuc 0;
  client_fd = negsuc 0;
  handoff_len = 0;
  handoff_data = no_data;
  stream_index = 0;
  bytes_sent = 0;
  use_llm_response = false;
  llm_response_pos = 0;
  write_buf = none;
  write_len = 0;
  write_offset = 0;
  async_write_buf = none;
  curl_easy = none;
  sse_line_buf = none;
  sse_line_len = 0;
  sse_line_cap = 0;
  dirty_next = none;
  on_dirty_list = false;
}

-- The counters of an allocation.
pub count : Pool → Pool
count pool =
    let active = (pool.active_connections + 1) % 2 ^ 32 in
    record pool {
      active_connections = active;
      peak_connections = if ltb pool.peak_connections active then active else pool.peak_connections;
    }

module _ (malloc : ℕ → Option ℕ) where
  -- With a buffer of the first tier, or back on the list.
  pub ready : Pool → ℕ → Connection → Option ℕ → Option ℕ × Pool
  ready pool c conn (some b) = (some c, count pool)
  ready pool c conn none = elim (malloc 4096) [
    | none ↦ (
      none,
      record pool {
        connections = set pool.connections c (record conn { next_free = pool.free_list });
        free_list = some c;
      },
    )
    | some b ↦ (
      some c,
      count (record pool {
        connections =
            set pool.connections c
              (record conn { next_free = none; handoff_buf = some b; handoff_cap = 4096 });
      }),
    )
  ]

  pub take_slot : Pool → ℕ → Option Connection → Option ℕ × Pool
  unfolding ready
  take_slot pool c none = (none, pool)
  take_slot pool c (some conn) =
      ready
        (record pool {
          connections = set pool.connections c (record conn { next_free = none });
          free_list = conn.next_free;
        })
        c conn conn.handoff_buf

  pub from_list : Pool → Option ℕ → Option ℕ × Pool
  unfolding take_slot
  from_list pool none = (none, pool)
  from_list pool (some c) = take_slot pool c (get_elem? pool.connections c)

  -- The connection, or none for NULL.
  unfoldable pub conn_alloc : Pool → Option ℕ × Pool
  unfolding from_list
  conn_alloc pool = from_list pool pool.free_list

pub put_slot : Pool → ℕ → Option Connection → Pool
unfolding conn_reset conn_close_fds
put_slot pool c none = pool
put_slot pool c (some conn) =
    let shut = conn_close_fds conn pool.closed in
    record pool {
      connections =
          set pool.connections c (record (conn_reset shut.0) { next_free = pool.free_list });
      free_list = some c;
      active_connections = (pool.active_connections + 2 ^ 32 - 1) % 2 ^ 32;
      closed = shut.1;
    }

unfoldable pub conn_free : Pool → ℕ → Pool
unfolding put_slot
conn_free pool c = put_slot pool c (get_elem? pool.connections c)

-- The new size of the handoff buffer, or none when it has the last one.
abbrev pub next_tier : ℕ → Option ℕ
next_tier cap = if ltb cap 16384 then some 16384 else if ltb cap 65536 then some 65536 else none

pub grown_to : Connection → ℕ → Option ℕ → Bool × Connection
grown_to conn cap none = (false, conn)
grown_to conn cap (some b) = (true, record conn { handoff_buf = some b; handoff_cap = cap })

-- `realloc` is of the old address and the new size.
pub grow_by : (Option ℕ → ℕ → Option ℕ) → Connection → Option ℕ → Bool × Connection
unfolding grown_to
grow_by realloc conn none = (false, conn)
grow_by realloc conn (some cap) = grown_to conn cap (realloc conn.handoff_buf cap)

unfoldable pub conn_grow_handoff_buf : (Option ℕ → ℕ → Option ℕ) → Connection → Bool × Connection
unfolding grow_by
conn_grow_handoff_buf realloc conn = grow_by realloc conn (next_tier conn.handoff_cap)

unfoldable pub conn_get : Pool → ℕ → Option ℕ
conn_get pool id = if ltb id pool.max_connections then some id else none

unfoldable pub conn_set_state : Connection → ConnState → Connection
conn_set_state conn s = record conn { state = s }
