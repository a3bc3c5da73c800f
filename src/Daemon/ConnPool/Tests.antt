-- ===== src/Daemon/ConnPool/Tests.antt =====
-- connection.c on a pool of three connections.
use mod_socket_handoff.Base.Int.{pos}
use mod_socket_handoff.Base.{ℕ, ◌<◌, refl, true, some, none, [], ◌∷◌, Option, arith}
use mod_socket_handoff.Daemon.ConnPool.{
  Connection, blank, Pool, conn_pool_init, conn_alloc, conn_free, link_all, first_state, count,
}
use mod_socket_handoff.Daemon.ConnPool.FreeList.{
  IsPool, IsAllocation, link, finish, alloc-IsAllocation, free-IsPool,
}
use mod_socket_handoff.Daemon.ConnPool.Start.{indices, init-IsPool}

abbrev empty : Pool
empty = record {
  connections = [];
  free_list = none;
  max_connections = 3;
  active_connections = 7;
  peak_connections = 0;
  closed = [];
}

abbrev first : Pool
first = (conn_pool_init true empty).1

abbrev heap : ℕ → Option ℕ
heap n = some 4096

first-IsPool : IsPool first (indices 0 3)
first-IsPool = init-IsPool empty (omega arith)

alloc-IsAllocation_example : IsAllocation heap first (indices 0 3) (conn_alloc heap first)
alloc-IsAllocation_example = alloc-IsAllocation heap first (indices 0 3) first-IsPool

-- With 0 in use.
abbrev second : Pool
second = (conn_alloc heap first).1

second-IsPool : IsPool second (1 ∷ 2 ∷ [])
unfolding conn_pool_init link_all conn_alloc count
second-IsPool = record {
  chain =
      link 1 (first_state 1 (some 2)) (2 ∷ []) (omega arith) refl
        (link 2 (first_state 2 none) [] (omega arith) refl finish);
  distinct = ((λ e. omega arith, tt), (tt, tt));
  slots = refl;
  active = refl;
  small = omega arith;
}

second_bound : 0 < second.max_connections
unfolding conn_pool_init link_all conn_alloc count
second_bound = omega arith

free-IsPool_example : IsPool (conn_free second 0) (0 ∷ 1 ∷ 2 ∷ [])
free-IsPool_example =
    free-IsPool second 0 (1 ∷ 2 ∷ []) second-IsPool second_bound
      (λ e. omega arith, (λ e. omega arith, tt))

-- A connection with both descriptors and a buffer of the first tier.
abbrev streaming_conn : Connection
streaming_conn = record blank {
  unix_fd = pos 7;
  client_fd = pos 8;
  handoff_buf = some 1;
  handoff_cap = 4096;
}

abbrev mover : Option ℕ → ℕ → Option ℕ
mover b n = some 2

abbrev in_use : Pool
in_use = record empty { connections = streaming_conn ∷ [] }
