-- ===== src/Daemon/ConnPool/Allocated.antt =====
-- connection.c, `conn_alloc`: it changes no state of a connection and no limit.
use mod_socket_handoff.Base.{
  ℕ, ◌≡◌, refl, Option, some, none, get_elem?, set, get_elem?-set, lt-get_elem?, Option-cases, inl,
  inr,
}
use mod_socket_handoff.Daemon.ConnPool.{
  Connection, Pool, conn_alloc, from_list, take_slot, ready, count,
}
use mod_socket_handoff.Daemon.ConnPool.Kept.{
  StatesKept, StatesKept-trans, StatesKept-refl, set-StatesKept,
}

module _ (malloc : ℕ → Option ℕ) where
  ready-StatesKept :
      (pool : Pool) (c : ℕ) (w conn : Connection) (buf : Option ℕ)
      → get_elem? pool.connections c ≡ some w
      → conn.state ≡ w.state
      → StatesKept pool.connections (ready malloc pool c conn buf).1.connections
  unfolding ready count
  ready-StatesKept pool c w conn (some b) e s = StatesKept-refl pool.connections
  ready-StatesKept pool c w conn none e s = elim (Option-cases (malloc 4096)) [
    | inl f ↦
        rw (ready, f)
          (set-StatesKept pool.connections c w (record conn { next_free = pool.free_list }) e s)
    | inr (b, f) ↦
        rw (ready, f)
          (set-StatesKept pool.connections c w
            (record conn { next_free = none; handoff_buf = some b; handoff_cap = 4096 }) e s)
  ]

  take-StatesKept :
      (pool : Pool) (c : ℕ) (o : Option Connection)
      → get_elem? pool.connections c ≡ o
      → StatesKept pool.connections (take_slot malloc pool c o).1.connections
  unfolding take_slot
  take-StatesKept pool c none e = StatesKept-refl pool.connections
  take-StatesKept pool c (some conn) e =
      let v : Connection = record conn { next_free = none } in
      StatesKept-trans (set-StatesKept pool.connections c conn v e refl) (
        ready-StatesKept
          (record pool { connections = set pool.connections c v; free_list = conn.next_free }) c v
          conn conn.handoff_buf
          (get_elem?-set pool.connections c v (lt-get_elem? pool.connections c conn e)) refl)

  from_list-StatesKept :
      (pool : Pool) (free : Option ℕ)
      → StatesKept pool.connections (from_list malloc pool free).1.connections
  unfolding from_list
  from_list-StatesKept pool none = StatesKept-refl pool.connections
  from_list-StatesKept pool (some c) = take-StatesKept pool c (get_elem? pool.connections c) refl

  pub alloc-StatesKept :
      (pool : Pool) → StatesKept pool.connections (conn_alloc malloc pool).1.connections
  unfolding conn_alloc
  alloc-StatesKept pool = from_list-StatesKept pool pool.free_list

  ready_limit :
      (pool : Pool) (c : ℕ) (conn : Connection) (buf : Option ℕ)
      → (ready malloc pool c conn buf).1.max_connections ≡ pool.max_connections
  unfolding ready count
  ready_limit pool c conn (some b) = refl
  ready_limit pool c conn none = elim (Option-cases (malloc 4096)) [
    | inl f ↦ rw (ready, f) refl
    | inr (b, f) ↦ rw (ready, f) refl
  ]

  take_limit :
      (pool : Pool) (c : ℕ) (o : Option Connection)
      → (take_slot malloc pool c o).1.max_connections ≡ pool.max_connections
  unfolding take_slot
  take_limit pool c none = refl
  take_limit pool c (some conn) = ready_limit _ c conn conn.handoff_buf

  from_list_limit :
      (pool : Pool) (free : Option ℕ)
      → (from_list malloc pool free).1.max_connections ≡ pool.max_connections
  unfolding from_list
  from_list_limit pool none = refl
  from_list_limit pool (some c) = take_limit pool c (get_elem? pool.connections c)

  pub alloc_limit :
      (pool : Pool) → (conn_alloc malloc pool).1.max_connections ≡ pool.max_connections
  unfolding conn_alloc
  alloc_limit pool = from_list_limit pool pool.free_list
