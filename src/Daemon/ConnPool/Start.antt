-- ===== src/Daemon/ConnPool/Start.antt =====
-- connection.c, `conn_pool_init`: the list that it makes.
use mod_socket_handoff.Base.{
  ℕ, zero, suc, ◌^◌, ◌≤◌, ◌<◌, ◌≡◌, refl, sym, ap, ◌∙◌, true, none, some, List, [], ◌∷◌, arith,
  length, set, length-set, get_elem?-lt, length-replicate, replicate, ◌-◌,
}
use mod_socket_handoff.Daemon.ConnPool.Kept.{
  Unused, AllUnused, AllUnused-set, AllUnused-replicate, AllUnused-Unused,
}
use mathlib.Core.Path.{subst}
use mod_socket_handoff.Daemon.ConnPool.Distinct.{Absent, Distinct}
use mod_socket_handoff.Daemon.ConnPool.{Pool, link_all, conn_pool_init, blank, first_state}
use mod_socket_handoff.Daemon.ConnPool.FreeList.{IsChain, finish, IsChain-push, IsPool}

-- `i`, `i + 1` and so on, `k` in all.
abbrev pub indices : ℕ → ℕ → List ℕ
indices i zero = []
indices i (suc k) = i ∷ indices (suc i) k

indices-Absent : (c i k : ℕ) → c < i → Absent c (indices i k)
indices-Absent c i zero h = tt
indices-Absent c i (suc k) h = (λ e. omega arith, indices-Absent c (suc i) k (omega arith))

indices-Distinct : (i k : ℕ) → Distinct (indices i k)
indices-Distinct i zero = tt
indices-Distinct i (suc k) = (indices-Absent i (suc i) k (omega arith), indices-Distinct (suc i) k)

length-indices : (i k : ℕ) → length (indices i k) ≡ k
length-indices i zero = refl
length-indices i (suc k) = ap suc (length-indices (suc i) k)

record IsLinked (n : ℕ) (pool pool' : Pool) : Type 0 where
  chain : IsChain pool'.connections pool'.free_list (indices 0 n)
  slots : length pool'.connections ≡ n
  limit : pool'.max_connections ≡ pool.max_connections

link_all-IsLinked :
    (i k n : ℕ) (pool : Pool)
    → length pool.connections ≡ n
    → k ≡ n - i
    → i ≤ n
    → IsChain pool.connections pool.free_list (indices i k)
    → IsLinked n pool (link_all i pool)
unfolding link_all
link_all-IsLinked zero k n pool l h b c = record {
  chain =
      subst (λ (m : ℕ). IsChain pool.connections pool.free_list (indices 0 m)) {y = n}
        (omega (arith, h)) c;
  slots = l;
  limit = refl;
}
link_all-IsLinked (suc i) k n pool l h b c =
    let v = first_state i pool.free_list in
    let next : Pool = record pool { connections = set pool.connections i v; free_list = some i } in
    let r =
      link_all-IsLinked i (suc k) n next (length-set pool.connections i v ∙ l) (omega (arith, h))
        (omega arith)
        (IsChain-push i v (omega (arith, l)) (indices-Absent i (suc i) k (omega arith)) refl c) in
    record { chain = r.chain; slots = r.slots; limit = r.limit }

-- A pool for fewer than 2 ^ 31 connections starts with all of them free, in the order of their indices, and none
-- active.
pub init-IsPool :
    (pool : Pool)
    → pool.max_connections < 2 ^ 31
    → IsPool (conn_pool_init true pool).1 (indices 0 pool.max_connections)
unfolding conn_pool_init
init-IsPool pool h =
    let n = pool.max_connections in
    let z : Pool = record pool { connections = replicate n blank; free_list = none } in
    let r =
      link_all-IsLinked n 0 n z (length-replicate n blank) (omega arith) (omega arith) finish in
    record {
      chain = r.chain;
      distinct = indices-Distinct 0 n;
      slots = r.slots ∙ sym r.limit;
      active = omega (arith, length-indices 0 n, r.limit);
      small = omega (arith, r.limit, h);
    }

link_all-AllUnused :
    (i : ℕ) (pool : Pool)
    → i ≤ length pool.connections
    → AllUnused pool.connections
    → AllUnused (link_all i pool).connections
unfolding link_all
link_all-AllUnused zero pool h a = a
link_all-AllUnused (suc i) pool h a =
    let v = first_state i pool.free_list in
    let (x, e) = get_elem?-lt pool.connections i (omega arith) in
    link_all-AllUnused i
      (record pool { connections = set pool.connections i v; free_list = some i })
      (omega (arith, length-set pool.connections i v))
      (AllUnused-set pool.connections i x v e refl a)

pub init-Unused :
    (pool : Pool)
    → pool.max_connections < 2 ^ 31
    → Unused (conn_pool_init true pool).1.connections (indices 0 pool.max_connections)
unfolding conn_pool_init
init-Unused pool h =
    let n = pool.max_connections in
    let z : Pool = record pool { connections = replicate n blank; free_list = none } in
    AllUnused-Unused (init-IsPool pool h).chain
      (link_all-AllUnused n z (omega (arith, length-replicate n blank)) (AllUnused-replicate n))
