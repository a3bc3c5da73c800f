-- ===== src/Daemon/ConnPool/FreeList.antt =====
-- connection.c: the free list is a stack of the indices that are not in use.
use mod_socket_handoff.Base.{
  ℕ, suc, ◌+◌, ◌^◌, ◌≤◌, ◌<◌, ◌≡◌, ◌≢◌, refl, ◌∙◌, Option, some, none, List, [], ◌∷◌, arith, length,
  get_elem?, set, Option-cases, inl, inr, get_elem?-set_ne, get_elem?-set, length-set, get_elem?-lt,
}
use mod_socket_handoff.Daemon.ConnPool.Distinct.{Absent, Distinct, Below, length-le}
use mod_socket_handoff.Daemon.ConnPool.{
  Connection, Pool, conn_alloc, conn_free, conn_reset, conn_close_fds, from_list, take_slot, ready,
  count, put_slot,
}

-- The indices that one meets from `free` on along `next_free`.
pub data IsChain (conns : List Connection) : Option ℕ → List ℕ → Type 0 where
  finish : IsChain conns none []
  link :
      (c : ℕ) (conn : Connection) (ids : List ℕ)
      → c < length conns
      → get_elem? conns c ≡ some conn
      → IsChain conns conn.next_free ids
      → IsChain conns (some c) (c ∷ ids)

-- The pool has the free slots `ids`, in the order in which they are given out, and all others are in use.
pub record IsPool (pool : Pool) (ids : List ℕ) : Type 0 where
  pub chain : IsChain pool.connections pool.free_list ids
  pub distinct : Distinct ids
  pub slots : length pool.connections ≡ pool.max_connections
  pub active : pool.active_connections + length ids ≡ pool.max_connections
  pub small : pool.max_connections < 2 ^ 31

pub IsChain-set :
    {conns : List Connection} {free : Option ℕ} {ids : List ℕ} (c : ℕ) (v : Connection)
    → Absent c ids
    → IsChain conns free ids
    → IsChain (set conns c v) free ids
IsChain-set c v a finish = finish
IsChain-set {conns} c v a (link i conn ids l e t) =
    link i conn ids (omega (arith, length-set conns c v)) (get_elem?-set_ne conns i c v a.0 ∙ e)
      (IsChain-set c v a.1 t)

-- A slot that was not on the list goes in front.
pub IsChain-push :
    {conns : List Connection} {free : Option ℕ} {ids : List ℕ} (c : ℕ) (v : Connection)
    → c < length conns
    → Absent c ids
    → v.next_free ≡ free
    → IsChain conns free ids
    → IsChain (set conns c v) (some c) (c ∷ ids)
IsChain-push {conns} {free} {ids} c v l a e t =
    link c v ids (omega (arith, length-set conns c v)) (get_elem?-set conns c v l)
      (simp e (IsChain-set c v a t))

-- The slot `c` is out of the list and has a handoff buffer.
pub record IsGiven (pool : Pool) (c : ℕ) : Type 0 where
  pub conn : Connection
  pub found : get_elem? pool.connections c ≡ some conn
  pub unlinked : conn.next_free ≡ none
  pub buffer : conn.handoff_buf ≢ none

-- What an allocation may do to a pool with the free slots of the list.
pub data IsAllocation (malloc : ℕ → Option ℕ) (pool : Pool)
    : List ℕ → Option ℕ × Pool → Type 0 where
  exhausted : IsAllocation malloc pool [] (none, pool)
  no_memory :
      (ids : List ℕ) (after : Pool)
      → malloc 4096 ≡ none
      → IsPool after ids
      → IsAllocation malloc pool ids (none, after)
  given :
      (c : ℕ) (ids : List ℕ) (after : Pool)
      → IsPool after ids
      → Absent c ids
      → IsGiven after c
      → after.active_connections ≡ pool.active_connections + 1
      → IsAllocation malloc pool (c ∷ ids) (some c, after)

-- A pool whose slot `c` becomes `v`, which is off the list.
abbrev without : Pool → ℕ → Connection → Connection → Pool
without pool c conn v = record pool {
  connections = set pool.connections c v;
  free_list = conn.next_free;
}

count-IsPool :
    (pool : Pool) (c : ℕ) (ids : List ℕ) (conn v : Connection)
    → IsChain pool.connections conn.next_free ids
    → Absent c ids
    → Distinct ids
    → length pool.connections ≡ pool.max_connections
    → pool.active_connections + suc (length ids) ≡ pool.max_connections
    → pool.max_connections < 2 ^ 31
    → IsPool (count (without pool c conn v)) ids
unfolding count
count-IsPool pool c ids conn v t a d l n b = record {
  chain = IsChain-set c v a t;
  distinct = d;
  slots = length-set pool.connections c v ∙ l;
  active = omega (arith, n);
  small = b;
}

module _ (malloc : ℕ → Option ℕ) where
  ready-IsAllocation :
      (pool : Pool) (c : ℕ) (ids : List ℕ) (conn v : Connection) (buf : Option ℕ)
      → v.next_free ≡ none
      → v.handoff_buf ≡ buf
      → c < length pool.connections
      → IsChain pool.connections conn.next_free ids
      → Absent c ids
      → Distinct ids
      → length pool.connections ≡ pool.max_connections
      → pool.active_connections + suc (length ids) ≡ pool.max_connections
      → pool.max_connections < 2 ^ 31
      → IsAllocation malloc pool (c ∷ ids) (ready malloc (without pool c conn v) c conn buf)
  unfolding ready count
  ready-IsAllocation pool c ids conn v (some b) w f l t a d s n m =
      given c ids (count (without pool c conn v)) (count-IsPool pool c ids conn v t a d s n m) a
        (record {
          conn = v;
          found = get_elem?-set pool.connections c v l;
          unlinked = w;
          buffer = λ e. cc;
        })
        (omega (arith, n))
  ready-IsAllocation pool c ids conn v none w f l t a d s n m =
      let s' = length-set pool.connections c v in
      elim (Option-cases (malloc 4096)) [
        | inl e ↦
            rw (ready, e)
              (no_memory (c ∷ ids)
                (record (without pool c conn v) {
                  connections =
                      set (set pool.connections c v) c (record conn { next_free = conn.next_free });
                  free_list = some c;
                })
                e
                (record {
                  chain =
                      IsChain-push c (record conn { next_free = conn.next_free })
                        (omega (arith, s', l)) a refl (IsChain-set c v a t);
                  distinct = (a, d);
                  slots = length-set (set pool.connections c v) c conn ∙ s' ∙ s;
                  active = n;
                  small = m;
                }))
        | inr (b, e) ↦
            rw (ready, e)
              (let u : Connection = record conn {
                next_free = none;
                handoff_buf = some b;
                handoff_cap = 4096;
              } in
                let mid : Pool = record pool { connections = set pool.connections c v } in
                given c ids (count (without mid c conn u))
                  (count-IsPool mid c ids conn u (IsChain-set c v a t) a d (s' ∙ s) n m) a
                  (record {
                    conn = u;
                    found = get_elem?-set (set pool.connections c v) c u (omega (arith, s', l));
                    unlinked = refl;
                    buffer = λ f. cc;
                  })
                  (omega (arith, n)))
      ]

  from_list-IsAllocation :
      (pool : Pool) (free : Option ℕ) (ids : List ℕ)
      → IsChain pool.connections free ids
      → IsPool pool ids
      → IsAllocation malloc pool ids (from_list malloc pool free)
  unfolding from_list take_slot
  from_list-IsAllocation pool _ _ finish p = exhausted
  from_list-IsAllocation pool _ _ (link c conn ids l e t) p = simp e (
      ready-IsAllocation pool c ids conn (record conn { next_free = none }) conn.handoff_buf refl
        refl l t p.distinct.0 p.distinct.1 p.slots p.active p.small)

  -- `conn_alloc` gives out the first free slot, which then is not free any more, has a handoff buffer and
  -- counts as active; it gives NULL only when no slot is free or `malloc` fails, and then
  -- the same slots are free in the same order. In all cases the free list stays well formed.
  pub alloc-IsAllocation :
      (pool : Pool) (ids : List ℕ)
      → IsPool pool ids
      → IsAllocation malloc pool ids (conn_alloc malloc pool)
  unfolding conn_alloc
  alloc-IsAllocation pool ids p = from_list-IsAllocation pool pool.free_list ids p.chain p

IsChain-Below :
    {conns : List Connection} {free : Option ℕ} {ids : List ℕ}
    → IsChain conns free ids
    → Below (length conns) ids
IsChain-Below finish = tt
IsChain-Below (link c conn ids l e t) = (l, IsChain-Below t)

-- With a slot that is not free something is active.
pub active_pos :
    (pool : Pool) (c : ℕ) (ids : List ℕ)
    → IsPool pool ids
    → c < pool.max_connections
    → Absent c ids
    → 1 ≤ pool.active_connections
active_pos pool c ids p l a =
    let b : Below (length pool.connections) (c ∷ ids) =
      (omega (arith, p.slots, l), IsChain-Below p.chain) in
    omega
      (arith, p.active, p.slots, length-le (length pool.connections) (c ∷ ids) (a, p.distinct) b)

put_slot-IsPool :
    (pool : Pool) (c : ℕ) (ids : List ℕ) (conn : Connection)
    → IsPool pool ids
    → c < pool.max_connections
    → Absent c ids
    → 1 ≤ pool.active_connections
    → IsPool (put_slot pool c (some conn)) (c ∷ ids)
unfolding put_slot
put_slot-IsPool pool c ids conn p l a n =
    let v : Connection = record (conn_reset (conn_close_fds conn pool.closed).0) {
      next_free = pool.free_list;
    } in
    record {
      chain = IsChain-push c v (omega (arith, p.slots, l)) a refl p.chain;
      distinct = (a, p.distinct);
      slots = length-set pool.connections c v ∙ p.slots;
      active = omega (arith, p.active, p.small);
      small = p.small;
    }

-- `conn_free` of a slot that is in use puts it in front of the free slots, which stay well formed,
-- and counts it as not active.
pub free-IsPool :
    (pool : Pool) (c : ℕ) (ids : List ℕ)
    → IsPool pool ids
    → c < pool.max_connections
    → Absent c ids
    → IsPool (conn_free pool c) (c ∷ ids)
unfolding conn_free
free-IsPool pool c ids p l a =
    let (conn, e) = get_elem?-lt pool.connections c (omega (arith, p.slots, l)) in
    rw e (put_slot-IsPool pool c ids conn p l a (active_pos pool c ids p l a))
