-- ===== src/Daemon/ConnPool/Kept.antt =====
-- What changes of the connections leave of the free list and of the states.
use mathlib.Core.Path.{subst}
use mod_socket_handoff.Base.{
  ℕ, zero, suc, ◌+◌, ◌-◌, ◌%◌, ◌^◌, ◌≡◌, ◌≢◌, ◌⊎◌, refl, sym, ap, ◌∙◌, Option, some, none, List, [],
  ◌∷◌, arith, length, get_elem?, set, replicate, get_elem?-set_ne, get_elem?-set, length-set,
  lt-get_elem?, ◌==◌, Bool-cases, inl, inr,
}
use mod_socket_handoff.Daemon.ConnPool.{
  Connection, unused, Pool, conn_free, put_slot, conn_reset, blank,
}
use mod_socket_handoff.Daemon.ConnPool.Distinct.{Absent}
use mod_socket_handoff.Daemon.ConnPool.FreeList.{IsChain, finish, link}

pub some-inj {ℓ} : {A : Type ℓ} {a b : A} → some a ≡ some b → a ≡ b
some-inj {A} {a} {b} e = ap (λ (o : Option A). elim o [ none ↦ a | some x ↦ x ]) e

-- Every connection keeps its place on the free list and its state.
pub record Kept (conns conns' : List Connection) : Type 0 where
  pub same_length : length conns' ≡ length conns
  pub same :
      (i : ℕ) (x : Connection)
      → get_elem? conns i ≡ some x
      → (y : Connection) × (get_elem? conns' i ≡ some y)
        × (y.next_free ≡ x.next_free)
        × (y.state ≡ x.state)

-- Every connection keeps its state.
pub record StatesKept (conns conns' : List Connection) : Type 0 where
  pub same :
      (i : ℕ) (x : Connection)
      → get_elem? conns i ≡ some x
      → (y : Connection) × (get_elem? conns' i ≡ some y) × (y.state ≡ x.state)

pub Kept-refl : (conns : List Connection) → Kept conns conns
Kept-refl conns = record { same_length = refl; same = λ i x e. (x, e, refl, refl) }

pub Kept-trans : {a b c : List Connection} → Kept a b → Kept b c → Kept a c
Kept-trans {a} {b} {c} p q = record {
  same_length = q.same_length ∙ p.same_length;
  same = λ i x e.
      let (y, f, n, s) = p.same i x e in let (z, g, m, t) = q.same i y f in (z, g, m ∙ n, t ∙ s);
}

set_at :
    (conns : List Connection) (c : ℕ) (x v : Connection)
    → get_elem? conns c ≡ some x
    → (i : ℕ) (y : Connection) → get_elem? conns i ≡ some y
    → (z : Connection) × (get_elem? (set conns c v) i ≡ some z) × ((z ≡ y) ⊎ ((z ≡ v) × (y ≡ x)))
set_at conns c x v e i y f = elim (Bool-cases (i == c)) [
  | inl t ↦
      let z : i ≡ c = ground arith in
      (
        v,
        ap (get_elem? (set conns c v)) z ∙ get_elem?-set conns c v (lt-get_elem? conns c x e),
        inr (refl, some-inj (sym f ∙ ap (get_elem? conns) z ∙ e)),
      )
  | inr t ↦ (y, get_elem?-set_ne conns i c v (λ z. ground arith) ∙ f, inl refl)
]

-- No connection is in use.
pub record AllUnused (conns : List Connection) : Type 0 where
  pub at : (i : ℕ) (x : Connection) → get_elem? conns i ≡ some x → x.state ≡ unused

pub AllUnused-set :
    (conns : List Connection) (c : ℕ) (x v : Connection)
    → get_elem? conns c ≡ some x
    → v.state ≡ unused
    → AllUnused conns
    → AllUnused (set conns c v)
AllUnused-set conns c x v e s a = record {
  at = λ i y f. elim (Bool-cases (i == c)) [
    | inl t ↦
        let z : i ≡ c = ground arith in
        let g = get_elem?-set conns c v (lt-get_elem? conns c x e) in
        ap (λ (q : Connection). q.state) (some-inj (sym f ∙ ap (get_elem? (set conns c v)) z ∙ g))
        ∙ s
    | inr t ↦ a.at i y (sym (get_elem?-set_ne conns i c v (λ z. ground arith)) ∙ f)
  ];
}

blank_state :
    (n i : ℕ) (x : Connection) → get_elem? (replicate n blank) i ≡ some x → x.state ≡ unused
blank_state zero i x e = cc
blank_state (suc n) zero x e = ap (λ (q : Connection). q.state) (some-inj (sym e))
blank_state (suc n) (suc i) x e = blank_state n i x e

pub AllUnused-replicate : (n : ℕ) → AllUnused (replicate n blank)
AllUnused-replicate n = record { at = blank_state n }

pub set-Kept :
    (conns : List Connection) (c : ℕ) (x v : Connection)
    → get_elem? conns c ≡ some x
    → v.next_free ≡ x.next_free
    → v.state ≡ x.state
    → Kept conns (set conns c v)
set-Kept conns c x v e n s = record {
  same_length = length-set conns c v;
  same = λ i y f.
      let (z, g, w) = set_at conns c x v e i y f in
      (
        z,
        g,
        elim w [
          | inl p ↦ ap (λ (q : Connection). q.next_free) p
          | inr (p, r) ↦
              ap (λ (q : Connection). q.next_free) p
              ∙ n
              ∙ ap (λ (q : Connection). q.next_free) (sym r)
        ],
        elim w [
          | inl p ↦ ap (λ (q : Connection). q.state) p
          | inr (p, r) ↦
              ap (λ (q : Connection). q.state) p ∙ s ∙ ap (λ (q : Connection). q.state) (sym r)
        ],
      );
}

pub set-StatesKept :
    (conns : List Connection) (c : ℕ) (x v : Connection)
    → get_elem? conns c ≡ some x
    → v.state ≡ x.state
    → StatesKept conns (set conns c v)
set-StatesKept conns c x v e s = record {
  same = λ i y f.
      let (z, g, w) = set_at conns c x v e i y f in
      (
        z,
        g,
        elim w [
          | inl p ↦ ap (λ (q : Connection). q.state) p
          | inr (p, r) ↦
              ap (λ (q : Connection). q.state) p ∙ s ∙ ap (λ (q : Connection). q.state) (sym r)
        ],
      );
}

pub IsChain-Kept :
    {conns conns' : List Connection} {free : Option ℕ} {ids : List ℕ}
    → Kept conns conns'
    → IsChain conns free ids
    → IsChain conns' free ids
IsChain-Kept k finish = finish
IsChain-Kept {conns} {conns'} k (link c conn ids l e t) =
    let (y, f, n, s) = k.same c conn e in
    link c y ids (omega (arith, k.same_length)) f
      (subst (λ (o : Option ℕ). IsChain conns' o ids) (sym n) (IsChain-Kept k t))

-- All these slots are unused.
abbrev pub Unused : List Connection → List ℕ → Type 0
Unused conns [] = Unit
Unused conns (i ∷ ids) =
    ((x : Connection) × (get_elem? conns i ≡ some x) × (x.state ≡ unused)) × Unused conns ids

pub Unused-Kept :
    {conns conns' : List Connection} (ids : List ℕ)
    → StatesKept conns conns'
    → Unused conns ids
    → Unused conns' ids
Unused-Kept [] k u = tt
Unused-Kept (i ∷ ids) k ((x, e, s), u) =
    let (y, f, t) = k.same i x e in ((y, f, t ∙ s), Unused-Kept ids k u)

pub Kept-StatesKept : {conns conns' : List Connection} → Kept conns conns' → StatesKept conns conns'
Kept-StatesKept k = record { same = λ i x e. let (y, f, n, s) = k.same i x e in (y, f, s) }

pub Unused-set :
    (conns : List Connection) (ids : List ℕ) (c : ℕ) (v : Connection)
    → Absent c ids
    → Unused conns ids
    → Unused (set conns c v) ids
Unused-set conns [] c v a u = tt
Unused-set conns (i ∷ ids) c v a ((x, e, s), u) =
    ((x, get_elem?-set_ne conns i c v a.0 ∙ e, s), Unused-set conns ids c v a.1 u)

pub AllUnused-Unused :
    {conns : List Connection} {free : Option ℕ} {ids : List ℕ}
    → IsChain conns free ids
    → AllUnused conns
    → Unused conns ids
AllUnused-Unused finish a = tt
AllUnused-Unused (link c conn ids l e t) a = ((conn, e, a.at c conn e), AllUnused-Unused t a)

-- A connection with another state is not one of them.
pub Unused-Absent :
    (conns : List Connection) (ids : List ℕ) (c : ℕ) (y : Connection)
    → get_elem? conns c ≡ some y
    → y.state ≢ unused
    → Unused conns ids
    → Absent c ids
Unused-Absent conns [] c y f n u = tt
Unused-Absent conns (i ∷ ids) c y f n ((x, e, s), u) = (
  λ z.
      n (
        ap (λ (q : Connection). q.state) (some-inj (sym f ∙ ap (get_elem? conns) (sym z) ∙ e)) ∙ s),
  Unused-Absent conns ids c y f n u,
)

pub StatesKept-trans : {a b c : List Connection} → StatesKept a b → StatesKept b c → StatesKept a c
StatesKept-trans {a} {b} {c} p q = record {
  same = λ i x e. let (y, f, s) = p.same i x e in let (z, g, t) = q.same i y f in (z, g, t ∙ s);
}

pub StatesKept-refl : (conns : List Connection) → StatesKept conns conns
StatesKept-refl conns = record { same = λ i x e. (x, e, refl) }

-- A slot that is freed is unused.
pub free-unused :
    (pool : Pool) (c : ℕ) (conn : Connection)
    → get_elem? pool.connections c ≡ some conn
    → (x : Connection) × ((conn_free pool c).connections ≡ set pool.connections c x)
      × (get_elem? (conn_free pool c).connections c ≡ some x)
      × (x.state ≡ unused)
      × ((conn_free pool c).active_connections ≡ (pool.active_connections + 2 ^ 32 - 1) % 2 ^ 32)
unfolding conn_free put_slot conn_reset
free-unused pool c conn e = rw e (
  _,
  refl,
  get_elem?-set pool.connections c _ (lt-get_elem? pool.connections c conn e),
  refl,
  refl,
)
