-- ===== src/Daemon/Loop/Relinked.antt =====
-- daemon.c: the dirty list only changes links of its own.
use mod_socket_handoff.Base.{
  ℕ, zero, suc, ◌≡◌, refl, ◌∙◌, Bool, true, false, Option, some, none, length, get_elem?, ◌==◌,
  if◌then◌else◌, Option-cases, inl, inr,
}
use mod_socket_handoff.Daemon.ConnPool.{Connection}
use mod_socket_handoff.Daemon.ConnPool.Kept.{Kept, Kept-refl, Kept-trans, set-Kept}
use mod_socket_handoff.Daemon.Loop.State.{Daemon, set_conn}
use mod_socket_handoff.Daemon.Loop.Dirty.{
  put_dirty, set_dirty_next, set_flags, dirty_next_of, is_on_list, unlink_after, unlink, walk,
  daemon_unmark_connection_dirty, is_index, link_last, daemon_mark_connection_dirty,
}

-- Free list, states and counters are the same.
pub record IsRelinked (d d' : Daemon) : Type 0 where
  pub kept : Kept d.pool.connections d'.pool.connections
  pub free : d'.pool.free_list ≡ d.pool.free_list
  pub limit : d'.pool.max_connections ≡ d.pool.max_connections
  pub active : d'.pool.active_connections ≡ d.pool.active_connections
  pub ring : d'.ring ≡ d.ring
  pub mode : d'.benchmark_mode ≡ d.benchmark_mode
  pub started : d'.total_started ≡ d.total_started
  pub completed : d'.total_completed ≡ d.total_completed
  pub failed : d'.total_failed ≡ d.total_failed

pub IsRelinked-refl : (d : Daemon) → IsRelinked d d
IsRelinked-refl d = record {
  kept = Kept-refl d.pool.connections;
  free = refl;
  limit = refl;
  active = refl;
  ring = refl;
  mode = refl;
  started = refl;
  completed = refl;
  failed = refl;
}

pub IsRelinked-trans : {a b c : Daemon} → IsRelinked a b → IsRelinked b c → IsRelinked a c
IsRelinked-trans p q = record {
  kept = Kept-trans p.kept q.kept;
  free = q.free ∙ p.free;
  limit = q.limit ∙ p.limit;
  active = q.active ∙ p.active;
  ring = q.ring ∙ p.ring;
  mode = q.mode ∙ p.mode;
  started = q.started ∙ p.started;
  completed = q.completed ∙ p.completed;
  failed = q.failed ∙ p.failed;
}

-- A change of one connection's link and flag.
set-IsRelinked :
    (d : Daemon) (i : ℕ) (x : Connection) (next : Option ℕ) (on : Bool)
    → get_elem? d.pool.connections i ≡ some x
    → IsRelinked d (set_conn d i (record x { on_dirty_list = on; dirty_next = next }))
set-IsRelinked d i x next on e = record {
  kept =
      set-Kept d.pool.connections i x (record x { on_dirty_list = on; dirty_next = next }) e refl
        refl;
  free = refl;
  limit = refl;
  active = refl;
  ring = refl;
  mode = refl;
  started = refl;
  completed = refl;
  failed = refl;
}

pub set_dirty_next-IsRelinked :
    (d : Daemon) (i : ℕ) (next : Option ℕ) → IsRelinked d (set_dirty_next d i next)
unfolding set_dirty_next put_dirty
set_dirty_next-IsRelinked d i next = elim (Option-cases (get_elem? d.pool.connections i)) [
  | inl e ↦ rw e (IsRelinked-refl d)
  | inr (x, e) ↦ rw e (set-IsRelinked d i x next x.on_dirty_list e)
]

pub set_flags-IsRelinked : (d : Daemon) (i : ℕ) (on : Bool) → IsRelinked d (set_flags d i on)
unfolding set_flags put_dirty
set_flags-IsRelinked d i on = elim (Option-cases (get_elem? d.pool.connections i)) [
  | inl e ↦ rw e (IsRelinked-refl d)
  | inr (x, e) ↦ rw e (set-IsRelinked d i x none on e)
]

pub ends-IsRelinked :
    (d : Daemon) (h t : Option ℕ) → IsRelinked d (record d { dirty_head = h; dirty_tail = t })
ends-IsRelinked d h t = record {
  kept = Kept-refl d.pool.connections;
  free = refl;
  limit = refl;
  active = refl;
  ring = refl;
  mode = refl;
  started = refl;
  completed = refl;
  failed = refl;
}

unlink_after-IsRelinked :
    (d : Daemon) (c : ℕ) (prev : Option ℕ) → IsRelinked d (unlink_after d c prev)
unfolding unlink_after
unlink_after-IsRelinked d c (some p) = set_dirty_next-IsRelinked d p (dirty_next_of d c)
unlink_after-IsRelinked d c none = ends-IsRelinked d (dirty_next_of d c) d.dirty_tail

pub if-IsRelinked :
    (d a b : Daemon) (t : Bool)
    → IsRelinked d a
    → IsRelinked d b
    → IsRelinked d (if t then a else b)
if-IsRelinked d a b true p q = p
if-IsRelinked d a b false p q = q

unlink-IsRelinked : (d : Daemon) (c : ℕ) (prev : Option ℕ) → IsRelinked d (unlink d c prev)
unlink-IsRelinked d c prev =
    unfold unlink in
    let a = unlink_after d c prev in
    if-IsRelinked d (record a { dirty_tail = prev }) a (is_index d.dirty_tail c)
      (IsRelinked-trans (unlink_after-IsRelinked d c prev) (ends-IsRelinked a a.dirty_head prev))
      (unlink_after-IsRelinked d c prev)

walk-IsRelinked :
    (n : ℕ) (d : Daemon) (c : ℕ) (prev curr : Option ℕ) → IsRelinked d (walk n d c prev curr)
unfolding walk
walk-IsRelinked zero d c prev curr = IsRelinked-refl d
walk-IsRelinked (suc n) d c prev none = IsRelinked-refl d
walk-IsRelinked (suc n) d c prev (some i) =
    if-IsRelinked d (unlink d c prev) (walk n d c (some i) (dirty_next_of d i)) (i == c)
      (unlink-IsRelinked d c prev) (walk-IsRelinked n d c (some i) (dirty_next_of d i))

pub unmark-IsRelinked : (d : Daemon) (c : ℕ) → IsRelinked d (daemon_unmark_connection_dirty d c)
unmark-IsRelinked d c =
    unfold daemon_unmark_connection_dirty in
    let a = walk (length d.pool.connections) d c none d.dirty_head in
    if-IsRelinked d (set_flags a c false) d (is_on_list d c)
      (IsRelinked-trans (walk-IsRelinked (length d.pool.connections) d c none d.dirty_head)
        (set_flags-IsRelinked a c false))
      (IsRelinked-refl d)

link_last-IsRelinked : (d : Daemon) (c : ℕ) (tail : Option ℕ) → IsRelinked d (link_last d c tail)
unfolding link_last
link_last-IsRelinked d c (some t) =
    let d' = set_dirty_next d t (some c) in
    IsRelinked-trans (set_dirty_next-IsRelinked d t (some c))
      (ends-IsRelinked d' d'.dirty_head (some c))
link_last-IsRelinked d c none = ends-IsRelinked d (some c) (some c)

pub mark-IsRelinked : (d : Daemon) (c : ℕ) → IsRelinked d (daemon_mark_connection_dirty d c)
mark-IsRelinked d c =
    unfold daemon_mark_connection_dirty in
    let d' = set_flags d c true in
    if-IsRelinked d d (link_last d' c d.dirty_tail) (is_on_list d c) (IsRelinked-refl d)
      (IsRelinked-trans (set_flags-IsRelinked d c true) (link_last-IsRelinked d' c d.dirty_tail))
