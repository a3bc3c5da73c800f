-- ===== src/Daemon/Loop/Dirty.antt =====
-- daemon.c: the list of connections with data to write, linked by `dirty_next`, and `cleanup_connection`.
use mod_socket_handoff.Base.{
  ℕ, zero, suc, Bool, true, false, Option, none, some, length, get_elem?, ◌==◌, if◌then◌else◌,
}
use mod_socket_handoff.Daemon.ConnPool.{Connection, conn_free}
use mod_socket_handoff.Daemon.Loop.State.{Daemon, set_conn}

-- A write through a pointer to a connection.
unfoldable pub put_dirty : Daemon → ℕ → (Connection → Connection) → Option Connection → Daemon
put_dirty d i change none = d
put_dirty d i change (some x) = set_conn d i (change x)

unfoldable pub set_dirty_next : Daemon → ℕ → Option ℕ → Daemon
unfolding put_dirty
set_dirty_next d i next =
    put_dirty d i (λ (x : Connection). record x { dirty_next = next })
      (get_elem? d.pool.connections i)

unfoldable pub set_flags : Daemon → ℕ → Bool → Daemon
unfolding put_dirty
set_flags d i on =
    put_dirty d i (λ (x : Connection). record x { on_dirty_list = on; dirty_next = none })
      (get_elem? d.pool.connections i)

abbrev pub dirty_next_of : Daemon → ℕ → Option ℕ
dirty_next_of d i = elim (get_elem? d.pool.connections i) [ none ↦ none | some x ↦ x.dirty_next ]

abbrev pub is_on_list : Daemon → ℕ → Bool
is_on_list d i = elim (get_elem? d.pool.connections i) [ none ↦ false | some x ↦ x.on_dirty_list ]

abbrev pub is_index : Option ℕ → ℕ → Bool
is_index none c = false
is_index (some i) c = i == c

unfoldable pub link_last : Daemon → ℕ → Option ℕ → Daemon
unfolding set_dirty_next
link_last d c (some t) = record (set_dirty_next d t (some c)) { dirty_tail = some c }
link_last d c none = record d { dirty_head = some c; dirty_tail = some c }

unfoldable pub daemon_mark_connection_dirty : Daemon → ℕ → Daemon
unfolding link_last set_flags
daemon_mark_connection_dirty d c =
    if is_on_list d c then d else link_last (set_flags d c true) c d.dirty_tail

-- `c` is found behind `prev`.
unfoldable pub unlink_after : Daemon → ℕ → Option ℕ → Daemon
unfolding set_dirty_next
unlink_after d c (some p) = set_dirty_next d p (dirty_next_of d c)
unlink_after d c none = record d { dirty_head = dirty_next_of d c }

unfoldable pub unlink : Daemon → ℕ → Option ℕ → Daemon
unfolding unlink_after
unlink d c prev =
    let d' = unlink_after d c prev in
    if is_index d.dirty_tail c then record d' { dirty_tail = prev } else d'

-- The walk from `dirty_head`, for at most as many places as there are connections.
unfoldable pub walk : ℕ → Daemon → ℕ → Option ℕ → Option ℕ → Daemon
unfolding unlink
walk zero d c prev curr = d
walk (suc left) d c prev none = d
walk (suc left) d c prev (some i) =
    let rest = walk left d c (some i) (dirty_next_of d i) in
    if i == c then unlink d c prev else rest

unfoldable pub daemon_unmark_connection_dirty : Daemon → ℕ → Daemon
unfolding walk set_flags
daemon_unmark_connection_dirty d c =
    if is_on_list d c
    then set_flags (walk (length d.pool.connections) d c none d.dirty_head) c false
    else d

unfoldable pub cleanup_connection : Daemon → ℕ → Daemon
cleanup_connection d c =
    let d' = daemon_unmark_connection_dirty d c in record d' { pool = conn_free d'.pool c }
