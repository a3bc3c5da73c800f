-- ===== src/Daemon/Loop/Sound.antt =====
-- daemon.c: the free list and the statistics, and what each part of a handler does to them.
use mathlib.Core.Path.{subst}
use mod_socket_handoff.Base.{
  ℕ, ◌+◌, ◌≤◌, ◌<◌, ◌≡◌, ◌≢◌, sym, ◌∙◌, Bool, true, false, Option, some, List, ◌∷◌, arith, length,
  get_elem?, get_elem?-set, length-set, lt-get_elem?, if◌then◌else◌,
}
use mod_socket_handoff.Base.Int.{ℤ}
use mod_socket_handoff.Daemon.ConnPool.{Connection, unused, conn_free}
use mod_socket_handoff.Daemon.ConnPool.Distinct.{Absent}
use mod_socket_handoff.Daemon.ConnPool.FreeList.{
  IsPool, IsChain, IsChain-set, free-IsPool, active_pos,
}
use mod_socket_handoff.Daemon.ConnPool.Kept.{
  Unused, Unused-Kept, Unused-set, Unused-Absent, Kept-StatesKept, IsChain-Kept, free-unused,
}
use mod_socket_handoff.Daemon.Ring.{Ring}
use mod_socket_handoff.Daemon.ThreadPool.{ThreadPool}
use mod_socket_handoff.Daemon.Loop.State.{
  Daemon, set_conn, with_ring, count_failed, count_completed, close,
}
use mod_socket_handoff.Daemon.Loop.Dirty.{cleanup_connection, daemon_unmark_connection_dirty}
use mod_socket_handoff.Daemon.Loop.Relinked.{IsRelinked, unmark-IsRelinked}

-- The slots `ids` are free and unused, and in benchmark mode what was started is more than what has ended or is
-- active, but for `extra` that have been counted as ended and are still to be freed.
pub record IsSound (extra : ℕ) (d : Daemon) (ids : List ℕ) : Type 0 where
  pub pool : IsPool d.pool ids
  pub idle : Unused d.pool.connections ids
  pub tally :
      d.benchmark_mode ≡ true
      → d.total_completed + d.total_failed + d.pool.active_connections ≤ d.total_started + extra

abbrev pub Sound : ℕ → Daemon → Type 0
Sound extra d = (ids : List ℕ) × IsSound extra d ids

-- The connection `c` is in use.
pub record Live (d : Daemon) (c : ℕ) : Type 0 where
  pub conn : Connection
  pub found : get_elem? d.pool.connections c ≡ some conn
  pub used : conn.state ≢ unused

Live-Absent :
    (extra : ℕ) (d : Daemon) (c : ℕ) (ids : List ℕ) → IsSound extra d ids → Live d c → Absent c ids
Live-Absent extra d c ids v l = Unused-Absent d.pool.connections ids c l.conn l.found l.used v.idle

Live-lt : (d : Daemon) (c : ℕ) → Live d c → c < length d.pool.connections
Live-lt d c l = lt-get_elem? d.pool.connections c l.conn l.found

pub if-Sound :
    {extra : ℕ} (a b : Daemon) (t : Bool)
    → Sound extra a
    → Sound extra b
    → Sound extra (if t then a else b)
if-Sound a b true p q = p
if-Sound a b false p q = q

pub set-Sound :
    {extra : ℕ} {d : Daemon} (c : ℕ) (v : Connection)
    → Sound extra d
    → Live d c
    → Sound extra (set_conn d c v)
set-Sound {extra} {d} c v (ids, s) l =
    let a = Live-Absent extra d c ids s l in
    (
      ids,
      record {
        pool = record {
          chain = IsChain-set c v a s.pool.chain;
          distinct = s.pool.distinct;
          slots = length-set d.pool.connections c v ∙ s.pool.slots;
          active = s.pool.active;
          small = s.pool.small;
        };
        idle = Unused-set d.pool.connections ids c v a s.idle;
        tally = s.tally;
      },
    )

pub set-Live :
    {d : Daemon} (c : ℕ) (v : Connection) → v.state ≢ unused → Live d c → Live (set_conn d c v) c
set-Live {d} c v n l = record {
  conn = v;
  found = get_elem?-set d.pool.connections c v (Live-lt d c l);
  used = n;
}

pub ring-Sound : {extra : ℕ} {d : Daemon} (r : Ring) → Sound extra d → Sound extra (with_ring d r)
ring-Sound r (ids, s) = (ids, record { pool = s.pool; idle = s.idle; tally = s.tally })

pub ring-Live : {d : Daemon} {c : ℕ} (r : Ring) → Live d c → Live (with_ring d r) c
ring-Live r l = record { conn = l.conn; found = l.found; used = l.used }

pub tp-Sound :
    {extra : ℕ} {d : Daemon} (tp' : ThreadPool)
    → Sound extra d
    → Sound extra (record d { tp = tp' })
tp-Sound tp' (ids, s) = (ids, record { pool = s.pool; idle = s.idle; tally = s.tally })

pub tp-Live : {d : Daemon} {c : ℕ} (tp' : ThreadPool) → Live d c → Live (record d { tp = tp' }) c
tp-Live tp' l = record { conn = l.conn; found = l.found; used = l.used }

pub close-Sound : {extra : ℕ} {d : Daemon} (fd : ℤ) → Sound extra d → Sound extra (close fd d)
close-Sound fd (ids, s) = (
  ids,
  record {
    pool = record {
      chain = s.pool.chain;
      distinct = s.pool.distinct;
      slots = s.pool.slots;
      active = s.pool.active;
      small = s.pool.small;
    };
    idle = s.idle;
    tally = s.tally;
  },
)

pub close-Live : {d : Daemon} {c : ℕ} (fd : ℤ) → Live d c → Live (close fd d) c
close-Live fd l = record { conn = l.conn; found = l.found; used = l.used }

pub more-Sound : {d : Daemon} → Sound 0 d → Sound 1 d
more-Sound (ids, s) =
    (ids, record { pool = s.pool; idle = s.idle; tally = λ h. omega (arith, s.tally h) })

pub failed-Sound : {d : Daemon} → Sound 0 d → Sound 1 (count_failed d)
unfolding count_failed
failed-Sound (ids, s) =
    (ids, record { pool = s.pool; idle = s.idle; tally = λ h. simp h (omega (arith, s.tally h)) })

pub completed-Sound : {d : Daemon} (n : ℕ) → Sound 0 d → Sound 1 (count_completed n d)
unfolding count_completed
completed-Sound n (ids, s) =
    (ids, record { pool = s.pool; idle = s.idle; tally = λ h. simp h (omega (arith, s.tally h)) })

pub failed-Live : {d : Daemon} {c : ℕ} → Live d c → Live (count_failed d) c
unfolding count_failed
failed-Live l = record { conn = l.conn; found = l.found; used = l.used }

pub completed-Live : {d : Daemon} {c : ℕ} (n : ℕ) → Live d c → Live (count_completed n d) c
unfolding count_completed
completed-Live n l = record { conn = l.conn; found = l.found; used = l.used }

pub relinked-IsSound :
    {extra : ℕ} {d d' : Daemon} (ids : List ℕ)
    → IsRelinked d d'
    → IsSound extra d ids
    → IsSound extra d' ids
relinked-IsSound {extra} {d} {d'} ids r s = record {
  pool = record {
    chain =
        subst (λ (o : Option ℕ). IsChain d'.pool.connections o ids) (sym r.free)
          (IsChain-Kept r.kept s.pool.chain);
    distinct = s.pool.distinct;
    slots = r.kept.same_length ∙ s.pool.slots ∙ sym r.limit;
    active = omega (arith, r.active, r.limit, s.pool.active);
    small = omega (arith, r.limit, s.pool.small);
  };
  idle = Unused-Kept ids (Kept-StatesKept r.kept) s.idle;
  tally = λ h. omega (arith, s.tally (sym r.mode ∙ h), r.active, r.started, r.completed, r.failed);
}

pub relinked-Live : {d d' : Daemon} {c : ℕ} → IsRelinked d d' → Live d c → Live d' c
relinked-Live {c} r l =
    let (y, f, n, t) = r.kept.same c l.conn l.found in
    record { conn = y; found = f; used = λ e. l.used (sym t ∙ e) }

free-IsSound :
    (d : Daemon) (c : ℕ) (ids : List ℕ)
    → IsSound 1 d ids
    → Live d c
    → IsSound 0 (record d { pool = conn_free d.pool c }) (c ∷ ids)
free-IsSound d c ids s l =
    let a = Live-Absent 1 d c ids s l in
    let b : c < d.pool.max_connections = omega (arith, Live-lt d c l, s.pool.slots) in
    let (x, e, f, u, n) = free-unused d.pool c l.conn l.found in
    record {
      pool = free-IsPool d.pool c ids s.pool b a;
      idle = (
        (x, f, u),
        subst (λ (conns : List Connection). Unused conns ids) (sym e)
            (Unused-set d.pool.connections ids c x a s.idle),
      );
      tally = λ h.
          omega
            (arith, n, s.tally h, active_pos d.pool c ids s.pool b a, s.pool.active, s.pool.small);
    }

-- A connection that is in use can be cleaned up.
pub cleanup-Sound : {d : Daemon} (c : ℕ) → Sound 1 d → Live d c → Sound 0 (cleanup_connection d c)
unfolding cleanup_connection
cleanup-Sound {d} c (ids, s) l =
    let r = unmark-IsRelinked d c in
    (
      c ∷ ids,
      free-IsSound (daemon_unmark_connection_dirty d c) c ids (relinked-IsSound ids r s)
          (relinked-Live r l),
    )
