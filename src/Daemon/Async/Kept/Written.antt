-- ===== src/Daemon/Async/Kept/Written.antt =====
-- daemon.c: the completion of an asynchronous write, and the flush.
use mod_socket_handoff.Base.{
  ℕ, zero, suc, ◌+◌, ◌%◌, ◌^◌, ◌&&◌, not, ◌≡◌, ◌≢◌, Bool, true, false, Option, none, some, Bytes,
  length, get_elem?, Option-cases, Bool-cases, inl, inr, if◌then◌else◌,
}
use mod_socket_handoff.Base.Int.{ℤ, pos, negsuc}
use mod_socket_handoff.Daemon.WriteBuffer.{
  WriteBuffer, write_buffer_has_data, write_buffer_is_busy, write_buffer_get_next,
  write_buffer_set_pending, write_buffer_consume,
}
use mod_socket_handoff.Daemon.ConnPool.{Connection, ConnState, unused}
use mod_socket_handoff.Daemon.Ring.{
  Ring, ring_submit, ring_submit_write, ring_submit_linked_timeout,
}
use mod_socket_handoff.Daemon.Loop.State.{
  Kernel, Daemon, set_conn, with_ring, count_failed, count_completed,
}
use mod_socket_handoff.Daemon.Loop.Dirty.{is_index}
use mod_socket_handoff.Daemon.Loop.Writes.{is_closing}
use mod_socket_handoff.Daemon.Loop.Relinked.{
  IsRelinked, IsRelinked-trans, if-IsRelinked, ends-IsRelinked, set_dirty_next-IsRelinked,
  set_flags-IsRelinked,
}
use mod_socket_handoff.Daemon.Loop.Sound.{Sound, Live, set-Sound, set-Live, cleanup-Sound}
use mod_socket_handoff.Daemon.Loop.Safety.Sending.{IsNote, failed-IsNote, completed-IsNote}
use mod_socket_handoff.Daemon.Async.Writing.{
  Async, with_daemon, set_buffer, cancel_request, cancel_at, cleanup_async, after_timeout,
  after_async_write, write_next, start_async_write, after_consume, written_async,
  handle_async_write,
}
use mod_socket_handoff.Daemon.Async.Flush.{
  is_writing, relink, take_out, after_start, flush_one, flush_round, flush_at, flush_from,
  flush_streaming_connections,
}
use mod_socket_handoff.Daemon.Async.Kept.{Good, set-Good, ring-Good, relinked-Sound}

cancelled :
    (s : Async) (c : ℕ) (conn : Connection) (easy : Option ℕ)
    → conn.state ≢ unused
    → Sound 1 s.daemon
    → Live s.daemon c
    → Sound 1 (cancel_request s c conn easy).daemon × Live (cancel_request s c conn easy).daemon c
unfolding cancel_request
cancelled s c conn none u v l = (v, l)
cancelled s c conn (some easy) u v l = (
  set-Sound c (record conn { curl_easy = none }) v l,
  set-Live c (record conn { curl_easy = none }) u l,
)

pub cleanup_async-Sound :
    {c : ℕ} {note : Daemon → Daemon} (s : Async)
    → IsNote c note
    → Good c s.daemon
    → Sound 0 (cleanup_async note c s).daemon
unfolding cleanup_async cancel_at
cleanup_async-Sound {c} {note} s n (v, l) =
    let noted = with_daemon s (note s.daemon) in
    let (v', l') =
      cancelled noted c l.conn l.conn.curl_easy l.used (n.sound s.daemon v) (n.live s.daemon l) in
    simp l.found (cleanup-Sound c v' l')

-- The state is sound, and unless the connection was freed it is still in use.
abbrev pub Started : ℕ → Bool × Async → Type 0
Started c (freed, s) = Sound 0 s.daemon × (freed ≡ false → Live s.daemon c)

kept-Started : {c : ℕ} (s : Async) → Good c s.daemon → Started c (false, s)
kept-Started s (v, l) = (v, λ e. l)

freed-Started : {c : ℕ} (s : Async) → Sound 0 s.daemon → Started c (true, s)
freed-Started s v = (v, λ e. cc)

module _ (k : Kernel) where
  after_timeout-Started :
      (c b : ℕ) (wb : WriteBuffer) (s : Async) (o : Bool × Ring)
      → Good c s.daemon
      → Started c (after_timeout k c b wb s o)
  unfolding after_timeout
  after_timeout-Started c b wb s (true, r) g =
      kept-Started
        (set_buffer (with_daemon s (with_ring s.daemon (ring_submit r))) b
          (write_buffer_set_pending wb true))
        (ring-Good (ring_submit r) g)
  after_timeout-Started c b wb s (false, r) g =
      let s' = with_daemon s (with_ring s.daemon r) in
      freed-Started (cleanup_async count_failed c s')
        (cleanup_async-Sound s' (failed-IsNote c) (ring-Good r g))

  after_async_write-Started :
      (c id b : ℕ) (wb : WriteBuffer) (s : Async) (o : Bool × Ring)
      → Good c s.daemon
      → Started c (after_async_write k c id b wb s o)
  unfolding after_async_write
  after_async_write-Started c id b wb s (true, r) g =
      after_timeout-Started c b wb s
        (ring_submit_linked_timeout k.room id s.daemon.write_timeout_ms r) g
  after_async_write-Started c id b wb s (false, r) g =
      let s' = with_daemon s (with_ring s.daemon r) in
      freed-Started (cleanup_async count_failed c s')
        (cleanup_async-Sound s' (failed-IsNote c) (ring-Good r g))

  write_next-Started :
      (c : ℕ) (conn : Connection) (b : ℕ) (wb : WriteBuffer) (s : Async) (next : Option Bytes)
      → Good c s.daemon
      → Started c (write_next k c conn b wb s next)
  unfolding write_next
  write_next-Started c conn b wb s none g = kept-Started s g
  write_next-Started c conn b wb s (some text) g =
      after_async_write-Started c conn.id b wb s
        (ring_submit_write k.room conn.id conn.client_fd (wb.block + wb.tail) (length text)
          s.daemon.ring)
        g

  if-Started :
      {c : ℕ} (a b : Bool × Async) (t : Bool)
      → Started c a
      → Started c b
      → Started c (if t then a else b)
  if-Started a b true p q = p
  if-Started a b false p q = q

  start-Started :
      (c : ℕ) (conn : Connection) (b : ℕ) (s : Async)
      → Good c s.daemon
      → Started c (start_async_write k c conn b s)
  start-Started c conn b s g =
      unfold start_async_write in
      let wb = s.buffers b in
      if-Started (write_next k c conn b wb s (write_buffer_get_next wb)) (false, s)
        (write_buffer_has_data wb && not (write_buffer_is_busy wb))
        (write_next-Started c conn b wb s (write_buffer_get_next wb) g) (kept-Started s g)

  ended-Sound :
      (c n : ℕ) (t : Bool) (s : Async)
      → Good c s.daemon
      → Sound 0 (if t then cleanup_async (count_completed n) c s else s).daemon
  ended-Sound c n true s g = cleanup_async-Sound s (completed-IsNote c n) g
  ended-Sound c n false s g = g.0

  consumed-Sound :
      (c : ℕ) (conn : Connection) (b : ℕ) (s : Async) (t : Bool)
      → Good c s.daemon
      → Sound 0
          (if t
            then (start_async_write k c conn b s).1
            else if is_closing conn.state
            then cleanup_async (count_completed conn.bytes_sent) c s
            else s).daemon
  consumed-Sound c conn b s true g = (start-Started c conn b s g).0
  consumed-Sound c conn b s false g = ended-Sound c conn.bytes_sent (is_closing conn.state) s g

  written-Sound :
      (c : ℕ) (conn : Connection) (n : ℕ) (s : Async) (buf : Option ℕ)
      → Good c s.daemon
      → Sound 0 (written_async k c conn n s buf).daemon
  unfolding written_async after_consume
  written-Sound c conn n s none g = ended-Sound c conn.bytes_sent (is_closing conn.state) s g
  written-Sound c conn n s (some b) g =
      let wb = (write_buffer_consume (s.buffers b) n).1 in
      let s' = set_buffer s b (write_buffer_set_pending wb false) in
      consumed-Sound c conn b s' (write_buffer_has_data (s'.buffers b)) g

  pub handle_async_write-Sound :
      (s : Async) (c : ℕ) (conn : Connection) (res : ℤ)
      → conn.state ≢ unused
      → Good c s.daemon
      → Sound 0 (handle_async_write k s c conn res).daemon
  unfolding handle_async_write
  handle_async_write-Sound s c conn (negsuc e) u g = cleanup_async-Sound s (failed-IsNote c) g
  handle_async_write-Sound s c conn (pos n) u g =
      let conn' : Connection = record conn { bytes_sent = (conn.bytes_sent + n) % 2 ^ 64 } in
      written-Sound c conn' n (with_daemon s (set_conn s.daemon c conn')) conn.async_write_buf
        (set-Good s.daemon conn' u g)

relink-IsRelinked : (d : Daemon) (prev next : Option ℕ) → IsRelinked d (relink d prev next)
unfolding relink
relink-IsRelinked d none next = ends-IsRelinked d next d.dirty_tail
relink-IsRelinked d (some p) next = set_dirty_next-IsRelinked d p next

take_out-IsRelinked :
    (d : Daemon) (c : ℕ) (prev next : Option ℕ) → IsRelinked d (take_out d c prev next)
take_out-IsRelinked d c prev next =
    unfold take_out in
    let a = relink d prev next in
    let b : Daemon = if is_index d.dirty_tail c then record a { dirty_tail = prev } else a in
    IsRelinked-trans (relink-IsRelinked d prev next) (
      IsRelinked-trans
        (if-IsRelinked a (record a { dirty_tail = prev }) a (is_index d.dirty_tail c)
          (ends-IsRelinked a a.dirty_head prev) (ends-IsRelinked a a.dirty_head a.dirty_tail))
        (set_flags-IsRelinked b c false))

pub writing_used : (s : ConnState) → is_writing s ≡ true → s ≢ unused
writing_used s e f = cc

module _ (k : Kernel) (stale : ℕ → WriteBuffer) where
  if-Sound :
      (a b : Option ℕ × Async) (t : Bool)
      → Sound 0 a.1.daemon
      → Sound 0 b.1.daemon
      → Sound 0 (if t then a else b).1.daemon
  if-Sound a b true p q = p
  if-Sound a b false p q = q

  after_start-Sound :
      (c b : ℕ) (prev next : Option ℕ) (o : Bool × Async)
      → Sound 0 o.1.daemon
      → Sound 0 (after_start k stale c b prev next o).1.daemon
  unfolding after_start
  after_start-Sound c b prev next (freed, s) v =
      let wb : WriteBuffer = if freed then stale b else s.buffers b in
      if-Sound (prev, with_daemon s (take_out s.daemon c prev next)) (some c, s)
        (not (write_buffer_has_data wb) && not (write_buffer_is_busy wb))
        (relinked-Sound (take_out-IsRelinked s.daemon c prev next) v) v

  flush_one-Sound :
      (s : Async) (c : ℕ) (conn : Connection) (prev buf : Option ℕ)
      → Good c s.daemon
      → Sound 0 (flush_one k stale s c conn prev buf).1.daemon
  unfolding flush_one
  flush_one-Sound s c conn prev none g = g.0
  flush_one-Sound s c conn prev (some b) g =
      after_start-Sound c b prev conn.dirty_next (start_async_write k c conn b s)
        (start-Started k c conn b s g).0

  round-Sound :
      (s : Async) (c : ℕ) (conn : Connection) (prev : Option ℕ)
      → get_elem? s.daemon.pool.connections c ≡ some conn
      → Sound 0 s.daemon
      → Sound 0 (flush_round k stale s c conn prev).1.daemon
  unfolding flush_round
  round-Sound s c conn prev e v = elim (Bool-cases (is_writing conn.state)) [
    | inl t ↦ rw t (
        flush_one-Sound s c conn prev conn.async_write_buf
          (v, record { conn = conn; found = e; used = writing_used conn.state t }))
    | inr f ↦ rw f (relinked-Sound (take_out-IsRelinked s.daemon c prev conn.dirty_next) v)
  ]

  flush-Sound :
      (n : ℕ) (prev curr : Option ℕ) (s : Async)
      → Sound 0 s.daemon
      → Sound 0 (flush_from k stale n prev curr s).daemon
  unfolding flush_from flush_at
  flush-Sound n prev none s v = v
  flush-Sound zero prev (some c) s v = v
  flush-Sound (suc n) prev (some c) s v =
      elim (Option-cases (get_elem? s.daemon.pool.connections c)) [
        | inl e ↦ rw e v
        | inr (conn, e) ↦
            let (prev', s') = flush_round k stale s c conn prev in
            rw e (flush-Sound n prev' conn.dirty_next s' (round-Sound s c conn prev e v))
      ]

  pub flush_streaming_connections-Sound :
      (s : Async) → Sound 0 s.daemon → Sound 0 (flush_streaming_connections k stale s).daemon
  unfolding flush_streaming_connections
  flush_streaming_connections-Sound s v =
      flush-Sound (length s.daemon.pool.connections) none s.daemon.dirty_head s v
