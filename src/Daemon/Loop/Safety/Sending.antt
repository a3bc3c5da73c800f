-- ===== src/Daemon/Loop/Safety/Sending.antt =====
-- daemon.c: what ends a handler keeps the daemon sound.
use mod_socket_handoff.Base.{ℕ, ◌≡◌, ◌≢◌, sym, ◌∙◌, Bool, true, false, length}
use mod_socket_handoff.Daemon.ConnPool.{Connection, ConnState, unused}
use mod_socket_handoff.Daemon.Ring.{Ring, ring_submit_write, ring_submit_linked_timeout}
use mod_socket_handoff.Daemon.Loop.State.{
  Kernel, Daemon, set_conn, with_ring, count_failed, count_completed,
}
use mod_socket_handoff.Daemon.Loop.Dirty.{cleanup_connection}
use mod_socket_handoff.Daemon.Loop.Sound.{
  Sound, Live, set-Sound, set-Live, ring-Sound, ring-Live, more-Sound, failed-Sound, failed-Live,
  completed-Sound, completed-Live, cleanup-Sound,
}
use mod_socket_handoff.Daemon.Loop.Handlers.{
  drop_failed, or_drop, after_write, send, start_streaming, sse_headers,
}

-- A change of the counters that leaves room for one connection to be freed.
pub record IsNote (c : ℕ) (note : Daemon → Daemon) : Type 0 where
  pub sound : (d : Daemon) → Sound 0 d → Sound 1 (note d)
  pub live : (d : Daemon) → Live d c → Live (note d) c

pub silent-IsNote : (c : ℕ) → IsNote c (λ (d : Daemon). d)
silent-IsNote c = record { sound = λ d s. more-Sound s; live = λ d l. l }

pub failed-IsNote : (c : ℕ) → IsNote c count_failed
failed-IsNote c = record { sound = λ d s. failed-Sound s; live = λ d l. failed-Live l }

pub completed-IsNote : (c n : ℕ) → IsNote c (count_completed n)
completed-IsNote c n = record {
  sound = λ d s. completed-Sound n s;
  live = λ d l. completed-Live n l;
}

pub cleanup_note-Sound :
    {c : ℕ} {note : Daemon → Daemon} (d : Daemon)
    → IsNote c note
    → Sound 0 d
    → Live d c
    → Sound 0 (cleanup_connection (note d) c)
cleanup_note-Sound {c} d n s l = cleanup-Sound c (n.sound d s) (n.live d l)

pub drop-Sound : {d : Daemon} (c : ℕ) → Sound 0 d → Live d c → Sound 0 (drop_failed c d)
drop-Sound {d} c s l = cleanup_note-Sound d (failed-IsNote c) s l

pub constructors-Used : {s t : ConnState} → t ≡ s → s ≢ unused → t ≢ unused
constructors-Used e n f = n (sym e ∙ f)

module _ (k : Kernel) where
  pub or_drop-Sound :
      {c : ℕ} {note : Daemon → Daemon} (d : Daemon) (o : Bool × Ring)
      → IsNote c note
      → Sound 0 d
      → Live d c
      → Sound 0 (or_drop k c note d o)
  unfolding or_drop
  or_drop-Sound d (true, r) n s l = ring-Sound r s
  or_drop-Sound d (false, r) n s l =
      cleanup_note-Sound (with_ring d r) n (ring-Sound r s) (ring-Live r l)

  after_write-Sound :
      {c : ℕ} {note : Daemon → Daemon} (id : ℕ) (d : Daemon) (o : Bool × Ring)
      → IsNote c note
      → Sound 0 d
      → Live d c
      → Sound 0 (after_write k c id note d o)
  unfolding after_write
  after_write-Sound {c} id d (true, r) n s l =
      or_drop-Sound d (ring_submit_linked_timeout k.room id d.write_timeout_ms r) (failed-IsNote c)
        s l
  after_write-Sound id d (false, r) n s l =
      cleanup_note-Sound (with_ring d r) n (ring-Sound r s) (ring-Live r l)

  pub send-Sound :
      {c : ℕ} {note : Daemon → Daemon} (conn : Connection) (buf len : ℕ) (d : Daemon)
      → IsNote c note
      → Sound 0 d
      → Live d c
      → Sound 0 (send k c conn buf len note d)
  unfolding send
  send-Sound conn buf len d n s l =
      after_write-Sound conn.id d (ring_submit_write k.room conn.id conn.client_fd buf len d.ring) n
        s l

  pub start_streaming-Sound :
      (d : Daemon) (c : ℕ) (conn : Connection)
      → conn.state ≢ unused
      → Sound 0 d
      → Live d c
      → Sound 0 (start_streaming k d c conn)
  unfolding start_streaming
  start_streaming-Sound d c conn n s l =
      let v : Connection = record conn { write_len = length sse_headers; write_offset = 0 } in
      send-Sound v k.headers_at (length sse_headers) (set_conn d c v) (failed-IsNote c)
        (set-Sound c v s l) (set-Live c v n l)
