-- ===== src/Daemon/Async/Steps/Safety.antt =====
-- daemon.c and curl_manager.c: the daemon with asynchronous writes stays sound.
use mod_socket_handoff.Base.{
  ℕ, ◌≡◌, ◌≢◌, refl, Option, none, some, Bytes, get_elem?, Bool-cases, inl, inr,
}
use mod_socket_handoff.Base.Int.{ℤ, pos, negsuc}
use mod_socket_handoff.Daemon.ConnPool.{
  Connection, ConnState, receiving_fd, parsing, curl_pending, unused,
}
use mod_socket_handoff.Daemon.ConnPool.Start.{indices}
use mod_socket_handoff.Daemon.Ring.{Op, recv_fd, write, ring_unpack_data, ring_submit}
use mod_socket_handoff.Daemon.Loop.State.{Kernel, Cqe, set_conn, close}
use mod_socket_handoff.Daemon.Loop.Sound.{
  Sound, set-Sound, set-Live, ring-Sound, close-Sound, close-Live,
}
use mod_socket_handoff.Daemon.Loop.Safety.{start-IsSound}
use mod_socket_handoff.Daemon.Loop.Safety.Sending.{drop-Sound}
use mod_socket_handoff.Daemon.Loop.Safety.Outgoing.{on_write-Sound, found_cases, dispatch_op-Sound}
use mod_socket_handoff.Daemon.Curl.Lines.{Outcome, failed, fine}
use mod_socket_handoff.Daemon.Curl.Request.{Setup, Sent, curl_manager_start_request}
use mod_socket_handoff.Daemon.Async.Writing.{Async, with_daemon}
use mod_socket_handoff.Daemon.Async.Flush.{is_writing}
use mod_socket_handoff.Daemon.Async.Receiving.{Request, write_callback}
use mod_socket_handoff.Daemon.Async.Kept.{Good}
use mod_socket_handoff.Daemon.Async.Kept.Written.{
  handle_async_write-Sound, flush_streaming_connections-Sound, writing_used,
}
use mod_socket_handoff.Daemon.Async.Kept.Received.{KeptLines}
use mod_socket_handoff.Daemon.Async.Kept.Ends.{write_callback-KeptLines, finish_request-Good}
use mod_socket_handoff.Daemon.Loop.Writes.{text_at}
use mod_socket_handoff.Daemon.Async.Steps.{
  requested, start_request_for, received_fd_async, received_async, on_recv_async, at_recv_async,
  on_write_async, at_write_async, dispatch_async, process_cqe_async, left_by, Step, complete,
  receive, end, flush, wait, stop, Reach, start, later,
}

requested-Sound :
    {c : ℕ} (s : Async) (conn : Connection) (o : Option Sent)
    → conn.state ≢ unused
    → Good c s.daemon
    → Sound 0 (requested s c conn o).daemon
unfolding requested
requested-Sound {c} s conn none u (v, l) = drop-Sound c (set-Sound c conn v l) (set-Live c conn u l)
requested-Sound {c} s conn (some sent) u (v, l) =
    set-Sound c (record conn { curl_easy = some sent.easy; state = curl_pending }) v l

module _ (k : Kernel) (u : Setup) where
  received_fd-Sound :
      {c : ℕ} (s : Async) (conn : Connection) (fd : Option ℕ)
      → conn.state ≢ unused
      → Good c s.daemon
      → Sound 0 (received_fd_async k u s c conn fd).daemon
  unfolding received_fd_async start_request_for
  received_fd-Sound {c} s conn none n (v, l) =
      drop-Sound c (set-Sound c conn v l) (set-Live c conn n l)
  received_fd-Sound {c} s conn (some fd) n (v, l) =
      let conn' : Connection = record conn { client_fd = pos fd; unix_fd = negsuc 0 } in
      let s' = with_daemon s (close conn.unix_fd (set_conn s.daemon c conn')) in
      let v' = close-Sound conn.unix_fd (set-Sound c conn' v l) in
      let l' = close-Live conn.unix_fd (set-Live c conn' n l) in
      let w : Connection = record conn' {
        state = parsing;
        handoff_data = k.parse conn.handoff_buf conn.handoff_len;
      } in
      elim (Bool-cases (k.is_stream fd)) [
        | inl e ↦ rw e (
            requested-Sound s' w
              (curl_manager_start_request u (text_at k.memory w.handoff_data.prompt)
                (text_at k.memory w.handoff_data.model) w.handoff_data.max_tokens)
              (λ z. cc) (v', l'))
        | inr e ↦ rw e (drop-Sound c v' l')
      ]

  received-Sound :
      {c : ℕ} (s : Async) (conn : Connection) (fd : Option ℕ) (res : ℤ)
      → conn.state ≢ unused
      → Good c s.daemon
      → Sound 0 (received_async k u s c conn fd res).daemon
  unfolding received_async
  received-Sound {c} s conn fd (negsuc e) n (v, l) = drop-Sound c v l
  received-Sound s conn fd (pos m) n g =
      received_fd-Sound s (record conn { handoff_len = m }) fd n g

  on_recv-Sound :
      (s : Async) (c : ℕ) (conn : Connection) (state : ConnState) (cqe : Cqe)
      → state ≡ conn.state
      → get_elem? s.daemon.pool.connections c ≡ some conn
      → Sound 0 s.daemon
      → Sound 0 (on_recv_async k u s c conn state cqe).daemon
  unfolding on_recv_async
  on_recv-Sound s c conn receiving_fd cqe e f v =
      received-Sound s conn cqe.received cqe.res (λ z. cc)
        (v, record { conn = conn; found = f; used = λ z. cc })
  on_recv-Sound s c conn _ cqe e f v = v

  at_recv-Sound :
      (s : Async) (c : ℕ) (o : Option Connection) (cqe : Cqe)
      → get_elem? s.daemon.pool.connections c ≡ o
      → Sound 0 s.daemon
      → Sound 0 (at_recv_async k u s c o cqe).daemon
  unfolding at_recv_async
  at_recv-Sound s c none cqe f v = v
  at_recv-Sound s c (some conn) cqe f v = on_recv-Sound s c conn conn.state cqe refl f v

  on_write_async-Sound :
      (s : Async) (c : ℕ) (conn : Connection) (buf : Option ℕ) (cqe : Cqe)
      → get_elem? s.daemon.pool.connections c ≡ some conn
      → Sound 0 s.daemon
      → Sound 0 (on_write_async k u s c conn buf cqe).daemon
  unfolding on_write_async
  on_write_async-Sound s c conn none cqe f v =
      on_write-Sound k s.daemon c cqe conn conn.state refl f v
  on_write_async-Sound s c conn (some b) cqe f v = elim (Bool-cases (is_writing conn.state)) [
    | inl e ↦
        let n = writing_used conn.state e in
        rw e (
          handle_async_write-Sound k s c conn cqe.res n
            (v, record { conn = conn; found = f; used = n }))
    | inr e ↦ rw e v
  ]

  at_write-Sound :
      (s : Async) (c : ℕ) (o : Option Connection) (cqe : Cqe)
      → get_elem? s.daemon.pool.connections c ≡ o
      → Sound 0 s.daemon
      → Sound 0 (at_write_async k u s c o cqe).daemon
  unfolding at_write_async
  at_write-Sound s c none cqe f v = v
  at_write-Sound s c (some conn) cqe f v =
      on_write_async-Sound s c conn conn.async_write_buf cqe f v

  dispatch-Sound :
      (s : Async) (cqe : Cqe) (op : Option Op) (c : ℕ)
      → Sound 0 s.daemon
      → Sound 0 (dispatch_async k u s cqe op c).daemon
  unfolding dispatch_async
  dispatch-Sound s cqe (some recv_fd) c v =
      found_cases k (λ (o : Option Connection). Sound 0 (at_recv_async k u s c o cqe).daemon)
        s.daemon c (unfold at_recv_async in v) (at_recv-Sound s c _ cqe refl v)
  dispatch-Sound s cqe (some write) c v =
      found_cases k (λ (o : Option Connection). Sound 0 (at_write_async k u s c o cqe).daemon)
        s.daemon c (unfold at_write_async in v) (at_write-Sound s c _ cqe refl v)
  dispatch-Sound s cqe op c v = dispatch_op-Sound k s.daemon cqe op c v

  process-Sound :
      (s : Async) (cqe : Cqe) → Sound 0 s.daemon → Sound 0 (process_cqe_async k u s cqe).daemon
  unfolding process_cqe_async
  process-Sound s cqe v =
      let (op, c) = ring_unpack_data cqe.user_data in dispatch-Sound s cqe op c v

left-Sound :
    (c : ℕ) (o : Outcome (Async × Request) ((Async × Request) × Bytes))
    → KeptLines c o
    → Sound 0 (left_by o).daemon
left-Sound c (failed (s, req)) v = v.0
left-Sound c (fine ((s, req), held)) (g, e) = g.0

step-Sound : {s s' : Async} → Step s s' → Sound 0 s.daemon → Sound 0 s'.daemon
step-Sound {s} (complete k u cqe) v = process-Sound k u s cqe v
step-Sound {s} (receive k alloc req held bytes l) v =
    left-Sound req.conn (write_callback k alloc ((s, req), held) bytes)
      (write_callback-KeptLines k alloc s req held bytes (v, l))
step-Sound {s} (end k alloc req result http_code l) v =
    (finish_request-Good k alloc s req result http_code (v, l)).0
step-Sound {s} (flush k stale) v = flush_streaming_connections-Sound k stale s v
step-Sound {s} wait v = ring-Sound (ring_submit s.daemon.ring) v
step-Sound {s} stop (ids, v) = (ids, record { pool = v.pool; idle = v.idle; tally = v.tally })

-- In the build for an LLM API, in every state that can be reached by any completions in any order, with bytes of responses
-- and ends of requests for connections in use and flushes in between, also flushes that go on after they have freed a
-- connection, and with any answers of the kernel, the allocator and libcurl: the free list is well formed and without repetition, every slot on it is
-- unused, the slots and those in use are all there are, and in benchmark mode the connections that were
-- completed, have failed or are active are at most those that were started.
pub async-Sound : {s : Async} → Reach s → Sound 0 s.daemon
async-Sound (start s pool h e z) =
    (indices 0 pool.max_connections, start-IsSound s.daemon pool h e z)
async-Sound (later r t) = step-Sound t (async-Sound r)
