-- ===== src/Daemon/Loop/Safety/Incoming.antt =====
-- daemon.c: accepting, receiving and handing back keep the daemon sound.
use mod_socket_handoff.Base.{
  ℕ, zero, suc, ◌+◌, ◌≡◌, ◌≢◌, refl, ◌∙◌, Bool, true, false, Option, some, none, List, [], ◌∷◌,
  arith, get_elem?, length-set, get_elem?-set, lt-get_elem?, if◌then◌else◌,
}
use mod_socket_handoff.Base.Int.{ℤ, pos, negsuc}
use mod_socket_handoff.Daemon.ConnPool.{
  Connection, ConnState, unused, receiving_fd, parsing, llm_queued, streaming, streamed, closing,
  conn_alloc, Pool,
}
use mod_socket_handoff.Daemon.ConnPool.FreeList.{
  IsPool, IsChain-set, IsAllocation, exhausted, no_memory, given, alloc-IsAllocation,
}
use mod_socket_handoff.Daemon.ConnPool.Distinct.{Absent}
use mod_socket_handoff.Daemon.ConnPool.Allocated.{alloc-StatesKept, alloc_limit}
use mod_socket_handoff.Daemon.ConnPool.Kept.{Unused, Unused-set, Unused-Kept}
use mod_socket_handoff.Daemon.Ring.{ring_submit_accept, ring_submit_recvmsg}
use mod_socket_handoff.Daemon.ThreadPool.{ThreadPool, pool_get_completion}
use mod_socket_handoff.Daemon.Loop.State.{Kernel, Daemon, Cqe, set_conn, with_ring, count_started}
use mod_socket_handoff.Daemon.Loop.Sound.{
  IsSound, Sound, Live, set-Sound, set-Live, ring-Sound, tp-Sound, tp-Live, close-Sound, close-Live,
  if-Sound,
}
use mod_socket_handoff.Daemon.Loop.Handlers.{
  accept_again, resubmit_accept, receive, accepted, accept_fd, handle_accept, queue_or_drop,
  dispatch, received_fd, received, finish, finish_at, fetched, all_completions, handle_eventfd,
}
use mod_socket_handoff.Daemon.Loop.Safety.Sending.{
  silent-IsNote, completed-IsNote, cleanup_note-Sound, drop-Sound, or_drop-Sound,
  start_streaming-Sound,
}

-- A slot that was just given out, with the connection `v` in it, counted as started.
abbrev opened : Daemon → Pool → ℕ → Connection → Daemon
opened d after c v = count_started (set_conn (record d { pool = after }) c v)

opened-Sound :
    (d : Daemon) (c : ℕ) (ids : List ℕ) (after : Pool) (v : Connection)
    → IsSound 0 d (c ∷ ids)
    → IsPool after ids
    → Absent c ids
    → Unused after.connections ids
    → after.active_connections ≡ d.pool.active_connections + 1
    → Sound 0 (opened d after c v)
unfolding count_started
opened-Sound d c ids after v s p a u n = (
  ids,
  record {
    pool = record {
      chain = IsChain-set c v a p.chain;
      distinct = p.distinct;
      slots = length-set after.connections c v ∙ p.slots;
      active = p.active;
      small = p.small;
    };
    idle = Unused-set after.connections ids c v a u;
    tally = λ h. simp h (omega (arith, s.tally h, n));
  },
)

opened-Live :
    (d : Daemon) (c : ℕ) (after : Pool) (w v : Connection)
    → get_elem? after.connections c ≡ some w
    → v.state ≢ unused
    → Live (opened d after c v) c
unfolding count_started
opened-Live d c after w v e n = record {
  conn = v;
  found = get_elem?-set after.connections c v (lt-get_elem? after.connections c w e);
  used = n;
}

unopened-Sound :
    (d : Daemon) (ids : List ℕ) (after : Pool)
    → IsSound 0 d ids
    → IsPool after ids
    → Unused after.connections ids
    → after.max_connections ≡ d.pool.max_connections
    → Sound 0 (record d { pool = after })
unopened-Sound d ids after s p u m = (
  ids,
  record { pool = p; idle = u; tally = λ h. omega (arith, s.tally h, p.active, s.pool.active, m) },
)

module _ (k : Kernel) where
  accepted-Sound :
      (d : Daemon) (fd : ℕ) (ids : List ℕ) (o : Option ℕ × Pool)
      → IsSound 0 d ids
      → IsAllocation k.malloc d.pool ids o
      → Unused o.1.connections ids
      → o.1.max_connections ≡ d.pool.max_connections
      → Sound 0 (accepted k (record d { pool = o.1 }) fd o.0)
  unfolding accepted receive
  accepted-Sound d fd _ _ s exhausted u m =
      close-Sound (pos fd) (unopened-Sound d [] d.pool s s.pool u m)
  accepted-Sound d fd _ _ s (no_memory ids after e p) u m =
      close-Sound (pos fd) (unopened-Sound d ids after s p u m)
  accepted-Sound d fd _ _ s (given c ids after p a g n) u m =
      let w = g.conn in
      let v : Connection = record w { unix_fd = pos fd; state = receiving_fd } in
      let x = opened d after c v in
      simp (g.found) (
        or_drop-Sound k x (ring_submit_recvmsg k.room w.id (pos fd) (k.recv_context w.id) x.ring)
          (silent-IsNote c) (opened-Sound d c ids after v s p a u.1 n)
          (opened-Live d c after w v g.found (λ e. cc)))

  accept_fd-Sound : (d : Daemon) (res : ℤ) → Sound 0 d → Sound 0 (accept_fd k d res)
  unfolding accept_fd
  accept_fd-Sound d (negsuc e) s = s
  accept_fd-Sound d (pos fd) (ids, s) =
      accepted-Sound d fd ids (conn_alloc k.malloc d.pool) s
        (alloc-IsAllocation k.malloc d.pool ids s.pool)
        (Unused-Kept ids (alloc-StatesKept k.malloc d.pool) s.idle) (alloc_limit k.malloc d.pool)

  resubmit-Sound : (cqe : Cqe) (d : Daemon) → Sound 0 d → Sound 0 (resubmit_accept k cqe d)
  unfolding resubmit_accept
  resubmit-Sound cqe d s =
      let r = accept_again k 3 d.listen_fd (ring_submit_accept k.room d.listen_fd d.ring) in
      if-Sound d (if d.shutdown_requested then d else with_ring d r) cqe.more s
        (if-Sound d (with_ring d r) d.shutdown_requested s (ring-Sound r s))

  pub handle_accept-Sound : (d : Daemon) (cqe : Cqe) → Sound 0 d → Sound 0 (handle_accept k d cqe)
  unfolding handle_accept
  handle_accept-Sound d cqe s =
      accept_fd-Sound (resubmit_accept k cqe d) cqe.res (resubmit-Sound cqe d s)

  queue_or_drop-Sound :
      (d : Daemon) (c : ℕ) (o : Bool × ThreadPool)
      → Sound 0 d
      → Live d c
      → Sound 0 (queue_or_drop k d c o)
  unfolding queue_or_drop
  queue_or_drop-Sound d c (true, tp') s l = tp-Sound tp' s
  queue_or_drop-Sound d c (false, tp') s l = drop-Sound c (tp-Sound tp' s) (tp-Live tp' l)

  dispatch-Sound :
      (d : Daemon) (c : ℕ) (conn : Connection)
      → Sound 0 d
      → Live d c
      → Sound 0 (dispatch k d c conn)
  unfolding dispatch
  dispatch-Sound d c conn s l =
      let v : Connection = record conn { state = llm_queued } in
      if-Sound _ _ d.use_thread_pool
        (queue_or_drop-Sound (set_conn d c v) c _ (set-Sound c v s l) (set-Live c v (λ z. cc) l))
        (start_streaming-Sound k d c (record conn { state = streaming; stream_index = 0 }) (λ z. cc)
          s l)

  received_fd-Sound :
      (d : Daemon) (c : ℕ) (conn : Connection) (fd : Option ℕ)
      → conn.state ≢ unused
      → Sound 0 d
      → Live d c
      → Sound 0 (received_fd k d c conn fd)
  unfolding received_fd
  received_fd-Sound d c conn none n s l = drop-Sound c (set-Sound c conn s l) (set-Live c conn n l)
  received_fd-Sound d c conn (some fd) n s l =
      let v : Connection = record conn { client_fd = pos fd; unix_fd = negsuc 0 } in
      let s' = close-Sound conn.unix_fd (set-Sound c v s l) in
      let l' = close-Live conn.unix_fd (set-Live c v n l) in
      let w : Connection = record v {
        state = parsing;
        handoff_data = k.parse conn.handoff_buf conn.handoff_len;
      } in
      if-Sound _ _ (k.is_stream fd) (dispatch-Sound _ c w s' l') (drop-Sound c s' l')

  pub recv-Sound :
      (d : Daemon) (c : ℕ) (conn : Connection) (fd : Option ℕ) (res : ℤ)
      → conn.state ≢ unused
      → Sound 0 d
      → Live d c
      → Sound 0 (received k d c conn fd res)
  unfolding received
  recv-Sound d c conn fd (negsuc e) n s l = drop-Sound c s l
  recv-Sound d c conn fd (pos m) n s l =
      received_fd-Sound d c (record conn { handoff_len = m }) fd n s l

  finish-Sound :
      (d : Daemon) (c : ℕ) (conn : Connection) (state : ConnState)
      → (state ≡ conn.state)
      → get_elem? d.pool.connections c ≡ some conn
      → Sound 0 d
      → Sound 0 (finish k d c conn state)
  unfolding finish
  finish-Sound d c conn streaming e f s =
      start_streaming-Sound k d c conn (λ z. cc) s
        (record { conn = conn; found = f; used = λ z. cc })
  finish-Sound d c conn streamed e f s =
      cleanup_note-Sound d (completed-IsNote c conn.bytes_sent) s
        (record { conn = conn; found = f; used = λ z. cc })
  finish-Sound d c conn closing e f s =
      drop-Sound c s (record { conn = conn; found = f; used = λ z. cc })
  finish-Sound d c conn _ e f s = s

  finish_at-Sound :
      (d : Daemon) (c : ℕ) (o : Option Connection)
      → get_elem? d.pool.connections c ≡ o
      → Sound 0 d
      → Sound 0 (finish_at k d c o)
  unfolding finish_at
  finish_at-Sound d c none e s = s
  finish_at-Sound d c (some conn) e s = finish-Sound d c conn conn.state refl e s

  fetched-Sound :
      (rest : Daemon → Daemon) (d : Daemon) (o : Option ℕ × ThreadPool)
      → ((x : Daemon) → Sound 0 x → Sound 0 (rest x))
      → Sound 0 d
      → Sound 0 (fetched k rest d o)
  unfolding fetched
  fetched-Sound rest d (none, tp') h s = tp-Sound tp' s
  fetched-Sound rest d (some c, tp') h s = h _ (
      finish_at-Sound (record d { tp = tp' }) c (get_elem? d.pool.connections c) refl
        (tp-Sound tp' s))

  all_completions-Sound : (n : ℕ) (d : Daemon) → Sound 0 d → Sound 0 (all_completions k n d)
  unfolding all_completions
  all_completions-Sound zero d s = s
  all_completions-Sound (suc n) d s =
      fetched-Sound (all_completions k n) d (pool_get_completion d.tp) (all_completions-Sound n) s

  pub handle_eventfd-Sound : (d : Daemon) → Sound 0 d → Sound 0 (handle_eventfd k d)
  unfolding handle_eventfd
  handle_eventfd-Sound d s = all_completions-Sound d.tp.completion_size d s
