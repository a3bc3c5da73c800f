-- ===== src/Daemon/Loop/Stale.antt =====
-- daemon.c, `process_cqe`: completions that come after their connection is gone.
use mod_socket_handoff.Base.{
  ℕ, ◌^◌, ◌<◌, ◌≡◌, ◌≢◌, refl, ap, ◌∙◌, Option, some, none, get_elem?, Bool-cases, inl, inr, ltb,
}
use mod_socket_handoff.Daemon.ConnPool.{Connection, unused, conn_get}
use mod_socket_handoff.Daemon.Ring.{
  Op, accept, recv_fd, write, eventfd, timeout, cancel, curl_poll, curl_timeout, poll_cancel,
  ring_pack_data,
}
use mod_socket_handoff.Daemon.Ring.Packing.{unpack-pack}
use mod_socket_handoff.Daemon.Loop.State.{Kernel, Daemon, Cqe}
use mod_socket_handoff.Daemon.Loop.Steps.{
  process_cqe, dispatch_op, at_recv, at_write, on_recv, on_write, found,
}

-- The connection, where there is one, is not in use.
abbrev pub Vacant : Option Connection → Type 0
Vacant none = Unit
Vacant (some x) = x.state ≡ unused

either_way : (o : Option ℕ) (a b : Daemon) → a ≡ b → elim o [ none ↦ a | some x ↦ b ] ≡ b
either_way none a b e = e
either_way (some x) a b e = refl

module _ (k : Kernel) (d : Daemon) (c : ℕ) (cqe : Cqe) where
  at_recv-Vacant : (o : Option Connection) → Vacant o → at_recv k d c cqe o ≡ d
  unfolding at_recv on_recv
  at_recv-Vacant none v = refl
  at_recv-Vacant (some x) v = ap (on_recv k d c cqe x) v

  at_write-Vacant : (o : Option Connection) → Vacant o → at_write k d c cqe o ≡ d
  unfolding at_write on_write
  at_write-Vacant none v = refl
  at_write-Vacant (some x) v =
      either_way x.async_write_buf (on_write k d c cqe x x.state) d (ap (on_write k d c cqe x) v)

  found-Vacant : Vacant (get_elem? d.pool.connections c) → Vacant (found k d (conn_get d.pool c))
  unfolding conn_get
  found-Vacant v = elim (Bool-cases (ltb c d.pool.max_connections)) [
    | inl e ↦ simp e v
    | inr e ↦ simp e tt
  ]

  vacant :
      (op : Op)
      → op ≢ accept
      → op ≢ eventfd
      → Vacant (get_elem? d.pool.connections c)
      → dispatch_op k d cqe (some op) c ≡ d
  unfolding dispatch_op
  vacant accept a e v = absurd (a refl)
  vacant eventfd a e v = absurd (e refl)
  vacant recv_fd a e v = at_recv-Vacant (found k d (conn_get d.pool c)) (found-Vacant v)
  vacant write a e v = at_write-Vacant (found k d (conn_get d.pool c)) (found-Vacant v)
  vacant timeout a e v = refl
  vacant cancel a e v = refl
  vacant curl_poll a e v = refl
  vacant curl_timeout a e v = refl
  vacant poll_cancel a e v = refl

-- A completion that was packed for a connection which is not in use any more, or is not there, changes nothing,
-- whatever its operation, unless this is an accept or the event descriptor, which have no connection.
pub stale_completion :
    (k : Kernel) (d : Daemon) (c : ℕ) (cqe : Cqe) (op : Op)
    → c < 2 ^ 32
    → op ≢ accept
    → op ≢ eventfd
    → Vacant (get_elem? d.pool.connections c)
    → process_cqe k d (record cqe { user_data = ring_pack_data op c }) ≡ d
unfolding process_cqe
stale_completion k d c cqe op h a e v =
    let cqe' : Cqe = record cqe { user_data = ring_pack_data op c } in
    ap (λ (p : Option Op × ℕ). dispatch_op k d cqe' p.0 p.1) (unpack-pack op c h).0
    ∙ vacant k d c cqe' op a e v
