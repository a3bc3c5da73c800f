-- ===== src/Apache/Filter/Ownership.antt =====
-- mod_socket_handoff.c, `socket_handoff_output_filter`: who owns the client's connection afterwards.
use mod_socket_handoff.Base.{
  ℕ, ◌+◌, ◌≡◌, refl, sym, ap, leb, Bool-cases, ◌⊎◌, inl, inr, Bool, true, false, Option, none, some,
  List, [], ◌∷◌, ◌++◌, Bytes, arith, ◌∙◌, Option-cases,
}
use mod_socket_handoff.Apache.Config.{Config}
use mod_socket_handoff.Apache.Os.{Os, Result, ok, err, World, closed, tick, remove}
use mod_socket_handoff.Apache.Retry.{connect_with_retry}
use mod_socket_handoff.Apache.Retry.Bounds.{IsBounded, retry-IsBounded}
use mod_socket_handoff.Apache.Send.{send_fd_with_data, payload, fd_was_sent}
use mod_socket_handoff.Apache.Send.Delivery.{IsAtomic, IsDelivery, send-IsDelivery, send-flag}
use mod_socket_handoff.Apache.Filter.{
  Apr, State, Conn, Bucket, refuse, error_page, commit, after_send, after_connect_retry, transfer,
  after_dummy, create_dummy, after_validate, handle, output_filter, find_header, handoff_header,
  handoff_data_header, Request, delete_buckets, client_fd, after_client,
}
use mod_socket_handoff.Apache.SocketPath.{Verdict, deny, fault, allow, validate_socket_path}
use mod_socket_handoff.Apache.Deadline.{compute_handoff_deadline}
use mod_socket_handoff.Apache.Deadline.Budget.{delays}

delete_buckets-nil : (bs : List Bucket) → delete_buckets bs ≡ []
unfolding delete_buckets
delete_buckets-nil [] = refl
delete_buckets-nil (b ∷ bs) = delete_buckets-nil bs

module _ {Table : Type 0} (apr : Apr Table) where
  -- The daemon has the client: one message with the client's descriptor and the data went out, the
  -- dummy has the socket's place, httpd is told to stop, and nothing went to the next filter.
  pub record IsHandedOff (handoff_data : Option Bytes) (st : State Table) (status : ℕ)
      (st' : State Table) : Type 0 where
    pub handle : ℕ
    pub client : ℕ
    pub sock : ℕ
    pub dummy : ℕ
    pub had : st.conn.core_socket ≡ some handle
    pub descriptor : apr.os_sock_get handle ≡ some client
    pub message :
        st'.world.sent
        ≡ st.world.sent ++ (record { via = sock; fd = client; bytes = payload handoff_data } ∷ [])
    pub swapped : st'.conn.core_socket ≡ some dummy
    pub aborted : st'.conn.aborted ≡ true
    pub silent : st'.passed ≡ st.passed
    pub success : status ≡ 0
    pub closed_daemon : st'.world.fds ≡ st.world.fds
    pub removed : st'.installed ≡ false

  -- Apache keeps the client: nothing was sent, the connection is as it was, and the next filter
  -- gets one error page of status `code`, with the headers cleared.
  pub record IsRefused (st : State Table) (status : ℕ) (st' : State Table) : Type 0 where
    pub code : ℕ
    pub known : (code ≡ 403) ⊎ (code ≡ 500) ⊎ (code ≡ 503)
    pub unsent : st'.world.sent ≡ st.world.sent
    pub kept : st'.conn ≡ st.conn
    pub page : st'.passed ≡ st.passed ++ (error_page apr code ∷ [])
    pub coded : st'.request.status ≡ code
    pub cleared : st'.request.headers_out ≡ apr.table_clear st.request.headers_out
    pub err_cleared : st'.request.err_headers_out ≡ apr.table_clear st.request.err_headers_out
    pub returned : status ≡ apr.pass_brigade (error_page apr code)
    pub closed_daemon : st'.world.fds ≡ st.world.fds
    pub removed : st'.installed ≡ false

  abbrev pub IsDone : Option Bytes → State Table → ℕ × State Table → Type 0
  IsDone handoff_data st out = IsHandedOff handoff_data st out.0 out.1 ⊎ IsRefused st out.0 out.1

  -- Nothing that counts has changed on the way from `st₀` to `st`.
  record IsSame (st₀ st : State Table) : Type 0 where
    sent : st.world.sent ≡ st₀.world.sent
    fds : st.world.fds ≡ st₀.world.fds
    conn : st.conn ≡ st₀.conn
    passed : st.passed ≡ st₀.passed
    request : st.request ≡ st₀.request

  refuse-IsRefused :
      (code : ℕ) (st₀ st : State Table)
      → (code ≡ 403) ⊎ (code ≡ 500) ⊎ (code ≡ 503)
      → IsSame st₀ st
      → let (s, st') = refuse apr code st in IsRefused st₀ s st'
  unfolding refuse
  refuse-IsRefused code st₀ st k h = record {
    code = code;
    known = k;
    unsent = h.sent;
    kept = h.conn;
    page = ground (arith, delete_buckets-nil st.brigade, h.passed);
    coded = refl;
    cleared = ap (λ (r : Request Table). apr.table_clear r.headers_out) h.request;
    err_cleared = ap (λ (r : Request Table). apr.table_clear r.err_headers_out) h.request;
    returned = ground (arith, delete_buckets-nil st.brigade);
    closed_daemon = h.fds;
    removed = refl;
  }

  remove_self : (sock : ℕ) (xs : List ℕ) → remove sock (sock ∷ xs) ≡ xs
  remove_self sock xs = ground arith

  after_send-IsDone :
      (sock dummy fd handle timeout : ℕ) (handoff_data : Option Bytes) (w : World)
      (st₀ st : State Table) (out : (Result (Unit {0}) × Bool) × World)
      → IsSame st₀ st
      → st₀.conn.core_socket ≡ some handle
      → apr.os_sock_get handle ≡ some fd
      → w.sent ≡ st₀.world.sent
      → w.fds ≡ sock ∷ st₀.world.fds
      → IsDelivery timeout sock fd handoff_data w out.0.0 out.1
      → out.0.1 ≡ fd_was_sent out.0.0
      → IsDone handoff_data st₀ (after_send apr sock dummy out st)
  unfolding after_send commit
  after_send-IsDone sock dummy fd handle timeout handoff_data w st₀ st ((ok u, was_sent), w') h c o
        e f d g =
      inl (record {
        handle = handle;
        client = fd;
        sock = sock;
        dummy = dummy;
        had = c;
        descriptor = o;
        message = ground (arith, d.delivered);
        swapped = refl;
        aborted = refl;
        silent = h.passed;
        success = refl;
        closed_daemon = ground (arith, d.fds, remove_self sock st₀.world.fds);
        removed = refl;
      })
  after_send-IsDone sock dummy fd handle timeout handoff_data w st₀ st ((err x, true), w') h c o e f
        d g =
      cc
  after_send-IsDone sock dummy fd handle timeout handoff_data w st₀ st ((err x, false), w') h c o e
        f d g =
      inr (
        refuse-IsRefused 500 st₀ (record st { world = closed sock w' }) (inr (inl refl))
          (record {
            sent = ground (arith, d.delivered);
            fds = ground (arith, d.fds, remove_self sock st₀.world.fds);
            conn = h.conn;
            passed = h.passed;
            request = h.request;
          }))

  transfer-IsDone :
      (os : Os) (conf : Config) (path : Bytes) (handoff_data : Option Bytes) (dummy fd handle : ℕ)
      (st₀ st : State Table)
      → IsAtomic os handoff_data
      → IsSame st₀ st
      → st₀.conn.core_socket ≡ some handle
      → apr.os_sock_get handle ≡ some fd
      → IsDone handoff_data st₀ (transfer apr os conf path handoff_data dummy fd st)
  unfolding transfer
  transfer-IsDone os conf path handoff_data dummy fd handle st₀ st atomic h c o =
      connected
        (connect_with_retry os path conf.connect_timeout_ms conf.max_retries deadline (tick w))
        (retry-IsBounded os path conf.connect_timeout_ms conf.max_retries deadline (tick w))
    where
      w : World
      w = st.world

      deadline : ℕ
      deadline = compute_handoff_deadline (os.now w.calls) conf

      connected :
          (out : Option ℕ × World)
          → IsBounded
              (conf.max_retries + 1)
              conf.connect_timeout_ms
              (delays conf.max_retries)
              (tick w)
              out.0
              out.1
          → IsDone handoff_data st₀
              (after_connect_retry apr os conf dummy fd handoff_data deadline out st)
      connected (none, w') b =
          unfold after_connect_retry in
          inr (
            refuse-IsRefused 503 st₀ (record st { world = w' }) (inr (inr refl))
              (record {
                sent = b.sent ∙ h.sent;
                fds = b.sockets ∙ h.fds;
                conn = h.conn;
                passed = h.passed;
                request = h.request;
              }))
      connected (some sock, w') b =
          unfold after_connect_retry in
          after_send-IsDone sock dummy fd handle conf.send_timeout_ms handoff_data w' st₀ st
            (send_fd_with_data os sock fd handoff_data conf.send_timeout_ms deadline w') h c o
            (b.sent ∙ h.sent) (b.sockets ∙ ap (◌∷◌ sock) h.fds)
            (send-IsDelivery os sock fd handoff_data conf.send_timeout_ms deadline w' atomic)
            (send-flag os sock fd handoff_data conf.send_timeout_ms deadline w')

  client_fd-some :
      (c : Conn) {fd : ℕ}
      → client_fd apr c ≡ some fd
      → (handle : ℕ) × (c.core_socket ≡ some handle) × (apr.os_sock_get handle ≡ some fd)
  unfolding client_fd
  client_fd-some c e = elim (Option-cases c.core_socket) [
    | inl g ↦ absurd (ground arith)
    | inr (handle, g) ↦ (handle, g, ground arith)
  ]

  client-IsDone :
      (os : Os) (conf : Config) (path : Bytes) (handoff_data : Option Bytes) (dummy : ℕ)
      (st₀ st : State Table) (o : Option ℕ)
      → IsAtomic os handoff_data
      → IsSame st₀ st
      → client_fd apr st₀.conn ≡ o
      → IsDone handoff_data st₀ (after_client apr os conf path handoff_data dummy o st)
  unfolding after_client
  client-IsDone os conf path handoff_data dummy st₀ st none atomic h e =
      inr (refuse-IsRefused 500 st₀ st (inr (inl refl)) h)
  client-IsDone os conf path handoff_data dummy st₀ st (some fd) atomic h e =
      let (handle, c, g) = client_fd-some st₀.conn e in
      transfer-IsDone os conf path handoff_data dummy fd handle st₀ st atomic h c g

  dummy-IsDone :
      (os : Os) (conf : Config) (path : Bytes) (handoff_data : Option Bytes) (dummy : Option ℕ)
      (st₀ st : State Table)
      → IsAtomic os handoff_data
      → IsSame st₀ st
      → IsDone handoff_data st₀ (after_dummy apr os conf path handoff_data dummy st)
  unfolding after_dummy
  dummy-IsDone os conf path handoff_data none st₀ st atomic h =
      inr (refuse-IsRefused 500 st₀ st (inr (inl refl)) h)
  dummy-IsDone os conf path handoff_data (some dummy) st₀ st atomic h =
      client-IsDone os conf path handoff_data dummy st₀
        (record st { brigade = delete_buckets st.brigade }) (client_fd apr st.conn) atomic
        (record {
          sent = h.sent;
          fds = h.fds;
          conn = h.conn;
          passed = h.passed;
          request = h.request;
        })
        (ap (client_fd apr) (sym h.conn))

  created-IsDone :
      (os : Os) (conf : Config) (path : Bytes) (st : State Table)
      → IsAtomic os (find_header apr handoff_data_header st.request)
      → IsDone
          (find_header apr handoff_data_header st.request)
          st
          (create_dummy apr os conf path st)
  unfolding create_dummy
  created-IsDone os conf path st atomic =
      dummy-IsDone os conf path (find_header apr handoff_data_header st.request)
        (apr.socket_create st.world.calls) st (record st { world = tick st.world }) atomic
        (record { sent = refl; fds = refl; conn = refl; passed = refl; request = refl })

  forbidden-IsDone :
      (st : State Table)
      → IsDone (find_header apr handoff_data_header st.request) st (refuse apr 403 st)
  forbidden-IsDone st = inr (
      refuse-IsRefused 403 st st (inl refl)
        (record { sent = refl; fds = refl; conn = refl; passed = refl; request = refl }))

  validate-IsDone :
      (os : Os) (conf : Config) (path : Bytes) (v : Verdict) (st : State Table)
      → IsAtomic os (find_header apr handoff_data_header st.request)
      → IsDone
          (find_header apr handoff_data_header st.request)
          st
          (after_validate apr os conf path v st)
  unfolding after_validate
  validate-IsDone os conf path allow st atomic = created-IsDone os conf path st atomic
  validate-IsDone os conf path deny st atomic = forbidden-IsDone st
  validate-IsDone os conf path fault st atomic = elim (Bool-cases (apr.stray path)) [
    | inl t ↦ rw t (created-IsDone os conf path st atomic)
    | inr t ↦ rw t (forbidden-IsDone st)
  ]

  pub filter-handle :
      (os : Os) (conf : Config) (st : State Table)
      → output_filter apr os conf st
        ≡ handle apr os conf (find_header apr handoff_header st.request) st
  unfolding output_filter
  filter-handle os conf st = refl

  handle-IsDone :
      (os : Os) (conf : Config) (path : Bytes) (st : State Table)
      → IsAtomic os (find_header apr handoff_data_header st.request)
      → IsDone
          (find_header apr handoff_data_header st.request)
          st
          (handle apr os conf (some path) st)
  unfolding handle
  handle-IsDone os conf path st atomic = elim (Bool-cases (leb 2000 st.request.proto_num)) [
    | inl t ↦ rw t (
        inr (
          refuse-IsRefused 500 st st (inr (inl refl))
            (record { sent = refl; fds = refl; conn = refl; passed = refl; request = refl })))
    | inr t ↦
        rw t (
          validate-IsDone os conf path (validate_socket_path apr.filepath_merge path conf) st
            atomic)
  ]

  -- A request with a handoff header ends in one of two ways, if `sendmsg` is atomic: the daemon
  -- has the client's connection and Apache has left it, or Apache keeps the connection, answers
  -- with one error page, and has sent nothing. Either way no socket to the daemon stays open.
  pub filter-IsDone :
      (os : Os) (conf : Config) (st : State Table) (path : Bytes)
      → find_header apr handoff_header st.request ≡ some path
      → IsAtomic os (find_header apr handoff_data_header st.request)
      → IsDone (find_header apr handoff_data_header st.request) st (output_filter apr os conf st)
  filter-IsDone os conf st path e atomic =
      rw (filter-handle os conf st, e) (handle-IsDone os conf path st atomic)
