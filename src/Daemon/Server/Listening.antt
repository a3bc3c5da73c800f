-- ===== src/Daemon/Server/Listening.antt =====
-- server.c: what is open, bound and removed after the start and after the end.
use mod_socket_handoff.Base.{
  ℕ, ◌≤◌, ◌≡◌, ◌≢◌, ◌⊎◌, refl, ap, ◌∙◌, Bool, true, false, Option, none, some, List, ◌∷◌, Bytes,
  length, take-all, ==_refl, Bool-cases, inl, inr,
}
use mathlib.Core.Path.{subst}
use mod_socket_handoff.Base.Int.{ℤ, pos, negsuc}
use mod_socket_handoff.Daemon.Server.{
  Os, World, Stat, found, absent, failed, Connected, connected, refused, in_progress, wrong_type,
  other, sun_path, remove_fd, opened, closed, after_probe, probe_socket, after_stat,
  server_check_stale_socket, bind_listener, with_socket, after_check, server_create_listener,
  close_listener, server_close_listener, or_cleanup, start_listener,
}

remove_first : (fd : ℕ) (fds : List ℕ) → remove_fd fd (fd ∷ fds) ≡ fds
unfolding remove_fd
remove_first fd fds = rw (==_refl fd) refl

-- What the check for an old socket does: it leaves no descriptor, and removes the path only if it is a socket at which
-- nobody listens.
pub record IsChecked (os : Os) (path : Bytes) (w : World) (o : Bool × World) : Type 0 where
  pub open_fds : o.1.open_fds ≡ w.open_fds
  pub bound : o.1.bound ≡ w.bound
  pub listen_fd : o.1.listen_fd ≡ w.listen_fd
  pub removed :
      (o.1.removed ≡ w.removed)
      ⊎ ((o.1.removed ≡ path ∷ w.removed)
          × (os.stat path ≡ found true)
          × (os.connect (sun_path path) ≡ refused))

unchanged : (os : Os) (path : Bytes) (w : World) (b : Bool) → IsChecked os path w (b, w)
unchanged os path w b = record {
  open_fds = refl;
  bound = refl;
  listen_fd = refl;
  removed = inl refl;
}

module _ (os : Os) (path : Bytes) (w : World) where
  probed-IsChecked :
      (fd : ℕ) (c : Connected)
      → os.stat path ≡ found true
      → os.connect (sun_path path) ≡ c
      → IsChecked os path w (after_probe path (closed fd (opened fd w)) c)
  unfolding after_probe
  probed-IsChecked fd refused e f = record {
    open_fds = remove_first fd w.open_fds;
    bound = refl;
    listen_fd = refl;
    removed = inr (refl, e, f);
  }
  probed-IsChecked fd connected e f = record {
    open_fds = remove_first fd w.open_fds;
    bound = refl;
    listen_fd = refl;
    removed = inl refl;
  }
  probed-IsChecked fd in_progress e f = record {
    open_fds = remove_first fd w.open_fds;
    bound = refl;
    listen_fd = refl;
    removed = inl refl;
  }
  probed-IsChecked fd wrong_type e f = record {
    open_fds = remove_first fd w.open_fds;
    bound = refl;
    listen_fd = refl;
    removed = inl refl;
  }
  probed-IsChecked fd other e f = record {
    open_fds = remove_first fd w.open_fds;
    bound = refl;
    listen_fd = refl;
    removed = inl refl;
  }

  probe-IsChecked :
      (o : Option ℕ) → os.stat path ≡ found true → IsChecked os path w (probe_socket os path w o)
  unfolding probe_socket
  probe-IsChecked none e = unchanged os path w false
  probe-IsChecked (some fd) e = probed-IsChecked fd (os.connect (sun_path path)) e refl

  stat-IsChecked : (s : Stat) → os.stat path ≡ s → IsChecked os path w (after_stat os path w s)
  unfolding after_stat
  stat-IsChecked absent e = unchanged os path w true
  stat-IsChecked failed e = unchanged os path w false
  stat-IsChecked (found false) e = unchanged os path w false
  stat-IsChecked (found true) e = probe-IsChecked os.probe e

  -- The check for an old socket, in every case: the descriptor of the probe is closed again, nothing is bound, and the path
  -- is only removed if it is a socket and a connection to it was refused.
  pub check-IsChecked : IsChecked os path w (server_check_stale_socket os path w)
  unfolding server_check_stale_socket
  check-IsChecked = stat-IsChecked (os.stat path) refl

-- What the creation of the listener gives, by its result: on success one more descriptor, which is the listener, bound to what
-- the address holds of the path, and on failure no descriptor more and the listener that was there.
abbrev pub Listener : Os → Bytes → World → Bool × World → Type 0
Listener os path w (true, w') =
    (fd : ℕ) × (w'.open_fds ≡ fd ∷ w.open_fds)
    × (w'.listen_fd ≡ pos fd)
    × (w'.bound ≡ sun_path path ∷ w.bound)
Listener os path w (false, w') = (w'.open_fds ≡ w.open_fds) × (w'.listen_fd ≡ w.listen_fd)

module _ (os : Os) (path : Bytes) (w : World) where
  bind-Listener : (fd : ℕ) → Listener os path w (bind_listener os path fd (opened fd w))
  unfolding bind_listener
  bind-Listener fd = elim (Bool-cases (os.bind (sun_path path))) [
    | inr e ↦ rw e (remove_first fd w.open_fds, refl)
    | inl e ↦ elim (Bool-cases os.listen) [
      | inl f ↦ simp (e, f) (fd, refl, refl, refl)
      | inr f ↦ simp (e, f) (remove_first fd w.open_fds, refl)
    ]
  ]

  socket-Listener : (o : Option ℕ) → Listener os path w (with_socket os path w o)
  unfolding with_socket
  socket-Listener none = (refl, refl)
  socket-Listener (some fd) = bind-Listener fd

moved :
    (os : Os) (path : Bytes) (w w' : World) (o : Bool × World)
    → w'.open_fds ≡ w.open_fds
    → w'.listen_fd ≡ w.listen_fd
    → w'.bound ≡ w.bound
    → Listener os path w' o
    → Listener os path w o
moved os path w w' (true, x) e f g (fd, a, b, c) =
    (fd, a ∙ ap (◌∷◌ fd) e, b, c ∙ ap (◌∷◌ (sun_path path)) g)
moved os path w w' (false, x) e f g (a, b) = (a ∙ e, b ∙ f)

module _ (os : Os) (path : Bytes) (w : World) where
  checked-Listener :
      (o : Bool × World) → IsChecked os path w o → Listener os path w (after_check os path o)
  unfolding after_check
  checked-Listener (false, w') c = (c.open_fds, c.listen_fd)
  checked-Listener (true, w') c =
      moved os path w w' (with_socket os path w' os.socket) c.open_fds c.listen_fd c.bound
        (socket-Listener os path w' os.socket)

  -- The creation of the listener, whatever the system answers: on success there is one descriptor more, it is the listener, and
  -- it is bound to the first 107 bytes of the path; on failure there is none more and the listener is as before.
  pub create-Listener : Listener os path w (server_create_listener os path w)
  unfolding server_create_listener
  create-Listener =
      checked-Listener (server_check_stale_socket os path w) (check-IsChecked os path w)

shut :
    (os : Os) (path : Bytes) (w w' : World) (fd : ℕ)
    → w'.open_fds ≡ fd ∷ w.open_fds
    → w'.listen_fd ≡ pos fd
    → ((server_close_listener (some path) w').open_fds ≡ w.open_fds)
      × ((server_close_listener (some path) w').listen_fd ≡ negsuc 0)
      × ((server_close_listener (some path) w').removed ≡ path ∷ w'.removed)
unfolding server_close_listener
shut os path w w' fd e f = simp f (ap (remove_fd fd) e ∙ remove_first fd w.open_fds, refl, refl)

-- For a path of at most 107 bytes, once the listener was created, its close leaves the descriptors that were open before and no
-- listener, and removes the very path that was bound.
pub close-create :
    (os : Os) (path : Bytes) (w w' : World)
    → length path ≤ 107
    → server_create_listener os path w ≡ (true, w')
    → ((server_close_listener (some path) w').open_fds ≡ w.open_fds)
      × ((server_close_listener (some path) w').listen_fd ≡ negsuc 0)
      × ((server_close_listener (some path) w').removed ≡ path ∷ w'.removed)
      × (w'.bound ≡ path ∷ w.bound)
close-create os path w w' h e =
    let (fd, a, b, c) = subst (Listener os path w) e (create-Listener os path w) in
    let (x, y, z) = shut os path w w' fd a b in
    (x, y, z, c ∙ ap (λ (q : Bytes). q ∷ w.bound) (take-all 107 path h))

-- The result, and that nothing was bound or removed yet.
abbrev Idle : World → Bool × World → Type 0
Idle w (b, w') = (b ≡ false) × (w'.bound ≡ w.bound) × (w'.removed ≡ w.removed)

module _ (os : Os) (path : Bytes) (w : World) where
  connect-Idle :
      (fd : ℕ) (c : Connected) → c ≢ refused → Idle w (after_probe path (closed fd (opened fd w)) c)
  unfolding after_probe
  connect-Idle fd refused n = absurd (n refl)
  connect-Idle fd connected n = (refl, refl, refl)
  connect-Idle fd in_progress n = (refl, refl, refl)
  connect-Idle fd wrong_type n = (refl, refl, refl)
  connect-Idle fd other n = (refl, refl, refl)

  probe-Idle :
      (o : Option ℕ) → os.connect (sun_path path) ≢ refused → Idle w (probe_socket os path w o)
  unfolding probe_socket
  probe-Idle none n = (refl, refl, refl)
  probe-Idle (some fd) n = connect-Idle fd (os.connect (sun_path path)) n

  close-cleanup :
      (o : Bool × World)
      → Idle w o
      → ((or_cleanup path (after_check os path o)).0 ≡ false)
        × ((or_cleanup path (after_check os path o)).1.bound ≡ w.bound)
        × ((or_cleanup path (after_check os path o)).1.removed ≡ path ∷ w.removed)
  unfolding or_cleanup after_check server_close_listener
  close-cleanup (true, w') (e, b, r) = cc
  close-cleanup (false, w') (e, b, r) = (refl, kept_bound w'.listen_fd, kept w'.listen_fd)
    where
      kept_bound : (z : ℤ) → (close_listener w' z).bound ≡ w.bound
      kept_bound (pos n) = b
      kept_bound (negsuc n) = b

      kept : (z : ℤ) → path ∷ (close_listener w' z).removed ≡ path ∷ w.removed
      kept (pos n) = ap (◌∷◌ path) r
      kept (negsuc n) = ap (◌∷◌ path) r

  -- Where there is a socket at the path and a connection to it is not refused, as with a daemon that listens there: the start
  -- fails without binding anything, and yet the clean-up removes the socket, which is the other daemon's.
  pub failed_start :
      os.stat path ≡ found true
      → os.connect (sun_path path) ≢ refused
      → ((start_listener os path w).0 ≡ false)
        × ((start_listener os path w).1.bound ≡ w.bound)
        × ((start_listener os path w).1.removed ≡ path ∷ w.removed)
  unfolding start_listener server_create_listener server_check_stale_socket after_stat
  failed_start e n =
      simp e (close-cleanup (probe_socket os path w os.probe) (probe-Idle os.probe n))
