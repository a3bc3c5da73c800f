-- ===== src/Daemon/Server.antt =====
-- server.c. The answers of the system are a parameter; the world has the open descriptors, the paths that were bound and
-- removed, the last one first, and `listen_fd`. An address holds the first 107 bytes of a path.
pub mod Listening
mod Tests
use mod_socket_handoff.Base.{
  ℕ, Bool, true, false, Option, none, some, List, [], ◌∷◌, Bytes, take, ◌==◌, if◌then◌else◌,
}
use mod_socket_handoff.Base.Int.{ℤ, pos, negsuc}

-- `stat`: whether it is a socket, ENOENT, or another error.
pub data Stat : Type 0 where
  found : Bool → Stat
  absent failed : Stat

-- `connect`: success, ECONNREFUSED, EINPROGRESS, EPROTOTYPE or another error.
pub data Connected : Type 0 where
  connected refused in_progress wrong_type other : Connected

pub record Os : Type 0 where
  pub stat : Bytes → Stat
  pub probe : Option ℕ
  pub connect : Bytes → Connected
  pub socket : Option ℕ
  pub bind : Bytes → Bool
  pub listen : Bool

pub record World : Type 0 where
  pub open_fds : List ℕ
  pub bound : List Bytes
  pub removed : List Bytes
  pub listen_fd : ℤ

abbrev pub sun_path : Bytes → Bytes
sun_path path = take 107 path

unfoldable pub remove_fd : ℕ → List ℕ → List ℕ
remove_fd fd [] = []
remove_fd fd (x ∷ fds) = let rest = remove_fd fd fds in if x == fd then fds else x ∷ rest

abbrev pub opened : ℕ → World → World
opened fd w = record w { open_fds = fd ∷ w.open_fds }

abbrev pub closed : ℕ → World → World
closed fd w = record w { open_fds = remove_fd fd w.open_fds }

abbrev pub unlinked : Bytes → World → World
unlinked path w = record w { removed = path ∷ w.removed }

-- True is 0.
unfoldable pub after_probe : Bytes → World → Connected → Bool × World
after_probe path w refused = (true, unlinked path w)
after_probe path w _ = (false, w)

unfoldable pub probe_socket : Os → Bytes → World → Option ℕ → Bool × World
unfolding after_probe
probe_socket os path w none = (false, w)
probe_socket os path w (some probe) =
    after_probe path (closed probe (opened probe w)) (os.connect (sun_path path))

unfoldable pub after_stat : Os → Bytes → World → Stat → Bool × World
unfolding probe_socket
after_stat os path w absent = (true, w)
after_stat os path w failed = (false, w)
after_stat os path w (found false) = (false, w)
after_stat os path w (found true) = probe_socket os path w os.probe

unfoldable pub server_check_stale_socket : Os → Bytes → World → Bool × World
unfolding after_stat
server_check_stale_socket os path w = after_stat os path w (os.stat path)

-- The mode is left out: a `chmod` that fails is no error.
unfoldable pub bind_listener : Os → Bytes → ℕ → World → Bool × World
bind_listener os path fd w =
    let bound = record w { bound = sun_path path ∷ w.bound } in
    if os.bind (sun_path path)
    then (if os.listen
        then (true, record bound { listen_fd = pos fd })
        else (false, unlinked path (closed fd bound)))
    else (false, closed fd w)

unfoldable pub with_socket : Os → Bytes → World → Option ℕ → Bool × World
unfolding bind_listener
with_socket os path w none = (false, w)
with_socket os path w (some fd) = bind_listener os path fd (opened fd w)

unfoldable pub after_check : Os → Bytes → Bool × World → Bool × World
unfolding with_socket
after_check os path (false, w) = (false, w)
after_check os path (true, w) = with_socket os path w os.socket

unfoldable pub server_create_listener : Os → Bytes → World → Bool × World
unfolding server_check_stale_socket after_check
server_create_listener os path w = after_check os path (server_check_stale_socket os path w)

abbrev pub close_listener : World → ℤ → World
close_listener w (pos fd) = record (closed fd w) { listen_fd = negsuc 0 }
close_listener w (negsuc n) = w

-- A path of NULL is none.
unfoldable pub server_close_listener : Option Bytes → World → World
server_close_listener none w = close_listener w w.listen_fd
server_close_listener (some path) w = unlinked path (close_listener w w.listen_fd)

-- What `daemon_cleanup` does to the socket, and the step of `main` that creates the listener. The result is whether the
-- daemon goes on.
abbrev pub daemon_cleanup : Bytes → World → World
daemon_cleanup path w = server_close_listener (some path) w

unfoldable pub or_cleanup : Bytes → Bool × World → Bool × World
or_cleanup path (true, w) = (true, w)
or_cleanup path (false, w) = (false, daemon_cleanup path w)

unfoldable pub start_listener : Os → Bytes → World → Bool × World
unfolding or_cleanup
start_listener os path w = or_cleanup path (server_create_listener os path w)
