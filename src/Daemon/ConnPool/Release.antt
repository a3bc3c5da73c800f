-- ===== src/Daemon/ConnPool/Release.antt =====
-- connection.c, `conn_pool_cleanup`. The memory that it frees is gone with the connections.
use mod_socket_handoff.Base.{ℕ, ◌≡◌, refl, sym, ap, ◌∙◌, none, List, [], ◌∷◌, ◌++◌, append_assoc}
use mod_socket_handoff.Base.Int.{ℤ, pos, negsuc}
use mod_socket_handoff.Daemon.ConnPool.{Connection, Pool, conn_close_fds, close_fd}

unfoldable pub close_all : List Connection → List ℕ → List ℕ
close_all [] closed = closed
close_all (conn ∷ conns) closed = close_all conns (conn_close_fds conn closed).1

unfoldable pub conn_pool_cleanup : Pool → Pool
conn_pool_cleanup pool = record pool {
  connections = [];
  free_list = none;
  closed = close_all pool.connections pool.closed;
}

abbrev pub fd_of : ℤ → List ℕ
fd_of (pos fd) = fd ∷ []
fd_of (negsuc n) = []

-- The open descriptors of the connections, the last one first.
abbrev pub open_fds : List Connection → List ℕ
open_fds [] = []
open_fds (conn ∷ conns) = open_fds conns ++ (fd_of conn.client_fd ++ fd_of conn.unix_fd)

fds : (c u : ℤ) (closed : List ℕ) → close_fd c (close_fd u closed) ≡ (fd_of c ++ fd_of u) ++ closed
fds (pos c) (pos u) closed = refl
fds (pos c) (negsuc u) closed = refl
fds (negsuc c) (pos u) closed = refl
fds (negsuc c) (negsuc u) closed = refl

closes :
    (conn : Connection) (closed : List ℕ)
    → (conn_close_fds conn closed).1 ≡ (fd_of conn.client_fd ++ fd_of conn.unix_fd) ++ closed
unfolding conn_close_fds
closes conn closed = fds conn.client_fd conn.unix_fd closed

close_all-open_fds :
    (conns : List Connection) (closed : List ℕ) → close_all conns closed ≡ open_fds conns ++ closed
unfolding close_all
close_all-open_fds [] closed = refl
close_all-open_fds (conn ∷ conns) closed =
    close_all-open_fds conns (conn_close_fds conn closed).1
    ∙ ap (λ (xs : List ℕ). open_fds conns ++ xs) (closes conn closed)
    ∙ sym (append_assoc (open_fds conns) (fd_of conn.client_fd ++ fd_of conn.unix_fd) closed)

-- `conn_pool_cleanup` closes each open descriptor of each connection once, and nothing else, and leaves a
-- pool with no connections.
pub cleanup-closes :
    (pool : Pool)
    → let after = conn_pool_cleanup pool in
      (after.closed ≡ open_fds pool.connections ++ pool.closed)
      × (after.connections ≡ [])
      × (after.free_list ≡ none)
unfolding conn_pool_cleanup
cleanup-closes pool = (close_all-open_fds pool.connections pool.closed, refl, refl)
