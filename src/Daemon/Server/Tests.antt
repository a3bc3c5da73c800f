-- ===== src/Daemon/Server/Tests.antt =====
-- server.c with an old socket, and with a daemon that runs.
use mod_socket_handoff.Base.{◌≡◌, refl, true, false, some, [], ◌∷◌, Bytes, codes}
use mod_socket_handoff.Base.Int.{negsuc}
use mod_socket_handoff.Daemon.Server.{
  Os, World, found, Connected, connected, refused, server_create_listener, start_listener,
}
use mod_socket_handoff.Daemon.Server.Listening.{Listener, create-Listener, failed_start}

abbrev world : World
world = record { open_fds = 0 ∷ 1 ∷ 2 ∷ []; bound = []; removed = []; listen_fd = negsuc 0 }

abbrev system : Connected → Os
system c = record {
  stat = λ path. found true;
  probe = some 3;
  connect = λ path. c;
  socket = some 4;
  bind = λ path. true;
  listen = true;
}

abbrev path : Bytes
path = codes "/run/d.sock"

create-Listener_example :
    Listener (system refused) path world (server_create_listener (system refused) path world)
create-Listener_example = create-Listener (system refused) path world

failed_start_example :
    ((start_listener (system connected) path world).0 ≡ false)
    × ((start_listener (system connected) path world).1.bound ≡ [])
    × ((start_listener (system connected) path world).1.removed ≡ path ∷ [])
failed_start_example = failed_start (system connected) path world refl (λ e. cc)
