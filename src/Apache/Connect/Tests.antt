-- ===== src/Apache/Connect/Tests.antt =====
-- mod_socket_handoff.c, `connect_to_socket` on two systems.
use mod_socket_handoff.Base.{◌≡◌, refl}
use mod_socket_handoff.Apache.Os.{ok, err, econnrefused, poll, poll_until}
use mod_socket_handoff.Apache.Samples.{calm, refusing, start, daemon_path}
use mod_socket_handoff.Apache.Connect.{connect_to_socket}

connect_calm : (connect_to_socket calm daemon_path 100 start).0 ≡ ok 10
unfolding connect_to_socket poll poll_until
connect_calm = refl

connect_refused : (connect_to_socket refusing daemon_path 100 start).0 ≡ err econnrefused
unfolding connect_to_socket poll poll_until
connect_refused = refl
