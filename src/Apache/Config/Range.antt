-- ===== src/Apache/Config/Range.antt =====
-- mod_socket_handoff.c: what the directives let into a configuration.
use mod_socket_handoff.Base.{◌≤◌, ◌≡◌, List, [], ◌∷◌, some, Bytes, arith}
use mod_socket_handoff.Apache.Config.{
  Config, Strtol, Directive, enabled, allowed_prefix, connect_timeout, send_timeout, max_retries,
  create_server_config, merge_server_config, apply, configure, set_enabled, set_allowed_prefix,
  set_connect_timeout, set_send_timeout, set_max_retries,
}

-- The documented ranges of the three numeric settings.
pub record InRange (c : Config) : Type 0 where
  pub connect_min : 1 ≤ c.connect_timeout_ms
  pub connect_max : c.connect_timeout_ms ≤ 60000
  pub send_min : 1 ≤ c.send_timeout_ms
  pub send_max : c.send_timeout_ms ≤ 60000
  pub retries_max : c.max_retries ≤ 10

pub create-InRange : InRange create_server_config
unfolding create_server_config
create-InRange = omega arith

pub merge-InRange :
    {base add : Config} → InRange base → InRange add → InRange (merge_server_config base add)
unfolding merge_server_config
merge-InRange b a = ground arith

module _ (strtol : Bytes → Strtol) where
  apply-InRange : (d : Directive) {c : Config} → InRange c → InRange (apply strtol d c).1
  unfolding apply set_enabled set_allowed_prefix set_connect_timeout set_send_timeout
      set_max_retries
  apply-InRange (enabled flag) v = ground arith
  apply-InRange (allowed_prefix arg) v = ground arith
  apply-InRange (connect_timeout arg) v = ground arith
  apply-InRange (send_timeout arg) v = ground arith
  apply-InRange (max_retries arg) v = ground arith

  pub configure-InRange :
      (ds : List Directive) {c : Config} → InRange c → InRange (configure strtol ds c)
  unfolding configure
  configure-InRange [] v = v
  configure-InRange (d ∷ ds) v = configure-InRange ds (apply-InRange d v)

  -- A directive that reports an error has changed nothing.
  pub apply-error :
      (d : Directive) (c : Config) {m : Bytes}
      → (apply strtol d c).0 ≡ some m
      → (apply strtol d c).1 ≡ c
  unfolding apply set_enabled set_allowed_prefix set_connect_timeout set_send_timeout
      set_max_retries
  apply-error (enabled flag) c e = ground arith
  apply-error (allowed_prefix arg) c e = ground arith
  apply-error (connect_timeout arg) c e = ground arith
  apply-error (send_timeout arg) c e = ground arith
  apply-error (max_retries arg) c e = ground arith

  -- The settings of a main server, and of a virtual host merged over it, are in the documented
  -- ranges, whatever the directives say and `strtol` answers.
  pub configured-InRange :
      (main vhost : List Directive)
      → InRange (configure strtol main create_server_config)
        × InRange (
            merge_server_config
              (configure strtol main create_server_config)
              (configure strtol vhost create_server_config))
  configured-InRange main vhost =
      let m = configure-InRange main create-InRange in
      let v = configure-InRange vhost create-InRange in (m, merge-InRange m v)
