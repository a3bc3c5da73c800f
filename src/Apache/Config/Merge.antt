-- ===== src/Apache/Config/Merge.antt =====
-- mod_socket_handoff.c, `merge_server_config`: what a virtual host inherits.
use mod_socket_handoff.Base.{◌≡◌, refl, ap, ◌∙◌, List, [], ◌∷◌, ◌++◌, some, Bytes, arith}
use mod_socket_handoff.Apache.Config.{
  Config, Strtol, Directive, enabled, allowed_prefix, connect_timeout, send_timeout, max_retries,
  create_server_config, merge_server_config, apply, configure, set_enabled, set_allowed_prefix,
  set_connect_timeout, set_send_timeout, set_max_retries, default_prefix,
}

-- Two configurations have the same settings, apart from the prefix.
pub record SameSettings (c d : Config) : Type 0 where
  pub same_enabled : c.enabled ≡ d.enabled
  pub same_connect : c.connect_timeout_ms ≡ d.connect_timeout_ms
  pub same_send : c.send_timeout_ms ≡ d.send_timeout_ms
  pub same_retries : c.max_retries ≡ d.max_retries

merge-create-SameSettings :
    (base : Config) → SameSettings (merge_server_config base create_server_config) base
unfolding merge_server_config create_server_config
merge-create-SameSettings base = ground arith

module _ (strtol : Bytes → Strtol) where
  apply-SameSettings :
      (d : Directive) (base add whole : Config)
      → SameSettings (merge_server_config base add) whole
      → SameSettings (merge_server_config base (apply strtol d add).1) (apply strtol d whole).1
  unfolding merge_server_config apply set_enabled set_allowed_prefix set_connect_timeout
      set_send_timeout set_max_retries
  apply-SameSettings (enabled flag) base add whole s = ground arith
  apply-SameSettings (allowed_prefix arg) base add whole s = ground arith
  apply-SameSettings (connect_timeout arg) base add whole s = ground arith
  apply-SameSettings (send_timeout arg) base add whole s = ground arith
  apply-SameSettings (max_retries arg) base add whole s = ground arith

  configure-SameSettings :
      (ds : List Directive) (base add whole : Config)
      → SameSettings (merge_server_config base add) whole
      → SameSettings
          (merge_server_config base (configure strtol ds add))
          (configure strtol ds whole)
  unfolding configure
  configure-SameSettings [] base add whole s = s
  configure-SameSettings (d ∷ ds) base add whole s =
      configure-SameSettings ds base (apply strtol d add).1 (apply strtol d whole).1
        (apply-SameSettings d base add whole s)

  configure-append :
      (ds es : List Directive) (c : Config)
      → configure strtol (ds ++ es) c ≡ configure strtol es (configure strtol ds c)
  unfolding configure
  configure-append [] es c = refl
  configure-append (d ∷ ds) es c = configure-append ds es (apply strtol d c).1

  -- Merging a virtual host over the main server gives the enabled flag, the two timeouts and the
  -- retry count that one server would have which reads the main server's directives and then
  -- the virtual host's.
  pub merge-SameSettings :
      (main vhost : List Directive)
      → SameSettings
          (merge_server_config
            (configure strtol main create_server_config)
            (configure strtol vhost create_server_config))
          (configure strtol (main ++ vhost) create_server_config)
  merge-SameSettings main vhost =
      let base = configure strtol main create_server_config in
      rw (configure-append main vhost create_server_config) (
        configure-SameSettings vhost base create_server_config base
          (merge-create-SameSettings base))

  -- The prefix that the last SocketHandoffAllowedPrefix names, or the one given.
  abbrev pub last_prefix : Bytes → List Directive → Bytes
  last_prefix p [] = p
  last_prefix p (allowed_prefix q ∷ ds) = last_prefix q ds
  last_prefix p (_ ∷ ds) = last_prefix p ds

  apply-prefix :
      (d : Directive) (c : Config) (p : Bytes)
      → c.allowed_socket_prefix ≡ some p
      → (apply strtol d c).1.allowed_socket_prefix ≡ some (last_prefix p (d ∷ []))
  unfolding apply set_enabled set_allowed_prefix set_connect_timeout set_send_timeout
      set_max_retries
  apply-prefix (enabled flag) c p e = ground arith
  apply-prefix (allowed_prefix arg) c p e = ground arith
  apply-prefix (connect_timeout arg) c p e = ground arith
  apply-prefix (send_timeout arg) c p e = ground arith
  apply-prefix (max_retries arg) c p e = ground arith

  last_prefix-cons :
      (d : Directive) (ds : List Directive) (p : Bytes)
      → last_prefix (last_prefix p (d ∷ [])) ds ≡ last_prefix p (d ∷ ds)
  last_prefix-cons (allowed_prefix arg) ds p = refl
  last_prefix-cons _ ds p = refl

  configure-prefix :
      (ds : List Directive) (c : Config) (p : Bytes)
      → c.allowed_socket_prefix ≡ some p
      → (configure strtol ds c).allowed_socket_prefix ≡ some (last_prefix p ds)
  unfolding configure
  configure-prefix [] c p e = e
  configure-prefix (d ∷ ds) c p e =
      configure-prefix ds (apply strtol d c).1 (last_prefix p (d ∷ [])) (apply-prefix d c p e)
      ∙ ap some (last_prefix-cons d ds p)

  -- The prefix is not inherited: a virtual host's is the last that its own directives name, or
  -- "/run/" if they name none, whatever the main server's directives say.
  pub merge-prefix :
      (main vhost : List Directive)
      → (merge_server_config
          (configure strtol main create_server_config)
          (configure strtol vhost create_server_config)).allowed_socket_prefix
        ≡ some (last_prefix default_prefix vhost)
  unfolding merge_server_config create_server_config
  merge-prefix main vhost = rw (configure-prefix vhost create_server_config default_prefix created)
    where
      created : create_server_config.allowed_socket_prefix ≡ some default_prefix
      created = refl
