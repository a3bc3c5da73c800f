-- ===== src/Apache/Config/Tests.antt =====
-- mod_socket_handoff.c: runs of the directives, and the theorems on them at concrete directives.
use mod_socket_handoff.Base.{
  ℕ, ◌+◌, ◌-◌, ◌*◌, ◌≡◌, refl, Bool, false, ◌&&◌, some, List, [], ◌∷◌, ◌++◌, Bytes, codes, leb,
  if◌then◌else◌,
}
use mod_socket_handoff.Base.Int.{pos}
use mod_socket_handoff.Apache.Config.{
  Strtol, Directive, allowed_prefix, connect_timeout, send_timeout, max_retries,
  create_server_config, merge_server_config, apply, configure, set_allowed_prefix,
  set_connect_timeout, set_send_timeout, set_max_retries, default_prefix,
}
use mod_socket_handoff.Apache.Config.Merge.{SameSettings, merge-SameSettings, merge-prefix}

abbrev is_digit : ℕ → Bool
is_digit c = leb b'0' c && leb c b'9'

-- Decimal digits, with no sign and no limit.
abbrev read_digits : ℕ → ℕ → Bytes → Strtol
read_digits n i [] = record { value = pos n; endptr = i; erange = false }
read_digits n i (c ∷ cs) =
    let rest = read_digits (n * 10 + (c - b'0')) (i + 1) cs in
    if is_digit c then rest else record { value = pos n; endptr = i; erange = false }

abbrev strtol : Bytes → Strtol
strtol s = read_digits 0 0 s

abbrev main_directives : List Directive
main_directives =
    allowed_prefix (codes "/srv/llm/")
    ∷ connect_timeout (codes "500")
    ∷ max_retries (codes "11")
    ∷ []

abbrev vhost_directives : List Directive
vhost_directives =
    send_timeout (codes "50") ∷ max_retries (codes "0") ∷ connect_timeout (codes "9x") ∷ []

merged_run :
    let c =
      merge_server_config
        (configure strtol main_directives create_server_config)
        (configure strtol vhost_directives create_server_config) in
    (c.connect_timeout_ms ≡ 500) × (c.send_timeout_ms ≡ 50) × (c.max_retries ≡ 0)
unfolding merge_server_config configure create_server_config apply set_connect_timeout
    set_send_timeout set_max_retries set_allowed_prefix
merged_run = (refl, refl, refl)

merge-SameSettings_example :
    SameSettings
      (merge_server_config
        (configure strtol main_directives create_server_config)
        (configure strtol vhost_directives create_server_config))
      (configure strtol (main_directives ++ vhost_directives) create_server_config)
merge-SameSettings_example = merge-SameSettings strtol main_directives vhost_directives

-- The main server allows /srv/llm/ only; its virtual host allows /run/.
merge-prefix_example :
    (merge_server_config
      (configure strtol main_directives create_server_config)
      (configure strtol vhost_directives create_server_config)).allowed_socket_prefix
    ≡ some default_prefix
merge-prefix_example = merge-prefix strtol main_directives vhost_directives
