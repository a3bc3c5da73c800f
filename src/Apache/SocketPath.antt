-- ===== src/Apache/SocketPath.antt =====
-- mod_socket_handoff.c: `validate_socket_path` and `socket_handoff_post_config`.
-- `apr_filepath_merge` is APR's: the parameter `merge` answers for a path, with APR_FILEPATH_TRUENAME
-- or without, and gives none where the call fails or leaves no path.
pub mod Containment
mod Tests
use mod_socket_handoff.Base.{
  ℕ, Bool, true, false, ◌&&◌, Option, none, some, List, [], ◌∷◌, ◌++◌, Bytes, map, get_last?, ◌==◌,
  if◌then◌else◌,
}
use mod_socket_handoff.Apache.Config.{Config}

-- `fault` is the read before the start of an empty resolved prefix.
pub data Verdict : Type 0 where
  allow deny fault : Verdict

-- `strncmp(s, p, strlen(p)) == 0`
unfoldable pub has_prefix : Bytes → Bytes → Bool
has_prefix s [] = true
has_prefix [] (c ∷ cs) = false
has_prefix (x ∷ xs) (c ∷ cs) = x == c && has_prefix xs cs

abbrev pub add_slash : Bytes → ℕ → Bytes
add_slash p last = if last == b'/' then p else p ++ (b'/' ∷ [])

-- With the cache empty: the last byte is read without a test of the length.
abbrev pub slashed_now : Bytes → Option Bytes
slashed_now p = elim (get_last? p) [ none ↦ none | some c ↦ some (add_slash p c) ]

-- At start-up: `len > 0 && resolved[len - 1] != '/'`
abbrev pub slashed : Bytes → Bytes
slashed p = elim (get_last? p) [ none ↦ p | some c ↦ add_slash p c ]

abbrev pub and_then : Bool → Verdict → Verdict
and_then true v = v
and_then false v = deny

-- The comparison with a prefix that is cached, or resolved now.
abbrev pub check : Bytes → Option Bytes → Option Bytes → Verdict → Verdict
check path (some prefix) resolved next = and_then (has_prefix path prefix) next
check path none none next = deny
check path none (some p) next = elim (slashed_now p) [
  | none ↦ fault
  | some prefix ↦ and_then (has_prefix path prefix) next
]

-- A failed resolution leaves the cache as it was.
abbrev pub resolve_or : Option Bytes → Option Bytes → Option Bytes
resolve_or old none = old
resolve_or old (some p) = some (slashed p)

module _ (merge : Bool → Bytes → Option Bytes) where
  -- The second comparison, on the path with its symbolic links resolved, if it exists.
  unfoldable pub check_truename : Bytes → Bytes → Config → Verdict
  check_truename path prefix conf = elim (merge true path) [
    | none ↦ allow
    | some t ↦ check t conf.resolved_prefix_truename (merge true prefix) allow
  ]

  unfoldable pub check_path : Bytes → Bytes → Config → Verdict
  check_path path prefix conf = elim (merge false path) [
    | none ↦ deny
    | some p ↦ check p conf.resolved_prefix (merge false prefix) (check_truename path prefix conf)
  ]

  -- No prefix, or an empty one, allows all paths.
  unfoldable pub validate_socket_path : Bytes → Config → Verdict
  validate_socket_path path conf = elim conf.allowed_socket_prefix [
    | none ↦ allow
    | some [] ↦ allow
    | some (c ∷ cs) ↦ check_path path (c ∷ cs) conf
  ]

  unfoldable pub cache_prefixes : Config → Config
  cache_prefixes conf = elim conf.allowed_socket_prefix [
    | none ↦ conf
    | some prefix ↦ record conf {
      resolved_prefix = resolve_or conf.resolved_prefix (merge false prefix);
      resolved_prefix_truename = resolve_or conf.resolved_prefix_truename (merge true prefix);
    }
  ]

  -- The configurations of the servers, in the order of `vhost->next`.
  unfoldable pub post_config : List Config → List Config
  post_config confs = map cache_prefixes confs
