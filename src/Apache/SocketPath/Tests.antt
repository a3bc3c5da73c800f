-- ===== src/Apache/SocketPath/Tests.antt =====
-- mod_socket_handoff.c, `validate_socket_path` against a small file system.
use mod_socket_handoff.Base.{
  ◌≡◌, ◌↔◌, refl, ap, Bool, true, false, Option, some, none, [], ◌∷◌, Bytes, codes, if◌then◌else◌,
  arith,
}
use mathlib.Core.Path.{subst}
use mod_socket_handoff.Apache.Config.{create_server_config}
use mod_socket_handoff.Apache.SocketPath.{
  allow, deny, validate_socket_path, check_path, check_truename, cache_prefixes, has_prefix,
}
use mod_socket_handoff.Apache.SocketPath.Containment.{
  IsContained, NeverEmpty, validate-IsContained, validate-cache,
}

-- /run/link.sock leads to /etc/x; nothing else has links, and all paths exist.
abbrev resolve_link : Bytes → Bytes
resolve_link p = if has_prefix p (codes "/run/link.sock") then codes "/etc/x" else p

abbrev merge : Bool → Bytes → Option Bytes
merge links [] = none
merge true (c ∷ cs) = some (resolve_link (c ∷ cs))
merge false (c ∷ cs) = some (c ∷ cs)

merge-NeverEmpty : NeverEmpty merge
merge-NeverEmpty links [] e = cc
merge-NeverEmpty false (c ∷ cs) e = cc
merge-NeverEmpty true (c ∷ cs) e = ground arith

link_denied :
    (validate_socket_path merge (codes "/run/link.sock") create_server_config ≡ deny)
    × (validate_socket_path merge (codes "/run/a.sock") create_server_config ≡ allow)
    × (validate_socket_path merge (codes "/running/a.sock") create_server_config ≡ deny)
unfolding validate_socket_path check_path check_truename has_prefix create_server_config
link_denied = (refl, refl, refl)

-- At start-up there was no link yet.
abbrev merge_at_start : Bool → Bytes → Option Bytes
merge_at_start links p = merge false p

some_inj : {p q : Bytes} → some p ≡ some q → p ≡ q
some_inj {p} {q} e = ap (λ (o : Option Bytes). elim o [ none ↦ p | some x ↦ x ]) e

by_prefix : {p : Bytes} → codes "/run/" ≡ p → merge_at_start true p ≡ merge true p
unfolding has_prefix
by_prefix e = subst (λ (p : Bytes). merge_at_start true p ≡ merge true p) e refl

same_prefix :
    (links : Bool) (prefix : Bytes)
    → create_server_config.allowed_socket_prefix ≡ some prefix
    → merge_at_start links prefix ≡ merge links prefix
unfolding create_server_config
same_prefix false prefix e = refl
same_prefix true [] e = cc
same_prefix true (c ∷ cs) e = by_prefix (some_inj e)

validate-cache_example :
    validate_socket_path merge
      (codes "/run/link.sock")
      (cache_prefixes merge_at_start create_server_config)
    ≡ validate_socket_path merge (codes "/run/link.sock") create_server_config
unfolding create_server_config
validate-cache_example =
    validate-cache merge_at_start merge create_server_config (codes "/run/link.sock")
      merge-NeverEmpty (λ links prefix e. same_prefix links prefix e) refl refl

validate-IsContained_example :
    (validate_socket_path merge (codes "/run/a.sock") (cache_prefixes merge create_server_config)
      ≡ allow)
    ↔ IsContained merge (codes "/run/") (codes "/run/a.sock")
unfolding create_server_config
validate-IsContained_example =
    validate-IsContained merge create_server_config (codes "/run/a.sock") b'/' (codes "run/")
      merge-NeverEmpty refl refl refl
