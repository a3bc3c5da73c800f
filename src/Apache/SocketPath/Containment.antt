-- ===== src/Apache/SocketPath/Containment.antt =====
-- mod_socket_handoff.c: an allowed path lies below the configured prefix, also behind symbolic
-- links, and the cache does not change the verdict while the prefix stays.
use mod_socket_handoff.Base.{
  ℕ, Bool, true, false, Option, none, some, [], ◌∷◌, ◌++◌, Bytes, ◌≡◌, ◌≢◌, refl, ap, arith,
  get_last?, Option-cases, inl, inr, ◌↔◌, ◌∙◌, Bool-cases,
}
use mod_socket_handoff.Apache.Config.{Config}
use mod_socket_handoff.Apache.SocketPath.{
  Verdict, allow, has_prefix, slashed, slashed_now, check, check_truename, check_path,
  validate_socket_path, cache_prefixes, resolve_or,
}

-- `path` continues `dir`, closed by a slash.
abbrev pub IsUnder : Bytes → Bytes → Type 0
IsUnder dir path = (rest : Bytes) × (path ≡ slashed dir ++ rest)

has_prefix-append : (s p : Bytes) → has_prefix s p ≡ true → (rest : Bytes) × (s ≡ p ++ rest)
unfolding has_prefix
has_prefix-append s [] h = (s, refl)
has_prefix-append [] (c ∷ cs) h = cc
has_prefix-append (x ∷ xs) (c ∷ cs) h =
    let (rest, e) = has_prefix-append xs cs (ground arith) in (rest, ground arith)

append-has_prefix : (p rest : Bytes) → has_prefix (p ++ rest) p ≡ true
unfolding has_prefix
append-has_prefix [] rest = refl
append-has_prefix (c ∷ cs) rest = ground (arith, append-has_prefix cs rest)

get_last-cons : (x : ℕ) (xs : Bytes) → (c : ℕ) × (get_last? (x ∷ xs) ≡ some c)
get_last-cons x [] = (x, refl)
get_last-cons x (y ∷ ys) = get_last-cons y ys

slashed_now-eq : (p : Bytes) → p ≢ [] → slashed_now p ≡ some (slashed p)
slashed_now-eq [] h = absurd (h refl)
slashed_now-eq (x ∷ xs) h = let (c, e) = get_last-cons x xs in rw (e, slashed_now, slashed)

check-cached :
    (path : Bytes) (resolved : Option Bytes) (next : Verdict)
    → resolved ≢ some []
    → check path (resolve_or none resolved) resolved next ≡ check path none resolved next
check-cached path none next h = refl
check-cached path (some p) next h = ground (arith, slashed_now-eq p (λ e. h (ap some e)))

-- A comparison with a prefix resolved now passes exactly if the path is under it and the rest passes.
check-allow_to :
    (path : Bytes) (resolved : Option Bytes) (next : Verdict)
    → resolved ≢ some []
    → check path none resolved next ≡ allow
    → (dir : Bytes) × (resolved ≡ some dir) × IsUnder dir path × (next ≡ allow)
check-allow_to path none next full h = cc
check-allow_to path (some p) next full h = elim (Bool-cases (has_prefix path (slashed p))) [
  | inl t ↦ (
    p,
    refl,
    has_prefix-append path (slashed p) t,
    ground (arith, slashed_now-eq p (λ e. full (ap some e))),
  )
  | inr t ↦ absurd (ground (arith, slashed_now-eq p (λ e. full (ap some e))))
]

check-allow_of :
    (path dir rest : Bytes) (next : Verdict)
    → dir ≢ []
    → path ≡ slashed dir ++ rest
    → next ≡ allow
    → check path none (some dir) next ≡ allow
check-allow_of path dir rest next full e h =
    ground (arith, slashed_now-eq dir full, append-has_prefix (slashed dir) rest)

module _ (merge : Bool → Bytes → Option Bytes) where
  -- What the check is for: the resolved path is below the resolved prefix; and where the path exists,
  -- so is the path with its links resolved, below the prefix with its links resolved.
  pub record IsContained (prefix path : Bytes) : Type 0 where
    pub dir : Bytes
    pub resolved : Bytes
    pub dir_resolves : merge false prefix ≡ some dir
    pub path_resolves : merge false path ≡ some resolved
    pub below : IsUnder dir resolved
    pub below_links :
        (target : Bytes)
        → merge true path ≡ some target
        → (home : Bytes) × (merge true prefix ≡ some home) × IsUnder home target

  -- No answer of `apr_filepath_merge` is the empty path.
  abbrev pub NeverEmpty : Type 0
  NeverEmpty = (links : Bool) (p : Bytes) → merge links p ≢ some []

-- `merge0` is `apr_filepath_merge` at start-up, when the cache is filled, and `merge` at the time of a request: between them
-- files and links may have changed, but not what the configured prefix resolves to.
module _ (merge0 merge : Bool → Bytes → Option Bytes) (conf : Config) (path : Bytes)
    (full : NeverEmpty merge)
    (same : (links : Bool) (prefix : Bytes)
      → conf.allowed_socket_prefix ≡ some prefix
      → merge0 links prefix ≡ merge links prefix) where
  truename-cached :
      (prefix : Bytes)
      → conf.resolved_prefix_truename ≡ none
      → conf.allowed_socket_prefix ≡ some prefix
      → check_truename merge path prefix (cache_prefixes merge0 conf)
        ≡ check_truename merge path prefix conf
  unfolding check_truename cache_prefixes
  truename-cached prefix f h = elim (Option-cases (merge true path)) [
    | inl e ↦ ground arith
    | inr (t, e) ↦
        ground
          (arith, same true prefix h, check-cached t (merge true prefix) allow (full true prefix))
  ]

  check_path-cached :
      (prefix : Bytes)
      → conf.resolved_prefix ≡ none
      → conf.resolved_prefix_truename ≡ none
      → conf.allowed_socket_prefix ≡ some prefix
      → check_path merge path prefix (cache_prefixes merge0 conf)
        ≡ check_path merge path prefix conf
  unfolding check_path cache_prefixes
  check_path-cached prefix e f h = elim (Option-cases (merge false path)) [
    | inl g ↦ ground arith
    | inr (p, g) ↦ ground (
      arith,
      truename-cached prefix f h,
      same false prefix h,
      check-cached p (merge false prefix) (check_truename merge path prefix conf)
          (full false prefix),
    )
  ]

  -- If the configured prefix resolves at the time of a request to what it resolved to at start-up, the cache does not change
  -- the verdict on any path, whatever else has changed since.
  pub validate-cache :
      conf.resolved_prefix ≡ none
      → conf.resolved_prefix_truename ≡ none
      → validate_socket_path merge path (cache_prefixes merge0 conf)
        ≡ validate_socket_path merge path conf
  unfolding validate_socket_path cache_prefixes
  validate-cache e f = cached conf.allowed_socket_prefix refl
    where
      cached :
          (o : Option Bytes)
          → conf.allowed_socket_prefix ≡ o
          → validate_socket_path merge path (cache_prefixes merge0 conf)
            ≡ validate_socket_path merge path conf
      cached none h = ground arith
      cached (some []) h = ground arith
      cached (some (c ∷ cs)) h = ground (
        arith,
        truename-cached (c ∷ cs) f h,
        full false (c ∷ cs),
        check_path-cached (c ∷ cs) e f h,
      )

module _ (merge : Bool → Bytes → Option Bytes) where
  -- The second comparison passes exactly where the links lead below the prefix.
  truename-allow :
      (conf : Config) (path prefix : Bytes)
      → NeverEmpty merge
      → conf.resolved_prefix_truename ≡ none
      → (check_truename merge path prefix conf ≡ allow) ↔ (
          (target : Bytes)
          → merge true path ≡ some target
          → (home : Bytes) × (merge true prefix ≡ some home) × IsUnder home target)
  unfolding check_truename
  truename-allow conf path prefix full f = (to, of)
    where
      to :
          check_truename merge path prefix conf ≡ allow
          → (target : Bytes) → merge true path ≡ some target
          → (home : Bytes) × (merge true prefix ≡ some home) × IsUnder home target
      to h target e =
          let (home, r, u, _) =
            check-allow_to target (merge true prefix) allow (full true prefix) (ground arith) in
          (home, r, u)

      of :
          ((target : Bytes)
            → merge true path ≡ some target
            → (home : Bytes) × (merge true prefix ≡ some home) × IsUnder home target)
          → check_truename merge path prefix conf ≡ allow
      of h = elim (Option-cases (merge true path)) [
        | inl e ↦ ground arith
        | inr (t, e) ↦
            let (home, r, (rest, u)) = h t e in
            ground
              (arith, check-allow_of t home rest allow (λ g. full true prefix (r ∙ ap some g)) u)
      ]

  -- With a prefix configured and the cache filled at start-up, a path is allowed exactly if it
  -- is contained in the prefix.
  pub validate-IsContained :
      (conf : Config) (path : Bytes) (c : ℕ) (cs : Bytes)
      → NeverEmpty merge
      → conf.resolved_prefix ≡ none
      → conf.resolved_prefix_truename ≡ none
      → conf.allowed_socket_prefix ≡ some (c ∷ cs)
      → (validate_socket_path merge path (cache_prefixes merge conf) ≡ allow)
        ↔ IsContained merge (c ∷ cs) path
  unfolding validate_socket_path check_path
  validate-IsContained conf path c cs full e f h = (to, of)
    where
      uncached :
          validate_socket_path merge path (cache_prefixes merge conf)
          ≡ validate_socket_path merge path conf
      uncached = validate-cache merge merge conf path full (λ links prefix g. refl) e f

      to :
          validate_socket_path merge path (cache_prefixes merge conf) ≡ allow
          → IsContained merge (c ∷ cs) path
      to g = elim (Option-cases (merge false path)) [
        | inl n ↦ absurd (ground (arith, uncached))
        | inr (p, n) ↦
            let (dir, r, u, next) =
              check-allow_to p (merge false (c ∷ cs)) (check_truename merge path (c ∷ cs) conf)
                (full false (c ∷ cs)) (ground (arith, uncached)) in
            record {
              dir = dir;
              resolved = p;
              dir_resolves = r;
              path_resolves = n;
              below = u;
              below_links = (truename-allow conf path (c ∷ cs) full f).0 next;
            }
      ]

      of :
          IsContained merge (c ∷ cs) path
          → validate_socket_path merge path (cache_prefixes merge conf) ≡ allow
      of k =
          let (rest, u) = k.below in
          let next = (truename-allow conf path (c ∷ cs) full f).1 k.below_links in
          ground (
            arith,
            uncached,
            k.dir_resolves,
            k.path_resolves,
            next,
            check-allow_of k.resolved k.dir rest (check_truename merge path (c ∷ cs) conf)
                (λ g. full false (c ∷ cs) (k.dir_resolves ∙ ap some g)) u next,
          )
