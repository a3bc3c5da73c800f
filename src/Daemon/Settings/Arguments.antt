-- ===== src/Daemon/Settings/Arguments.antt =====
-- config.c and daemon.c: the ranges of the settings.
use mod_socket_handoff.Base.{
  ◌+◌, ◌≡◌, refl, Bool, true, false, ◌||◌, Option, none, some, List, [], ◌∷◌, Bytes, codes, length,
  get_elem?, ◌==◌, if◌then◌else◌, arith,
}
use mathlib.Core.Path.{subst}
use mod_socket_handoff.Base.Int.{ℤ, pos, negsuc}
use mod_socket_handoff.Daemon.Settings.{
  Settings, Libc, File, daemon_init, within, set_text, set_flag, set_number, quoted, is_quote,
  store_text, store_number, parse_line, same_text,
}
use mod_socket_handoff.Daemon.Settings.CommandLine.{
  Argument, Parsed, parsed, wrong, leave, is_positive, accepted, apply_argument, apply_arguments,
  then_parse, after_load, load_first, config_argument, parse_args,
}
use mod_socket_handoff.Daemon.Settings.Preserved.{Held, checked-Held, if-Held, load_first-Kept}

-- The ranges that a file keeps.
pub record IsFileRange (s : Settings) : Type 0 where
  pub connections : within 1 1000000 s.max_connections ≡ true
  pub mode : within 0 511 s.socket_mode ≡ true
  pub delay : within 0 60000 s.message_delay_ms ≡ true
  pub pool : within 1 64 s.pool_size ≡ true
  pub port : within 0 65535 s.metrics_port ≡ true
  pub write : within 1 300000 s.write_timeout_ms ≡ true
  pub shutdown : within 1 3600 s.shutdown_timeout_s ≡ true

-- Those that the command line keeps too.
pub record IsRange (s : Settings) : Type 0 where
  pub connections : is_positive s.max_connections ≡ true
  pub pool : within 1 64 s.pool_size ≡ true
  pub port : within 0 65535 s.metrics_port ≡ true
  pub write : within 1 300000 s.write_timeout_ms ≡ true
  pub shutdown : within 1 3600 s.shutdown_timeout_s ≡ true

at_least_one : (z : ℤ) → within 1 1000000 z ≡ true → is_positive z ≡ true
at_least_one (pos n) h = ground arith
at_least_one (negsuc n) h = cc

if-IsFileRange :
    (a b : Settings) (t : Bool) → IsFileRange a → IsFileRange b → IsFileRange (if t then a else b)
if-IsFileRange a b true p q = p
if-IsFileRange a b false p q = q

-- The same numbers, with other texts and flags.
same_numbers :
    (s : Settings) (path : Option Bytes) (pool curl sqpoll bench : Bool)
    → IsFileRange s
    → IsFileRange (record s {
      socket_path = path;
      use_thread_pool = pool;
      use_curl_multi = curl;
      use_sqpoll = sqpoll;
      benchmark_mode = bench;
    })
same_numbers s path pool curl sqpoll bench r = record {
  connections = r.connections;
  mode = r.mode;
  delay = r.delay;
  pool = r.pool;
  port = r.port;
  write = r.write;
  shutdown = r.shutdown;
}

set_flag-IsFileRange :
    (key : Bytes) (on : Bool) (s : Settings) → IsFileRange s → IsFileRange (set_flag key on s)
unfolding set_flag
set_flag-IsFileRange key on s r =
    if-IsFileRange _ _ (same_text key (codes "benchmark"))
      (same_numbers s s.socket_path s.use_thread_pool s.use_curl_multi s.use_sqpoll on r)
      (if-IsFileRange _ _ (same_text key (codes "thread_pool"))
        (same_numbers s s.socket_path on s.use_curl_multi s.use_sqpoll s.benchmark_mode r)
        (if-IsFileRange _ _ (same_text key (codes "sqpoll"))
          (same_numbers s s.socket_path s.use_thread_pool s.use_curl_multi on s.benchmark_mode r)
          r))

in_range :
    {s : Settings}
    → within 1 1000000 s.max_connections ≡ true
    → within 0 511 s.socket_mode ≡ true
    → within 0 60000 s.message_delay_ms ≡ true
    → within 1 64 s.pool_size ≡ true
    → within 0 65535 s.metrics_port ≡ true
    → within 1 300000 s.write_timeout_ms ≡ true
    → within 1 3600 s.shutdown_timeout_s ≡ true
    → IsFileRange s
in_range c m d p t w e = record {
  connections = c;
  mode = m;
  delay = d;
  pool = p;
  port = t;
  write = w;
  shutdown = e;
}

set_number-Held :
    (key : Bytes) (z : ℤ) (s : Settings) → IsFileRange s → Held IsFileRange (set_number key z s)
unfolding set_number
set_number-Held key z s r =
    if-Held IsFileRange _ _ (same_text key (codes "max_connections"))
      (checked-Held IsFileRange (within 1 1000000 z) (record s { max_connections = z })
        (λ h. in_range h r.mode r.delay r.pool r.port r.write r.shutdown))
      (if-Held IsFileRange _ _ (same_text key (codes "socket_mode"))
        (checked-Held IsFileRange (within 0 511 z) (record s { socket_mode = z })
          (λ h. in_range r.connections h r.delay r.pool r.port r.write r.shutdown))
        (if-Held IsFileRange _ _
          (same_text key (codes "delay") || same_text key (codes "message_delay_ms"))
          (checked-Held IsFileRange (within 0 60000 z) (record s { message_delay_ms = z })
            (λ h. in_range r.connections r.mode h r.pool r.port r.write r.shutdown))
          (if-Held IsFileRange _ _ (same_text key (codes "pool_size"))
            (checked-Held IsFileRange (within 1 64 z) (record s { pool_size = z })
              (λ h. in_range r.connections r.mode r.delay h r.port r.write r.shutdown))
            (if-Held IsFileRange _ _ (same_text key (codes "metrics_port"))
              (checked-Held IsFileRange (within 0 65535 z) (record s { metrics_port = z })
                (λ h. in_range r.connections r.mode r.delay r.pool h r.write r.shutdown))
              (if-Held IsFileRange _ _ (same_text key (codes "write_timeout_ms"))
                (checked-Held IsFileRange (within 1 300000 z) (record s { write_timeout_ms = z })
                  (λ h. in_range r.connections r.mode r.delay r.pool r.port h r.shutdown))
                (if-Held IsFileRange _ _ (same_text key (codes "shutdown_timeout_s"))
                  (checked-Held IsFileRange (within 1 3600 z) (record s { shutdown_timeout_s = z })
                    (λ h. in_range r.connections r.mode r.delay r.pool r.port r.write h))
                  r))))))

module _ (u : Libc) where
  store_text-Held :
      (key : Bytes) (s : Settings) (o : Option Bytes)
      → IsFileRange s
      → Held IsFileRange (store_text u key s o)
  unfolding store_text set_text
  store_text-Held key s none r = tt
  store_text-Held key s (some text) r =
      if-Held IsFileRange (some (set_text key text s)) none (u.malloc (length text + 1))
        (if-IsFileRange _ _ (same_text key (codes "socket") || same_text key (codes "socket_path"))
          (same_numbers s (some text) s.use_thread_pool s.use_curl_multi s.use_sqpoll
            s.benchmark_mode r)
          r)
        tt

  store_number-Held :
      (key : Bytes) (s : Settings) (o : ℤ × Bytes)
      → IsFileRange s
      → Held IsFileRange (store_number key s o)
  unfolding store_number
  store_number-Held key s (num, []) r = set_number-Held key num s r
  store_number-Held key s (num, c ∷ rest) r = r

  parse_line-Held :
      (s : Settings) (key value : Bytes)
      → IsFileRange s
      → Held IsFileRange (parse_line u s key value)
  parse_line-Held s key value r =
      unfold parse_line in
      if-Held IsFileRange _ _ (is_quote (get_elem? value 0))
        (store_text-Held key s (quoted value) r)
        (if-Held IsFileRange _ _ (same_text value (codes "true"))
          (set_flag-IsFileRange key true s r)
          (if-Held IsFileRange _ _ (same_text value (codes "false"))
            (set_flag-IsFileRange key false s r) (store_number-Held key s (u.strtol value 0) r)))

abbrev Taken : Parsed → Type 0
Taken (parsed s) = IsRange s
Taken wrong = Unit
Taken leave = Unit

accepted-Taken : (b : Bool) (s : Settings) → (b ≡ true → IsRange s) → Taken (accepted b s)
accepted-Taken true s h = h refl
accepted-Taken false s h = tt

if-Taken : (a b : Parsed) (t : Bool) → Taken a → Taken b → Taken (if t then a else b)
if-Taken a b true p q = p
if-Taken a b false p q = q

taken :
    {s : Settings}
    → is_positive s.max_connections ≡ true
    → within 1 64 s.pool_size ≡ true
    → within 0 65535 s.metrics_port ≡ true
    → within 1 300000 s.write_timeout_ms ≡ true
    → within 1 3600 s.shutdown_timeout_s ≡ true
    → IsRange s
taken c p t w e = record { connections = c; pool = p; port = t; write = w; shutdown = e }

module _ (u : Libc) where
  argument-Taken : (s : Settings) (arg : Argument) → IsRange s → Taken (apply_argument u s arg)
  unfolding apply_argument
  argument-Taken s arg r =
      let opt = arg.opt in
      let num = u.atoi arg.optarg in
      if-Taken _ _ (opt == b's') (taken r.connections r.pool r.port r.write r.shutdown) (
        if-Taken _ _ (opt == b'm') (taken r.connections r.pool r.port r.write r.shutdown) (
          if-Taken _ _ (opt == b'c')
            (accepted-Taken (is_positive num) (record s { max_connections = num })
              (λ h. taken h r.pool r.port r.write r.shutdown))
            (if-Taken _ _ (opt == b'd') (taken r.connections r.pool r.port r.write r.shutdown) (
              if-Taken _ _ (opt == b'p')
                (accepted-Taken (within 1 64 num) (record s { pool_size = num })
                  (λ h. taken r.connections h r.port r.write r.shutdown))
                (if-Taken _ _ (opt == b't') (taken r.connections r.pool r.port r.write r.shutdown) (
                  if-Taken _ _ (opt == b'a') (taken r.connections r.pool r.port r.write r.shutdown)
                    (if-Taken _ _ (opt == b'q')
                      (taken r.connections r.pool r.port r.write r.shutdown)
                      (if-Taken _ _ (opt == b'M')
                        (accepted-Taken (within 0 65535 num) (record s { metrics_port = num })
                          (λ h. taken r.connections r.pool h r.write r.shutdown))
                        (if-Taken _ _ (opt == b'C') r (
                          if-Taken _ _ (opt == b'b')
                            (taken r.connections r.pool r.port r.write r.shutdown)
                            (if-Taken leave wrong ((opt == b'h') || (opt == b'v')) tt tt)))))))))))

  then-Taken :
      (go : Settings → Parsed) (o : Parsed)
      → ((s : Settings) → IsRange s → Taken (go s))
      → Taken o
      → Taken (then_parse go o)
  then-Taken go (parsed s) h t = h s t
  then-Taken go wrong h t = tt
  then-Taken go leave h t = tt

  arguments-Taken :
      (args : List Argument) (s : Settings) → IsRange s → Taken (apply_arguments u s args)
  unfolding apply_arguments
  arguments-Taken [] s r = r
  arguments-Taken (arg ∷ args) s r =
      then-Taken (λ (s' : Settings). apply_arguments u s' args) (apply_argument u s arg)
        (λ s' r'. arguments-Taken args s' r') (argument-Taken s arg r)

  loaded-Taken :
      (args : List Argument) (o : Bool × Settings)
      → IsFileRange o.1
      → Taken (after_load (λ (s : Settings). apply_arguments u s args) o)
  loaded-Taken args (true, s) r =
      arguments-Taken args s
        (taken (at_least_one s.max_connections r.connections) r.pool r.port r.write r.shutdown)
  loaded-Taken args (false, s) r = tt

-- Whatever the configuration files say, whatever options are given and whatever the conversions of numbers give: if the
-- command line is taken, then there is at least one connection and from 1 to 64 workers, the port is
-- from 0 to 65535, and the timeouts for writes and for the end are at least 1 and at most 300000 ms and 3600 s.
pub parsed-IsRange :
    (u : Libc) (fopen : Bytes → File) (openai : Bool) (args : List Argument) (s : Settings)
    → parse_args u fopen (daemon_init u openai) args ≡ parsed s
    → IsRange s
unfolding parse_args daemon_init
parsed-IsRange u fopen openai args s e =
    let start : IsFileRange (daemon_init u openai) = in_range refl refl refl refl refl refl refl in
    subst Taken e (
      loaded-Taken u args (load_first u (daemon_init u openai) fopen (config_argument args)) (
        load_first-Kept u IsFileRange (parse_line-Held u) (daemon_init u openai) fopen
          (config_argument args) start))
