-- ===== src/Daemon/Settings/CommandLine.antt =====
-- daemon.c: `parse_args` and the choices of `main`. The options that `getopt_long` gives are a parameter.
use mod_socket_handoff.Base.{
  ℕ, ◌+◌, ◌-◌, ◌%◌, ◌^◌, Bool, true, false, ◌&&◌, ◌||◌, not, Option, none, some, List, [], ◌∷◌,
  Bytes, length, ltb, ◌==◌, if◌then◌else◌,
}
use mod_socket_handoff.Base.Int.{ℤ, pos, negsuc}
use mod_socket_handoff.Daemon.Settings.{
  Settings, Libc, within, File, config_load, config_load_default,
}

-- An option of `getopt_long` with its argument; `opt` is the code of its letter.
pub record Argument : Type 0 where
  pub opt : ℕ
  pub optarg : Bytes

-- What the command line gives: settings, -1, or the end of the program.
pub data Parsed : Type 0 where
  parsed : Settings → Parsed
  wrong leave : Parsed

-- The conversion of a `long` to `int`.
abbrev pub to_int : ℤ → ℤ
to_int (pos n) = let m = n % 2 ^ 32 in if ltb m (2 ^ 31) then pos m else negsuc (2 ^ 32 - (m + 1))
to_int (negsuc n) =
    let m = n % 2 ^ 32 in if ltb m (2 ^ 31) then negsuc m else pos (2 ^ 32 - (m + 1))

abbrev pub accepted : Bool → Settings → Parsed
accepted true s = parsed s
accepted false s = wrong

-- At least one.
abbrev pub is_positive : ℤ → Bool
is_positive (pos n) = ltb 0 n
is_positive (negsuc n) = false

unfoldable pub apply_argument : Libc → Settings → Argument → Parsed
apply_argument u s arg =
    let opt = arg.opt in
    let num = u.atoi arg.optarg in
    if opt == b's'
    then parsed (record s {
      socket_path = if u.malloc (length arg.optarg + 1) then some arg.optarg else none;
    })
    else if opt == b'm'
    then parsed (record s { socket_mode = to_int (u.strtol arg.optarg 8).0 })
    else if opt == b'c'
    then accepted (is_positive num) (record s { max_connections = num })
    else if opt == b'd'
    then parsed (record s { message_delay_ms = num })
    else if opt == b'p'
    then accepted (within 1 64 num) (record s { pool_size = num })
    else if opt == b't'
    then parsed (record s { use_thread_pool = true; use_curl_multi = false })
    else if opt == b'a'
    then parsed (record s { use_curl_multi = true; use_thread_pool = false })
    else if opt == b'q'
    then parsed (record s { use_sqpoll = true })
    else if opt == b'M'
    then accepted (within 0 65535 num) (record s { metrics_port = num })
    else if opt == b'C'
    then parsed s
    else if opt == b'b'
    then parsed (record s { benchmark_mode = true })
    else if (opt == b'h') || (opt == b'v')
    then leave
    else wrong

abbrev pub then_parse : (Settings → Parsed) → Parsed → Parsed
then_parse go (parsed s) = go s
then_parse go wrong = wrong
then_parse go leave = leave

-- The second pass.
unfoldable pub apply_arguments : Libc → Settings → List Argument → Parsed
unfolding apply_argument
apply_arguments u s [] = parsed s
apply_arguments u s (arg ∷ args) =
    then_parse (λ (s' : Settings). apply_arguments u s' args) (apply_argument u s arg)

-- The first pass: the argument of the first `--config`.
unfoldable pub config_argument : List Argument → Option Bytes
config_argument [] = none
config_argument (arg ∷ args) =
    let rest = config_argument args in if arg.opt == b'C' then some arg.optarg else rest

-- A default file that cannot be read is no error.
unfoldable pub load_first : Libc → Settings → (Bytes → File) → Option Bytes → Bool × Settings
unfolding config_load_default config_load
load_first u s fopen none = (true, (config_load_default u s fopen).1)
load_first u s fopen (some path) = config_load u s (fopen path)

abbrev pub after_load : (Settings → Parsed) → Bool × Settings → Parsed
after_load go (true, s) = go s
after_load go (false, s) = wrong

unfoldable pub parse_args : Libc → (Bytes → File) → Settings → List Argument → Parsed
unfolding load_first config_argument apply_arguments
parse_args u fopen s args =
    after_load (λ (s' : Settings). apply_arguments u s' args)
      (load_first u s fopen (config_argument args))

-- `main`: what is started. The curl manager is only there with BACKEND_OPENAI.
abbrev pub starts_curl : Bool → Settings → Bool
starts_curl openai s = openai && s.use_curl_multi

abbrev pub starts_pool : Settings → Bool
starts_pool s = s.use_thread_pool && not s.use_curl_multi

-- `daemon_run` asks the pool for its eventfd.
abbrev pub asks_pool : Settings → Bool
asks_pool s = s.use_thread_pool
