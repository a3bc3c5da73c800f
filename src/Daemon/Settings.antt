-- ===== src/Daemon/Settings.antt =====
-- config.c and config.h, and `daemon_init` of daemon.c; CommandLine has `parse_args`. Texts are C strings. `strtol`
-- gives the number and the rest of the text; it, `atoi`, the lines that `fgets` gives, the options that `getopt_long`
-- gives, and whether there is memory are parameters.
pub mod CommandLine
pub mod Lines
pub mod Preserved
pub mod Arguments
pub mod Modes
mod Tests
use mod_socket_handoff.Base.{
  ℕ, suc, ◌+◌, ◌-◌, ◌%◌, ◌^◌, Bool, true, false, ◌&&◌, ◌||◌, not, Option, none, some, List, [], ◌∷◌,
  ◌++◌, Bytes, codes, length, get_elem?, take, drop, ltb, leb, ◌==◌, if◌then◌else◌,
}
use mod_socket_handoff.Base.Int.{ℤ, pos, negsuc}
use mod_socket_handoff.Daemon.Curl.Lines.{with_byte}

pub record Settings : Type 0 where
  pub socket_path : Option Bytes
  pub socket_mode : ℤ
  pub max_connections : ℤ
  pub handoff_timeout_ms : ℤ
  pub write_timeout_ms : ℤ
  pub shutdown_timeout_s : ℤ
  pub message_delay_ms : ℤ
  pub pool_size : ℤ
  pub metrics_port : ℤ
  pub use_thread_pool : Bool
  pub use_curl_multi : Bool
  pub use_sqpoll : Bool
  pub benchmark_mode : Bool

pub record Libc : Type 0 where
  -- of the text and the base
  pub strtol : Bytes → ℕ → ℤ × Bytes
  pub atoi : Bytes → ℤ
  pub malloc : ℕ → Bool

-- `openai` says that BACKEND_OPENAI is defined.
unfoldable pub daemon_init : Libc → Bool → Settings
daemon_init u openai = record {
  socket_path = if u.malloc 27 then some (codes "/run/streaming-daemon.sock") else none;
  socket_mode = pos 432;
  max_connections = pos 10000;
  handoff_timeout_ms = pos 5000;
  write_timeout_ms = pos 30000;
  shutdown_timeout_s = pos 120;
  message_delay_ms = pos 50;
  pool_size = pos 8;
  metrics_port = pos 0;
  use_thread_pool = false;
  use_curl_multi = openai;
  use_sqpoll = false;
  benchmark_mode = false;
}

-- `isspace`
abbrev pub is_space : ℕ → Bool
is_space c = (c == 32) || (leb 9 c && leb c 13)

unfoldable pub skip_spaces : Bytes → Bytes
skip_spaces [] = []
skip_spaces (c ∷ s) = let rest = skip_spaces s in if is_space c then rest else c ∷ s

abbrev pub keep : ℕ → Bytes → Bytes
keep c [] = if is_space c then [] else c ∷ []
keep c (d ∷ s) = c ∷ d ∷ s

unfoldable pub drop_spaces : Bytes → Bytes
drop_spaces [] = []
drop_spaces (c ∷ s) = keep c (drop_spaces s)

unfoldable pub trim : Bytes → Bytes
unfolding skip_spaces drop_spaces
trim s = drop_spaces (skip_spaces s)

-- `strcmp(a, b) == 0`
unfoldable pub same_text : Bytes → Bytes → Bool
same_text [] [] = true
same_text (c ∷ a) (d ∷ b) = c == d && same_text a b
same_text _ _ = false

-- A number in a range.
abbrev pub within : ℕ → ℕ → ℤ → Bool
within low high (pos n) = leb low n && leb n high
within low high (negsuc n) = false

-- A number is stored if it is in range.
abbrev pub checked : Bool → Settings → Option Settings
checked true s = some s
checked false s = none

unfoldable pub set_text : Bytes → Bytes → Settings → Settings
unfolding same_text
set_text key text s =
    if same_text key (codes "socket") || same_text key (codes "socket_path")
    then record s { socket_path = some text }
    else s

unfoldable pub set_flag : Bytes → Bool → Settings → Settings
unfolding same_text
set_flag key on s =
    if same_text key (codes "benchmark")
    then record s { benchmark_mode = on }
    else if same_text key (codes "thread_pool")
    then record s { use_thread_pool = on }
    else if same_text key (codes "sqpoll")
    then record s { use_sqpoll = on }
    else s

-- MAX_POOL_SIZE is 64.
unfoldable pub set_number : Bytes → ℤ → Settings → Option Settings
unfolding same_text
set_number key num s =
    if same_text key (codes "max_connections")
    then checked (within 1 1000000 num) (record s { max_connections = num })
    else if same_text key (codes "socket_mode")
    then checked (within 0 511 num) (record s { socket_mode = num })
    else if same_text key (codes "delay") || same_text key (codes "message_delay_ms")
    then checked (within 0 60000 num) (record s { message_delay_ms = num })
    else if same_text key (codes "pool_size")
    then checked (within 1 64 num) (record s { pool_size = num })
    else if same_text key (codes "metrics_port")
    then checked (within 0 65535 num) (record s { metrics_port = num })
    else if same_text key (codes "write_timeout_ms")
    then checked (within 1 300000 num) (record s { write_timeout_ms = num })
    else if same_text key (codes "shutdown_timeout_s")
    then checked (within 1 3600 num) (record s { shutdown_timeout_s = num })
    else some s

-- The text within the quotes, of a value that starts with one: it ends in another.
abbrev pub is_quote : Option ℕ → Bool
is_quote none = false
is_quote (some c) = c == 34

unfoldable pub quoted : Bytes → Option Bytes
quoted value =
    if ltb (length value) 2 || not (is_quote (get_elem? value (length value - 1)))
    then none
    else some (take (length value - 2) (drop 1 value))

unfoldable pub store_text : Libc → Bytes → Settings → Option Bytes → Option Settings
unfolding set_text
store_text u key s none = none
store_text u key s (some text) =
    if u.malloc (length text + 1) then some (set_text key text s) else none

-- A value that is not a number to its end is ignored.
unfoldable pub store_number : Bytes → Settings → ℤ × Bytes → Option Settings
unfolding set_number
store_number key s (num, []) = set_number key num s
store_number key s (num, c ∷ rest) = some s

-- None is -1, with the settings as they were.
unfoldable pub parse_line : Libc → Settings → Bytes → Bytes → Option Settings
unfolding store_text store_number quoted set_flag same_text
parse_line u s key value =
    if is_quote (get_elem? value 0)
    then store_text u key s (quoted value)
    else if same_text value (codes "true")
    then some (set_flag key true s)
    else if same_text value (codes "false")
    then some (set_flag key false s)
    else store_number key s (u.strtol value 0)

-- The text before and behind the first `=`.
unfoldable pub split_at_equals : Bytes → Option (Bytes × Bytes)
split_at_equals [] = none
split_at_equals (c ∷ s) = if c == 61 then some ([], s) else with_byte c (split_at_equals s)

abbrev pub settings_or : Settings → Option Settings → Settings
settings_or s none = s
settings_or s (some s') = s'

unfoldable pub parse_pair : Libc → Settings → Option (Bytes × Bytes) → Settings
unfolding trim parse_line
parse_pair u s none = s
parse_pair u s (some (key, value)) = settings_or s (parse_line u s (trim key) (trim value))

-- A comment or a section.
abbrev pub is_skipped : Bytes → Bool
is_skipped [] = true
is_skipped (c ∷ s) = (c == 35) || (c == 91)

unfoldable pub config_line : Libc → Settings → Bytes → Settings
unfolding trim split_at_equals parse_pair
config_line u s line =
    let text = trim line in if is_skipped text then s else parse_pair u s (split_at_equals text)

unfoldable pub config_lines : Libc → Settings → List Bytes → Settings
config_lines u s [] = s
config_lines u s (line ∷ lines) = config_lines u (config_line u s line) lines

-- What `fopen` gives: the lines, ENOENT, or another error.
pub data File : Type 0 where
  lines : List Bytes → File
  missing refused : File

-- False is -1.
unfoldable pub config_load : Libc → Settings → File → Bool × Settings
unfolding config_lines
config_load u s (lines ls) = (true, config_lines u s ls)
config_load u s missing = (true, s)
config_load u s refused = (false, s)

abbrev pub default_paths : List Bytes
default_paths =
    codes "./streaming-daemon.toml"
    ∷ codes "/etc/streaming-daemon/config.toml"
    ∷ codes "/etc/streaming-daemon.toml"
    ∷ []

-- The first file that opens.
abbrev pub or_next : Libc → Settings → Bool × Settings → File → Bool × Settings
or_next u s next (lines ls) = config_load u s (lines ls)
or_next u s next _ = next

unfoldable pub first_config : Libc → Settings → (Bytes → File) → List Bytes → Bool × Settings
first_config u s fopen [] = (true, s)
first_config u s fopen (path ∷ paths) = or_next u s (first_config u s fopen paths) (fopen path)

unfoldable pub config_load_default : Libc → Settings → (Bytes → File) → Bool × Settings
unfolding first_config
config_load_default u s fopen = first_config u s fopen default_paths
