-- ===== src/Apache/Config.antt =====
-- mod_socket_handoff.c: `socket_handoff_config`, its creation and merge, and the directives.
-- `strtol` is libc's: a parameter. The timeouts and the retry count are C ints that the directives
-- keep in a non-negative range, so they are plain numbers here.
pub mod Range
pub mod Merge
mod Tests
use mod_socket_handoff.Base.{
  ℕ, Bool, true, false, ◌||◌, Option, none, some, List, [], ◌∷◌, Bytes, codes, get_elem?, ltb, ◌==◌,
  not, if◌then◌else◌,
}
use mod_socket_handoff.Base.Int.{ℤ, pos, negsuc}

pub record Config : Type 0 where
  pub enabled : Bool
  pub enabled_set : Bool
  pub allowed_socket_prefix : Option Bytes
  pub resolved_prefix : Option Bytes
  pub resolved_prefix_truename : Option Bytes
  pub connect_timeout_ms : ℕ
  pub connect_timeout_ms_set : Bool
  pub send_timeout_ms : ℕ
  pub send_timeout_ms_set : Bool
  pub max_retries : ℕ
  pub max_retries_set : Bool

abbrev pub default_max_retries : ℕ
default_max_retries = 2

abbrev pub default_prefix : Bytes
default_prefix = codes "/run/"

-- `apr_pcalloc` zeroes the record, so the two cached prefixes start as NULL.
unfoldable pub create_server_config : Config
create_server_config = record {
  enabled = true;
  enabled_set = false;
  allowed_socket_prefix = some default_prefix;
  resolved_prefix = none;
  resolved_prefix_truename = none;
  connect_timeout_ms = 100;
  connect_timeout_ms_set = false;
  send_timeout_ms = 200;
  send_timeout_ms_set = false;
  max_retries = default_max_retries;
  max_retries_set = false;
}

-- `p ? p : q` on pointers
abbrev pub or_else {ℓ} : {A : Type ℓ} → Option A → Option A → Option A
or_else (some a) q = some a
or_else none q = q

unfoldable pub merge_server_config : Config → Config → Config
merge_server_config base add = record {
  enabled = if add.enabled_set then add.enabled else base.enabled;
  enabled_set = add.enabled_set || base.enabled_set;
  allowed_socket_prefix = or_else add.allowed_socket_prefix base.allowed_socket_prefix;
  resolved_prefix = none;
  resolved_prefix_truename = none;
  connect_timeout_ms =
      if add.connect_timeout_ms_set then add.connect_timeout_ms else base.connect_timeout_ms;
  connect_timeout_ms_set = add.connect_timeout_ms_set || base.connect_timeout_ms_set;
  send_timeout_ms = if add.send_timeout_ms_set then add.send_timeout_ms else base.send_timeout_ms;
  send_timeout_ms_set = add.send_timeout_ms_set || base.send_timeout_ms_set;
  max_retries = if add.max_retries_set then add.max_retries else base.max_retries;
  max_retries_set = add.max_retries_set || base.max_retries_set;
}

-- What `strtol(arg, &endptr, 10)` gives: the value, `endptr - arg`, and whether errno is ERANGE.
pub record Strtol : Type 0 where
  pub value : ℤ
  pub endptr : ℕ
  pub erange : Bool

-- `*endptr`: the NUL at the end of the text is not in its list.
abbrev pub char_at : Bytes → ℕ → ℕ
char_at s i = elim (get_elem? s i) [ none ↦ 0 | some c ↦ c ]

-- `endptr == arg || *endptr != '\0'`
abbrev pub not_a_number : Bytes → Strtol → Bool
not_a_number arg r = (r.endptr == 0) || not (char_at arg r.endptr == 0)

-- `timeout < lo || timeout > hi`
abbrev pub out_of_range : ℕ → ℕ → ℤ → Bool
out_of_range lo hi (pos n) = ltb n lo || ltb hi n
out_of_range lo hi (negsuc n) = true

-- `(int)timeout`, after the range check
abbrev pub to_int : ℤ → ℕ
to_int (pos n) = n
to_int (negsuc n) = 0

abbrev pub max_connect_timeout_ms : ℕ
max_connect_timeout_ms = 60000

abbrev pub max_retries_limit : ℕ
max_retries_limit = 10

abbrev pub connect_not_integer : Bytes
connect_not_integer = codes "SocketHandoffConnectTimeoutMs must be a valid integer"

abbrev pub connect_not_in_range : Bytes
connect_not_in_range = codes "SocketHandoffConnectTimeoutMs must be between 1 and 60000"

abbrev pub send_not_integer : Bytes
send_not_integer = codes "SocketHandoffSendTimeoutMs must be a valid integer"

abbrev pub send_not_in_range : Bytes
send_not_in_range = codes "SocketHandoffSendTimeoutMs must be between 1 and 60000"

abbrev pub retries_not_integer : Bytes
retries_not_integer = codes "SocketHandoffMaxRetries must be a valid integer"

abbrev pub retries_not_in_range : Bytes
retries_not_in_range = codes "SocketHandoffMaxRetries must be between 0 and 10"

-- A directive's handler: the error text it returns (NULL is none) and the configuration after it.
abbrev pub Outcome : Type 0
Outcome = Option Bytes × Config

unfoldable pub set_enabled : Bool → Config → Outcome
set_enabled flag conf = (none, record conf { enabled = flag; enabled_set = true })

unfoldable pub set_allowed_prefix : Bytes → Config → Outcome
set_allowed_prefix prefix conf = (none, record conf { allowed_socket_prefix = some prefix })

module _ (strtol : Bytes → Strtol) where
  unfoldable pub set_connect_timeout : Bytes → Config → Outcome
  set_connect_timeout arg conf =
      let r = strtol arg in
      if not_a_number arg r
      then (some connect_not_integer, conf)
      else if r.erange || out_of_range 1 max_connect_timeout_ms r.value
      then (some connect_not_in_range, conf)
      else (
        none,
        record conf { connect_timeout_ms = to_int r.value; connect_timeout_ms_set = true },
      )

  unfoldable pub set_send_timeout : Bytes → Config → Outcome
  set_send_timeout arg conf =
      let r = strtol arg in
      if not_a_number arg r
      then (some send_not_integer, conf)
      else if r.erange || out_of_range 1 max_connect_timeout_ms r.value
      then (some send_not_in_range, conf)
      else (none, record conf { send_timeout_ms = to_int r.value; send_timeout_ms_set = true })

  unfoldable pub set_max_retries : Bytes → Config → Outcome
  set_max_retries arg conf =
      let r = strtol arg in
      if not_a_number arg r
      then (some retries_not_integer, conf)
      else if r.erange || out_of_range 0 max_retries_limit r.value
      then (some retries_not_in_range, conf)
      else (none, record conf { max_retries = to_int r.value; max_retries_set = true })

-- `socket_handoff_cmds`: the directives, each with its argument.
pub data Directive : Type 0 where
  enabled : Bool → Directive
  allowed_prefix connect_timeout send_timeout max_retries : Bytes → Directive

module _ (strtol : Bytes → Strtol) where
  unfoldable pub apply : Directive → Config → Outcome
  apply (Directive.enabled flag) conf = set_enabled flag conf
  apply (allowed_prefix arg) conf = set_allowed_prefix arg conf
  apply (connect_timeout arg) conf = set_connect_timeout strtol arg conf
  apply (send_timeout arg) conf = set_send_timeout strtol arg conf
  apply (Directive.max_retries arg) conf = set_max_retries strtol arg conf

  -- A server's directives in order. Apache stops at the first error; a refused directive
  -- leaves the configuration as it was, so carrying on reads the same values.
  unfoldable pub configure : List Directive → Config → Config
  configure [] conf = conf
  configure (d ∷ ds) conf = configure ds (apply d conf).1
