-- ===== src/Daemon/Settings/Tests.antt =====
-- config.c and the command line of daemon.c on short inputs.
use mod_socket_handoff.Base.{
  ℕ, ◌+◌, ◌*◌, ◌-◌, ◌≡◌, refl, true, false, List, [], ◌∷◌, Bytes, codes, arith, leb, ◌&&◌,
  if◌then◌else◌,
}
use mod_socket_handoff.Base.Int.{ℤ, pos}
use mod_socket_handoff.Daemon.Settings.{
  Settings, Libc, File, lines, daemon_init, parse_line, settings_or, config_line,
  config_load_default, first_config, config_lines, config_load, trim, skip_spaces, drop_spaces,
  same_text, split_at_equals, parse_pair, set_flag, set_number, store_number,
}
use mod_socket_handoff.Daemon.Settings.CommandLine.{
  Argument, parsed, parse_args, starts_pool, asks_pool, load_first, apply_arguments, apply_argument,
  config_argument,
}
use mod_socket_handoff.Daemon.Settings.Arguments.{IsRange, parsed-IsRange}
use mod_socket_handoff.Daemon.Settings.Modes.{pool_missing}
use mod_socket_handoff.Daemon.Settings.Lines.{line-Tight}

-- Decimal numbers without a sign.
abbrev digits : ℕ → Bytes → ℤ × Bytes
digits n [] = (pos n, [])
digits n (c ∷ s) = if leb 48 c && leb c 57 then digits (n * 10 + (c - 48)) s else (pos n, c ∷ s)

abbrev libc : Libc
libc = record { strtol = λ s base. digits 0 s; atoi = λ s. (digits 0 s).0; malloc = λ n. true }

-- A file that turns the thread pool on, and the port on the command line.
abbrev files : Bytes → File
files path = lines (codes "# pool\n" ∷ codes " thread_pool = true \n" ∷ codes "pool_size=99\n" ∷ [])

abbrev port : List Argument
port = record { opt = b'M'; optarg = codes "9090" } ∷ []

abbrev from_file : Settings
from_file = record (daemon_init libc true) { use_thread_pool = true }

taken :
    parse_args libc files (daemon_init libc true) port
    ≡ parsed (record from_file { metrics_port = pos 9090 })
unfolding parse_args load_first config_load_default first_config config_load config_lines
    config_line trim skip_spaces drop_spaces split_at_equals parse_pair parse_line same_text
    set_flag set_number store_number apply_arguments apply_argument config_argument daemon_init
taken = refl

parsed-IsRange_example : IsRange (record from_file { metrics_port = pos 9090 })
parsed-IsRange_example =
    parsed-IsRange libc files true port (record from_file { metrics_port = pos 9090 }) taken

loaded :
    (load_first libc (daemon_init libc true) files (config_argument port)).1.use_thread_pool ≡ true
unfolding load_first config_load_default first_config config_load config_lines config_line trim
    skip_spaces drop_spaces split_at_equals parse_pair parse_line same_text set_flag set_number
    store_number config_argument daemon_init
loaded = refl

pool_missing_example :
    (starts_pool (record from_file { metrics_port = pos 9090 }) ≡ false)
    × (asks_pool (record from_file { metrics_port = pos 9090 }) ≡ true)
pool_missing_example =
    pool_missing libc files port (record from_file { metrics_port = pos 9090 })
      (((λ e. omega arith), (λ e. omega arith)), tt) loaded taken

line-Tight_example :
    config_line libc from_file (codes " delay\t= 5 \n")
    ≡ settings_or from_file (parse_line libc from_file (codes "delay") (codes "5"))
unfolding drop_spaces
line-Tight_example =
    line-Tight libc from_file (codes " ") (codes "delay") (codes "\t") (codes " ") (codes "5")
      (codes " \n") (refl, tt) (refl, tt) (refl, tt) (refl, (refl, tt))
      (record { first = b'd'; others = codes "elay"; shape = refl; starts = refl; ends = refl })
      (record { first = b'5'; others = []; shape = refl; starts = refl; ends = refl })
      ((omega arith), ((omega arith), ((omega arith), ((omega arith), ((omega arith), tt)))))
      (omega arith) (omega arith)
