-- ===== src/Daemon/Settings/Preserved.antt =====
-- config.c: what every line of a file keeps, loading a file keeps.
use mod_socket_handoff.Base.{
  ◌≡◌, refl, Bool, true, false, Option, none, some, List, [], ◌∷◌, Bytes, if◌then◌else◌,
}
use mod_socket_handoff.Daemon.Settings.{
  Settings, Libc, File, lines, missing, refused, checked, parse_line, parse_pair, split_at_equals,
  trim, settings_or, is_skipped, config_line, config_lines, config_load, first_config, or_next,
  config_load_default, default_paths,
}
use mod_socket_handoff.Daemon.Settings.CommandLine.{load_first}

abbrev pub Held : (Settings → Type 0) → Option Settings → Type 0
Held P none = Unit
Held P (some s) = P s

pub checked-Held :
    (P : Settings → Type 0) (b : Bool) (s : Settings) → (b ≡ true → P s) → Held P (checked b s)
checked-Held P true s h = h refl
checked-Held P false s h = tt

pub if-Held :
    (P : Settings → Type 0) (a b : Option Settings) (t : Bool)
    → Held P a
    → Held P b
    → Held P (if t then a else b)
if-Held P a b true p q = p
if-Held P a b false p q = q

pub if-Kept :
    (P : Settings → Type 0) (a b : Settings) (t : Bool) → P a → P b → P (if t then a else b)
if-Kept P a b true p q = p
if-Kept P a b false p q = q

module _ (u : Libc) (P : Settings → Type 0)
    (keeps : (s : Settings) (key value : Bytes) → P s → Held P (parse_line u s key value)) where
  settings_or-Kept : (s : Settings) (o : Option Settings) → P s → Held P o → P (settings_or s o)
  settings_or-Kept s none r h = r
  settings_or-Kept s (some s') r h = h

  pair-Kept : (s : Settings) (o : Option (Bytes × Bytes)) → P s → P (parse_pair u s o)
  unfolding parse_pair
  pair-Kept s none r = r
  pair-Kept s (some (key, value)) r =
      settings_or-Kept s (parse_line u s (trim key) (trim value)) r
        (keeps s (trim key) (trim value) r)

  lines-Kept : (ls : List Bytes) (s : Settings) → P s → P (config_lines u s ls)
  unfolding config_lines config_line
  lines-Kept [] s r = r
  lines-Kept (line ∷ ls) s r =
      let text = trim line in
      lines-Kept ls (config_line u s line) (
        if-Kept P s (parse_pair u s (split_at_equals text)) (is_skipped text) r
          (pair-Kept s (split_at_equals text) r))

  load-Kept : (s : Settings) (f : File) → P s → P (config_load u s f).1
  unfolding config_load
  load-Kept s (lines ls) r = lines-Kept ls s r
  load-Kept s missing r = r
  load-Kept s refused r = r

  next-Kept :
      (s : Settings) (next : Bool × Settings) (f : File) → P s → P next.1 → P (or_next u s next f).1
  next-Kept s next (lines ls) r n = load-Kept s (lines ls) r
  next-Kept s next missing r n = n
  next-Kept s next refused r n = n

  first-Kept :
      (s : Settings) (fopen : Bytes → File) (paths : List Bytes)
      → P s
      → P (first_config u s fopen paths).1
  unfolding first_config
  first-Kept s fopen [] r = r
  first-Kept s fopen (path ∷ paths) r =
      next-Kept s (first_config u s fopen paths) (fopen path) r (first-Kept s fopen paths r)

  pub load_first-Kept :
      (s : Settings) (fopen : Bytes → File) (o : Option Bytes) → P s → P (load_first u s fopen o).1
  unfolding load_first config_load_default
  load_first-Kept s fopen none r = first-Kept s fopen default_paths r
  load_first-Kept s fopen (some path) r = load-Kept s (fopen path) r
