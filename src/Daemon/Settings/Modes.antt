-- ===== src/Daemon/Settings/Modes.antt =====
-- daemon.c and config.c: a file that turns the thread pool on, with the asynchronous requests on from the start.
use mod_socket_handoff.Base.{
  ◌+◌, ne→==, ◌≡◌, ◌≢◌, refl, ◌∙◌, Bool, true, false, ◌||◌, Option, none, some, List, [], ◌∷◌,
  Bytes, codes, length, get_elem?, ◌==◌, if◌then◌else◌,
}
use mathlib.Core.Path.{subst}
use mod_socket_handoff.Base.Int.{ℤ}
use mod_socket_handoff.Daemon.Settings.{
  Settings, Libc, File, daemon_init, within, set_text, set_flag, set_number, quoted, is_quote,
  store_text, store_number, parse_line, same_text,
}
use mod_socket_handoff.Daemon.Settings.CommandLine.{
  Argument, Parsed, parsed, wrong, leave, is_positive, accepted, apply_argument, apply_arguments,
  then_parse, after_load, load_first, config_argument, parse_args, starts_pool, asks_pool,
}
use mod_socket_handoff.Daemon.Settings.Preserved.{
  Held, checked-Held, if-Held, if-Kept, load_first-Kept,
}

abbrev Multi : Bool → Settings → Type 0
Multi c s = s.use_curl_multi ≡ c

module _ (u : Libc) (c : Bool) where
  number-Held :
      (key : Bytes) (z : ℤ) (s : Settings) → Multi c s → Held (Multi c) (set_number key z s)
  unfolding set_number
  number-Held key z s e =
      if-Held (Multi c) _ _ (same_text key (codes "max_connections"))
        (checked-Held (Multi c) _ (record s { max_connections = z }) (λ h. e))
        (if-Held (Multi c) _ _ (same_text key (codes "socket_mode"))
          (checked-Held (Multi c) _ (record s { socket_mode = z }) (λ h. e))
          (if-Held (Multi c) _ _
            (same_text key (codes "delay") || same_text key (codes "message_delay_ms"))
            (checked-Held (Multi c) _ (record s { message_delay_ms = z }) (λ h. e))
            (if-Held (Multi c) _ _ (same_text key (codes "pool_size"))
              (checked-Held (Multi c) _ (record s { pool_size = z }) (λ h. e))
              (if-Held (Multi c) _ _ (same_text key (codes "metrics_port"))
                (checked-Held (Multi c) _ (record s { metrics_port = z }) (λ h. e))
                (if-Held (Multi c) _ _ (same_text key (codes "write_timeout_ms"))
                  (checked-Held (Multi c) _ (record s { write_timeout_ms = z }) (λ h. e))
                  (if-Held (Multi c) _ _ (same_text key (codes "shutdown_timeout_s"))
                    (checked-Held (Multi c) _ (record s { shutdown_timeout_s = z }) (λ h. e))
                    e))))))

  flag-Multi : (key : Bytes) (on : Bool) (s : Settings) → Multi c s → Multi c (set_flag key on s)
  unfolding set_flag
  flag-Multi key on s e =
      if-Kept (Multi c) (record s { benchmark_mode = on }) _ (same_text key (codes "benchmark")) e
        (if-Kept (Multi c) (record s { use_thread_pool = on }) _
          (same_text key (codes "thread_pool")) e
          (if-Kept (Multi c) (record s { use_sqpoll = on }) s (same_text key (codes "sqpoll")) e e))

  text-Held :
      (key : Bytes) (s : Settings) (o : Option Bytes)
      → Multi c s
      → Held (Multi c) (store_text u key s o)
  unfolding store_text set_text
  text-Held key s none e = tt
  text-Held key s (some text) e =
      if-Held (Multi c) (some (set_text key text s)) none (u.malloc (length text + 1))
        (if-Kept (Multi c) (record s { socket_path = some text }) s
          (same_text key (codes "socket") || same_text key (codes "socket_path")) e e)
        tt

  stored-Held :
      (key : Bytes) (s : Settings) (o : ℤ × Bytes)
      → Multi c s
      → Held (Multi c) (store_number key s o)
  unfolding store_number
  stored-Held key s (num, []) e = number-Held key num s e
  stored-Held key s (num, d ∷ rest) e = e

  line-Held :
      (s : Settings) (key value : Bytes) → Multi c s → Held (Multi c) (parse_line u s key value)
  unfolding parse_line
  line-Held s key value e =
      if-Held (Multi c) _ _ (is_quote (get_elem? value 0)) (text-Held key s (quoted value) e) (
        if-Held (Multi c) _ _ (same_text value (codes "true")) (flag-Multi key true s e) (
          if-Held (Multi c) _ _ (same_text value (codes "false")) (flag-Multi key false s e)
            (stored-Held key s (u.strtol value 0) e)))

-- Neither of the two options that choose how requests are made is among the arguments.
abbrev pub Unmoded : List Argument → Type 0
Unmoded [] = Unit
Unmoded (arg ∷ args) = ((arg.opt ≢ b't') × (arg.opt ≢ b'a')) × Unmoded args

abbrev BothSame : Settings → Parsed → Type 0
BothSame s (parsed s') =
    (s'.use_thread_pool ≡ s.use_thread_pool) × (s'.use_curl_multi ≡ s.use_curl_multi)
BothSame s wrong = Unit
BothSame s leave = Unit

if-BothSame :
    (s : Settings) (a b : Parsed) (t : Bool)
    → BothSame s a
    → BothSame s b
    → BothSame s (if t then a else b)
if-BothSame s a b true p q = p
if-BothSame s a b false p q = q

accepted-BothSame :
    (s s' : Settings) (b : Bool) → BothSame s (parsed s') → BothSame s (accepted b s')
accepted-BothSame s s' true e = e
accepted-BothSame s s' false e = tt

module _ (u : Libc) where
  argument-BothSame :
      (s : Settings) (arg : Argument)
      → arg.opt ≢ b't'
      → arg.opt ≢ b'a'
      → BothSame s (apply_argument u s arg)
  unfolding apply_argument
  argument-BothSame s arg n m =
      let opt = arg.opt in
      let num = u.atoi arg.optarg in
      simp (ne→== opt b't' n, ne→== opt b'a' m)
        (if-BothSame s _ _ (opt == b's') (refl, refl)
          (if-BothSame s _ _ (opt == b'm') (refl, refl)
            (if-BothSame s _ _ (opt == b'c')
              (accepted-BothSame s (record s { max_connections = num }) (is_positive num)
                (refl, refl))
              (if-BothSame s _ _ (opt == b'd') (refl, refl)
                (if-BothSame s _ _ (opt == b'p')
                  (accepted-BothSame s (record s { pool_size = num }) (within 1 64 num)
                    (refl, refl))
                  (if-BothSame s _ _ (opt == b'q') (refl, refl)
                    (if-BothSame s _ _ (opt == b'M')
                      (accepted-BothSame s (record s { metrics_port = num }) (within 0 65535 num)
                        (refl, refl))
                      (if-BothSame s _ _ (opt == b'C') (refl, refl)
                        (if-BothSame s _ _ (opt == b'b') (refl, refl)
                          (if-BothSame s leave wrong ((opt == b'h') || (opt == b'v')) tt
                            tt))))))))))

  then-BothSame :
      (s : Settings) (go : Settings → Parsed) (o : Parsed)
      → ((s' : Settings) → BothSame s' (go s'))
      → BothSame s o
      → BothSame s (then_parse go o)
  then-BothSame s go (parsed s') h (a, b) = moved (go s') (h s')
    where
      moved : (o : Parsed) → BothSame s' o → BothSame s o
      moved (parsed s2) (x, y) = (x ∙ a, y ∙ b)
      moved wrong e = tt
      moved leave e = tt
  then-BothSame s go wrong h e = tt
  then-BothSame s go leave h e = tt

  arguments-BothSame :
      (args : List Argument) (s : Settings) → Unmoded args → BothSame s (apply_arguments u s args)
  unfolding apply_arguments
  arguments-BothSame [] s n = (refl, refl)
  arguments-BothSame (arg ∷ args) s ((n, m), ns) =
      then-BothSame s (λ (s' : Settings). apply_arguments u s' args) (apply_argument u s arg)
        (λ s'. arguments-BothSame args s' ns) (argument-BothSame s arg n m)

  loaded-BothSame :
      (args : List Argument) (o : Bool × Settings)
      → Unmoded args
      → BothSame o.1 (after_load (λ (s : Settings). apply_arguments u s args) o)
  loaded-BothSame args (true, s) n = arguments-BothSame args s n
  loaded-BothSame args (false, s) n = tt

-- In the build for an LLM API, with neither -t nor -a on a command line that is taken, and with a configuration after which the
-- thread pool is on: the thread pool is not started, since asynchronous requests are on too, but the main
-- loop asks it for its descriptor.
pub pool_missing :
    (u : Libc) (fopen : Bytes → File) (args : List Argument) (s : Settings)
    → Unmoded args
    → (load_first u (daemon_init u true) fopen (config_argument args)).1.use_thread_pool ≡ true
    → parse_args u fopen (daemon_init u true) args ≡ parsed s
    → (starts_pool s ≡ false) × (asks_pool s ≡ true)
unfolding parse_args
pool_missing u fopen args s n t e =
    let loaded = load_first u (daemon_init u true) fopen (config_argument args) in
    let (x, y) = subst (BothSame loaded.1) e (loaded-BothSame u args loaded n) in
    let z : loaded.1.use_curl_multi ≡ true =
      load_first-Kept u (Multi true) (line-Held u true) (daemon_init u true) fopen
        (config_argument args) (unfold daemon_init in refl) in
    let p : s.use_thread_pool ≡ true = x ∙ t in
    let q : s.use_curl_multi ≡ true = y ∙ z in (rw (p, q) refl, p)
