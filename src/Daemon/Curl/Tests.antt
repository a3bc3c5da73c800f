-- ===== src/Daemon/Curl/Tests.antt =====
-- curl_manager.c on short responses.
use mod_socket_handoff.Base.{
  ℕ, ◌≡◌, refl, Bool, true, false, none, some, List, [], ◌∷◌, ◌++◌, Bytes, codes, arith,
}
use mod_socket_handoff.Base.Int.{pos, negsuc}
use mod_socket_handoff.Daemon.Ring.{submission, ring_pack_data, curl_timeout}
use mod_socket_handoff.Daemon.Loop.State.{Cqe}
use mod_socket_handoff.Daemon.Curl.Lines.{
  Outcome, fine, take_bytes, each_line, split_line, strip_return,
}
use mod_socket_handoff.Daemon.Curl.Content.{line_content}
use mod_socket_handoff.Daemon.Curl.Content.Relay.{
  content-Spells, nothing, plain, quote, slash, newline,
}
use mod_socket_handoff.Daemon.Curl.Request.{Setup}
use mod_socket_handoff.Daemon.Curl.Polls.{Manager, timer_callback, process_timer_cqe}
use mod_socket_handoff.Daemon.Curl.Polls.Timers.{late_completion, timer_entry, cancel_entry}

abbrev collect : List Bytes → Bytes → Outcome (List Bytes) (List Bytes)
collect seen line = fine (line ∷ seen)

-- Two lines and a rest.
two_lines :
    take_bytes collect ([], []) (codes "ab\r\ncd\ne")
    ≡ fine (codes "cd" ∷ codes "ab" ∷ [], codes "e")
unfolding take_bytes each_line split_line strip_return
two_lines = refl

-- `"a`, a newline and a slash.
abbrev content : Bytes
content = codes "\"a\n/"

content-Spells_example :
    line_content (
      codes "data: {\"choices\":[{\"delta\":{\"content\":\""
      ++ (codes "\\\"a\\n\\/" ++ codes "\"}}]}"))
    ≡ some content
content-Spells_example =
    content-Spells (codes "\\\"a\\n\\/") content (codes "}}]}")
      (quote (plain b'a' (omega arith) (omega arith) (omega arith) (newline (slash nothing))))
      (λ e. cc) (omega arith)

abbrev setup : Setup
setup = record {
  api = record {
    api_key = some (codes "key");
    api_base = codes "http://localhost/v1";
    api_socket = none;
    default_model = codes "gpt-4";
    insecure_ssl = false;
    http2_enabled = true;
  };
  malloc = λ n. true;
  curl_easy_init = some 7;
  add_handle = λ easy. true;
  print = λ z. codes "1024";
}

abbrev manager : Manager
manager = record { timer_id = 4; timer_active = true; sockets = []; active_requests = 1 }

abbrev free_ring : ℕ → Bool
free_ring n = true

-- -ECANCELED
abbrev cancelled : Cqe
cancelled = record {
  user_data = ring_pack_data curl_timeout 4;
  res = negsuc 124;
  more = false;
  received = none;
}

late_completion_example :
    let one = timer_callback free_ring manager (record { calls = 0; log = [] }) (pos 50) in
    let first = submission ∷ timer_entry 50 5 ∷ cancel_entry 4 ∷ [] in
    ((timer_callback free_ring one.0 one.1 (pos 200)).1.log
      ≡ submission ∷ timer_entry 200 6 ∷ cancel_entry 5 ∷ first)
    × ((timer_callback free_ring (process_timer_cqe one.0 cancelled) one.1 (pos 200)).1.log
        ≡ submission ∷ timer_entry 200 6 ∷ first)
late_completion_example =
    late_completion free_ring (λ n. refl) manager (record { calls = 0; log = [] }) 50 200 cancelled
      refl (omega arith) refl refl
