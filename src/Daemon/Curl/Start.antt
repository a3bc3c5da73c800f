-- ===== src/Daemon/Curl/Start.antt =====
-- curl_manager.c: `curl_manager_init`. `getenv` and what libcurl and the allocator answer are parameters; the callbacks and
-- limits that are set on the handle are left out.
use mod_socket_handoff.Base.{
  ℕ, ◌+◌, Bool, true, false, ◌&&◌, ◌||◌, not, Option, none, some, [], ◌∷◌, Bytes, codes, replicate,
  leb, ◌==◌, if◌then◌else◌,
}
use mod_socket_handoff.Daemon.Settings.{same_text}
use mod_socket_handoff.Daemon.Curl.Polls.{Manager, no_poll}
use mod_socket_handoff.Daemon.Curl.Request.{Api, or_text}

abbrev pub lower : ℕ → ℕ
lower c = if leb 65 c && leb c 90 then c + 32 else c

-- `strcasecmp(a, b) == 0`
unfoldable pub same_caseless : Bytes → Bytes → Bool
same_caseless [] [] = true
same_caseless (c ∷ a) (d ∷ b) = lower c == lower d && same_caseless a b
same_caseless _ _ = false

-- One of two texts, the first in any case.
unfoldable pub says : Bytes → Bytes → Option Bytes → Bool
unfolding same_caseless
says word number none = false
says word number (some text) = same_caseless text word || same_text text number

unfoldable pub environment : (Bytes → Option Bytes) → Api
unfolding says
environment getenv = record {
  api_key = getenv (codes "OPENAI_API_KEY");
  api_base = or_text (getenv (codes "OPENAI_API_BASE")) (codes "https://api.openai.com/v1");
  api_socket = getenv (codes "OPENAI_API_SOCKET");
  default_model = or_text (getenv (codes "OPENAI_MODEL")) (codes "gpt-4o-mini");
  insecure_ssl = says (codes "true") (codes "1") (getenv (codes "OPENAI_INSECURE_SSL"));
  http2_enabled = not (says (codes "false") (codes "0") (getenv (codes "OPENAI_HTTP2_ENABLED")));
}

-- The answers of `curl_global_init`, `curl_multi_init` and `calloc`; none is -1.
unfoldable pub curl_manager_init :
    (Bytes → Option Bytes) → Bool → Bool → Bool → Option (Api × Manager)
unfolding environment
curl_manager_init getenv global multi memory =
    if global && (multi && memory)
    then some (
      environment getenv,
      record {
        timer_id = 0;
        timer_active = false;
        sockets = replicate 256 no_poll;
        active_requests = 0;
      },
    )
    else none
