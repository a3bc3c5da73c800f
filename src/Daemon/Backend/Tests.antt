-- ===== src/Daemon/Backend/Tests.antt =====
-- backend_openai.c with a short response.
use mod_socket_handoff.Base.{
  ℕ, ◌≡◌, Bool, List, refl, true, false, none, some, [], ◌∷◌, Bytes, codes,
}
use mod_socket_handoff.Base.Int.{pos}
use mod_socket_handoff.Daemon.Curl.Request.{Setup}
use mod_socket_handoff.Daemon.Backend.{
  Client, Transfer, wrote, interrupted, backend_process, perform, new_response,
}
use mod_socket_handoff.Daemon.Backend.Pieces.{apart, perform-concat}
use mod_socket_handoff.Daemon.Backend.Answered.{Answer, process-Answer}

abbrev setup : Setup
setup = record {
  api = record {
    api_key = some (codes "key");
    api_base = codes "http://localhost/v1";
    api_socket = none;
    default_model = codes "gpt-4";
    insecure_ssl = false;
    http2_enabled = false;
  };
  malloc = λ n. true;
  curl_easy_init = some 7;
  add_handle = λ easy. true;
  print = λ z. codes "1024";
}

abbrev respond : Bytes → Bytes → Transfer
respond url body = record {
  pieces = codes "data: {\"content\":\"h" ∷ codes "i\"}\n\n" ∷ [];
  result = true;
  http_code = 200;
}

abbrev client : Client
client = record { answers = wrote 100 ∷ interrupted ∷ wrote 100 ∷ wrote 100 ∷ []; out = [] }

process-Answer_example : Answer (backend_process setup respond client 0 none none (pos 0))
process-Answer_example = process-Answer setup respond client 0 none none (pos 0) refl

abbrev enough : ℕ → Bool
enough n = true

-- Two pieces that cut a line.
abbrev two : List Bytes
two = codes "data: {\"content\":\"h" ∷ codes "i\"}\n\n" ∷ []

perform-concat_example :
    apart (perform enough two (new_response client) [])
    ≡ apart (perform enough (codes "data: {\"content\":\"hi\"}\n\n" ∷ []) (new_response client) [])
perform-concat_example =
    perform-concat enough (λ n. refl) (new_response client) [] (codes "data: {\"content\":\"h")
      (codes "i\"}\n\n" ∷ [])
