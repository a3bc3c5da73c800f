-- ===== src/Apache/Filter/Tests.antt =====
-- mod_socket_handoff.c, the output filter at concrete requests.
use mod_socket_handoff.Base.{
  ◌≡◌, refl, Bool, true, false, ◌&&◌, ◌==◌, Option, some, none, List, [], ◌∷◌, Bytes, codes,
  if◌then◌else◌, arith,
}
use mod_socket_handoff.Apache.Config.{create_server_config}
use mod_socket_handoff.Apache.Samples.{calm, start, daemon_path, handoff_json}
use mod_socket_handoff.Apache.Filter.{
  Apr, Request, State, content, eos, output_filter, find_header, handoff_header,
  handoff_data_header,
}
use mod_socket_handoff.Apache.Filter.Ownership.{IsDone, filter-IsDone}
use mod_socket_handoff.Apache.Filter.Refusal.{filter_pass_through}

abbrev same : Bytes → Bytes → Bool
same [] [] = true
same (a ∷ as') (b ∷ bs) = a == b && same as' bs
same _ _ = false

-- A table of headers as a list, names compared with regard to case.
abbrev get : List (Bytes × Bytes) → Bytes → Option Bytes
get [] k = none
get ((j, v) ∷ t) k = if same j k then some v else get t k

abbrev apr : Apr (List (Bytes × Bytes))
apr = record {
  table_get = get;
  table_clear = λ t. [];
  filepath_merge = λ links p. some p;
  socket_create = λ n. some 77;
  os_sock_get = λ h. some 5;
  get_status_line = λ s. codes "Error";
  pass_brigade = λ bs. 0;
  stray = λ path. false;
}

abbrev request : Request (List (Bytes × Bytes))
request = record {
  headers_out = (handoff_header, daemon_path) ∷ (handoff_data_header, handoff_json) ∷ [];
  err_headers_out = [];
  proto_num = 1001;
  status = 200;
  status_line = none;
  content_type = none;
  is_subrequest = false;
}

abbrev before : State (List (Bytes × Bytes))
before = record {
  world = start;
  request = request;
  conn = record { core_socket = some 42; aborted = false };
  brigade = content (codes "body") ∷ eos ∷ [];
  installed = true;
  passed = [];
}

filter-IsDone_example :
    IsDone apr (some handoff_json) before (output_filter apr calm create_server_config before)
unfolding find_header
filter-IsDone_example =
    filter-IsDone apr calm create_server_config before daemon_path refl (λ n k e. ground arith)

abbrev plain : State (List (Bytes × Bytes))
plain = record before { request = record request { headers_out = [] } }

plain_response :
    output_filter apr calm create_server_config plain
    ≡ (0, record plain { installed = false; passed = (content (codes "body") ∷ eos ∷ []) ∷ [] })
unfolding find_header
plain_response = filter_pass_through apr calm create_server_config plain refl
