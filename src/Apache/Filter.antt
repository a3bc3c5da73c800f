-- ===== src/Apache/Filter.antt =====
-- mod_socket_handoff.c: `socket_handoff_output_filter` and `socket_handoff_insert_filter`. What
-- httpd and APR do is a parameter; the tables of headers are of a type of theirs. The logging is
-- left out.
pub mod Ownership
pub mod Refusal
mod Tests
use mod_socket_handoff.Base.{
  ℕ, ◌+◌, Bool, true, false, not, Option, none, some, List, [], ◌∷◌, ◌++◌, Bytes, codes, leb, ◌==◌,
  if◌then◌else◌,
}
use mod_socket_handoff.Apache.Config.{Config, or_else}
use mod_socket_handoff.Apache.Deadline.{compute_handoff_deadline}
use mod_socket_handoff.Apache.Os.{Os, Result, ok, err, World, closed, tick}
use mod_socket_handoff.Apache.Retry.{connect_with_retry}
use mod_socket_handoff.Apache.Send.{send_fd_with_data}
use mod_socket_handoff.Apache.SocketPath.{Verdict, allow, deny, fault, validate_socket_path}

pub data Bucket : Type 0 where
  content : Bytes → Bucket
  eos : Bucket

-- APR's and httpd's functions, by their C names.
pub record Apr (Table : Type 0) : Type 0 where
  pub table_get : Table → Bytes → Option Bytes
  pub table_clear : Table → Table
  -- `apr_filepath_merge`, with APR_FILEPATH_TRUENAME or without
  pub filepath_merge : Bool → Bytes → Option Bytes
  -- `apr_socket_create`, at a number of calls: a handle, or none if it fails
  pub socket_create : ℕ → Option ℕ
  -- `apr_os_sock_get`: the descriptor of a handle
  pub os_sock_get : ℕ → Option ℕ
  pub get_status_line : ℕ → Bytes
  -- what the next filter returns
  pub pass_brigade : List Bucket → ℕ
  -- Whether a path passes after `validate_socket_path` has read before an empty string, which C does not define.
  pub stray : Bytes → Bool

pub record Request (Table : Type 0) : Type 0 where
  pub headers_out : Table
  pub err_headers_out : Table
  pub proto_num : ℕ
  pub status : ℕ
  pub status_line : Option Bytes
  pub content_type : Option Bytes
  -- `r->main != NULL`
  pub is_subrequest : Bool

-- The socket handle in the core module's configuration, and `c->aborted`.
pub record Conn : Type 0 where
  pub core_socket : Option ℕ
  pub aborted : Bool

pub record State (Table : Type 0) : Type 0 where
  pub world : World
  pub request : Request Table
  pub conn : Conn
  pub brigade : List Bucket
  -- the filter is in the request's chain
  pub installed : Bool
  -- the brigades handed to the next filter
  pub passed : List (List Bucket)

abbrev pub handoff_header : Bytes
handoff_header = codes "X-Socket-Handoff"

abbrev pub handoff_data_header : Bytes
handoff_data_header = codes "X-Handoff-Data"

abbrev pub http_forbidden : ℕ
http_forbidden = 403

abbrev pub http_internal_server_error : ℕ
http_internal_server_error = 500

abbrev pub http_service_unavailable : ℕ
http_service_unavailable = 503

abbrev pub content_type : Bytes
content_type = codes "text/html; charset=utf-8"

abbrev pub page_head : Bytes
page_head = codes "<!DOCTYPE html>" ++ (b'\n' ∷ codes "<html><body><h1>")

abbrev pub page_tail : Bytes
page_tail = codes "</h1></body></html>" ++ (b'\n' ∷ [])

-- `apr_bucket_delete` on each bucket up to the sentinel
delete_buckets : List Bucket → List Bucket
delete_buckets [] = []
delete_buckets (b ∷ bs) = delete_buckets bs

module _ {Table : Type 0} (apr : Apr Table) where
  -- In the headers of the response, or in those that an error keeps.
  pub find_header : Bytes → Request Table → Option Bytes
  find_header name r =
      or_else (apr.table_get r.headers_out name) (apr.table_get r.err_headers_out name)

  -- `ap_pass_brigade(f->next, bb)`
  pass_on : State Table → ℕ × State Table
  pass_on st = (apr.pass_brigade st.brigade, record st { passed = st.passed ++ (st.brigade ∷ []) })

  pub error_page : ℕ → List Bucket
  error_page status = content (page_head ++ (apr.get_status_line status ++ page_tail)) ∷ eos ∷ []

  -- The label `cleanup`, with the daemon's socket closed already, at an error.
  pub refuse : ℕ → State Table → ℕ × State Table
  unfolding pass_on error_page delete_buckets
  refuse status st =
      let r = st.request in
      pass_on (record st {
        installed = false;
        request = record r {
          status = status;
          status_line = none;
          headers_out = apr.table_clear r.headers_out;
          err_headers_out = apr.table_clear r.err_headers_out;
          content_type = some content_type;
        };
        brigade = delete_buckets st.brigade ++ error_page status;
      })

  -- The dummy takes the client's place, and httpd stops handling the connection.
  pub commit : ℕ → State Table → ℕ × State Table
  commit dummy st = (
    0,
    record st { installed = false; conn = record { core_socket = some dummy; aborted = true } },
  )

  -- After the send. A failed one whose descriptor went out all the same is committed to.
  pub after_send : ℕ → ℕ → (Result (Unit {0}) × Bool) × World → State Table → ℕ × State Table
  after_send sock dummy ((ok u, was_sent), w) st =
      commit dummy (record st { world = closed sock w })
  after_send sock dummy ((err e, true), w) st = commit dummy (record st { world = closed sock w })
  after_send sock dummy ((err e, false), w) st =
      refuse http_internal_server_error (record st { world = closed sock w })

  -- The daemon's socket, if there is one, and the send.
  pub after_connect_retry :
      Os → Config → ℕ → ℕ → Option Bytes → ℕ → Option ℕ × World → State Table → ℕ × State Table
  after_connect_retry os conf dummy fd handoff_data deadline (none, w) st =
      refuse http_service_unavailable (record st { world = w })
  after_connect_retry os conf dummy fd handoff_data deadline (some sock, w) st =
      after_send sock dummy
        (send_fd_with_data os sock fd handoff_data conf.send_timeout_ms deadline w) st

  -- The deadline is computed at the clock's next reading.
  pub transfer : Os → Config → Bytes → Option Bytes → ℕ → ℕ → State Table → ℕ × State Table
  transfer os conf path handoff_data dummy fd st =
      let w = st.world in
      let deadline = compute_handoff_deadline (os.now w.calls) conf in
      after_connect_retry os conf dummy fd handoff_data deadline
        (connect_with_retry os path conf.connect_timeout_ms conf.max_retries deadline (tick w)) st

  client_fd : Conn → Option ℕ
  client_fd c = elim c.core_socket [ none ↦ none | some h ↦ apr.os_sock_get h ]

  pub after_client :
      Os → Config → Bytes → Option Bytes → ℕ → Option ℕ → State Table → ℕ × State Table
  after_client os conf path handoff_data dummy none st = refuse http_internal_server_error st
  after_client os conf path handoff_data dummy (some fd) st =
      transfer os conf path handoff_data dummy fd st

  -- With the dummy made: the body goes, and the client's descriptor is looked up.
  pub after_dummy : Os → Config → Bytes → Option Bytes → Option ℕ → State Table → ℕ × State Table
  unfolding client_fd delete_buckets
  after_dummy os conf path handoff_data none st = refuse http_internal_server_error st
  after_dummy os conf path handoff_data (some dummy) st =
      after_client os conf path handoff_data dummy (client_fd st.conn)
        (record st { brigade = delete_buckets st.brigade })

  pub create_dummy : Os → Config → Bytes → State Table → ℕ × State Table
  create_dummy os conf path st =
      after_dummy os conf path (find_header handoff_data_header st.request)
        (apr.socket_create st.world.calls) (record st { world = tick st.world })

  -- A read before an empty string goes on with either verdict.
  pub after_validate : Os → Config → Bytes → Verdict → State Table → ℕ × State Table
  after_validate os conf path allow st = create_dummy os conf path st
  after_validate os conf path deny st = refuse http_forbidden st
  after_validate os conf path fault st =
      if apr.stray path then create_dummy os conf path st else refuse http_forbidden st

  pub handle : Os → Config → Option Bytes → State Table → ℕ × State Table
  handle os conf none st = pass_on (record st { installed = false })
  handle os conf (some path) st =
      if leb 2000 st.request.proto_num
      then refuse http_internal_server_error st
      else after_validate os conf path (validate_socket_path apr.filepath_merge path conf) st

  -- The result is the status that the filter returns.
  unfoldable pub output_filter : Os → Config → State Table → ℕ × State Table
  unfolding handle after_validate create_dummy after_dummy after_client client_fd transfer
      after_connect_retry after_send commit refuse pass_on find_header delete_buckets
  output_filter os conf st = handle os conf (find_header handoff_header st.request) st

  -- Only main requests of an enabled server get the filter.
  unfoldable pub insert_filter : Config → State Table → State Table
  insert_filter conf st =
      if st.request.is_subrequest
      then st
      else if conf.enabled
      then record st { installed = true }
      else st
