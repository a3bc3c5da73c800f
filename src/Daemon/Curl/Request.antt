-- ===== src/Daemon/Curl/Request.antt =====
-- curl_manager.c: `build_request_body` and `curl_manager_start_request`. `print` is `%d`, and what the allocator and
-- libcurl answer is a parameter. The two fixed timeouts of a request are left out.
pub mod Body
use mod_socket_handoff.Base.{
  ℕ, ◌+◌, ◌*◌, ◌-◌, ◌&&◌, not, Bool, true, false, Option, none, some, List, [], ◌∷◌, ◌++◌, Bytes,
  codes, take, drop, length, leb, ltb, if◌then◌else◌,
}
use mod_socket_handoff.Base.Int.{ℤ, pos, negsuc}
use mod_socket_handoff.Daemon.Streaming.{escape_char}
use mod_socket_handoff.Daemon.Curl.Content.{starts_with}

-- What `curl_manager_init` takes from the environment.
pub record Api : Type 0 where
  pub api_key : Option Bytes
  pub api_base : Bytes
  pub api_socket : Option Bytes
  pub default_model : Bytes
  pub insecure_ssl : Bool
  pub http2_enabled : Bool

-- And what libcurl and the allocator give.
pub record Setup : Type 0 where
  pub api : Api
  -- whether there is memory for so many bytes
  pub malloc : ℕ → Bool
  pub curl_easy_init : Option ℕ
  -- `curl_multi_add_handle` gives CURLM_OK
  pub add_handle : ℕ → Bool
  pub print : ℤ → Bytes

-- The prompt as it is put in the body.
abbrev pub escape_all : Bytes → Bytes
escape_all [] = []
escape_all (c ∷ text) = escape_char c ++ escape_all text

abbrev pub whole_body : (ℤ → Bytes) → Bytes → Bytes → ℤ → Bytes
whole_body print model escaped max_tokens =
    codes "{\"model\":\""
    ++ (model
        ++ (codes "\",\"messages\":[{\"role\":\"user\",\"content\":\""
            ++ (escaped
                ++ (codes "\"}],\"max_tokens\":"
                    ++ (print max_tokens ++ codes ",\"stream\":true}")))))

abbrev pub or_text : Option Bytes → Bytes → Bytes
or_text none text = text
or_text (some t) text = t

-- `snprintf` to `strlen(escaped) + 256` bytes.
unfoldable pub build_request_body : Setup → Option Bytes → Bytes → ℤ → Option Bytes
build_request_body u prompt model max_tokens =
    let text = or_text prompt (codes "Hello") in
    let escaped = escape_all text in
    if u.malloc (length text * 6 + 1) && u.malloc (length escaped + 256)
    then some (take (length escaped + 255) (whole_body u.print model escaped max_tokens))
    else none

-- The text ends in `suffix`.
abbrev pub ends_with : Bytes → Bytes → Bool
ends_with text suffix =
    leb (length suffix) (length text)
    && starts_with (drop (length text - length suffix) text) suffix

-- 512 bytes.
unfoldable pub request_url : Bytes → Bytes
request_url base =
    if ends_with base (codes "/v1")
    then take 511 (base ++ codes "/chat/completions")
    else if ends_with base (codes "/v1/")
    then take 511 (base ++ codes "chat/completions")
    else take 511 (base ++ (codes "/v1" ++ codes "/chat/completions"))

abbrev pub token_limit : ℤ → ℤ
token_limit (negsuc n) = pos 1024
token_limit (pos n) = if ltb 0 n then pos n else pos 1024

-- CURL_HTTP_VERSION_2TLS, 2_PRIOR_KNOWLEDGE and 1_1.
pub data HttpVersion : Type 0 where
  version_2tls version_2_prior_knowledge version_1_1 : HttpVersion

abbrev pub http_version : Bool → Bytes → HttpVersion
http_version false url = version_1_1
http_version true url =
    if starts_with url (codes "https://") then version_2tls else version_2_prior_knowledge

-- What is sent: the handle with its options.
pub record Sent : Type 0 where
  pub easy : ℕ
  pub url : Bytes
  pub authorization : Bytes
  pub post_data : Bytes
  pub unix_socket : Option Bytes
  pub verify : Bool
  pub version : HttpVersion
  pub pipewait : Bool

unfoldable pub with_body : Setup → Bytes → ℕ → Option Bytes → Option Sent
with_body u key easy none = none
with_body u key easy (some body) =
    let url = request_url u.api.api_base in
    if u.add_handle easy
    then some (record {
      easy = easy;
      url = url;
      authorization = take 255 (codes "Authorization: Bearer " ++ key);
      post_data = body;
      unix_socket = u.api.api_socket;
      verify = not u.api.insecure_ssl;
      version = http_version u.api.http2_enabled url;
      pipewait = u.api.http2_enabled;
    })
    else none

unfoldable pub with_handle :
    Setup → Bytes → Option Bytes → Option Bytes → ℤ → Option ℕ → Option Sent
unfolding with_body build_request_body
with_handle u key prompt model max_tokens none = none
with_handle u key prompt model max_tokens (some easy) =
    with_body u key easy
      (build_request_body u prompt (or_text model u.api.default_model) (token_limit max_tokens))

-- A request takes 48 bytes. None is -1, before or after the handle was made; nothing of it is kept then.
unfoldable pub start_keyed : Setup → Option Bytes → Option Bytes → ℤ → Option Bytes → Option Sent
unfolding with_handle
start_keyed u prompt model max_tokens none = none
start_keyed u prompt model max_tokens (some key) =
    if u.malloc 48 then with_handle u key prompt model max_tokens u.curl_easy_init else none

unfoldable pub curl_manager_start_request : Setup → Option Bytes → Option Bytes → ℤ → Option Sent
unfolding start_keyed
curl_manager_start_request u prompt model max_tokens =
    start_keyed u prompt model max_tokens u.api.api_key
