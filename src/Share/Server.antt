-- ===== src/Share/Server.antt =====
-- `ShareServer` and the checks of a request's host: crates/share/src/lib.rs and restricted_http.rs. The
-- HTTP library, the bind of the listener and the end of the server's task are arguments. A set of domains is a list; only membership is asked.
use fabdev.Prelude.{
  ◌&&◌, split_once, ℕ, Bool, true, false, not, Option, none, some, List, [], ◌∷◌, map,
  if◌then◌else◌, any, Text, codes, text_eq, Result, ◌>>◌, bail_if, trim, to_ascii_lowercase, split,
  ok, err,
}

pub record SocketAddr : Type 0 where
  pub is_loopback : Bool
  pub port : ℕ

pub data ShareError : Type 0 where
  no_domains upstream_not_loopback unprivileged_port : ShareError
  bind_failed task_failed lan_address : Text → ShareError
  already_running : ℕ → ShareError

-- `allowed_domains` is what the server's task reads for each request.
pub record ShareServer : Type 0 where
  pub local_addr : SocketAddr
  pub allowed_domains : Option (List Text)

unfoldable pub normalize_domain : Text → Text
normalize_domain domain = to_ascii_lowercase (trim domain)

abbrev pub normalize_domains : List Text → List Text
normalize_domains domains = map normalize_domain domains

abbrev normalized : Option (List Text) → Option (List Text)
normalized none = none
normalized (some domains) = some (normalize_domains domains)

abbrev pub no_text : List Text → Bool
no_text [] = true
no_text (d ∷ ds) = false

-- `listening`: the local address, or the error of the bind.
unfoldable pub start_with_domains :
    SocketAddr → Option (List Text) → Result Text SocketAddr → Result ShareError ShareServer
unfolding normalize_domain
start_with_domains upstream domains listening =
    if not upstream.is_loopback then err upstream_not_loopback else elim listening [
      | err e ↦ err (bind_failed e)
      | ok local ↦ ok (record { local_addr = local; allowed_domains = normalized domains })
    ]

unfoldable pub start_restricted :
    SocketAddr → List Text → Result Text SocketAddr → Result ShareError ShareServer
unfolding start_with_domains
start_restricted upstream domains listening =
    bail_if (no_text domains) no_domains >> start_with_domains upstream (some domains) listening

unfoldable pub set_allowed_domains : List Text → ShareServer → Result ShareError ShareServer
unfolding normalize_domain
set_allowed_domains domains server =
    if no_text domains
    then err no_domains
    else ok (record server { allowed_domains = some (normalize_domains domains) })

-- `ended`: the error of the server's task, if it had one.
abbrev pub stop_server : Option Text → Result ShareError (Unit {0})
stop_server none = ok tt
stop_server (some e) = err (task_failed e)

abbrev first_part : List Text → Text
first_part [] = []
first_part (p ∷ ps) = p

-- The value of the first `Host` line, without its port.
unfoldable pub host_line : Text → Option Text
unfolding split_once text_eq split
host_line line = elim (split_once b':' line) [
  | none ↦ none
  | some (name, value) ↦
      if text_eq (to_ascii_lowercase name) (codes "host")
      then some (first_part (split b':' (trim value)))
      else none
]

unfoldable pub request_domain : List Text → Option Text
unfolding host_line
request_domain [] = none
request_domain (line ∷ rest) =
    let later = request_domain rest in
    elim (host_line line) [ none ↦ later | some domain ↦ some domain ]

-- The answer of `read_allowed_request` on the lines of complete headers.
unfoldable pub is_allowed : List Text → List Text → Bool
unfolding request_domain text_eq
is_allowed lines allowed = elim (request_domain lines) [
  | none ↦ false
  | some domain ↦ any (text_eq (to_ascii_lowercase domain)) allowed
]

pub record Authority : Type 0 where
  pub host : Text
  pub text : Text

-- A request as it is parsed: its `Host` headers, and the authority of an absolute target.
pub record Request : Type 0 where
  pub is_connect : Bool
  pub hosts : List Text
  pub authority : Option Authority

-- The HTTP library: the first request of some header lines, and the authority that a header names.
pub record Http : Type 0 where
  pub parse_request : List Text → Option Request
  pub parse_authority : Text → Option Authority

abbrev pub only : List Text → Option Text
only [] = none
only (value ∷ []) = some value
only (value ∷ (other ∷ rest)) = none

-- `is_none_or` with `eq_ignore_ascii_case`
abbrev pub is_target_of : Option Authority → Authority → Bool
is_target_of none host = true
is_target_of (some a) host = text_eq (to_ascii_lowercase a.text) (to_ascii_lowercase host.text)

unfoldable pub request_is_allowed : Http → Request → List Text → Bool
unfolding text_eq
request_is_allowed http request domains =
    if request.is_connect then false else elim (only request.hosts) [
      | none ↦ false
      | some value ↦ elim (http.parse_authority value) [
        | none ↦ false
        | some host ↦
            any (text_eq (to_ascii_lowercase host.host)) domains
            && is_target_of request.authority host
      ]
    ]

-- The service of `restricted_http::proxy` on the same bytes.
unfoldable pub forwards : Http → List Text → List Text → Bool
unfolding request_is_allowed
forwards http lines allowed = elim (http.parse_request lines) [
  | none ↦ false
  | some request ↦ request_is_allowed http request allowed
]

-- Whether `proxy` passes the first request on, if the list does not change between the two tests; without
-- a list every connection is.
unfoldable pub passes : Http → ShareServer → List Text → Bool
unfolding is_allowed forwards
passes http server lines = elim server.allowed_domains [
  | none ↦ true
  | some allowed ↦ is_allowed lines allowed && forwards http lines allowed
]
