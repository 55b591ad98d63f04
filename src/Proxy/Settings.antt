-- ===== src/Proxy/Settings.antt =====
-- The settings of one proxy connection: crates/proxy/src/lib.rs, and their records in
-- crates/core/src/protocol.rs. The URI and address parsers are a parameter.
pub mod Valid
pub mod HttpsPort
mod Tests
use fabdev.Prelude.{
  ◌||◌, ℕ, Bool, true, false, not, ◌&&◌, Option, none, some, List, [], ◌∷◌, ◌++◌, ltb, leb, ◌==◌,
  if◌then◌else◌, is_some, all, sort_by, dedup_by, Text, codes, text_eq, text_leb, Result, ◌>>=◌,
  ◌>>◌, bail_if, context, trim_end_matches, trim, is_ascii_lowercase, is_ascii_digit,
  to_ascii_uppercase, to_ascii_lowercase, is_empty, to_string, parse_uint, ok, err,
}
use fabdev.Sites.Domain.{normalize_domain}

pub record ProxyConnectionSettings : Type 0 where
  pub secured : Bool
  pub https_port : Option ℕ
  pub id : Text
  pub name : Text
  pub domain : Text
  pub listen_host : Text
  pub listen_port : ℕ
  pub target : Text
  pub allowed_origins : List Text
  pub upstream_response_timeout_seconds : ℕ

pub record ProxyConnectionInput : Type 0 where
  pub secured : Bool
  pub https_port : Option ℕ
  pub id : Text
  pub domain : Text
  pub listen_port : ℕ
  pub target : Text
  pub allowed_origins : List Text
  pub upstream_response_timeout_seconds : Option ℕ

-- `hyper::Uri`
pub record Uri : Type 0 where
  pub scheme : Option Text
  pub authority : Option Text
  pub path_and_query : Option Text

-- `str::parse` into `Uri`; `str::parse` into `IpAddr`, with whether the address is a loopback one.
pub record Parsers : Type 0 where
  pub parse_uri : Text → Option Uri
  pub parse_loopback : Text → Option Bool

pub data SettingsError : Type 0 where
  invalid_domain invalid_id invalid_listen_host not_loopback invalid_target target_not_absolute
        invalid_origin origin_scheme origin_host origin_path :
      Text → SettingsError
  listen_port_range https_port_missing https_port_range timeout_range : SettingsError

abbrev pub default_timeout : ℕ
default_timeout = 120

abbrev pub max_timeout : ℕ
max_timeout = 360

abbrev pub u16_max : ℕ
u16_max = 65535

-- `format!("4{http_port}").parse().ok()`
unfoldable pub default_https_port : ℕ → Option ℕ
unfolding parse_uint to_string
default_https_port http_port = parse_uint u16_max (b'4' ∷ to_string http_port)

abbrev is_port : Option ℕ → ℕ → Bool
is_port none p = false
is_port (some q) p = q == p

unfoldable pub normalize_connection_settings : ProxyConnectionSettings → ProxyConnectionSettings
unfolding default_https_port
normalize_connection_settings s =
    let https =
      if is_port s.https_port 443 || (s.secured && not (is_some s.https_port))
      then default_https_port s.listen_port
      else s.https_port in
    let timeout =
      if s.upstream_response_timeout_seconds == 0
      then default_timeout
      else s.upstream_response_timeout_seconds in
    record s { https_port = https; upstream_response_timeout_seconds = timeout }

unfoldable pub is_id_character : ℕ → Bool
unfolding is_ascii_lowercase is_ascii_digit
is_id_character c = is_ascii_lowercase c || (is_ascii_digit c || c == b'-')

unfoldable pub is_id : Text → Bool
unfolding is_id_character is_empty
is_id id = not (is_empty id) && all is_id_character id

-- The test on a given HTTPS port.
abbrev pub is_bad_https_port : Option ℕ → ℕ → Bool
is_bad_https_port none listen_port = false
is_bad_https_port (some port) listen_port = ltb port 1024 || port == listen_port

unfoldable pub is_http_scheme : Option Text → Bool
unfolding text_eq
is_http_scheme none = false
is_http_scheme (some scheme) = text_eq scheme (codes "http") || text_eq scheme (codes "https")

abbrev pub or_error : {E A : Type 0} → SettingsError → Result E A → Result SettingsError A
or_error e (ok a) = ok a
or_error e (err x) = err e

abbrev is_timeout : ℕ → Bool
is_timeout n = leb n max_timeout

unfoldable pub connection_ports : ProxyConnectionSettings → List ℕ
connection_ports s =
    s.listen_port ∷ (if s.secured then elim s.https_port [ none ↦ [] | some p ↦ p ∷ [] ] else [])

module _ (parsers : Parsers) where
  open parsers use {parse_uri, parse_loopback}

  unfoldable pub validate_connection : ProxyConnectionSettings → Result SettingsError (Unit {0})
  unfolding is_id is_http_scheme
  validate_connection s = do
    bail_if (not (is_id s.id)) (invalid_id s.id)
    bail_if (ltb s.listen_port 1024) listen_port_range
    bail_if (s.secured && not (is_some s.https_port)) https_port_missing
    bail_if (is_bad_https_port s.https_port s.listen_port) https_port_range
    bail_if (not (is_timeout s.upstream_response_timeout_seconds)) timeout_range
    or_error (invalid_domain s.domain) (normalize_domain s.domain)
    loopback ← context (parse_loopback s.listen_host) (invalid_listen_host s.listen_host)
    bail_if (not loopback) (not_loopback s.listen_host)
    target ← context (parse_uri s.target) (invalid_target s.target)
    bail_if (not (is_http_scheme target.scheme) || not (is_some target.authority))
        (target_not_absolute s.target)

  abbrev allowed_path : Option Text → Bool
  allowed_path none = true
  allowed_path (some path) = text_eq path (codes "/")

  abbrev http_scheme : Option Text → Option Text
  http_scheme none = none
  http_scheme (some scheme) = if is_http_scheme (some scheme) then some scheme else none

  unfoldable pub normalize_origin : Text → Result SettingsError Text
  unfolding is_http_scheme
  normalize_origin origin = do
    let trimmed = trim origin
    uri ← context (parse_uri trimmed) (invalid_origin trimmed)
    scheme ← context (http_scheme uri.scheme) (origin_scheme trimmed)
    authority ← context uri.authority (origin_host trimmed)
    bail_if (not (allowed_path uri.path_and_query)) (origin_path trimmed)
    ok (scheme ++ (codes "://" ++ authority))

  unfoldable pub normalize_origins : List Text → Result SettingsError (List Text)
  normalize_origins [] = ok []
  normalize_origins (o ∷ os) =
      let rest = normalize_origins os in
      do origin ← normalize_origin o; origins ← rest; ok (origin ∷ origins)

  unfoldable pub normalize_allowed_origins : List Text → Text → Result SettingsError (List Text)
  unfolding normalize_origins is_empty sort_by dedup_by text_leb
  normalize_allowed_origins origins domain = do
    let wanted =
        if is_empty origins
        then (codes "http://" ++ domain) ∷ (codes "https://" ++ domain) ∷ []
        else origins
    normalized ← normalize_origins wanted
    ok (dedup_by text_eq (sort_by text_leb normalized))

  abbrev is_slash : ℕ → Bool
  is_slash c = c == b'/'

  abbrev non_zero : Option ℕ → ℕ
  non_zero none = default_timeout
  non_zero (some seconds) = if seconds == 0 then default_timeout else seconds

  abbrev requested_https : Option ℕ → Bool → ℕ → Option ℕ
  requested_https (some port) secured listen_port = some port
  requested_https none secured listen_port =
      if secured then default_https_port listen_port else none

  -- The end of `connection_from_input`.
  unfoldable pub accept : ProxyConnectionSettings → Result SettingsError ProxyConnectionSettings
  unfolding validate_connection
  accept s = do validate_connection s; ok s

  -- The settings that `connection_from_input` makes of a normalized domain and origins.
  unfoldable pub requested : ProxyConnectionInput → Text → List Text → ProxyConnectionSettings
  unfolding default_https_port
  requested input domain origins =
      let id = to_ascii_lowercase (trim input.id) in
      record {
        secured = input.secured;
        https_port = requested_https input.https_port input.secured input.listen_port;
        id = id;
        name = to_ascii_uppercase id;
        domain = domain;
        listen_host = codes "127.0.0.1";
        listen_port = input.listen_port;
        target = trim_end_matches is_slash (trim input.target);
        allowed_origins = origins;
        upstream_response_timeout_seconds = non_zero input.upstream_response_timeout_seconds;
      }

  -- `connection_from_input`, with `connection` written out.
  unfoldable pub connection_from_input :
      ProxyConnectionInput → Result SettingsError ProxyConnectionSettings
  unfolding normalize_allowed_origins
  connection_from_input input = do
    domain ← or_error (invalid_domain input.domain) (normalize_domain input.domain)
    origins ← normalize_allowed_origins input.allowed_origins domain
    accept (requested input domain origins)
