-- ===== src/Proxy/Settings/Tests.antt =====
-- Settings of crates/proxy/src/lib.rs made from small inputs.
use fabdev.Prelude.{◌≡◌, refl, true, none, some, [], ◌∷◌, arith, codes, upper, starts_with, ok}
use fabdev.Sites.Domain.{normalize_domain}
use fabdev.Proxy.Settings.{
  Parsers, ProxyConnectionInput, ProxyConnectionSettings, default_https_port, requested, accept,
  connection_from_input, validate_connection, normalize_origin,
}
use fabdev.Proxy.Settings.Valid.{IsChecked, validate_connection-IsChecked}
use fabdev.Proxy.Settings.HttpsPort.{default_https_port_four}

-- Every text is the same URI, and the loopback addresses begin with `127`.
abbrev parsers : Parsers
parsers = record {
  parse_uri = λ t. some (record {
    scheme = some (codes "http");
    authority = some (codes "erp.test");
    path_and_query = some (codes "/");
  });
  parse_loopback = λ t. some (starts_with (codes "127") t);
}

abbrev input : ProxyConnectionInput
input = record {
  secured = true;
  https_port = none;
  id = codes " ERP ";
  domain = codes "erp.test";
  listen_port = 8085;
  target = codes "http://10.0.0.8/";
  allowed_origins = [];
  upstream_response_timeout_seconds = some 0;
}

abbrev settings : ProxyConnectionSettings
settings = record {
  secured = true;
  https_port = some 48085;
  id = codes "erp";
  name = codes "ERP";
  domain = codes "erp.test";
  listen_host = codes "127.0.0.1";
  listen_port = 8085;
  target = codes "http://10.0.0.8";
  allowed_origins = codes "http://erp.test" ∷ [];
  upstream_response_timeout_seconds = 120;
}

from_input : connection_from_input parsers input ≡ ok settings
unfolding connection_from_input requested accept normalize_domain normalize_origin upper
from_input = refl

valid : validate_connection parsers settings ≡ ok tt
unfolding validate_connection normalize_domain
valid = refl

validate_connection-IsChecked_example : IsChecked parsers settings
validate_connection-IsChecked_example = validate_connection-IsChecked parsers settings valid

default_https_port_four_example : default_https_port 8085 ≡ some 48085
default_https_port_four_example = default_https_port_four 8085 (omega arith) (omega arith)
