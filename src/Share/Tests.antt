-- ===== src/Share/Tests.antt =====
-- Runs of `LanShareState` of crates/agent/src/main.rs.
use fabdev.Prelude.{
  ℕ, ◌≡◌, refl, true, false, Option, none, some, List, [], ◌∷◌, ◌++◌, Text, codes, is_whitespace,
  trim_start_matches, trim_end_matches, lower, ok,
}
use fabdev.Sites.Site.{Site}
use fabdev.Share.Server.{
  Authority, Http, request_domain, ShareServer, start_restricted, start_with_domains,
  set_allowed_domains, normalize_domain, host_line, passes,
}
use fabdev.Share.State.{LanShareInfo, init, publish}
use fabdev.Share.State.Calls.{Call, starting, stopping_site, updating, run}
use fabdev.Share.State.Invariant.{IsConsistent}
use fabdev.Share.State.Consistent.{run-IsConsistent}
use fabdev.Share.State.Forwarded.{IsForwardable, run-passes}

abbrev site : ℕ → Text → Site
site id domain = record {
  id = id;
  name = domain;
  domain = domain;
  project_path = codes "/erp";
  document_root = codes "/erp";
  php_version = none;
  enabled = true;
  secured = false;
  upstream_response_timeout_seconds = 120;
}

abbrev begin : Site → Call
begin s =
    starting s 8090 (ok (record { is_loopback = false; port = 8090 })) (ok (codes "192.168.1.7"))

-- Two sites are shared, one is renamed, and a third comes and goes.
abbrev calls : List Call
calls =
    begin (site 1 (codes "erp.test"))
    ∷ begin (site 2 (codes "crm.test"))
    ∷ begin (site 3 (codes "hr.test"))
    ∷ updating (site 1 (codes "books.test"))
    ∷ stopping_site 3 none
    ∷ []

abbrev server : ShareServer
server = record {
  local_addr = record { is_loopback = false; port = 8090 };
  allowed_domains = some (codes "books.test" ∷ codes "crm.test" ∷ []);
}

serves_two : (run calls (init 80)).server ≡ some server
unfolding run start_restricted start_with_domains publish set_allowed_domains normalize_domain
    trim_end_matches trim_start_matches is_whitespace lower
serves_two = refl

abbrev or_empty : Option Text → List Text
or_empty none = []
or_empty (some value) = value ∷ []

abbrev request : Text → List Text
request host = codes "GET / HTTP/1.1" ∷ (codes "Host: " ++ host) ∷ []

-- A client that reads the host without its port, for requests with one target.
abbrev http : Option Authority → Http
http target = record {
  parse_request = λ lines.
      some (record {
        is_connect = false;
        hosts = or_empty (request_domain lines);
        authority = target;
      });
  parse_authority = λ value. some (record { host = value; text = value });
}

old_name : passes (http none) server (request (codes "ERP.test:8090")) ≡ false
unfolding passes host_line lower trim_end_matches trim_start_matches is_whitespace
old_name = refl

new_name : passes (http none) server (request (codes "Books.test:8090")) ≡ true
unfolding passes host_line lower trim_end_matches trim_start_matches is_whitespace
new_name = refl

abbrev unshared : Option Authority
unshared = some (record { host = codes "erp.test"; text = codes "erp.test" })

-- The absolute target of another site is refused.
other_target : passes (http unshared) server (request (codes "Books.test")) ≡ false
unfolding passes host_line lower trim_end_matches trim_start_matches is_whitespace
other_target = refl

crm_passes : passes (http none) server (request (codes "crm.test")) ≡ true
unfolding passes host_line lower trim_end_matches trim_start_matches is_whitespace
crm_passes = refl

run-IsConsistent_example : IsConsistent (run calls (init 80))
run-IsConsistent_example = run-IsConsistent calls 80

run-passes_example :
    (info : LanShareInfo) × ((run calls (init 80)).info ≡ some info)
    × IsForwardable (http none) (request (codes "crm.test")) info.sites
run-passes_example =
    run-passes (http none) calls 80 server (request (codes "crm.test")) serves_two crm_passes
