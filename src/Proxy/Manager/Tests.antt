-- ===== src/Proxy/Manager/Tests.antt =====
-- Runs of `ProxyManager` of crates/proxy/src/lib.rs on two connections.
use fabdev.Prelude.{
  ℕ, ◌≡◌, refl, Bool, false, none, some, List, [], ◌∷◌, any, Pairs, map_get, Text, codes, text_eq,
  upper, starts_with, err,
}
use fabdev.Sites.Domain.{normalize_domain}
use fabdev.Proxy.Settings.{
  ProxyConnectionSettings, Parsers, ProxyConnectionInput, connection_from_input, requested, accept,
  normalize_origin,
}
use fabdev.Proxy.Manager.{apply_failed, ProxyManager, Bind, init}
use fabdev.Proxy.Manager.Calls.{Call, adding, starting, run}
use fabdev.Proxy.Manager.Update.{update}
use fabdev.Proxy.Manager.Unique.{IsUnique}
use fabdev.Proxy.Manager.Unique.Every.{run-IsUnique}
use fabdev.Proxy.Manager.Refused.{update-refused}
use fabdev.Proxy.Manager.Report.{ProxyConnectionInfo, info, state, keys}
use fabdev.Proxy.Manager.Report.Complete.{Ascends, Repeats, Reflects, run-state}
use fabdev.Proxy.Manager.Placed.{IsPlaced}
use fabdev.Proxy.Manager.Placed.Every.{run-IsPlaced}

abbrev parsers : Parsers
parsers = record {
  parse_uri = λ t. some (record {
    scheme = some (codes "http");
    authority = some (codes "erp.test");
    path_and_query = some (codes "/");
  });
  parse_loopback = λ t. some (starts_with (codes "127") t);
}

abbrev input : Text → Text → ℕ → ProxyConnectionInput
input id domain port = record {
  secured = false;
  https_port = none;
  id = id;
  domain = domain;
  listen_port = port;
  target = codes "http://10.0.0.8/";
  allowed_origins = [];
  upstream_response_timeout_seconds = none;
}

abbrev bound : Bind
bound s = none

abbrev refused : Bind
refused s = some (codes "in use")

-- Two connections, a third that asks for a port in use, and a start of each, the second in vain.
abbrev calls : List Call
calls =
    adding (input (codes "erp") (codes "erp.test") 8085)
    ∷ adding (input (codes "crm") (codes "crm.test") 8086)
    ∷ adding (input (codes "wms") (codes "wms.test") 8086)
    ∷ starting bound (codes "erp")
    ∷ starting refused (codes "crm")
    ∷ []

abbrev busy : ProxyManager
busy = run parsers calls init

two_connections : keys busy.connections ≡ codes "crm" ∷ codes "erp" ∷ []
unfolding run keys connection_from_input requested accept normalize_domain normalize_origin upper
two_connections = refl

one_runs : keys busy.running ≡ codes "erp" ∷ []
unfolding run keys connection_from_input requested accept normalize_domain normalize_origin upper
one_runs = refl

one_failed : keys busy.failed ≡ codes "crm" ∷ []
unfolding run keys connection_from_input requested accept normalize_domain normalize_origin upper
one_failed = refl

-- The new port of a running connection is in use.
cannot_listen :
    (update parsers refused bound
      (codes "erp")
      (input (codes "erp") (codes "erp.test") 8087)
      busy).1
    ≡ err (apply_failed (codes "in use") none)
unfolding update run connection_from_input requested accept normalize_domain normalize_origin upper
cannot_listen = refl

run-IsUnique_example : IsUnique (run parsers calls init).connections
run-IsUnique_example = run-IsUnique parsers calls

update-refused_example :
    map_get
      (codes "erp")
      (update parsers refused bound
        (codes "erp")
        (input (codes "erp") (codes "erp.test") 8087)
        busy).0.connections
    ≡ map_get (codes "erp") busy.connections
update-refused_example =
    update-refused parsers refused bound (codes "erp") (codes "erp")
      (input (codes "erp") (codes "erp.test") 8087) busy (apply_failed (codes "in use") none)
      cannot_listen

run-IsPlaced_example : IsPlaced (codes "crm") (run parsers calls init)
run-IsPlaced_example = run-IsPlaced parsers calls (codes "crm")

abbrev is_erp : ProxyConnectionInfo → Bool
is_erp i = text_eq i.id (codes "erp")

run-state_example :
    (any is_erp (state busy) ≡ any (λ e. is_erp (info busy e)) busy.connections)
    × Pairs Ascends (state busy)
    × ((k : Text) (s : ProxyConnectionSettings)
        → Repeats s (info busy (k, s))
          × Reflects (map_get k busy.running) (map_get k busy.failed) (info busy (k, s)))
run-state_example = run-state parsers calls is_erp
