-- ===== src/Proxy/Health/Tests.antt =====
-- Runs of the health checks of crates/proxy/src/lib.rs on small inputs.
use fabdev.Prelude.{◌≡◌, refl, none, some, List, [], ◌∷◌, codes, text_eq, pos}
use fabdev.Proxy.Health.{
  default, Event, periodic_failure, periodic_success, request_failure, run, tcp, request,
  transition, summary, is_recoverable_network_error_kind, degraded, recovered,
  UpstreamHealthFailure,
}
use fabdev.Proxy.Health.Hysteresis.{mode, follow_all, up, run-mode}
use fabdev.Proxy.Health.Reports.{view, read_all, run-view, IsTallied, run-IsTallied}

abbrev refused : UpstreamHealthFailure
refused = record {
  message = codes "refused";
  error_kind = codes "connection_refused";
  os_error_code = some (pos 61);
}

-- Three failed checks and a failed request, then a check that succeeds twice.
abbrev outage : List Event
outage =
    periodic_failure refused
    ∷ periodic_failure refused
    ∷ request_failure (codes "refused") (codes "connect") none 5 1005
    ∷ periodic_failure refused
    ∷ periodic_success
    ∷ periodic_success
    ∷ []

outage_logs :
    (run default outage).1
    ≡ transition request degraded
      ∷ summary 1
      ∷ transition tcp degraded
      ∷ transition tcp recovered
      ∷ transition request recovered
      ∷ []
unfolding run text_eq is_recoverable_network_error_kind
outage_logs = refl

run-mode_example : mode (run default outage).0 ≡ follow_all (up 0) outage
run-mode_example = run-mode outage

run-view_example :
    read_all (view default) (run default outage).1 ≡ some (view (run default outage).0)
run-view_example = run-view outage

run-IsTallied_example : IsTallied (run default outage).0
run-IsTallied_example = run-IsTallied outage
