-- ===== src/Proxy/Health.antt =====
-- `ConnectionHealthState` and `ConnectionHealth` of crates/proxy/src/lib.rs. Each method holds the
-- state's mutex from its first access to its end, so it is one step. What the methods print is their
-- output here; times are milliseconds that the caller reads from its clocks.
pub mod Hysteresis
pub mod Reports
mod Tests
use fabdev.Prelude.{
  ℕ, zero, suc, ◌+◌, ◌-◌, ◌*◌, ◌/◌, ◌%◌, ◌^◌, ◌≤◌, ◌<◌, min, String, ◌≡◌, refl, sym, ap, ◌∙◌, subst,
  ◌≢◌, ◌↔◌, ◌⊎◌, inl, inr, Bool, true, false, not, ◌&&◌, ◌||◌, Option, none, some, List, [], ◌∷◌,
  ◌++◌, map, arith, ltb, leb, ◌==◌, if◌then◌else◌, ltb→lt, lt→ltb, leb→le, le→leb, ==→eq, ==_refl,
  Bool-cases, Option-cases, &&-true, is_some, ℤ, saturating_add, u8_max, u64_max, All, length,
  length-append, any, all, find, retain, length-retain-le, retain-All, Pairs, All-map, All-imp,
  All-both, All-map-imp, Pairs-map, Pairs-retain, length-map, any-false, find-true, find-All, Text,
  codes, text_eq, text_eq_refl, text_eq_iff, text_leb, text_leb_total, is_text, text_eq_sym, Result,
  ◌>>=◌, ◌>>◌, bail_if, context, Result-cases, ok, err,
}

pub record ConnectionHealthState : Type 0 where
  pub periodic_error : Option Text
  pub periodic_failures : ℕ
  pub periodic_successes : ℕ
  pub request_error : Option Text
  pub request_error_kind : Option Text
  pub request_os_error_code : Option ℤ
  pub request_first_failure_timestamp_ms : Option ℕ
  pub request_last_failure_timestamp_ms : Option ℕ
  pub request_failure_count : ℕ
  pub request_last_summary_at : Option ℕ
  pub request_successes : ℕ
  pub runtime_error : Option Text

-- `#[derive(Default)]`
abbrev pub default : ConnectionHealthState
default = record {
  periodic_error = none;
  periodic_failures = 0;
  periodic_successes = 0;
  request_error = none;
  request_error_kind = none;
  request_os_error_code = none;
  request_first_failure_timestamp_ms = none;
  request_last_failure_timestamp_ms = none;
  request_failure_count = 0;
  request_last_summary_at = none;
  request_successes = 0;
  runtime_error = none;
}

pub data Check : Type 0 where
  tcp request listener : Check

pub data Change : Type 0 where
  degraded recovered : Change

-- The lines on stderr: a health transition, and a summary of failed requests with their count.
pub data Log : Type 0 where
  transition : Check → Change → Log
  summary : ℕ → Log

pub record UpstreamHealthFailure : Type 0 where
  pub message : Text
  pub error_kind : Text
  pub os_error_code : Option ℤ

abbrev pub upstream_health_failure_threshold : ℕ
upstream_health_failure_threshold = 3

abbrev pub upstream_health_recovery_threshold : ℕ
upstream_health_recovery_threshold = 2

abbrev pub upstream_request_recovery_threshold : ℕ
upstream_request_recovery_threshold = 2

-- 60 seconds.
abbrev pub request_failure_summary_interval : ℕ
request_failure_summary_interval = 60000

unfoldable pub clear_request_error : ConnectionHealthState → ConnectionHealthState
clear_request_error s = record s {
  request_error = none;
  request_error_kind = none;
  request_os_error_code = none;
  request_first_failure_timestamp_ms = none;
  request_last_failure_timestamp_ms = none;
  request_failure_count = 0;
  request_last_summary_at = none;
  request_successes = 0;
}

unfoldable pub is_recoverable_network_error_kind : Text → Bool
is_recoverable_network_error_kind kind = any (text_eq kind) (
    codes "address_unavailable"
    ∷ codes "connect"
    ∷ codes "connection_refused"
    ∷ codes "dns"
    ∷ codes "host_unreachable"
    ∷ codes "network_unreachable"
    ∷ codes "not_connected"
    ∷ [])

abbrev pub is_recoverable : Option Text → Bool
is_recoverable none = false
is_recoverable (some kind) = is_recoverable_network_error_kind kind

-- What a method that enters the degraded state prints.
abbrev pub entering : Option Text → Check → List Log
entering none check = transition check degraded ∷ []
entering (some message) check = []

unfoldable pub record_periodic_failure :
    UpstreamHealthFailure → ConnectionHealthState → ConnectionHealthState × List Log
record_periodic_failure failure s =
    let failures = saturating_add u8_max s.periodic_failures 1 in
    let counted = record s { periodic_successes = 0; periodic_failures = failures } in
    if ltb failures upstream_health_failure_threshold
    then (counted, [])
    else (record counted { periodic_error = some failure.message }, entering s.periodic_error tcp)

-- The end of `record_periodic_success`: the TCP check has recovered.
unfoldable pub periodic_recovery : ConnectionHealthState → ConnectionHealthState × List Log
unfolding clear_request_error
periodic_recovery s =
    if is_recoverable s.request_error_kind
    then (clear_request_error s, transition tcp recovered ∷ transition request recovered ∷ [])
    else (s, transition tcp recovered ∷ [])

-- The Boolean asks the caller to reset the HTTP client.
unfoldable pub record_periodic_success :
    ConnectionHealthState → ConnectionHealthState × List Log × Bool
unfolding periodic_recovery
record_periodic_success s =
    let successes = saturating_add u8_max s.periodic_successes 1 in
    if not (is_some s.periodic_error)
    then (record s { periodic_failures = 0; periodic_successes = 0 }, [], false)
    else if ltb successes upstream_health_recovery_threshold
    then (record s { periodic_failures = 0; periodic_successes = successes }, [], false)
    else (let (t, logs) =
          periodic_recovery
            (record s { periodic_failures = 0; periodic_successes = 0; periodic_error = none }) in
        (t, logs, true))

abbrev or_else : Option ℕ → ℕ → Option ℕ
or_else none n = some n
or_else (some m) n = some m

-- `is_none_or(|last| now.duration_since(last) >= INTERVAL)`
unfoldable pub is_summary_due : Option ℕ → ℕ → Bool
is_summary_due none now = true
is_summary_due (some last) now = leb request_failure_summary_interval (now - last)

unfoldable pub record_request_failure :
    Text → Text → Option ℤ → ℕ → ℕ → ConnectionHealthState → ConnectionHealthState × List Log
unfolding is_summary_due
record_request_failure message error_kind os_error_code now now_timestamp_ms s =
    let count = saturating_add u64_max s.request_failure_count 1 in
    let failed = record s {
      request_successes = 0;
      request_error = some message;
      request_error_kind = some error_kind;
      request_os_error_code = os_error_code;
      request_first_failure_timestamp_ms =
          or_else s.request_first_failure_timestamp_ms now_timestamp_ms;
      request_last_failure_timestamp_ms = some now_timestamp_ms;
      request_failure_count = count;
    } in
    if not (is_some s.request_error)
    then (
      record failed { request_last_summary_at = some now },
      transition request degraded ∷ summary count ∷ [],
    )
    else if is_summary_due s.request_last_summary_at now
    then (record failed { request_last_summary_at = some now }, summary count ∷ [])
    else (failed, [])

unfoldable pub record_request_success : ConnectionHealthState → ConnectionHealthState × List Log
unfolding clear_request_error
record_request_success s =
    let successes = saturating_add u8_max s.request_successes 1 in
    if not (is_some s.request_error)
    then (record s { request_successes = 0 }, [])
    else if ltb successes upstream_request_recovery_threshold
    then (record s { request_successes = successes }, [])
    else (clear_request_error s, transition request recovered ∷ [])

unfoldable pub record_runtime_failure :
    Text → ConnectionHealthState → ConnectionHealthState × List Log
record_runtime_failure message s =
    (record s { runtime_error = some message }, entering s.runtime_error listener)

unfoldable pub record_runtime_success : ConnectionHealthState → ConnectionHealthState × List Log
record_runtime_success s = (
  record s { runtime_error = none },
  (if is_some s.runtime_error then transition listener recovered ∷ [] else []),
)

unfoldable pub last_error : ConnectionHealthState → Option Text
last_error s = elim s.runtime_error [
  | some e ↦ some e
  | none ↦ elim s.request_error [ some e ↦ some e | none ↦ s.periodic_error ]
]

pub data Event : Type 0 where
  periodic_failure : UpstreamHealthFailure → Event
  periodic_success : Event
  request_failure : Text → Text → Option ℤ → ℕ → ℕ → Event
  request_success : Event
  runtime_failure : Text → Event
  runtime_success : Event

unfoldable pub step : Event → ConnectionHealthState → ConnectionHealthState × List Log
unfolding record_periodic_failure record_periodic_success record_request_failure
    record_request_success record_runtime_failure record_runtime_success
step (periodic_failure f) s = record_periodic_failure f s
step periodic_success s = let (t, logs, reset) = record_periodic_success s in (t, logs)
step (request_failure m k c now ms) s = record_request_failure m k c now ms s
step request_success s = record_request_success s
step (runtime_failure m) s = record_runtime_failure m s
step runtime_success s = record_runtime_success s

-- A history from one state: the state that it ends in and everything that it printed.
unfoldable pub run : ConnectionHealthState → List Event → ConnectionHealthState × List Log
unfolding step
run s [] = (s, [])
run s (e ∷ es) = let (t, logs) = step e s in let (u, more) = run t es in (u, logs ++ more)
