-- ===== src/Proxy/Health/Reports.antt =====
-- What the health checks of crates/proxy/src/lib.rs print, read back as the state of each check.
use fabdev.Prelude.{
  ◌≤◌, ◌≡◌, refl, ap, ◌∙◌, Bool, true, false, Option, none, some, List, [], ◌∷◌, ◌++◌, arith, ltb,
  if◌then◌else◌, is_some, u64_max,
}
use fabdev.Proxy.Health.{
  ConnectionHealthState, default, Event, periodic_failure, periodic_success, request_failure,
  request_success, runtime_failure, runtime_success, step, run, Log, tcp, request, listener,
  transition, summary, degraded, recovered, Change, u64_max,
}

-- A reader's view: which checks are degraded.
pub record View : Type 0 where
  pub tcp_down : Bool
  pub request_down : Bool
  pub listener_down : Bool

abbrev flip : Bool → Change → Option Bool
flip false degraded = some true
flip true recovered = some false
flip _ _ = none

abbrev set_tcp : View → Option Bool → Option View
set_tcp v none = none
set_tcp v (some b) = some (record v { tcp_down = b })

abbrev set_request : View → Option Bool → Option View
set_request v none = none
set_request v (some b) = some (record v { request_down = b })

abbrev set_listener : View → Option Bool → Option View
set_listener v none = none
set_listener v (some b) = some (record v { listener_down = b })

-- A reader gives up on a transition to the state that the check is in, and on a summary while the
-- request check is not degraded.
unfoldable pub read : Log → View → Option View
read (transition tcp c) v = set_tcp v (flip v.tcp_down c)
read (transition request c) v = set_request v (flip v.request_down c)
read (transition listener c) v = set_listener v (flip v.listener_down c)
read (summary n) v = if v.request_down then some v else none

abbrev read_next : Log → Option View → Option View
read_next l none = none
read_next l (some v) = read l v

abbrev then_read : List Log → Option View → Option View
then_read [] o = o
then_read (l ∷ logs) o = then_read logs (read_next l o)

unfoldable pub read_all : View → List Log → Option View
read_all v logs = then_read logs (some v)

abbrev pub view : ConnectionHealthState → View
view s = record {
  tcp_down = is_some s.periodic_error;
  request_down = is_some s.request_error;
  listener_down = is_some s.runtime_error;
}

-- A failure kind is only kept beside a failure.
abbrev HasError : ConnectionHealthState → Type 0
HasError s = is_some s.request_error ≡ false → s.request_error_kind ≡ none

step-HasError : (e : Event) (s : ConnectionHealthState) → HasError s → HasError (step e s).0
unfolding step
step-HasError (periodic_failure f) s v = ground arith
step-HasError periodic_success s v = ground arith
step-HasError (request_failure m k c now ms) s v = ground arith
step-HasError request_success s v = ground arith
step-HasError (runtime_failure m) s v = ground arith
step-HasError runtime_success s v = ground arith

step-view :
    (e : Event) (s : ConnectionHealthState)
    → HasError s
    → read_all (view s) (step e s).1 ≡ some (view (step e s).0)
unfolding step read_all read
step-view (periodic_failure f) s v = ground arith
step-view periodic_success s v = ground arith
step-view (request_failure m k c now ms) s v = ground arith
step-view request_success s v = ground arith
step-view (runtime_failure m) s v = ground arith
step-view runtime_success s v = ground arith

then_read-append :
    (xs ys : List Log) (o : Option View) → then_read (xs ++ ys) o ≡ then_read ys (then_read xs o)
then_read-append [] ys o = refl
then_read-append (l ∷ xs) ys o = then_read-append xs ys (read_next l o)

run-view_from :
    (s : ConnectionHealthState) (es : List Event)
    → HasError s
    → read_all (view s) (run s es).1 ≡ some (view (run s es).0)
unfolding run read_all
run-view_from s [] v = refl
run-view_from s (e ∷ es) v =
    then_read-append (step e s).1 (run (step e s).0 es).1 (some (view s))
    ∙ ap (then_read (run (step e s).0 es).1) (unfold read_all in step-view e s v)
    ∙ run-view_from (step e s).0 es (step-HasError e s v)

-- Over every history the printed transitions of each check alternate between degraded and recovered,
-- summaries are printed only while requests fail, and read from the start they tell exactly which
-- checks hold an error now.
pub run-view :
    (es : List Event) → read_all (view default) (run default es).1 ≡ some (view (run default es).0)
run-view es = run-view_from default es (λ h. refl)

-- The details of failed requests stand and fall together.
pub record IsTallied (s : ConnectionHealthState) : Type 0 where
  pub kind : is_some s.request_error_kind ≡ is_some s.request_error
  pub first : is_some s.request_first_failure_timestamp_ms ≡ is_some s.request_error
  pub last : is_some s.request_last_failure_timestamp_ms ≡ is_some s.request_error
  pub summarised : is_some s.request_last_summary_at ≡ is_some s.request_error
  pub counted : ltb 0 s.request_failure_count ≡ is_some s.request_error
  pub fits : s.request_failure_count ≤ u64_max

step-IsTallied : (e : Event) (s : ConnectionHealthState) → IsTallied s → IsTallied (step e s).0
unfolding step
step-IsTallied (periodic_failure f) s v = ground arith
step-IsTallied periodic_success s v = ground arith
step-IsTallied (request_failure m k c now ms) s v = ground arith
step-IsTallied request_success s v = ground arith
step-IsTallied (runtime_failure m) s v = ground arith
step-IsTallied runtime_success s v = ground arith

run-IsTallied_from :
    (s : ConnectionHealthState) (es : List Event) → IsTallied s → IsTallied (run s es).0
unfolding run
run-IsTallied_from s [] v = v
run-IsTallied_from s (e ∷ es) v = run-IsTallied_from (step e s).0 es (step-IsTallied e s v)

-- Over every history the request error, its kind, its first and last time, its summary time and a
-- positive failure count are all there or all gone, and the count stays within 64 bits.
pub run-IsTallied : (es : List Event) → IsTallied (run default es).0
run-IsTallied es = run-IsTallied_from default es (ground arith)
