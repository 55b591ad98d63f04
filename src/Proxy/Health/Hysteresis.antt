-- ===== src/Proxy/Health/Hysteresis.antt =====
-- The counters of crates/proxy/src/lib.rs against the state machine that they stand for.
use fabdev.Prelude.{
  ℕ, ◌+◌, ◌<◌, ◌≡◌, refl, ap, ◌∙◌, false, List, [], ◌∷◌, arith, ◌==◌, if◌then◌else◌, is_some,
}
use fabdev.Proxy.Health.{
  ConnectionHealthState, default, Event, periodic_failure, periodic_success, request_failure,
  request_success, runtime_failure, runtime_success, step, run,
}

-- Up with fewer than three failures in a row, or down with fewer than two successes in a row.
pub data Mode : Type 0 where
  up : ℕ → Mode
  down : ℕ → Mode

-- What a failed TCP check does.
unfoldable pub fail : Mode → Mode
fail (up n) = if n + 1 == 3 then down 0 else up (n + 1)
fail (down n) = down 0

-- What a TCP check that succeeds does.
unfoldable pub pass : Mode → Mode
pass (up n) = up 0
pass (down n) = if n + 1 == 2 then up 0 else down (n + 1)

unfoldable pub follow : Event → Mode → Mode
unfolding fail pass
follow (periodic_failure f) m = fail m
follow periodic_success m = pass m
follow _ m = m

unfoldable pub mode : ConnectionHealthState → Mode
mode s = if is_some s.periodic_error then down s.periodic_successes else up s.periodic_failures

pub record IsCounted (s : ConnectionHealthState) : Type 0 where
  pub healthy : is_some s.periodic_error ≡ false → s.periodic_failures < 3
  pub recovering : s.periodic_successes < 2

step-IsCounted : (e : Event) (s : ConnectionHealthState) → IsCounted s → IsCounted (step e s).0
unfolding step
step-IsCounted (periodic_failure f) s v = ground arith
step-IsCounted periodic_success s v = ground arith
step-IsCounted (request_failure m k c now ms) s v = ground arith
step-IsCounted request_success s v = ground arith
step-IsCounted (runtime_failure m) s v = ground arith
step-IsCounted runtime_success s v = ground arith

step-mode :
    (e : Event) (s : ConnectionHealthState) → IsCounted s → mode (step e s).0 ≡ follow e (mode s)
unfolding step mode follow
step-mode (periodic_failure f) s v = ground arith
step-mode periodic_success s v = ground arith
step-mode (request_failure m k c now ms) s v = ground arith
step-mode request_success s v = ground arith
step-mode (runtime_failure m) s v = ground arith
step-mode runtime_success s v = ground arith

unfoldable pub follow_all : Mode → List Event → Mode
follow_all m [] = m
follow_all m (e ∷ es) = follow_all (follow e m) es

run-IsCounted : (s : ConnectionHealthState) (es : List Event) → IsCounted s → IsCounted (run s es).0
unfolding run
run-IsCounted s [] v = v
run-IsCounted s (e ∷ es) v = run-IsCounted (step e s).0 es (step-IsCounted e s v)

run-mode_from :
    (s : ConnectionHealthState) (es : List Event)
    → IsCounted s
    → mode (run s es).0 ≡ follow_all (mode s) es
unfolding run follow_all
run-mode_from s [] v = refl
run-mode_from s (e ∷ es) v =
    run-mode_from (step e s).0 es (step-IsCounted e s v)
    ∙ ap (λ m. follow_all m es) (step-mode e s v)

default-IsCounted : IsCounted default
default-IsCounted = record { healthy = λ h. omega arith; recovering = omega arith }

-- Over every history of checks, requests and listener events the saturating counters and the
-- periodic error of a connection are the state machine `follow`: three failed TCP checks in a row
-- degrade it, two that succeed in a row bring it back, and nothing else does either.
pub run-mode : (es : List Event) → mode (run default es).0 ≡ follow_all (up 0) es
unfolding mode
run-mode es = run-mode_from default es default-IsCounted
