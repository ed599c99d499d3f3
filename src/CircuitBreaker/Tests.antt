-- ===== src/CircuitBreaker/Tests.antt =====
-- Runs of the breaker, and its theorems at concrete calls.
use agentic_firewall.Base.{
  ◌+◌, ◌≤◌, ◌<◌, ◌≡◌, ◌⊎◌, refl, true, false, [], ◌∷◌, arith, if◌then◌else◌, ◌==◌,
}
use agentic_firewall.CircuitBreaker.{
  closed, open_, half_open, CircuitBreaker, CircuitBreakerRegistry, fresh, allow, retry_after,
  record_success, record_failure, current, put,
}
use agentic_firewall.CircuitBreaker.Cycle.{
  passes, passes-le-one, fail_all, trips_at_threshold, open_until, probe_result,
}
use agentic_firewall.CircuitBreaker.Probe.{
  System, starts, fails, Reach, here, next, start, idle_recovers, stale_success,
}
use agentic_firewall.CircuitBreaker.Registry.{current-put}

abbrev two_strikes : CircuitBreaker
two_strikes = fresh 2 30

abbrev tripped : CircuitBreaker
tripped = record two_strikes { state = open_; opened_at = 7 }

trips : fail_all two_strikes (5 ∷ 7 ∷ []) ≡ tripped
unfolding fail_all record_failure
trips = refl

trips_at_threshold_example :
    let opened = fail_all (record_success two_strikes) (5 ∷ 7 ∷ []) in
    ((fail_all (record_success two_strikes) (5 ∷ [])).state ≡ closed)
    × (opened.state ≡ open_)
    × (opened.opened_at ≡ 7)
    × (opened.probe_in_flight ≡ false)
trips_at_threshold_example = trips_at_threshold two_strikes (5 ∷ []) 7 refl

-- The first call behind the cooldown is the probe.
passes_one : passes tripped (10 ∷ 37 ∷ 38 ∷ 90 ∷ []) ≡ 1
unfolding passes allow
passes_one = refl

passes-le-one_example : passes tripped (10 ∷ 37 ∷ 38 ∷ 90 ∷ []) ≤ 1
passes-le-one_example = passes-le-one tripped (10 ∷ 37 ∷ 38 ∷ 90 ∷ []) (λ e. cc)

open_until_run :
    ((10 + retry_after tripped 10 ≡ 37) × (allow tripped 10 ≡ (tripped, false)) × (10 < 37))
    ⊎ ((retry_after tripped 10 ≡ 0)
        × ((allow tripped 10).1 ≡ true)
        × ((allow tripped 10).0.state ≡ half_open)
        × (37 ≤ 10))
open_until_run = open_until tripped 10 refl

probe_result_run :
    ((record_success (allow tripped 37).0).state ≡ closed)
    × ((record_failure (allow tripped 37).0 40).state ≡ open_)
    × ((record_failure (allow tripped 37).0 40).opened_at ≡ 40)
probe_result_run = probe_result tripped 37 40 refl (omega arith)

-- One call, which fails and trips the breaker.
abbrev failed : System
failed = record { breaker = record_failure (allow (fresh 1 30) 5).0 6; in_flight = 0 }

Reach-failed : Reach (start 1 30) failed
unfolding allow
Reach-failed = next (next here (starts (start 1 30) 5)) (fails _ 0 6 refl)

failed_late : failed.breaker.opened_at + failed.breaker.cooldown ≤ 36
unfolding allow record_failure
failed_late = omega arith

idle_recovers_run : (allow failed.breaker 36).1 ≡ true
idle_recovers_run = idle_recovers 1 30 36 (omega arith) Reach-failed refl failed_late

stale_success_run :
    ((record_failure (fresh 1 30) 6).state ≡ open_)
    × ((record_success (record_failure (fresh 1 30) 6)).state ≡ closed)
    × ((allow (record_success (record_failure (fresh 1 30) 6)) 7).1 ≡ true)
stale_success_run = stale_success (fresh 1 30) 6 7 refl refl

abbrev no_breakers : CircuitBreakerRegistry
no_breakers = record { threshold = 2; cooldown = 30; breakers = [] }

current-put_example :
    current (put no_breakers "a" tripped) "b"
    ≡ (if "a" == "b" then tripped else current no_breakers "b")
current-put_example = current-put no_breakers "a" "b" tripped
