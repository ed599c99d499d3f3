-- ===== src/CircuitBreaker.antt =====
-- app/firewall/circuit_breaker.py. A time is a whole number of clock ticks, and the clock's reading
-- is an argument of the calls that read it; `now - opened_at >= cooldown` is written
-- `opened_at + cooldown <= now`. The locks make each call one step.
pub mod Cycle
pub mod Probe
pub mod Registry
pub mod Records
mod Tests
use agentic_firewall.Base.{
  ℕ, ◌+◌, ◌-◌, String, Bool, true, false, ◌||◌, Option, none, some, ltb, leb, if◌then◌else◌,
}
use agentic_firewall.Dict.{Dict, lookup, insert}

pub data BreakerState : Type 0 where
  closed open_ half_open : BreakerState

pub record CircuitBreaker : Type 0 where
  pub threshold : ℕ
  pub cooldown : ℕ
  pub state : BreakerState
  pub failures : ℕ
  pub opened_at : ℕ
  pub probe_in_flight : Bool

-- The fields of a new breaker.
abbrev pub fresh : ℕ → ℕ → CircuitBreaker
fresh threshold cooldown = record {
  threshold = threshold;
  cooldown = cooldown;
  state = closed;
  failures = 0;
  opened_at = 0;
  probe_in_flight = false;
}

-- `CircuitBreaker.__init__`; `none` is the `ValueError`.
unfoldable pub init : ℕ → ℕ → Option CircuitBreaker
init threshold cooldown =
    if ltb threshold 1 || leb cooldown 0 then none else some (fresh threshold cooldown)

allow_in : BreakerState → CircuitBreaker → ℕ → CircuitBreaker × Bool
allow_in closed b now = (b, true)
allow_in open_ b now =
    if leb (b.opened_at + b.cooldown) now
    then (record b { state = half_open; probe_in_flight = true }, true)
    else (b, false)
allow_in half_open b now =
    if b.probe_in_flight then (b, false) else (record b { probe_in_flight = true }, true)

unfoldable pub allow : CircuitBreaker → ℕ → CircuitBreaker × Bool
unfolding allow_in
allow b now = allow_in b.state b now

wait_in : BreakerState → CircuitBreaker → ℕ → ℕ
wait_in open_ b now = b.opened_at + b.cooldown - now
wait_in _ b now = 0

unfoldable pub retry_after : CircuitBreaker → ℕ → ℕ
unfolding wait_in
retry_after b now = wait_in b.state b now

unfoldable pub trip : CircuitBreaker → ℕ → CircuitBreaker
trip b now = record b { state = open_; opened_at = now; probe_in_flight = false; failures = 0 }

unfoldable pub record_success : CircuitBreaker → CircuitBreaker
record_success b = record b { state = closed; failures = 0; probe_in_flight = false }

count_failure : CircuitBreaker → ℕ → CircuitBreaker
unfolding trip
count_failure b now =
    let b' = record b { failures = b.failures + 1 } in
    if leb b'.threshold b'.failures then trip b' now else b'

fail_in : BreakerState → CircuitBreaker → ℕ → CircuitBreaker
unfolding count_failure
fail_in half_open b now = trip b now
fail_in _ b now = count_failure b now

unfoldable pub record_failure : CircuitBreaker → ℕ → CircuitBreaker
unfolding fail_in
record_failure b now = fail_in b.state b now

pub record CircuitBreakerRegistry : Type 0 where
  pub threshold : ℕ
  pub cooldown : ℕ
  pub breakers : Dict CircuitBreaker

-- The breaker that `get` returns, made anew if there is none.
unfoldable pub current : CircuitBreakerRegistry → String → CircuitBreaker
current r key = elim (lookup key r.breakers) [ none ↦ fresh r.threshold r.cooldown | some b ↦ b ]

-- `get` hands out a shared object, so a method called on it is a write to the registry.
unfoldable pub put : CircuitBreakerRegistry → String → CircuitBreaker → CircuitBreakerRegistry
put r key b = record r { breakers = insert key b r.breakers }

unfoldable pub get : CircuitBreakerRegistry → String → CircuitBreakerRegistry × CircuitBreaker
unfolding current put
get r key = (put r key (current r key), current r key)
