-- ===== src/CircuitBreaker/Records.antt =====
-- What a recorded result makes of a breaker of app/firewall/circuit_breaker.py.
use agentic_firewall.Base.{ℕ, suc, ◌≤◌, ◌<◌, ◌≡◌, ◌≢◌, refl, ◌∙◌, String, false, arith, eq_refl}
use agentic_firewall.CircuitBreaker.{
  CircuitBreaker, CircuitBreakerRegistry, closed, open_, half_open, allow, record_success,
  record_failure, trip, current, put,
}
use agentic_firewall.CircuitBreaker.Registry.{current-put}

pub current-put_self :
    (r : CircuitBreakerRegistry) (k : String) (b : CircuitBreaker) → current (put r k b) k ≡ b
current-put_self r k b = current-put r k k b ∙ rw (eq_refl k) refl

pub allow_refused : (b : CircuitBreaker) (now : ℕ) → (allow b now).1 ≡ false → (allow b now).0 ≡ b
unfolding allow
allow_refused b now h = ground arith

pub record_failure_moves : (b : CircuitBreaker) (now : ℕ) → (record_failure b now).state ≢ half_open
unfolding record_failure trip
record_failure_moves b now h = ground arith

-- What a failure at a time makes of a breaker, by the state that it was in.
pub record Failed (b after : CircuitBreaker) (at : ℕ) : Type 0 where
  pub probe : b.state ≡ half_open → (after.state ≡ open_) × (after.opened_at ≡ at)
  pub last_straw :
      b.state ≡ closed
      → b.threshold ≤ suc b.failures
      → (after.state ≡ open_) × (after.opened_at ≡ at)
  pub counted :
      b.state ≡ closed
      → suc b.failures < b.threshold
      → (after.state ≡ closed) × (after.failures ≡ suc b.failures)

pub record_success_state :
    (b : CircuitBreaker) → ((record_success b).state ≡ closed) × ((record_success b).failures ≡ 0)
unfolding record_success
record_success_state b = (refl, refl)

pub record_failure-Failed : (b : CircuitBreaker) (at : ℕ) → Failed b (record_failure b at) at
unfolding record_failure trip
record_failure-Failed b at = record {
  probe = λ s. ground arith;
  last_straw = λ s h. ground arith;
  counted = λ s h. ground arith;
}
