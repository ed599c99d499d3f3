-- ===== src/CircuitBreaker/Registry.antt =====
-- The registry of app/firewall/circuit_breaker.py: one breaker for each tool name.
use agentic_firewall.Base.{◌≡◌, String, arith, ◌==◌, eq_iff, if◌then◌else◌}
use agentic_firewall.Dict.{lookup-insert}
use agentic_firewall.CircuitBreaker.{CircuitBreaker, CircuitBreakerRegistry, current, put, get}

-- A write of one tool's breaker shows at that tool and at no other.
pub current-put :
    (r : CircuitBreakerRegistry) (k j : String) (b : CircuitBreaker)
    → current (put r k b) j ≡ (if k == j then b else current r j)
unfolding current put
current-put r k j b = ground (arith, lookup-insert k j b r.breakers)

-- Looking a breaker up changes nobody's breaker.
pub current-get : (r : CircuitBreakerRegistry) (k j : String) → current (get r k).0 j ≡ current r j
unfolding current get put
current-get r k j = ground (arith, lookup-insert k j (current r k) r.breakers, eq_iff k j)
