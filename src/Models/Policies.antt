-- ===== src/Models/Policies.antt =====
-- app/models/policies.py. Durations are whole numbers of clock ticks. Reading YAML and pydantic's
-- coercions are not modelled; the checks that the models declare are `is_valid`.
pub mod RiskText
use agentic_firewall.Base.{
  ℕ, String, Bool, true, false, not, ◌&&◌, ◌||◌, List, [], ◌∷◌, leb, ltb, eqb, ◌==◌, all_codes, ◌*◌,
}
use agentic_firewall.Dict.{Dict}

pub data RiskLevel : Type 0 where
  low medium high critical : RiskLevel

-- The values of the `IntEnum`.
abbrev pub value : RiskLevel → ℕ
value low = 1
value medium = 2
value high = 3
value critical = 4

abbrev pub risk_name : RiskLevel → String
risk_name low = "LOW"
risk_name medium = "MEDIUM"
risk_name high = "HIGH"
risk_name critical = "CRITICAL"

pub record RolePolicy : Type 0 where
  pub allowed_tools : List String
  pub max_risk : RiskLevel
  pub can_manage : Bool

-- `RolePolicy()`, the defaults.
abbrev pub default_role : RolePolicy
default_role = record { allowed_tools = []; max_risk = low; can_manage = false }

pub record RateLimitPolicy : Type 0 where
  pub max_requests : ℕ
  pub window_seconds : ℕ

pub record CircuitBreakerPolicy : Type 0 where
  pub failure_threshold : ℕ
  pub cooldown_seconds : ℕ

pub record ScannerPolicy : Type 0 where
  pub max_scan_chars : ℕ

pub record Policy : Type 0 where
  pub version : ℕ
  pub session_ttl_seconds : ℕ
  pub upstream_timeout_seconds : ℕ
  pub roles : Dict RolePolicy
  pub tool_risk : Dict RiskLevel
  pub rate_limit : RateLimitPolicy
  pub login_rate_limit : RateLimitPolicy
  pub circuit_breaker : CircuitBreakerPolicy
  pub scanner : ScannerPolicy

-- `_no_wildcards` for one name: not empty, and neither `*` nor `?` in it.
unfoldable pub is_exact_name : String → Bool
is_exact_name name = not (name == "") && all_codes (λ c. not (eqb b'*' c || eqb b'?' c)) name

unfoldable pub no_wildcards : List String → Bool
unfolding is_exact_name
no_wildcards [] = true
no_wildcards (name ∷ names) = is_exact_name name && no_wildcards names

unfoldable pub exact_roles : Dict RolePolicy → Bool
unfolding no_wildcards
exact_roles [] = true
exact_roles ((name, role) ∷ roles) = no_wildcards role.allowed_tools && exact_roles roles

unfoldable pub has_roles : Dict RolePolicy → Bool
has_roles [] = false
has_roles (r ∷ roles) = true

valid_rate : RateLimitPolicy → Bool
valid_rate r = leb 1 r.max_requests && ltb 0 r.window_seconds

-- The checks of `Policy.model_validate`, with `second` ticks to a second.
unfoldable pub is_valid : ℕ → Policy → Bool
unfolding exact_roles has_roles valid_rate
is_valid second p =
    leb (60 * second) p.session_ttl_seconds
    && leb p.session_ttl_seconds (86400 * second)
    && ltb 0 p.upstream_timeout_seconds
    && has_roles p.roles
    && exact_roles p.roles
    && valid_rate p.rate_limit
    && valid_rate p.login_rate_limit
    && leb 1 p.circuit_breaker.failure_threshold
    && ltb 0 p.circuit_breaker.cooldown_seconds
    && leb 1000 p.scanner.max_scan_chars
