-- ===== src/Gateway.antt =====
-- app/firewall/gateway.py: the firewall's state, the caller's context, the results and the audit.
pub mod Pipeline
pub mod Handle
pub mod Login
pub mod Mediation
pub mod Allowed
pub mod Approve
pub mod Auditing
pub mod Frame
pub mod Writes
pub mod Responses
pub mod Complete
pub mod Settling
pub mod Tasks
pub mod Tools
pub mod Wanted
mod Tests
use agentic_firewall.Base.{
  ℕ, String, Bool, ◌&&◌, ◌||◌, Option, none, some, [], eqb, in_range, is_alnum, text_length,
  all_codes,
}
use agentic_firewall.Result.{Result, ok, raise}
use agentic_firewall.Models.Policies.{Policy, RiskLevel, risk_name}
use agentic_firewall.Models.Events.{Decision, deny, Stage, stage_name, SecurityEvent}
use agentic_firewall.Models.Requests.{ToolRequest, GatewayResult}
use agentic_firewall.Database.{Database}
use agentic_firewall.RateLimiter.{SlidingWindowRateLimiter}
use agentic_firewall.CircuitBreaker.{CircuitBreakerRegistry}
use agentic_firewall.Audit.{record_event}

-- `Firewall`: what its parts keep. The authenticator, the checker of fingerprints and the audit log
-- keep nothing but the database; the authorizer, the classifier and the scanner only the policy.
pub record Firewall : Type 0 where
  pub policy : Policy
  pub db : Database
  pub limiter : SlidingWindowRateLimiter
  pub login_limiter : SlidingWindowRateLimiter
  pub breakers : CircuitBreakerRegistry

-- `Firewall.__init__`. The limits of a policy that was validated pass the limiters' own checks.
unfoldable pub init : Policy → Database → Firewall
init policy db = record {
  policy = policy;
  db = db;
  limiter = record {
    max_requests = policy.rate_limit.max_requests;
    window_seconds = policy.rate_limit.window_seconds;
    hits = [];
  };
  login_limiter = record {
    max_requests = policy.login_rate_limit.max_requests;
    window_seconds = policy.login_rate_limit.window_seconds;
    hits = [];
  };
  breakers = record {
    threshold = policy.circuit_breaker.failure_threshold;
    cooldown = policy.circuit_breaker.cooldown_seconds;
    breakers = [];
  };
}

-- The readings of the two clocks in a stretch of code with no `await` in it. A breaker that refuses
-- reads the monotonic clock two more times, for the wait in its message and for the wait itself.
pub record Instant : Type 0 where
  pub wall : ℕ
  pub mono : ℕ
  pub again : ℕ
  pub once_more : ℕ

-- `_Ctx`
pub record Ctx : Type 0 where
  pub user_id : Option String
  pub role : Option String
  pub session_ref : Option String
  pub risk : Option RiskLevel

abbrev pub no_ctx : Ctx
no_ctx = record { user_id = none; role = none; session_ref = none; risk = none }

-- TOOL_NAME_RE.fullmatch(tool): 1 to 128 characters of [A-Za-z0-9_.-]
unfoldable pub is_tool_name : String → Bool
is_tool_name tool =
    in_range 1 128 (text_length tool)
    && all_codes (λ c. is_alnum c || eqb b'_' c || eqb b'.' c || eqb b'-' c) tool

-- ctx.risk.name if ctx.risk else None; the values of the levels start at 1, so none is false.
abbrev pub risk_text : Option RiskLevel → Option String
risk_text none = none
risk_text (some r) = some (risk_name r)

-- `_deny`
unfoldable pub deny_result : ToolRequest → Ctx → Stage → String → Option ℕ → GatewayResult
deny_result req ctx stage reason retry_after = record {
  decision = deny;
  stage = stage;
  reason = reason;
  tool = req.tool;
  user_id = ctx.user_id;
  role = ctx.role;
  risk = risk_text ctx.risk;
  latency_ms = 0;
  retry_after = retry_after;
  response = none;
}

-- The database behind a write to the log whose failure is caught.
abbrev pub logged : Database → Result (Database × SecurityEvent) → Database
logged db (ok (db', e)) = db'
logged db (raise e) = db

-- The event that `_audit_result` hands to the log.
abbrev pub result_event : ToolRequest → Ctx → GatewayResult → SecurityEvent
result_event req ctx result = record {
  ts = 0;
  user_id = ctx.user_id;
  session_ref = ctx.session_ref;
  role = ctx.role;
  tool = some req.tool;
  risk = result.risk;
  decision = result.decision;
  stage = stage_name result.stage;
  reason = result.reason;
  latency_ms = result.latency_ms;
  id = none;
}

unfoldable pub audit_result : Firewall → Instant → ToolRequest → Ctx → GatewayResult → Firewall
audit_result fw now req ctx result = record fw {
  db = logged fw.db (record_event fw.db (result_event req ctx result) now.wall);
}

abbrev pub simple_event :
    Option String → Stage → Decision → String → Option String → Option String → SecurityEvent
simple_event user_id stage decision reason role session_ref = record {
  ts = 0;
  user_id = user_id;
  session_ref = session_ref;
  role = role;
  tool = none;
  risk = none;
  decision = decision;
  stage = stage_name stage;
  reason = reason;
  latency_ms = 0;
  id = none;
}

unfoldable pub audit_simple :
    Firewall
    → Instant
    → Option String
    → Stage
    → Decision
    → String
    → Option String
    → Option String
    → Firewall
audit_simple fw now user_id stage decision reason role session_ref = record fw {
  db =
      logged fw.db
        (record_event fw.db (simple_event user_id stage decision reason role session_ref) now.wall);
}
