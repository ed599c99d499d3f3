-- ===== src/Models/Events.antt =====
-- app/models/events.py
pub mod Sanitize
pub mod Plain
pub mod LogLine
mod Tests
use agentic_firewall.Base.{ℕ, String, Option, none, some}
unfoldable pub use Sanitize.{sanitize}

pub data Decision : Type 0 where
  allow deny : Decision

-- The values of the enum.
abbrev pub decision_value : Decision → String
decision_value allow = "ALLOW"
decision_value deny = "DENY"

-- The class `Stage`, whose constants are texts.
pub data Stage : Type 0 where
  login authentication rate_limit validation authorization integrity : Stage
  input_scan circuit_breaker upstream output_scan approval internal allowed : Stage

abbrev pub stage_name : Stage → String
stage_name login = "login"
stage_name authentication = "authentication"
stage_name rate_limit = "rate_limit"
stage_name validation = "validation"
stage_name authorization = "authorization"
stage_name integrity = "integrity"
stage_name input_scan = "input_scan"
stage_name circuit_breaker = "circuit_breaker"
stage_name upstream = "upstream"
stage_name output_scan = "output_scan"
stage_name approval = "approval"
stage_name internal = "internal_error"
stage_name allowed = "allowed"

pub record SecurityEvent : Type 0 where
  pub ts : ℕ
  pub user_id : Option String
  pub session_ref : Option String
  pub role : Option String
  pub tool : Option String
  pub risk : Option String
  pub decision : Decision
  pub stage : String
  pub reason : String
  pub latency_ms : ℕ
  pub id : Option ℕ

abbrev pub clean_option : Option String → Option String
clean_option none = none
clean_option (some v) = some (sanitize 300 v)

-- The validator `_clean`, which pydantic runs on each text field when the event is made.
unfoldable pub clean_event : SecurityEvent → SecurityEvent
clean_event e = record {
  ts = e.ts;
  user_id = clean_option e.user_id;
  session_ref = clean_option e.session_ref;
  role = clean_option e.role;
  tool = clean_option e.tool;
  risk = clean_option e.risk;
  decision = e.decision;
  stage = sanitize 300 e.stage;
  reason = sanitize 300 e.reason;
  latency_ms = e.latency_ms;
  id = e.id;
}
