-- ===== src/Models/Requests.antt =====
-- app/models/requests.py
use agentic_firewall.Base.{ℕ, String, Bool, Option, true, false}
use agentic_firewall.Json.{Fields}
use agentic_firewall.Models.Events.{Decision, allow, deny, Stage}

pub record ToolRequest : Type 0 where
  pub session_id : String
  pub tool : String
  pub arguments : Fields

pub record ToolDefinition : Type 0 where
  pub name : String
  pub description : String
  pub input_schema : Fields
  pub annotations : Fields
  pub extras : Fields

pub record ToolResponse : Type 0 where
  pub text : String
  pub is_error : Bool

pub record UserSession : Type 0 where
  pub user_id : String
  pub role : String
  pub session_ref : String
  pub created_at : ℕ
  pub expires_at : ℕ

pub record GatewayResult : Type 0 where
  pub decision : Decision
  pub stage : Stage
  pub reason : String
  pub tool : String
  pub user_id : Option String
  pub role : Option String
  pub risk : Option String
  pub latency_ms : ℕ
  pub retry_after : Option ℕ
  pub response : Option ToolResponse

-- The property `GatewayResult.allowed`.
abbrev pub is_allow : Decision → Bool
is_allow allow = true
is_allow deny = false

pub record ToolInfo : Type 0 where
  pub name : String
  pub description : String
  pub input_schema : Fields
  pub risk : String
  pub integrity : String

pub record ApprovalOutcome : Type 0 where
  pub tool : String
  pub status : String
  pub fingerprint : Option String
  pub reason : String
