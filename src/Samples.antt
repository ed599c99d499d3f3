-- ===== src/Samples.antt =====
-- A platform, a policy, a tool and a database for the runs.
pub mod Requests
use agentic_firewall.Base.{false, none, [], ◌∷◌}
use agentic_firewall.Platform.{Platform}
use agentic_firewall.Models.Policies.{Policy, low}
use agentic_firewall.Json.{no_fields}
use agentic_firewall.Models.Requests.{ToolDefinition}
use agentic_firewall.Database.{Database, empty}

abbrev pub plain : Platform
plain = record {
  sha256 = λ s. s;
  dumps = λ fs. "{}";
  nfkc = λ cs. cs;
  search = λ rule cs. false;
  general = λ n. "60";
  ceil_seconds = λ n. "1";
}

abbrev pub policy : Policy
policy = record {
  version = 1;
  session_ttl_seconds = 3600;
  upstream_timeout_seconds = 5;
  roles =
      ("dev", record { allowed_tools = "list_files" ∷ []; max_risk = low; can_manage = false })
      ∷ [];
  tool_risk = [];
  rate_limit = record { max_requests = 2; window_seconds = 60 };
  login_rate_limit = record { max_requests = 2; window_seconds = 60 };
  circuit_breaker = record { failure_threshold = 2; cooldown_seconds = 30 };
  scanner = record { max_scan_chars = 1000 };
}

abbrev pub list_files : ToolDefinition
list_files = record {
  name = "list_files";
  description = "Lists files.";
  input_schema = no_fields;
  annotations = no_fields;
  extras = no_fields;
}

abbrev pub filled : Database
filled = record empty {
  users = ("ann", record { user_id = "ann"; role = "dev"; api_key_hash = "k" }) ∷ [];
  sessions =
      ("s1", record { user_id = "ann"; created_at = 0; expires_at = 100; revoked = false }) ∷ [];
  fingerprints =
      ("list_files", record { fingerprint = "{}"; approved_at = 0; approved_by = none }) ∷ [];
}
