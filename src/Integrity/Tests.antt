-- ===== src/Integrity/Tests.antt =====
-- A pinned definition, and the verdicts behind it.
use agentic_firewall.Base.{◌≡◌, refl, none, [], ◌∷◌}
use agentic_firewall.Json.{no_fields}
use agentic_firewall.Samples.{plain}
use agentic_firewall.Result.{ok}
use agentic_firewall.Models.Requests.{ToolDefinition}
use agentic_firewall.Database.{Database, empty}
use agentic_firewall.Integrity.{approve, verify}
use agentic_firewall.Integrity.Pinning.{Verdict, verify-approve}

abbrev tool : ToolDefinition
tool = record {
  name = "t";
  description = "A tool.";
  input_schema = no_fields;
  annotations = no_fields;
  extras = no_fields;
}

abbrev pinned : Database
pinned = record empty {
  fingerprints = ("t", record { fingerprint = "{}"; approved_at = 4; approved_by = none }) ∷ [];
}

approve_run : approve plain empty tool none 4 ≡ ok ("{}", pinned)
unfolding approve agentic_firewall.Database.upsert_fingerprint
    agentic_firewall.Integrity.fingerprint agentic_firewall.Dict.insert
approve_run = refl

verify-approve_example : verify plain pinned tool ≡ Verdict plain empty tool tool
verify-approve_example = verify-approve plain empty pinned tool tool none 4 "{}" approve_run
