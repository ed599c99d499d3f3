-- ===== src/Integrity.antt =====
-- app/firewall/integrity.py, over the platform's SHA-256 and canonical JSON.
pub mod Pinning
mod Tests
use agentic_firewall.Base.{ℕ, String, Bool, true, false, Option, none, some, ◌==◌, if◌then◌else◌}
use agentic_firewall.Json.{Fields, text, object, no_fields, field}
use agentic_firewall.Platform.{Platform}
use agentic_firewall.Result.{◌>>=◌, Result, ok}
use agentic_firewall.Models.Requests.{ToolDefinition}
use agentic_firewall.Database.{Database, Fingerprint, get_fingerprint, upsert_fingerprint}

-- OK, CHANGED and UNAPPROVED
pub data Status : Type 0 where
  unmodified changed unapproved : Status

abbrev pub status_name : Status → String
status_name unmodified = "ok"
status_name changed = "changed"
status_name unapproved = "unapproved"

pub record IntegrityResult : Type 0 where
  pub status : Status
  pub fingerprint : String

-- The property `ok`.
abbrev pub is_unmodified : Status → Bool
is_unmodified unmodified = true
is_unmodified _ = false

-- The property `reason`.
abbrev pub status_reason : Status → String
status_reason changed = "tool definition changed since it was approved"
status_reason unapproved = "tool has not been approved"
status_reason unmodified = "tool definition matches approved fingerprint"

-- The object that `canonical_bytes` serialises.
unfoldable pub payload : ToolDefinition → Fields
payload d = field "name" (text d.name) (
    field "description" (text d.description) (
      field "input_schema" (object d.input_schema)
        (field "annotations" (object d.annotations) (field "extras" (object d.extras) no_fields))))

abbrev pub stored_fingerprint : Option Fingerprint → Option String
stored_fingerprint none = none
stored_fingerprint (some row) = some row.fingerprint

unfoldable pub approved_fingerprint : Database → String → Result (Option String)
approved_fingerprint db tool_name = do
  row ← get_fingerprint db tool_name
  ok (stored_fingerprint row)

-- The comparison of `verify`.
abbrev pub compare_fingerprint : Option String → String → Status
compare_fingerprint none current = unapproved
compare_fingerprint (some stored) current = if stored == current then unmodified else changed

module _ (platform : Platform) where
  unfoldable pub fingerprint : ToolDefinition → String
  fingerprint d = platform.sha256 (platform.dumps (payload d))

  unfoldable pub approve :
      Database → ToolDefinition → Option String → ℕ → Result (String × Database)
  approve db d approved_by now = do
    let fp = fingerprint d
    db' ← upsert_fingerprint db d.name fp now approved_by
    ok (fp, db')

  unfoldable pub verify : Database → ToolDefinition → Result IntegrityResult
  verify db d = do
    let current = fingerprint d
    stored ← approved_fingerprint db d.name
    ok (record { status = compare_fingerprint stored current; fingerprint = current })
