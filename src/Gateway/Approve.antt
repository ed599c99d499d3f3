-- ===== src/Gateway/Approve.antt =====
-- `approve_tools` and `_approve_one` of app/firewall/gateway.py. What the upstream lists is the
-- argument `listing`.
pub mod Pinned
pub mod Writes
pub mod Listed
mod Tests
use Prim.Native.String.{◌++◌}
use agentic_firewall.Base.{ℕ, String, Option, none, some, List, [], ◌∷◌, ltb, if◌then◌else◌}
use agentic_firewall.Dict.{Dict, lookup}
use agentic_firewall.Json.{object}
use agentic_firewall.Platform.{Platform}
use agentic_firewall.Result.{◌>>=◌, Result, ok, raise, permission_denied}
use agentic_firewall.Models.Policies.{risk_name}
use agentic_firewall.Models.Events.{Stage, stage_name, SecurityEvent}
use agentic_firewall.Models.Requests.{ToolDefinition, ApprovalOutcome, UserSession}
use agentic_firewall.Authorization
use agentic_firewall.Audit.{record_event}
use agentic_firewall.Risk.{classify}
use agentic_firewall.Integrity.{approve, approved_fingerprint, payload}
use agentic_firewall.Scanner.Rules.{description}
use agentic_firewall.Scanner.Walk.{scan_value, blocked, summary}
use agentic_firewall.Gateway.{Firewall, Instant, is_tool_name}
use agentic_firewall.Gateway.Pipeline.{Listing}
use agentic_firewall.Gateway.Tools.{fetched}
use agentic_firewall.Gateway.Wanted.{
  count_of, counts_from, by_name_from, wanted, strip_end, failed_outcome, approval_status,
  approval_decision,
}

module _ (platform : Platform) where
  -- `_approve_one`: `defn.model_dump()` has the fields in the order of the fingerprint's payload.
  unfoldable pub approve_one :
      Firewall → Instant → ToolDefinition → UserSession → Result (ApprovalOutcome × Firewall)
  approve_one fw now defn approver =
      let found =
        scan_value platform description fw.policy.scanner.max_scan_chars (object (payload defn))
          "definition" in
      if blocked found
      then ok (
        failed_outcome defn.name "rejected" ("suspicious tool definition: " ++ summary found),
        fw,
      )
      else (do
        previous ← approved_fingerprint fw.db defn.name
        (fp, db') ← approve platform fw.db defn (some approver.user_id) now.wall
        ok (
          record {
            tool = defn.name;
            status = approval_status previous fp;
            fingerprint = some fp;
            reason = "";
          },
          record fw { db = db' },
        ))

  -- The branches of the loop for one name.
  unfoldable pub decide :
      Firewall
      → Instant
      → UserSession
      → Option ToolDefinition
      → ℕ
      → String
      → Result (ApprovalOutcome × Firewall)
  decide fw now approver none n name =
      ok (failed_outcome name "not_found" "tool not exposed by upstream", fw)
  decide fw now approver (some defn) n name =
      let approved = approve_one fw now defn approver in
      if ltb 1 n
      then ok (failed_outcome name "rejected" "duplicate definitions from upstream", fw)
      else approved

  abbrev pub approval_event : Firewall → UserSession → String → ApprovalOutcome → SecurityEvent
  approval_event fw approver name outcome = record {
    ts = 0;
    user_id = some approver.user_id;
    session_ref = some approver.session_ref;
    role = some approver.role;
    tool = some name;
    risk = if is_tool_name name then some (risk_name (classify fw.policy.tool_risk name)) else none;
    decision = approval_decision outcome;
    stage = stage_name Stage.approval;
    reason = strip_end (outcome.status ++ ": " ++ outcome.reason);
    latency_ms = 0;
    id = none;
  }

  -- The row in the log; here its failure is not caught.
  unfoldable pub record_outcome :
      Firewall → Instant → UserSession → String → ApprovalOutcome → Result Firewall
  record_outcome fw now approver name outcome = do
    (db', event) ← record_event fw.db (approval_event fw approver name outcome) now.wall
    ok (record fw { db = db' })

  abbrev pub recorded :
      Firewall → ApprovalOutcome → Result Firewall → Firewall × Result ApprovalOutcome
  recorded fw outcome (raise e) = (fw, raise e)
  recorded fw outcome (ok fw') = (fw', ok outcome)

  abbrev pub decided :
      Firewall
      → Instant
      → UserSession
      → String
      → Result (ApprovalOutcome × Firewall)
      → Firewall × Result ApprovalOutcome
  decided fw now approver name (raise e) = (fw, raise e)
  decided fw now approver name (ok (outcome, fw')) =
      recorded fw' outcome (record_outcome fw' now approver name outcome)

  abbrev pub add_outcome :
      Firewall
      → Result ApprovalOutcome
      → Firewall × Result (List ApprovalOutcome)
      → Firewall × Result (List ApprovalOutcome)
  add_outcome fw (raise e) rest = (fw, raise e)
  add_outcome fw (ok outcome) (fw', raise e) = (fw', raise e)
  add_outcome fw (ok outcome) (fw', ok outcomes) = (fw', ok (outcome ∷ outcomes))

  -- The loop of `approve_tools`: what was written before an error stays.
  unfoldable pub approve_all :
      Firewall
      → Instant
      → UserSession
      → Dict ToolDefinition
      → Dict ℕ
      → List String
      → Firewall × Result (List ApprovalOutcome)
  approve_all fw now approver by_name counts [] = (fw, ok [])
  approve_all fw now approver by_name counts (name ∷ names) =
      let (fw', r) =
        decided fw now approver name
          (decide fw now approver (lookup name by_name) (count_of (lookup name counts)) name) in
      let rest = approve_all fw' now approver by_name counts names in add_outcome fw' r rest

  abbrev pub approve_fetched :
      Firewall
      → Instant
      → UserSession
      → Option (List String)
      → Result (List ToolDefinition)
      → Firewall × Result (List ApprovalOutcome)
  approve_fetched fw now approver names (raise e) = (fw, raise e)
  approve_fetched fw now approver names (ok tools) =
      approve_all fw now approver (by_name_from [] tools) (counts_from [] tools)
        (wanted names (by_name_from [] tools))

  unfoldable pub approve_tools :
      Firewall
      → Instant
      → UserSession
      → Option (List String)
      → Listing
      → Firewall × Result (List ApprovalOutcome)
  approve_tools fw now approver names listing =
      if Authorization.can_manage fw.policy.roles approver.role
      then approve_fetched fw now approver names (fetched listing)
      else (fw, raise (permission_denied "role may not approve tools"))
