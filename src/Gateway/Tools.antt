-- ===== src/Gateway/Tools.antt =====
-- The tool catalogue of app/firewall/gateway.py: `authenticate`, `require_manager`, `list_tools`.
-- What the upstream lists is the argument `listing`; its errors and timeouts pass through the
-- callers, as `upstream_error` and `cancelled`.
pub mod Catalogue
mod Tests
use agentic_firewall.Base.{String, ◌&&◌, Option, none, some, List, [], ◌∷◌, if◌then◌else◌}
use agentic_firewall.Platform.{Platform}
use agentic_firewall.Result.{
  Result, ok, raise, rate_limited, permission_denied, upstream_error, cancelled,
}
use agentic_firewall.Models.Policies.{risk_name}
use agentic_firewall.Models.Requests.{ToolDefinition, ToolInfo, UserSession}
use agentic_firewall.Authentication.{validate}
use agentic_firewall.Authorization
use agentic_firewall.Risk.{classify}
use agentic_firewall.RateLimiter
use agentic_firewall.Integrity.{IntegrityResult, verify, is_unmodified, status_name}
use agentic_firewall.Scanner.Rules.{description}
use agentic_firewall.Gateway.{Firewall, Instant}
use agentic_firewall.Gateway.Pipeline.{Listing, listed, list_failed, list_cancelled}

-- `_fetch_tools`
abbrev pub fetched : Listing → Result (List ToolDefinition)
fetched (listed tools) = ok tools
fetched list_failed = raise upstream_error
fetched list_cancelled = raise cancelled

module _ (platform : Platform) where
  unfoldable pub authenticate : Firewall → Instant → String → Firewall × Result UserSession
  authenticate fw now session_id = elim (validate platform.sha256 fw.db session_id now.wall) [
    | raise e ↦ (fw, raise e)
    | ok session ↦ (
      record fw { limiter = (RateLimiter.check fw.limiter session.user_id now.mono).0 },
      if (RateLimiter.check fw.limiter session.user_id now.mono).1.allowed
          then ok session
          else raise
              (rate_limited (RateLimiter.check fw.limiter session.user_id now.mono).1.retry_after),
    )
  ]

  abbrev pub managing : Firewall → Result UserSession → Result UserSession
  managing fw (raise e) = raise e
  managing fw (ok session) =
      if Authorization.can_manage fw.policy.roles session.role
      then ok session
      else raise (permission_denied "this action requires a manager role")

  unfoldable pub require_manager : Firewall → Instant → String → Firewall × Result UserSession
  require_manager fw now session_id =
      let (fw', r) = authenticate fw now session_id in (fw', managing fw' r)

  -- One tool of the list: `none` is the `continue`.
  unfoldable pub shown_tool :
      Firewall → UserSession → ToolDefinition → IntegrityResult → Option ToolInfo
  shown_tool fw session defn integrity =
      let risk = classify fw.policy.tool_risk defn.name in
      let info : ToolInfo = record {
        name = defn.name;
        description = defn.description;
        input_schema = defn.input_schema;
        risk = risk_name risk;
        integrity = status_name integrity.status;
      } in
      if Authorization.can_manage fw.policy.roles session.role
      then some info
      else if is_unmodified integrity.status
          && (Authorization.check fw.policy.roles session.role defn.name risk).allowed
      then some info
      else none

  abbrev pub add_info : Option ToolInfo → Result (List ToolInfo) → Result (List ToolInfo)
  add_info shown (raise e) = raise e
  add_info none (ok infos) = ok infos
  add_info (some info) (ok infos) = ok (info ∷ infos)

  -- The loop of `list_tools`. It changes nothing, so an error ends it wherever it comes up.
  unfoldable pub list_infos : Firewall → UserSession → List ToolDefinition → Result (List ToolInfo)
  list_infos fw session [] = ok []
  list_infos fw session (defn ∷ tools) =
      let rest = list_infos fw session tools in
      elim (verify platform fw.db defn) [
        | raise e ↦ raise e
        | ok integrity ↦ add_info (shown_tool fw session defn integrity) rest
      ]

  abbrev pub list_for :
      Firewall → Result UserSession → Result (List ToolDefinition) → Result (List ToolInfo)
  list_for fw (raise e) tools = raise e
  list_for fw (ok session) (raise e) = raise e
  list_for fw (ok session) (ok tools) = list_infos fw session tools

  unfoldable pub list_tools :
      Firewall → Instant → String → Listing → Firewall × Result (List ToolInfo)
  list_tools fw now session_id listing =
      let (fw', r) = authenticate fw now session_id in (fw', list_for fw' r (fetched listing))
