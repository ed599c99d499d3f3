-- ===== src/Api/Routes.antt =====
-- The routes of `create_app` in app/main.py, each with the clocks' readings and the upstream's
-- answer that it gets.
use agentic_firewall.Base.{ℕ, String, Option, none, some, List, in_range, if◌then◌else◌}
use agentic_firewall.Json.{Fields}
use agentic_firewall.Platform.{Platform}
use agentic_firewall.Result.{Result, ok, raise, cancelled, ◌>>=◌}
use agentic_firewall.Models.Requests.{
  ToolRequest, UserSession, GatewayResult, ApprovalOutcome, is_allow,
}
use agentic_firewall.Audit.{recent}
use agentic_firewall.Gateway.{Firewall, Instant}
use agentic_firewall.Gateway.Pipeline.{Listing}
use agentic_firewall.Gateway.Handle.{Exchange, handle}
use agentic_firewall.Gateway.Login
use agentic_firewall.Gateway.Tools
use agentic_firewall.Gateway.Tools.{require_manager}
use agentic_firewall.Gateway.Approve
use agentic_firewall.Api.{
  health, session, tools, outcomes, result, active_policy, events, invalid_request, HttpResponse,
  reply, status_by_stage, retry_headers, excepted, guarded, catches_session, catches_manager,
}

pub record LoginBody : Type 0 where
  pub user_id : String
  pub api_key : String

pub record RequestBody : Type 0 where
  pub tool : String
  pub arguments : Fields

pub record ApproveBody : Type 0 where
  pub tools : Option (List String)

-- x_session_id or ""
abbrev pub session_header : Option String → String
session_header none = ""
session_header (some id) = id

-- request.client.host if request.client else "unknown"
abbrev pub client_of : Option String → String
client_of none = "unknown"
client_of (some host) = host

-- Query(50, ge=1, le=500); the framework refuses another number before the route runs.
abbrev pub limit_of : Option ℕ → ℕ
limit_of none = 50
limit_of (some n) = n

unfoldable pub health_check : HttpResponse
health_check = reply (health "ok")

module _ (platform : Platform) (ceil : ℕ → ℕ) where
  abbrev pub session_reply : String × UserSession → HttpResponse
  session_reply (session_id, s) = reply (session session_id s.user_id s.role s.expires_at)

  unfoldable pub create_session :
      Firewall → Instant → String → LoginBody → Option String → Firewall × Result HttpResponse
  create_session fw now drawn body client =
      let (fw', r) =
        Login.login platform fw now drawn body.user_id body.api_key (client_of client) in
      (fw', guarded ceil catches_session session_reply r)

  unfoldable pub list_tools :
      Firewall → Instant → Option String → Listing → Firewall × Result HttpResponse
  list_tools fw now x_session_id listing =
      let (fw', r) = Tools.list_tools platform fw now (session_header x_session_id) listing in
      (fw', guarded ceil catches_session (λ infos. reply (tools infos)) r)

  -- The approvals of a caller that passed `require_manager`.
  abbrev pub approvals :
      Firewall
      → Instant
      → Option (List String)
      → Listing
      → Result UserSession
      → Firewall × Result (List ApprovalOutcome)
  approvals fw now names listing (raise e) = (fw, raise e)
  approvals fw now names listing (ok manager) =
      Approve.approve_tools platform fw now manager names listing

  unfoldable pub approve_tools :
      Firewall
      → Instant
      → Instant
      → ApproveBody
      → Option String
      → Listing
      → Firewall × Result HttpResponse
  approve_tools fw now listed_at body x_session_id listing =
      let (fw', r) = require_manager platform fw now (session_header x_session_id) in
      let (fw'', approved) = approvals fw' listed_at body.tools listing r in
      (fw'', guarded ceil catches_manager (λ os. reply (outcomes os)) approved)

  -- The response for a result of `handle`; a cancellation passes through.
  unfoldable pub result_response : Option GatewayResult → Result HttpResponse
  result_response none = raise cancelled
  result_response (some r) = ok (record {
    status = if is_allow r.decision then 200 else status_by_stage r.stage;
    body = result r;
    retry_after = retry_headers ceil r.retry_after;
  })

  unfoldable pub tool_request :
      Firewall → Exchange → RequestBody → Option String → Firewall × Result HttpResponse
  tool_request fw x body x_session_id =
      let req : ToolRequest = record {
        session_id = session_header x_session_id;
        tool = body.tool;
        arguments = body.arguments;
      } in
      let (fw', r) = handle platform x req fw in (fw', result_response r)

  unfoldable pub get_policies : Firewall → Instant → Option String → Firewall × Result HttpResponse
  get_policies fw now x_session_id =
      let (fw', r) = require_manager platform fw now (session_header x_session_id) in
      (fw', guarded ceil catches_manager (λ manager. reply (active_policy fw'.policy)) r)

  -- The page of the log is read behind the guarded part.
  abbrev pub logs_for : Firewall → ℕ → Result UserSession → Result HttpResponse
  logs_for fw limit (raise e) = excepted ceil catches_manager e
  logs_for fw limit (ok manager) = do page ← recent fw.db limit; ok (reply (events page))

  -- A limit out of range is answered by the framework, with 422.
  unfoldable pub get_logs :
      Firewall → Instant → Option ℕ → Option String → Firewall × Result HttpResponse
  get_logs fw now limit x_session_id =
      let (fw', r) = require_manager platform fw now (session_header x_session_id) in
      if in_range 1 500 (limit_of limit)
      then (fw', logs_for fw' (limit_of limit) r)
      else (fw, ok (record { status = 422; body = invalid_request; retry_after = none }))
