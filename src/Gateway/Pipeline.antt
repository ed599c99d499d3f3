-- ===== src/Gateway/Pipeline.antt =====
-- `Firewall.handle` and `_pipeline` of app/firewall/gateway.py, cut at the two places where they
-- wait for the upstream server. What the server answers there is an argument.
use Prim.Native.String.{◌++◌}
use agentic_firewall.Base.{String, Bool, none, some, List, [], ◌∷◌, ◌==◌, keep, if◌then◌else◌}
use agentic_firewall.Json.{object, text}
use agentic_firewall.Platform.{Platform}
use agentic_firewall.Result.{Result, ok, raise, auth_error}
use agentic_firewall.Models.Events.{Stage, allow}
use agentic_firewall.Models.Requests.{
  ToolRequest, ToolDefinition, ToolResponse, UserSession, GatewayResult,
}
use agentic_firewall.Authentication.{validate}
use agentic_firewall.Authorization
use agentic_firewall.Risk.{classify}
use agentic_firewall.RateLimiter
use agentic_firewall.Integrity.{IntegrityResult, verify, is_unmodified, status_reason}
use agentic_firewall.Scanner.{decimal}
use agentic_firewall.Scanner.Rules.{input, output}
use agentic_firewall.Scanner.Walk.{scan_value, blocked, summary}
use agentic_firewall.CircuitBreaker
use agentic_firewall.CircuitBreaker.{CircuitBreaker}
use agentic_firewall.Gateway.{Firewall, Instant, Ctx, no_ctx, is_tool_name, risk_text, deny_result}

-- What `list_tools` of the upstream comes to: an error may also be a timeout.
pub data Listing : Type 0 where
  listed : List ToolDefinition → Listing
  list_failed list_cancelled : Listing

-- What `call_tool` of the upstream comes to.
pub data Reply : Type 0 where
  replied : ToolResponse → Reply
  call_failed call_cancelled : Reply

-- Where a stretch of the pipeline ends: with a result, with an exception, with a cancellation, or
-- waiting for the upstream server.
pub data Outcome : Type 0 where
  finished : GatewayResult → Outcome
  crashed cancelled lists_tools calls_tool : Outcome

module _ (platform : Platform) (now : Instant) (req : ToolRequest) where
  abbrev pub refuse : Ctx → Stage → String → Outcome
  refuse ctx stage reason = finished (deny_result req ctx stage reason none)

  -- Steps 3 to 5: the tool's name, its risk, and the caller's right to it.
  unfoldable pub authorize : Firewall → UserSession → Ctx → Ctx × Outcome
  authorize fw session ctx =
      let risk = classify fw.policy.tool_risk req.tool in
      let ctx' = record ctx { risk = some risk } in
      let decision = Authorization.check fw.policy.roles session.role req.tool risk in
      if is_tool_name req.tool
      then (if decision.allowed
          then (ctx', lists_tools)
          else (ctx', refuse ctx' Stage.authorization decision.reason))
      else (ctx, refuse ctx Stage.validation "invalid tool name")

  -- Step 2: the rate limit, which counts every request of a valid session.
  unfoldable pub count_request : Firewall → UserSession → Firewall × Ctx × Outcome
  count_request fw session =
      let ctx : Ctx = record {
        user_id = some session.user_id;
        role = some session.role;
        session_ref = some session.session_ref;
        risk = none;
      } in
      let (limiter, rl) = RateLimiter.check fw.limiter session.user_id now.mono in
      let fw' : Firewall = record fw { limiter = limiter } in
      let (ctx', outcome) = authorize fw session ctx in
      if rl.allowed then (fw', ctx', outcome) else (
        fw',
        ctx,
        finished (
            deny_result req ctx Stage.rate_limit
              ("rate limit exceeded ("
                ++ decimal fw.limiter.max_requests
                ++ " requests per "
                ++ platform.general fw.limiter.window_seconds
                ++ "s); retry in "
                ++ platform.ceil_seconds rl.retry_after
                ++ "s")
              (some rl.retry_after)),
      )

  abbrev pub on_session : Firewall → Result UserSession → Firewall × Ctx × Outcome
  on_session fw (ok session) = count_request fw session
  on_session fw (raise (auth_error reason)) =
      (fw, no_ctx, refuse no_ctx Stage.authentication reason)
  on_session fw (raise e) = (fw, no_ctx, crashed)

  -- From the start, with step 1, to the listing of the upstream's tools.
  unfoldable pub receive : Firewall → Firewall × Ctx × Outcome
  receive fw = on_session fw (validate platform.sha256 fw.db req.session_id now.wall)

  -- Step 8: the circuit breaker of the tool.
  unfoldable pub pass_breaker : Firewall → Ctx → Firewall × Outcome
  pass_breaker fw ctx =
      let (registry, breaker) = CircuitBreaker.get fw.breakers req.tool in
      let (breaker', passes) = CircuitBreaker.allow breaker now.mono in
      let fw' : Firewall = record fw { breakers = CircuitBreaker.put registry req.tool breaker' } in
      let shown = CircuitBreaker.retry_after breaker' now.again in
      let wait = CircuitBreaker.retry_after breaker' now.once_more in
      if passes then (fw', calls_tool) else (
        fw',
        finished (
            deny_result req ctx Stage.circuit_breaker
              ("circuit open for tool '"
                ++ req.tool
                ++ "'; retry in "
                ++ platform.ceil_seconds shown
                ++ "s")
              (some wait)),
      )

  -- Step 7: the arguments.
  unfoldable pub scan_input : Firewall → Ctx → Firewall × Outcome
  scan_input fw ctx =
      let found =
        scan_value platform input fw.policy.scanner.max_scan_chars (object req.arguments)
          "arguments" in
      if blocked found
      then (fw, refuse ctx Stage.input_scan ("blocked by input scanner: " ++ summary found))
      else pass_breaker fw ctx

  abbrev pub on_verdict : Firewall → Ctx → Result IntegrityResult → Firewall × Outcome
  on_verdict fw ctx (ok r) =
      if is_unmodified r.status
      then scan_input fw ctx
      else (fw, refuse ctx Stage.integrity (status_reason r.status))
  on_verdict fw ctx (raise e) = (fw, crashed)

  -- Step 6 with the one definition of the tool's name.
  unfoldable pub check_integrity : Firewall → Ctx → ToolDefinition → Firewall × Outcome
  check_integrity fw ctx defn = on_verdict fw ctx (verify platform fw.db defn)

  abbrev pub named : ToolDefinition → Bool
  named d = d.name == req.tool

  abbrev pub one_match : Firewall → Ctx → List ToolDefinition → Firewall × Outcome
  one_match fw ctx [] =
      (fw, refuse ctx Stage.integrity "tool is not exposed by the upstream server")
  one_match fw ctx (d ∷ []) = check_integrity fw ctx d
  one_match fw ctx (d ∷ e ∷ ds) =
      (fw, refuse ctx Stage.integrity "upstream exposes duplicate definitions for this tool")

  -- From the upstream's tools to the call.
  unfoldable pub inspect : Firewall → Ctx → Listing → Firewall × Outcome
  inspect fw ctx (listed tools) = one_match fw ctx (keep named tools)
  inspect fw ctx list_failed =
      (fw, refuse ctx Stage.upstream "could not verify tool definition with upstream")
  inspect fw ctx list_cancelled = (fw, cancelled)

  -- The breaker that the call went through, after its result.
  unfoldable pub settle : Firewall → (CircuitBreaker → CircuitBreaker) → Firewall
  settle fw outcome =
      let breaker = CircuitBreaker.current fw.breakers req.tool in
      record fw { breakers = CircuitBreaker.put fw.breakers req.tool (outcome breaker) }

  abbrev pub failure : CircuitBreaker → CircuitBreaker
  failure b = CircuitBreaker.record_failure b now.mono

  -- Steps 10 and 11: the response.
  unfoldable pub release : Firewall → Ctx → ToolResponse → Outcome
  release fw ctx response =
      let found =
        scan_value platform output fw.policy.scanner.max_scan_chars (text response.text)
          "response" in
      if blocked found
      then refuse ctx Stage.output_scan ("blocked by output scanner: " ++ summary found)
      else finished (record {
        decision = allow;
        stage = Stage.allowed;
        reason = if response.is_error then "allowed (tool reported an error)" else "allowed";
        tool = req.tool;
        user_id = ctx.user_id;
        role = ctx.role;
        risk = risk_text ctx.risk;
        latency_ms = 0;
        retry_after = none;
        response = some response;
      })

  -- From the upstream's reply to the end.
  unfoldable pub conclude : Firewall → Ctx → Reply → Firewall × Outcome
  conclude fw ctx (replied response) =
      let fw' = settle fw (if response.is_error then failure else CircuitBreaker.record_success) in
      (fw', release fw' ctx response)
  conclude fw ctx call_failed =
      (settle fw failure, refuse ctx Stage.upstream "upstream call failed")
  conclude fw ctx call_cancelled = (settle fw failure, cancelled)
