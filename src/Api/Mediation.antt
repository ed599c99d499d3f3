-- ===== src/Api/Mediation.antt =====
-- What `POST /api/request` of app/main.py hands out.
use agentic_firewall.Base.{
  ℕ, ◌≤◌, ◌≡◌, ◌≢◌, refl, ◌∙◌, ap, sym, String, Option, none, some, arith, if◌then◌else◌,
}
use agentic_firewall.Platform.{Platform}
use agentic_firewall.Result.{ok}
use agentic_firewall.Models.Events.{allow, deny, Stage}
use agentic_firewall.Models.Requests.{ToolRequest, GatewayResult, is_allow}
use agentic_firewall.Gateway.{Firewall}
use agentic_firewall.Gateway.Handle.{Exchange, handle}
use agentic_firewall.Gateway.Allowed.{Cleared, Delivered}
use agentic_firewall.Gateway.Responses.{handle-allow, handle-deny}
use agentic_firewall.Api.{result, HttpResponse, status_by_stage}
use agentic_firewall.Api.Routes.{RequestBody, session_header, tool_request, result_response}

-- A refusal is an error, of the client or of the server.
status_by_stage-bounds : (s : Stage) → (400 ≤ status_by_stage s) × (status_by_stage s ≤ 503)
unfolding status_by_stage
status_by_stage-bounds Stage.login = (omega arith, omega arith)
status_by_stage-bounds Stage.authentication = (omega arith, omega arith)
status_by_stage-bounds Stage.rate_limit = (omega arith, omega arith)
status_by_stage-bounds Stage.validation = (omega arith, omega arith)
status_by_stage-bounds Stage.authorization = (omega arith, omega arith)
status_by_stage-bounds Stage.integrity = (omega arith, omega arith)
status_by_stage-bounds Stage.input_scan = (omega arith, omega arith)
status_by_stage-bounds Stage.circuit_breaker = (omega arith, omega arith)
status_by_stage-bounds Stage.upstream = (omega arith, omega arith)
status_by_stage-bounds Stage.output_scan = (omega arith, omega arith)
status_by_stage-bounds Stage.approval = (omega arith, omega arith)
status_by_stage-bounds Stage.internal = (omega arith, omega arith)
status_by_stage-bounds Stage.allowed = (omega arith, omega arith)

abbrev pub request_of : RequestBody → Option String → ToolRequest
request_of body x_session_id = record {
  session_id = session_header x_session_id;
  tool = body.tool;
  arguments = body.arguments;
}

module _ (platform : Platform) (ceil : ℕ → ℕ) where
  abbrev status_of : GatewayResult → ℕ
  status_of r = if is_allow r.decision then 200 else status_by_stage r.stage

  result_response_ok :
      (o : Option GatewayResult) (resp : HttpResponse)
      → result_response platform ceil o ≡ ok resp
      → (r : GatewayResult) × (o ≡ some r) × (resp.body ≡ result r) × (resp.status ≡ status_of r)
  unfolding result_response
  result_response_ok none resp h = cc
  result_response_ok (some r) resp h = (r, refl, ground arith, ground arith)

  status_of-allow : (r : GatewayResult) → status_of r ≡ 200 → r.decision ≡ allow
  status_of-allow r h = ground (arith, status_by_stage-bounds r.stage)

  status_of-deny :
      (r : GatewayResult)
      → status_of r ≢ 200
      → (r.decision ≡ deny) × (400 ≤ status_of r) × (status_of r ≤ 503)
  status_of-deny r h = ground (arith, status_by_stage-bounds r.stage)

  -- Where `POST /api/request` answers with status 200, the caller was entitled to the tool, the tool
  -- was vetted, the upstream replied, and the answer's result hands out that reply, which passed the
  -- output scan.
  pub tool_request-ok :
      (fw fw' : Firewall) (x : Exchange) (body : RequestBody) (x_session_id : Option String)
      (resp : HttpResponse)
      → tool_request platform ceil fw x body x_session_id ≡ (fw', ok resp)
      → resp.status ≡ 200
      → let req = request_of body x_session_id in
        Cleared platform x req fw
        × ((r : GatewayResult) × (resp.body ≡ result r)
            × Delivered platform x.replied_at req fw.policy.scanner.max_scan_chars x.reply r)
  unfolding tool_request
  tool_request-ok fw fw' x body x_session_id resp h good =
      let req = request_of body x_session_id in
      let (r, answered, made, status) = result_response_ok _ resp (ap (λ p. p.1) h) in
      let allowed = status_of-allow r (sym status ∙ good) in
      let (cleared, delivered) =
        handle-allow platform x req fw (handle platform x req fw).0 r
          (ap (λ o. ((handle platform x req fw).0, o)) answered) allowed in
      (cleared, (r, made, delivered))

  -- Any other status of `POST /api/request` is an error between 400 and 503, and the answer's result
  -- holds no response of a tool.
  pub tool_request-refused :
      (fw fw' : Firewall) (x : Exchange) (body : RequestBody) (x_session_id : Option String)
      (resp : HttpResponse)
      → tool_request platform ceil fw x body x_session_id ≡ (fw', ok resp)
      → resp.status ≢ 200
      → (400 ≤ resp.status)
        × (resp.status ≤ 503)
        × ((r : GatewayResult) × (resp.body ≡ result r) × (r.response ≡ none))
  unfolding tool_request
  tool_request-refused fw fw' x body x_session_id resp h bad =
      let req = request_of body x_session_id in
      let (r, answered, made, status) = result_response_ok _ resp (ap (λ p. p.1) h) in
      let (denied, low, high) = status_of-deny r (λ e. bad (status ∙ e)) in
      (
        rw status low,
        rw status high,
        (
          r,
          made,
          handle-deny platform x req fw (handle platform x req fw).0 r
              (ap (λ o. ((handle platform x req fw).0, o)) answered) denied,
        ),
      )
