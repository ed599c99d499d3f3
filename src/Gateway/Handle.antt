-- ===== src/Gateway/Handle.antt =====
-- `Firewall.handle` of app/firewall/gateway.py for one request, with the upstream's answers.
use agentic_firewall.Base.{ℕ, Option, none, some}
use agentic_firewall.Platform.{Platform}
use agentic_firewall.Models.Events.{Stage}
use agentic_firewall.Models.Requests.{ToolRequest, GatewayResult}
use agentic_firewall.Gateway.{Firewall, Instant, Ctx, deny_result, audit_result}
use agentic_firewall.Gateway.Pipeline.{
  Listing, Reply, Outcome, finished, cancelled, lists_tools, calls_tool, receive, inspect, conclude,
}

-- What the world gives a request: the clocks at its start, after the listing, after the reply and
-- at its end, what the upstream answers, and the time that it took.
pub record Exchange : Type 0 where
  pub started : Instant
  pub listed_at : Instant
  pub replied_at : Instant
  pub ended : Instant
  pub listing : Listing
  pub reply : Reply
  pub latency : ℕ

module _ (platform : Platform) (x : Exchange) (req : ToolRequest) where
  abbrev pub with_ctx : Ctx → Firewall × Outcome → Firewall × Ctx × Outcome
  with_ctx ctx (fw, outcome) = (fw, ctx, outcome)

  abbrev pub on_listing : Firewall × Ctx × Outcome → Firewall × Ctx × Outcome
  on_listing (fw, ctx, lists_tools) =
      with_ctx ctx (inspect platform x.listed_at req fw ctx x.listing)
  on_listing (fw, ctx, outcome) = (fw, ctx, outcome)

  abbrev pub on_reply : Firewall × Ctx × Outcome → Firewall × Ctx × Outcome
  on_reply (fw, ctx, calls_tool) = with_ctx ctx (conclude platform x.replied_at req fw ctx x.reply)
  on_reply (fw, ctx, outcome) = (fw, ctx, outcome)

  -- The pipeline up to the call of the tool.
  unfoldable pub before_call : Firewall → Firewall × Ctx × Outcome
  before_call fw = on_listing (receive platform x.started req fw)

  -- `_pipeline`
  unfoldable pub pipeline : Firewall → Firewall × Ctx × Outcome
  pipeline fw = on_reply (before_call fw)

  -- The end of `handle`: the latency, and the record in the log.
  unfoldable pub respond : Firewall → Ctx → GatewayResult → Firewall × GatewayResult
  respond fw ctx result =
      let result' : GatewayResult = record result { latency_ms = x.latency } in
      (audit_result fw x.ended req ctx result', result')

  abbrev pub answer : Firewall × GatewayResult → Firewall × Option GatewayResult
  answer (fw, result) = (fw, some result)

  -- An exception is a refusal; a cancellation passes through, with no result and no record.
  abbrev pub ending : Firewall × Ctx × Outcome → Firewall × Option GatewayResult
  ending (fw, ctx, finished result) = answer (respond fw ctx result)
  ending (fw, ctx, cancelled) = (fw, none)
  ending (fw, ctx, outcome) = answer (
      respond fw ctx
        (deny_result req ctx Stage.internal "internal error; request denied (fail closed)" none))

  unfoldable pub handle : Firewall → Firewall × Option GatewayResult
  handle fw = ending (pipeline fw)
