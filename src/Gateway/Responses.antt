-- ===== src/Gateway/Responses.antt =====
-- The answers of `handle` of app/firewall/gateway.py.
use agentic_firewall.Base.{◌≡◌, refl, sym, ◌∙◌, ap, subst, none, some, [], arith}
use agentic_firewall.Platform.{Platform}
use agentic_firewall.Models.Events.{allow, deny}
use agentic_firewall.Models.Policies.{Policy}
use agentic_firewall.Models.Requests.{ToolRequest, GatewayResult}
use agentic_firewall.Json.{text}
use agentic_firewall.Scanner.Rules.{output}
use agentic_firewall.Scanner.Walk.{scan_value}
use agentic_firewall.Gateway.{Firewall, Ctx, deny_result}
use agentic_firewall.Gateway.Pipeline.{
  Outcome, finished, lists_tools, calls_tool, conclude, release, Reply, replied, call_failed,
  call_cancelled,
}
use agentic_firewall.Gateway.Handle.{
  Exchange, before_call, on_listing, on_reply, pipeline, ending, respond, handle,
}
use agentic_firewall.Gateway.Allowed.{
  Denies, Delivered, Cleared, conclude-allow, receive-Denies, inspect-Denies, before_call-Cleared,
}
use agentic_firewall.Gateway.Frame.{fixed-before_call}

module _ (platform : Platform) (x : Exchange) (req : ToolRequest) where
  on_listing-Denies :
      (t : Firewall × Ctx × Outcome) → Denies t.2 → Denies (on_listing platform x req t).2
  on_listing-Denies (fw, ctx, lists_tools) d =
      inspect-Denies platform x.listed_at req fw ctx x.listing
  on_listing-Denies (fw, ctx, outcome) d = d

  before_call-Denies : (fw : Firewall) → Denies (before_call platform x req fw).2
  unfolding before_call
  before_call-Denies fw = on_listing-Denies _ (receive-Denies platform x.started req fw)

  -- The end of an allowed request.
  on_reply-allow :
      (t : Firewall × Ctx × Outcome) (fw' : Firewall) (ctx : Ctx) (r : GatewayResult)
      → Denies t.2
      → on_reply platform x req t ≡ (fw', ctx, finished r)
      → r.decision ≡ allow
      → (t.2 ≡ calls_tool)
        × Delivered platform x.replied_at req t.0.policy.scanner.max_scan_chars x.reply r
  on_reply-allow (fw, c, calls_tool) fw' ctx r d h a = (
    refl,
    conclude-allow platform x.replied_at req fw fw' c x.reply r (λ i. ((h i).0, (h i).2)) a,
  )
  on_reply-allow (fw, c, finished r') fw' ctx r d h a = ground arith
  on_reply-allow (fw, c, outcome) fw' ctx r d h a = absurd (ground arith)

  ending-allow :
      (t : Firewall × Ctx × Outcome) (fw' : Firewall) (r : GatewayResult)
      → ending platform x req t ≡ (fw', some r)
      → r.decision ≡ allow
      → (r' : GatewayResult) × (t.2 ≡ finished r')
        × (r'.decision ≡ allow)
        × (r'.response ≡ r.response)
  unfolding respond deny_result
  ending-allow (fw, c, finished r') fw' r h a = (r', refl, ground arith, ground arith)
  ending-allow (fw, c, outcome) fw' r h a = absurd (ground arith)

  -- Whatever the clocks and the upstream do: where `handle` allows a request, the caller was
  -- entitled to the tool, the tool was vetted, the upstream replied, its response passed the output
  -- scan, and this response is the one that is handed out.
  pub handle-allow :
      (fw fw' : Firewall) (r : GatewayResult)
      → handle platform x req fw ≡ (fw', some r)
      → r.decision ≡ allow
      → Cleared platform x req fw
        × Delivered platform x.replied_at req fw.policy.scanner.max_scan_chars x.reply r
  unfolding handle pipeline
  handle-allow fw fw' r h a =
      let t : Firewall × Ctx × Outcome = before_call platform x req fw in
      let (r', ended, allowed, same) = ending-allow (on_reply platform x req t) fw' r h a in
      let p : Firewall × Ctx × Outcome = on_reply platform x req t in
      let (called, delivered) =
        on_reply-allow t p.0 p.1 r' (before_call-Denies fw) (λ i. (p.0, p.1, ended i)) allowed in
      (
        before_call-Cleared platform x req fw t.0 t.1 (λ i. (t.0, t.1, called i)),
        record {
          response = delivered.response;
          answered = delivered.answered;
          harmless =
              subst
                (λ (p : Policy).
                  scan_value platform output p.scanner.max_scan_chars (text delivered.response.text)
                    "response"
                  ≡ [])
                (ap (λ b. b.0) (fixed-before_call platform x req fw)) delivered.harmless;
          handed_out = sym same ∙ delivered.handed_out;
        },
      )

  conclude-deny :
      (fw : Firewall) (ctx : Ctx) (reply : Reply) (r : GatewayResult)
      → (conclude platform x.replied_at req fw ctx reply).1 ≡ finished r
      → r.decision ≡ deny
      → r.response ≡ none
  unfolding conclude release deny_result
  conclude-deny fw ctx (replied t) r h d = ground arith
  conclude-deny fw ctx call_failed r h d = ground arith
  conclude-deny fw ctx call_cancelled r h d = cc

  on_reply-deny :
      (t : Firewall × Ctx × Outcome) (r : GatewayResult)
      → Denies t.2
      → (on_reply platform x req t).2 ≡ finished r
      → r.decision ≡ deny
      → r.response ≡ none
  on_reply-deny (fw, ctx, calls_tool) r d h e = conclude-deny fw ctx x.reply r h e
  on_reply-deny (fw, ctx, finished r') r d h e = ground arith
  on_reply-deny (fw, ctx, outcome) r d h e = cc

  ending-deny :
      (t : Firewall × Ctx × Outcome) (fw' : Firewall) (r : GatewayResult)
      → ((r' : GatewayResult) → t.2 ≡ finished r' → r'.decision ≡ deny → r'.response ≡ none)
      → ending platform x req t ≡ (fw', some r)
      → r.decision ≡ deny
      → r.response ≡ none
  unfolding respond deny_result
  ending-deny (fw, ctx, finished r') fw' r inner h d = ground (arith, inner r')
  ending-deny (fw, ctx, outcome) fw' r inner h d = ground arith

  -- A refused request gets no response of a tool, also where the tool was called.
  pub handle-deny :
      (fw fw' : Firewall) (r : GatewayResult)
      → handle platform x req fw ≡ (fw', some r)
      → r.decision ≡ deny
      → r.response ≡ none
  unfolding handle pipeline
  handle-deny fw fw' r h d =
      ending-deny (pipeline platform x req fw) fw' r
        (λ r' e. on_reply-deny (before_call platform x req fw) r' (before_call-Denies fw) e) h d
