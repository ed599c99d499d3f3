-- ===== src/Gateway/Complete.antt =====
-- Whom `handle` of app/firewall/gateway.py lets through.
use agentic_firewall.Base.{◌≡◌, refl, sym, ap, subst, some, [], eq_refl}
use agentic_firewall.Json.{text}
use agentic_firewall.Platform.{Platform}
use agentic_firewall.Result.{ok}
use agentic_firewall.Models.Events.{allow}
use agentic_firewall.Models.Policies.{Policy}
use agentic_firewall.Models.Requests.{ToolRequest, ToolDefinition, ToolResponse, GatewayResult}
use agentic_firewall.Integrity.{unmodified, verify, approved_fingerprint, fingerprint}
use agentic_firewall.Scanner.Rules.{output}
use agentic_firewall.Scanner.Walk.{scan_value}
use agentic_firewall.RateLimiter.{SlidingWindowRateLimiter}
use agentic_firewall.CircuitBreaker
use agentic_firewall.Gateway.{Firewall, Instant, Ctx}
use agentic_firewall.Gateway.Pipeline.{
  Listing, Outcome, finished, lists_tools, calls_tool, receive, count_request, authorize, inspect,
  check_integrity, scan_input, pass_breaker, conclude, release, replied, settle,
}
use agentic_firewall.Gateway.Handle.{
  Exchange, before_call, on_listing, on_reply, pipeline, ending, respond, handle,
}
use agentic_firewall.Gateway.Mediation.{Entitled, Vetted}
use agentic_firewall.Gateway.Allowed.{Cleared, on_session-limiter}
use agentic_firewall.Gateway.Frame.{fixed-before_call}

-- An allowed result with a given response.
Allows : ToolResponse → Outcome → Type 0
Allows t o = (r : GatewayResult) × (o ≡ finished r) × (r.decision ≡ allow) × (r.response ≡ some t)

-- The output scan finds nothing in a response.
abbrev pub Harmless : Platform → Policy → ToolResponse → Type 0
Harmless platform policy t =
    scan_value platform output policy.scanner.max_scan_chars (text t.text) "response" ≡ []

module _ (platform : Platform) (now : Instant) (req : ToolRequest) where
  Entitled-lists_tools :
      (fw : Firewall) → Entitled platform now req fw → (receive platform now req fw).2 ≡ lists_tools
  unfolding receive count_request authorize
  Entitled-lists_tools fw e = rw (e.valid, e.within_rate, e.well_named, e.permitted) refl

  verified :
      (fw : Firewall) (d : ToolDefinition)
      → approved_fingerprint fw.db d.name ≡ ok (some (fingerprint platform d))
      → verify platform fw.db d
        ≡ ok (record { status = unmodified; fingerprint = fingerprint platform d })
  unfolding verify
  verified fw d h = rw (h, eq_refl (fingerprint platform d)) refl

  Vetted-calls_tool :
      (fw : Firewall) (ctx : Ctx) (l : Listing)
      → Vetted platform now req fw l
      → (inspect platform now req fw ctx l).1 ≡ calls_tool
  unfolding inspect check_integrity scan_input pass_breaker CircuitBreaker.get
  Vetted-calls_tool fw ctx l v =
      rw (v.answered, v.unique, verified fw v.defn v.pinned, v.clean, v.closed) refl

  conclude-Allows :
      (fw : Firewall) (ctx : Ctx) (t : ToolResponse)
      → Harmless platform fw.policy t
      → Allows t (conclude platform now req fw ctx (replied t)).1
  unfolding Allows conclude release settle
  conclude-Allows fw ctx t h = rw h (_, refl, refl, refl)

module _ (platform : Platform) (x : Exchange) (req : ToolRequest) where
  on_listing-Vetted :
      (t : Firewall × Ctx × Outcome)
      → t.2 ≡ lists_tools
      → Vetted platform x.listed_at req t.0 x.listing
      → (on_listing platform x req t).2 ≡ calls_tool
  on_listing-Vetted (fw, ctx, o) e v =
      rw e (Vetted-calls_tool platform x.listed_at req fw ctx x.listing v)

  Vetted-with_limiter :
      (fw : Firewall) (l : SlidingWindowRateLimiter)
      → Vetted platform x.listed_at req fw x.listing
      → Vetted platform x.listed_at req (record fw { limiter = l }) x.listing
  Vetted-with_limiter fw l v = record {
    tools = v.tools;
    defn = v.defn;
    answered = v.answered;
    unique = v.unique;
    pinned = v.pinned;
    clean = v.clean;
    closed = v.closed;
  }

  before_call-calls_tool :
      (fw : Firewall) → Cleared platform x req fw → (before_call platform x req fw).2 ≡ calls_tool
  unfolding before_call receive
  before_call-calls_tool fw c =
      let (l, same) = on_session-limiter platform x req fw _ in
      on_listing-Vetted _ (Entitled-lists_tools platform x.started req fw c.entitled) (
        subst (λ f. Vetted platform x.listed_at req f x.listing) (sym same)
          (Vetted-with_limiter fw l c.vetted))

  ending-Allows :
      (t : Firewall × Ctx × Outcome) (u : ToolResponse)
      → Allows u t.2
      → (r : GatewayResult) × ((ending platform x req t).1 ≡ some r)
        × (r.decision ≡ allow)
        × (r.response ≡ some u)
  unfolding Allows respond
  ending-Allows (fw, ctx, o) u (r, e, a, h) = rw e (_, refl, a, h)

  on_reply-Allows :
      (t : Firewall × Ctx × Outcome) (u : ToolResponse)
      → t.2 ≡ calls_tool
      → x.reply ≡ replied u
      → Harmless platform t.0.policy u
      → Allows u (on_reply platform x req t).2
  on_reply-Allows (fw, ctx, o) u e answered h =
      rw (e, answered) (conclude-Allows platform x.replied_at req fw ctx u h)

  -- The converse of the firewall's promise: where the caller is entitled to the tool, the tool is
  -- vetted, the upstream replies to the call, and the output scan finds nothing in its response,
  -- `handle` gives a result that allows the request and hands this response out.
  pub handle-allows :
      (fw : Firewall) (t : ToolResponse)
      → Cleared platform x req fw
      → x.reply ≡ replied t
      → Harmless platform fw.policy t
      → (r : GatewayResult) × ((handle platform x req fw).1 ≡ some r)
        × (r.decision ≡ allow)
        × (r.response ≡ some t)
  unfolding handle pipeline
  handle-allows fw t c answered h =
      let same : (before_call platform x req fw).0.policy ≡ fw.policy =
        ap (λ b. b.0) (fixed-before_call platform x req fw) in
      ending-Allows (on_reply platform x req (before_call platform x req fw)) t (
        on_reply-Allows _ t (before_call-calls_tool fw c) answered
          (subst (λ p. Harmless platform p t) (sym same) h))
