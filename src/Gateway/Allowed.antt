-- ===== src/Gateway/Allowed.antt =====
-- What `handle` of app/firewall/gateway.py has made sure of when it allows a request, and what a
-- refused caller gets.
use agentic_firewall.Base.{ℕ, ◌≡◌, ◌≢◌, refl, ap, subst, String, none, some, List, [], ◌∷◌, arith}
use agentic_firewall.Json.{text}
use agentic_firewall.Platform.{Platform}
use agentic_firewall.Result.{Result, ok, raise, auth_error}
use agentic_firewall.Models.Events.{allow, deny, Stage}
use agentic_firewall.Models.Requests.{
  ToolRequest, ToolDefinition, ToolResponse, UserSession, GatewayResult,
}
use agentic_firewall.Integrity.{IntegrityResult}
use agentic_firewall.Scanner.Rules.{output}
use agentic_firewall.Scanner.Walk.{scan_value}
use agentic_firewall.RateLimiter
use agentic_firewall.RateLimiter.{SlidingWindowRateLimiter}
use agentic_firewall.Gateway.{Firewall, Instant, Ctx, deny_result}
use agentic_firewall.Gateway.Pipeline.{
  Listing, listed, list_failed, list_cancelled, Reply, replied, call_failed, call_cancelled,
  Outcome, finished, lists_tools, calls_tool, receive, on_session, on_verdict, count_request,
  authorize, inspect, one_match, check_integrity, scan_input, pass_breaker, conclude, release,
  settle, refuse,
}
use agentic_firewall.Gateway.Handle.{Exchange, before_call, on_listing}
use agentic_firewall.Gateway.Mediation.{Entitled, Vetted, receive-lists_tools, inspect-calls_tool}

-- A stretch that ends with a result ends with a refusal, and hands no response out.
abbrev pub Denies : Outcome → Type 0
Denies (finished r) = (r.decision ≡ deny) × (r.response ≡ none)
Denies _ = Unit

module _ (platform : Platform) (now : Instant) (req : ToolRequest) where
  on_session-Denies :
      (fw : Firewall) (r : Result UserSession) → Denies (on_session platform now req fw r).2
  unfolding deny_result count_request authorize
  on_session-Denies fw (ok s) = ground arith
  on_session-Denies fw (raise (auth_error reason)) = (refl, refl)
  on_session-Denies fw (raise e) = tt

  pub receive-Denies : (fw : Firewall) → Denies (receive platform now req fw).2
  unfolding receive
  receive-Denies fw = on_session-Denies fw _

  check_integrity-Denies :
      (fw : Firewall) (ctx : Ctx) (d : ToolDefinition) (r : Result IntegrityResult)
      → Denies (on_verdict platform now req fw ctx r).1
  unfolding scan_input pass_breaker deny_result
  check_integrity-Denies fw ctx d (ok v) = ground arith
  check_integrity-Denies fw ctx d (raise e) = tt

  one_match-Denies :
      (fw : Firewall) (ctx : Ctx) (ds : List ToolDefinition)
      → Denies (one_match platform now req fw ctx ds).1
  unfolding deny_result check_integrity
  one_match-Denies fw ctx [] = (refl, refl)
  one_match-Denies fw ctx (d ∷ []) = check_integrity-Denies fw ctx d _
  one_match-Denies fw ctx (d ∷ e ∷ ds) = (refl, refl)

  pub inspect-Denies :
      (fw : Firewall) (ctx : Ctx) (l : Listing) → Denies (inspect platform now req fw ctx l).1
  unfolding inspect deny_result
  inspect-Denies fw ctx (listed tools) = one_match-Denies fw ctx _
  inspect-Denies fw ctx list_failed = (refl, refl)
  inspect-Denies fw ctx list_cancelled = tt

  -- The upstream's response passes the output scan.
  pub record Delivered (max_chars : ℕ) (reply : Reply) (r : GatewayResult) : Type 0 where
    pub response : ToolResponse
    pub answered : reply ≡ replied response
    pub harmless : scan_value platform output max_chars (text response.text) "response" ≡ []
    pub handed_out : r.response ≡ some response

  denied_ne_allow {ℓ} :
      {A : Type ℓ} (ctx : Ctx) (stage : Stage) (reason : String) (r : GatewayResult)
      → refuse platform now req ctx stage reason ≡ finished r
      → r.decision ≡ allow
      → A
  unfolding deny_result
  denied_ne_allow ctx stage reason r h a = absurd (ground arith)

  release-allow :
      (fw : Firewall) (ctx : Ctx) (t : ToolResponse) (r : GatewayResult)
      → release platform now req fw ctx t ≡ finished r
      → r.decision ≡ allow
      → (scan_value platform output fw.policy.scanner.max_scan_chars (text t.text) "response" ≡ [])
        × (r.response ≡ some t)
  unfolding release deny_result
  release-allow fw ctx t r h a = ground arith

  pub conclude-allow :
      (fw fw' : Firewall) (ctx : Ctx) (reply : Reply) (r : GatewayResult)
      → conclude platform now req fw ctx reply ≡ (fw', finished r)
      → r.decision ≡ allow
      → Delivered fw.policy.scanner.max_scan_chars reply r
  unfolding conclude settle
  conclude-allow fw fw' ctx (replied t) r h a =
      let (harmless, out) = release-allow _ ctx t r (ap (λ p. p.1) h) a in
      record { response = t; answered = refl; harmless = harmless; handed_out = out }
  conclude-allow fw fw' ctx call_failed r h a =
      denied_ne_allow ctx Stage.upstream "upstream call failed" r (ap (λ p. p.1) h) a
  conclude-allow fw fw' ctx call_cancelled r h a = cc

-- A request up to its call, and its end, with the states between.
module _ (platform : Platform) (x : Exchange) (req : ToolRequest) where
  -- All that stands between a request and its tool.
  pub record Cleared (fw : Firewall) : Type 0 where
    pub entitled : Entitled platform x.started req fw
    pub vetted : Vetted platform x.listed_at req fw x.listing

  -- The first stretch changes nothing but the rate limiter.
  pub on_session-limiter :
      (fw : Firewall) (r : Result UserSession)
      → (l : SlidingWindowRateLimiter) × ((on_session platform x.started req fw r).0
          ≡ record fw { limiter = l })
  unfolding count_request
  on_session-limiter fw (ok s) =
      ((RateLimiter.check fw.limiter s.user_id x.started.mono).0, ground arith)
  on_session-limiter fw (raise (auth_error reason)) = (fw.limiter, refl)
  on_session-limiter fw (raise e) = (fw.limiter, refl)

  Vetted-limiter :
      (fw : Firewall) (l : SlidingWindowRateLimiter)
      → Vetted platform x.listed_at req (record fw { limiter = l }) x.listing
      → Vetted platform x.listed_at req fw x.listing
  Vetted-limiter fw l v = record {
    tools = v.tools;
    defn = v.defn;
    answered = v.answered;
    unique = v.unique;
    pinned = v.pinned;
    clean = v.clean;
    closed = v.closed;
  }

  pub early_call :
      (fw fw' : Firewall) (ctx : Ctx) (r : Result UserSession)
      → on_session platform x.started req fw r ≢ (fw', ctx, calls_tool)
  unfolding count_request authorize
  early_call fw fw' ctx (ok s) h = ground arith
  early_call fw fw' ctx (raise (auth_error reason)) h = cc
  early_call fw fw' ctx (raise e) h = cc

  -- What the gateway knows where the pipeline goes on behind the listing.
  on_listing-calls_tool :
      (t : Firewall × Ctx × Outcome) (fw' : Firewall) (ctx : Ctx)
      → t.2 ≢ calls_tool
      → on_listing platform x req t ≡ (fw', ctx, calls_tool)
      → (t ≡ (t.0, ctx, lists_tools))
        × (inspect platform x.listed_at req t.0 ctx x.listing ≡ (fw', calls_tool))
  on_listing-calls_tool (fw, c, lists_tools) fw' ctx ne h =
      let e : c ≡ ctx = ap (λ t. t.1) h in
      (
        ap (λ (k : Ctx). (fw, k, lists_tools)) e,
        subst (λ k. inspect platform x.listed_at req fw k x.listing ≡ (fw', calls_tool)) e
            (λ i. ((h i).0, (h i).2)),
      )
  on_listing-calls_tool (fw, c, calls_tool) fw' ctx ne h = absurd (ne refl)
  on_listing-calls_tool (fw, c, outcome) fw' ctx ne h = cc

  -- No tool is called unless the caller is entitled and the tool vetted.
  pub before_call-Cleared :
      (fw fw' : Firewall) (ctx : Ctx)
      → before_call platform x req fw ≡ (fw', ctx, calls_tool)
      → Cleared fw
  unfolding before_call receive
  before_call-Cleared fw fw' ctx h =
      let t : Firewall × Ctx × Outcome = receive platform x.started req fw in
      let ne : t.2 ≢ calls_tool = λ e. early_call fw t.0 t.1 _ (λ i. (t.0, t.1, e i)) in
      let (early, inspected) = on_listing-calls_tool t fw' ctx ne h in
      let (l, same) = on_session-limiter fw _ in
      record {
        entitled = receive-lists_tools platform x.started req fw t.0 ctx early;
        vetted = Vetted-limiter fw l (
            subst (λ f. Vetted platform x.listed_at req f x.listing) same
              (inspect-calls_tool platform x.listed_at req t.0 fw' ctx x.listing inspected));
      }
