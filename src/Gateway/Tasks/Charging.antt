-- ===== src/Gateway/Tasks/Charging.antt =====
-- What a stretch of a request of app/firewall/gateway.py does to the rate limiter: a valid session is
-- counted at the start, and nothing else touches it.
use agentic_firewall.Base.{◌≡◌, refl, ◌∙◌, String, List, [], ◌∷◌, arith}
use agentic_firewall.Platform.{Platform}
use agentic_firewall.Result.{Result, ok, raise, auth_error}
use agentic_firewall.Models.Requests.{ToolRequest, ToolDefinition, UserSession}
use agentic_firewall.Authentication.{validate}
use agentic_firewall.Integrity.{IntegrityResult}
use agentic_firewall.RateLimiter
use agentic_firewall.RateLimiter.{SlidingWindowRateLimiter}
use agentic_firewall.Gateway.{Firewall, Instant, Ctx, audit_result}
use agentic_firewall.Gateway.Pipeline.{
  Listing, listed, list_failed, list_cancelled, Reply, replied, call_failed, call_cancelled,
  Outcome, finished, crashed, cancelled, lists_tools, calls_tool, receive, on_session, on_verdict,
  count_request, inspect, one_match, check_integrity, scan_input, pass_breaker, conclude, settle,
}
use agentic_firewall.Gateway.Handle.{Exchange, respond}
use agentic_firewall.Gateway.Tools.{authenticate}
use agentic_firewall.Gateway.Tasks.{advance, started, inspected, concluded}

-- The limiter after the check of a session's user.
abbrev pub charged : Firewall → Instant → Result UserSession → SlidingWindowRateLimiter
charged fw now (raise e) = fw.limiter
charged fw now (ok session) = (RateLimiter.check fw.limiter session.user_id now.mono).0

module _ (platform : Platform) (req : ToolRequest) where
  limiter-on_session :
      (now : Instant) (fw : Firewall) (r : Result UserSession)
      → (on_session platform now req fw r).0.limiter ≡ charged fw now r
  unfolding count_request
  limiter-on_session now fw (ok s) = ground arith
  limiter-on_session now fw (raise (auth_error reason)) = refl
  limiter-on_session now fw (raise e) = refl

  limiter-on_verdict :
      (now : Instant) (fw : Firewall) (ctx : Ctx) (r : Result IntegrityResult)
      → (on_verdict platform now req fw ctx r).0.limiter ≡ fw.limiter
  unfolding scan_input pass_breaker
  limiter-on_verdict now fw ctx (ok v) = ground arith
  limiter-on_verdict now fw ctx (raise e) = refl

  limiter-one_match :
      (now : Instant) (fw : Firewall) (ctx : Ctx) (ds : List ToolDefinition)
      → (one_match platform now req fw ctx ds).0.limiter ≡ fw.limiter
  unfolding check_integrity
  limiter-one_match now fw ctx [] = refl
  limiter-one_match now fw ctx (d ∷ []) = limiter-on_verdict now fw ctx _
  limiter-one_match now fw ctx (d ∷ e ∷ ds) = refl

  limiter-inspect :
      (now : Instant) (fw : Firewall) (ctx : Ctx) (l : Listing)
      → (inspect platform now req fw ctx l).0.limiter ≡ fw.limiter
  unfolding inspect
  limiter-inspect now fw ctx (listed tools) = limiter-one_match now fw ctx _
  limiter-inspect now fw ctx list_failed = refl
  limiter-inspect now fw ctx list_cancelled = refl

  limiter-conclude :
      (now : Instant) (fw : Firewall) (ctx : Ctx) (r : Reply)
      → (conclude platform now req fw ctx r).0.limiter ≡ fw.limiter
  unfolding conclude settle
  limiter-conclude now fw ctx (replied t) = refl
  limiter-conclude now fw ctx call_failed = refl
  limiter-conclude now fw ctx call_cancelled = refl

  limiter-advance :
      (x : Exchange) (t : Firewall × Ctx × Outcome)
      → (advance platform x req t).0.limiter ≡ t.0.limiter
  unfolding respond audit_result
  limiter-advance x (fw, ctx, finished r) = refl
  limiter-advance x (fw, ctx, crashed) = refl
  limiter-advance x (fw, ctx, cancelled) = refl
  limiter-advance x (fw, ctx, lists_tools) = refl
  limiter-advance x (fw, ctx, calls_tool) = refl

  pub limiter-started :
      (x : Exchange) (fw : Firewall)
      → (started platform x req fw).0.limiter
        ≡ charged fw x.started (validate platform.sha256 fw.db req.session_id x.started.wall)
  unfolding receive
  limiter-started x fw =
      limiter-advance x (receive platform x.started req fw) ∙ limiter-on_session x.started fw _

  pub limiter-inspected :
      (x : Exchange) (ctx : Ctx) (fw : Firewall)
      → (inspected platform x req ctx fw).0.limiter ≡ fw.limiter
  limiter-inspected x ctx fw = limiter-advance x _ ∙ limiter-inspect x.listed_at fw ctx x.listing

  pub limiter-concluded :
      (x : Exchange) (ctx : Ctx) (fw : Firewall)
      → (concluded platform x req ctx fw).0.limiter ≡ fw.limiter
  limiter-concluded x ctx fw = limiter-advance x _ ∙ limiter-conclude x.replied_at fw ctx x.reply

pub limiter-authenticate :
    (platform : Platform) (fw : Firewall) (now : Instant) (session_id : String)
    → (authenticate platform fw now session_id).0.limiter
      ≡ charged fw now (validate platform.sha256 fw.db session_id now.wall)
unfolding authenticate
limiter-authenticate platform fw now session_id = ground arith
