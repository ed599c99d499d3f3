-- ===== src/Gateway/Frame.antt =====
-- What the pipeline of app/firewall/gateway.py leaves as it was.
use agentic_firewall.Base.{◌≡◌, refl, ◌∙◌, List, [], ◌∷◌, arith}
use agentic_firewall.Platform.{Platform}
use agentic_firewall.Result.{Result, ok, raise, auth_error}
use agentic_firewall.Models.Policies.{Policy}
use agentic_firewall.Models.Requests.{ToolRequest, ToolDefinition, UserSession}
use agentic_firewall.Integrity.{IntegrityResult}
use agentic_firewall.Database.{Database}
use agentic_firewall.Gateway.{Firewall, Instant, Ctx}
use agentic_firewall.Gateway.Pipeline.{
  Listing, listed, list_failed, list_cancelled, Outcome, lists_tools, calls_tool, receive,
  on_session, on_verdict, count_request, inspect, one_match, check_integrity, scan_input,
  pass_breaker, conclude, settle, Reply, replied, call_failed, call_cancelled,
}
use agentic_firewall.Gateway.Handle.{Exchange, before_call, on_listing, on_reply, pipeline}

-- What the pipeline reads and never writes.
abbrev pub fixed : Firewall → Policy × Database
fixed fw = (fw.policy, fw.db)

module _ (platform : Platform) (now : Instant) (req : ToolRequest) where
  fixed-on_verdict :
      (fw : Firewall) (ctx : Ctx) (r : Result IntegrityResult)
      → fixed (on_verdict platform now req fw ctx r).0 ≡ fixed fw
  unfolding scan_input pass_breaker
  fixed-on_verdict fw ctx (ok v) = ground arith
  fixed-on_verdict fw ctx (raise e) = refl

  fixed-one_match :
      (fw : Firewall) (ctx : Ctx) (ds : List ToolDefinition)
      → fixed (one_match platform now req fw ctx ds).0 ≡ fixed fw
  unfolding check_integrity
  fixed-one_match fw ctx [] = refl
  fixed-one_match fw ctx (d ∷ []) = fixed-on_verdict fw ctx _
  fixed-one_match fw ctx (d ∷ e ∷ ds) = refl

  pub fixed-inspect :
      (fw : Firewall) (ctx : Ctx) (l : Listing)
      → fixed (inspect platform now req fw ctx l).0 ≡ fixed fw
  unfolding inspect
  fixed-inspect fw ctx (listed tools) = fixed-one_match fw ctx _
  fixed-inspect fw ctx list_failed = refl
  fixed-inspect fw ctx list_cancelled = refl

  fixed-on_session :
      (fw : Firewall) (r : Result UserSession)
      → fixed (on_session platform now req fw r).0 ≡ fixed fw
  unfolding count_request
  fixed-on_session fw (ok s) = ground arith
  fixed-on_session fw (raise (auth_error reason)) = refl
  fixed-on_session fw (raise e) = refl

  pub fixed-receive : (fw : Firewall) → fixed (receive platform now req fw).0 ≡ fixed fw
  unfolding receive
  fixed-receive fw = fixed-on_session fw _

module _ (platform : Platform) (x : Exchange) (req : ToolRequest) where
  fixed-on_listing :
      (t : Firewall × Ctx × Outcome) → fixed (on_listing platform x req t).0 ≡ fixed t.0
  fixed-on_listing (fw, ctx, lists_tools) = fixed-inspect platform x.listed_at req fw ctx x.listing
  fixed-on_listing (fw, ctx, outcome) = refl

  pub fixed-before_call : (fw : Firewall) → fixed (before_call platform x req fw).0 ≡ fixed fw
  unfolding before_call
  fixed-before_call fw = fixed-on_listing _ ∙ fixed-receive platform x.started req fw

  pub fixed-conclude :
      (fw : Firewall) (ctx : Ctx) (r : Reply)
      → fixed (conclude platform x.replied_at req fw ctx r).0 ≡ fixed fw
  unfolding conclude settle
  fixed-conclude fw ctx (replied t) = refl
  fixed-conclude fw ctx call_failed = refl
  fixed-conclude fw ctx call_cancelled = refl

  fixed-on_reply : (t : Firewall × Ctx × Outcome) → fixed (on_reply platform x req t).0 ≡ fixed t.0
  fixed-on_reply (fw, ctx, calls_tool) = fixed-conclude fw ctx x.reply
  fixed-on_reply (fw, ctx, outcome) = refl

  pub fixed-pipeline : (fw : Firewall) → fixed (pipeline platform x req fw).0 ≡ fixed fw
  unfolding pipeline
  fixed-pipeline fw = fixed-on_reply _ ∙ fixed-before_call fw
