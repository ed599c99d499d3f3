-- ===== src/Gateway/Tasks/Alone.antt =====
-- A request whose turns come one directly behind the other is `Firewall.handle` of
-- app/firewall/gateway.py.
use agentic_firewall.Base.{◌≡◌, refl, sym, Bool, true, false, false≢true, List, [], ◌∷◌, arith}
use agentic_firewall.Platform.{Platform}
use agentic_firewall.Result.{Result, ok, raise}
use agentic_firewall.Models.Requests.{ToolRequest, ToolDefinition}
use agentic_firewall.Integrity.{IntegrityResult}
use agentic_firewall.Gateway.{Firewall, Instant, Ctx}
use agentic_firewall.Gateway.Pipeline.{
  Listing, listed, list_failed, list_cancelled, Reply, replied, call_failed, call_cancelled,
  Outcome, finished, crashed, cancelled, lists_tools, calls_tool, receive, inspect, conclude,
  on_verdict, one_match, check_integrity, scan_input, pass_breaker, release,
}
use agentic_firewall.Gateway.Handle.{
  Exchange, on_listing, on_reply, ending, handle, pipeline, before_call,
}
use agentic_firewall.Gateway.Tasks.{Task, listing, calling, advance, started, inspected, concluded}
use agentic_firewall.Gateway.Tasks.Effects.{is_call, receive-Untouched, conclude-Recorded}

abbrev is_listing : Outcome → Bool
is_listing lists_tools = true
is_listing _ = false

module _ (platform : Platform) (req : ToolRequest) where
  is_listing-on_verdict :
      (now : Instant) (fw : Firewall) (ctx : Ctx) (r : Result IntegrityResult)
      → is_listing (on_verdict platform now req fw ctx r).1 ≡ false
  unfolding scan_input pass_breaker
  is_listing-on_verdict now fw ctx (ok v) = ground arith
  is_listing-on_verdict now fw ctx (raise e) = refl

  is_listing-one_match :
      (now : Instant) (fw : Firewall) (ctx : Ctx) (ds : List ToolDefinition)
      → is_listing (one_match platform now req fw ctx ds).1 ≡ false
  unfolding check_integrity
  is_listing-one_match now fw ctx [] = refl
  is_listing-one_match now fw ctx (d ∷ []) = is_listing-on_verdict now fw ctx _
  is_listing-one_match now fw ctx (d ∷ e ∷ ds) = refl

  is_listing-inspect :
      (now : Instant) (fw : Firewall) (ctx : Ctx) (l : Listing)
      → is_listing (inspect platform now req fw ctx l).1 ≡ false
  unfolding inspect
  is_listing-inspect now fw ctx (listed tools) = is_listing-one_match now fw ctx _
  is_listing-inspect now fw ctx list_failed = refl
  is_listing-inspect now fw ctx list_cancelled = refl

  is_listing-conclude :
      (now : Instant) (fw : Firewall) (ctx : Ctx) (r : Reply)
      → is_listing (conclude platform now req fw ctx r).1 ≡ false
  unfolding conclude release
  is_listing-conclude now fw ctx (replied t) = ground arith
  is_listing-conclude now fw ctx call_failed = refl
  is_listing-conclude now fw ctx call_cancelled = refl

module _ (platform : Platform) (x : Exchange) where
  -- The turns that are left of a request, taken at once.
  abbrev pub last_turn : Firewall × List Task → Firewall
  last_turn (fw, calling req ctx ∷ []) = (concluded platform x req ctx fw).0
  last_turn (fw, ts) = fw

  abbrev pub turns : Firewall × List Task → Firewall
  turns (fw, listing req ctx ∷ []) = last_turn (inspected platform x req ctx fw)
  turns (fw, ts) = fw

  module _ (req : ToolRequest) where
    -- A request that does not wait has ended.
    advance-ending :
        (fw : Firewall) (ctx : Ctx) (o : Outcome)
        → is_listing o ≡ false
        → is_call o ≡ false
        → (advance platform x req (fw, ctx, o)).0 ≡ (ending platform x req (fw, ctx, o)).0
    advance-ending fw ctx (finished r) l c = refl
    advance-ending fw ctx crashed l c = refl
    advance-ending fw ctx cancelled l c = refl
    advance-ending fw ctx lists_tools l c = absurd (false≢true (sym l))
    advance-ending fw ctx calls_tool l c = absurd (false≢true (sym c))

    last_turn-ending :
        (fw : Firewall) (ctx : Ctx) (o : Outcome)
        → is_listing o ≡ false
        → last_turn (advance platform x req (fw, ctx, o))
          ≡ (ending platform x req (on_reply platform x req (fw, ctx, o))).0
    last_turn-ending fw ctx (finished r) l = refl
    last_turn-ending fw ctx crashed l = refl
    last_turn-ending fw ctx cancelled l = refl
    last_turn-ending fw ctx lists_tools l = absurd (false≢true (sym l))
    last_turn-ending fw ctx calls_tool l =
        let t = conclude platform x.replied_at req fw ctx x.reply in
        advance-ending t.0 ctx t.1 (is_listing-conclude platform req x.replied_at fw ctx x.reply)
          (conclude-Recorded platform req x.replied_at fw ctx x.reply).1

    turns-ending :
        (fw : Firewall) (ctx : Ctx) (o : Outcome)
        → is_call o ≡ false
        → turns (advance platform x req (fw, ctx, o))
          ≡ (ending platform x req
              (on_reply platform x req (on_listing platform x req (fw, ctx, o)))).0
    turns-ending fw ctx (finished r) c = refl
    turns-ending fw ctx crashed c = refl
    turns-ending fw ctx cancelled c = refl
    turns-ending fw ctx calls_tool c = absurd (false≢true (sym c))
    turns-ending fw ctx lists_tools c =
        let t = inspect platform x.listed_at req fw ctx x.listing in
        last_turn-ending t.0 ctx t.1 (is_listing-inspect platform req x.listed_at fw ctx x.listing)

    -- A request that starts, is given the listing and then the reply, with no other call between its
    -- turns, leaves the firewall that `handle` leaves.
    pub turns-handle :
        (fw : Firewall) → turns (started platform x req fw) ≡ (handle platform x req fw).0
    unfolding handle pipeline before_call
    turns-handle fw =
        let t = receive platform x.started req fw in
        turns-ending t.0 t.1 t.2 (receive-Untouched platform req x.started fw).1
