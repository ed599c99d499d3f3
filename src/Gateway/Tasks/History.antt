-- ===== src/Gateway/Tasks/History.antt =====
-- What lies behind a call of the upstream's tools while many requests of app/firewall/gateway.py are
-- under way.
use agentic_firewall.Base.{
  ◌≡◌, refl, ◌∙◌, ap, sym, subst, false≢true, List, [], ◌∷◌, ◌++◌, All, All-append, All-middle,
  All-map,
}
use agentic_firewall.Platform.{Platform}
use agentic_firewall.Models.Requests.{ToolRequest}
use agentic_firewall.Gateway.{Firewall, Instant, Ctx}
use agentic_firewall.Gateway.Pipeline.{
  Listing, Outcome, finished, crashed, cancelled, lists_tools, calls_tool, receive, inspect,
  conclude,
}
use agentic_firewall.Gateway.Handle.{Exchange, with_ctx}
use agentic_firewall.Gateway.Mediation.{Entitled, Vetted, receive-lists_tools, inspect-calls_tool}
use agentic_firewall.Gateway.Tasks.{
  Task, listing, calling, World, advance, started, inspected, concluded, Step, starts, is_listed,
  is_answered, authenticates, logs_in, approves, revokes, registers, Reach, here, next,
}
use agentic_firewall.Gateway.Tasks.Effects.{is_call, receive-Untouched}

module _ (platform : Platform) where
  Reach-trans : {u v w : World} → Reach platform u v → Reach platform v w → Reach platform u w
  Reach-trans r here = r
  Reach-trans r (next q st) = next (Reach-trans r q) st

  module _ (w0 : World) where
    -- At some time on the way from `w0` the request was entitled to its tool.
    pub record Admitted (req : ToolRequest) (w : World) : Type 0 where
      pub at : World
      pub now : Instant
      pub reached : Reach platform w0 at
      pub entitled : Entitled platform now req at.fw
      pub since : Reach platform at w

    -- And at a time no earlier than that, its tool was the approved one, its arguments were clean, and
    -- the tool's circuit breaker let the call through.
    pub record Cleared (req : ToolRequest) (w : World) : Type 0 where
      pub at : World
      pub now : Instant
      pub tools : Listing
      pub admitted : Admitted req at
      pub vetted : Vetted platform now req at.fw tools
      pub since : Reach platform at w

    Admitted-later :
        (req : ToolRequest) {v w : World} → Reach platform v w → Admitted req v → Admitted req w
    Admitted-later req r a = record {
      at = a.at;
      now = a.now;
      reached = a.reached;
      entitled = a.entitled;
      since = Reach-trans a.since r;
    }

    Cleared-later :
        (req : ToolRequest) {v w : World} → Reach platform v w → Cleared req v → Cleared req w
    Cleared-later req r c = record {
      at = c.at;
      now = c.now;
      tools = c.tools;
      admitted = c.admitted;
      vetted = c.vetted;
      since = Reach-trans c.since r;
    }

    abbrev Backed : World → Task → Type 0
    Backed w (listing req ctx) = Admitted req w
    Backed w (calling req ctx) = Cleared req w

    Backed-later : {v w : World} → Reach platform v w → (t : Task) → Backed v t → Backed w t
    Backed-later r (listing req ctx) a = Admitted-later req r a
    Backed-later r (calling req ctx) c = Cleared-later req r c

    module _ (x : Exchange) (req : ToolRequest) (w : World) where
      advance-Backed :
          (t : Firewall × Ctx × Outcome)
          → (t.2 ≡ lists_tools → Admitted req w)
          → (t.2 ≡ calls_tool → Cleared req w)
          → All (Backed w) (advance platform x req t).1
      advance-Backed (fw, ctx, finished r) a c = tt
      advance-Backed (fw, ctx, crashed) a c = tt
      advance-Backed (fw, ctx, cancelled) a c = tt
      advance-Backed (fw, ctx, lists_tools) a c = (a refl, tt)
      advance-Backed (fw, ctx, calls_tool) a c = (c refl, tt)

    started-Backed :
        (x : Exchange) (req : ToolRequest) (v w : World)
        → Reach platform w0 v
        → Reach platform v w
        → All (Backed w) (started platform x req v.fw).1
    started-Backed x req v w r s =
        let t = receive platform x.started req v.fw in
        advance-Backed x req w t
          (λ e. record {
            at = v;
            now = x.started;
            reached = r;
            entitled =
                receive-lists_tools platform x.started req v.fw t.0 t.1 (ap (λ o. (t.0, t.1, o)) e);
            since = s;
          })
          (λ e.
            absurd
              (false≢true (sym (receive-Untouched platform req x.started v.fw).1 ∙ ap is_call e)))

    inspected-Backed :
        (x : Exchange) (req : ToolRequest) (ctx : Ctx) (v w : World)
        → Reach platform v w
        → Admitted req v
        → All (Backed w) (inspected platform x req ctx v.fw).1
    inspected-Backed x req ctx v w s a =
        let t = inspect platform x.listed_at req v.fw ctx x.listing in
        advance-Backed x req w (t.0, ctx, t.1) (λ e. Admitted-later req s a)
          (λ e. record {
            at = v;
            now = x.listed_at;
            tools = x.listing;
            admitted = a;
            vetted =
                inspect-calls_tool platform x.listed_at req v.fw t.0 ctx x.listing
                  (ap (λ o. (t.0, o)) e);
            since = s;
          })

    concluded-Backed :
        (x : Exchange) (req : ToolRequest) (ctx : Ctx) (v w : World)
        → Reach platform v w
        → Cleared req v
        → All (Backed w) (concluded platform x req ctx v.fw).1
    concluded-Backed x req ctx v w s c =
        advance-Backed x req w
          (with_ctx platform x req ctx (conclude platform x.replied_at req v.fw ctx x.reply))
          (λ e. Admitted-later req (Reach-trans c.since s) c.admitted) (λ e. Cleared-later req s c)

    abbrev IsBacked : World → Type 0
    IsBacked w = All (Backed w) w.tasks

    resumed-IsBacked :
        (v w : World) (before mid after : List Task) (t : Task)
        → Reach platform v w
        → v.tasks ≡ before ++ t ∷ after
        → w.tasks ≡ before ++ (mid ++ after)
        → IsBacked v
        → (Backed v t → All (Backed w) mid)
        → IsBacked w
    resumed-IsBacked v w before mid after t s q e b f =
        let (bs, bt, hs) =
          All-middle (Backed v) before t after (subst (λ ts. All (Backed v) ts) q b) in
        subst (λ ts. All (Backed w) ts) (sym e)
          (All-append _ before (mid ++ after) (All-map _ _ (Backed-later s) before bs)
            (All-append _ mid after (f bt) (All-map _ _ (Backed-later s) after hs)))

    stays-IsBacked :
        (v w : World) → Reach platform v w → w.tasks ≡ v.tasks → IsBacked v → IsBacked w
    stays-IsBacked v w s e b =
        subst (λ ts. All (Backed w) ts) (sym e) (All-map _ _ (Backed-later s) v.tasks b)

    Step-IsBacked :
        {v w : World} → Reach platform w0 v → Step platform v w → IsBacked v → IsBacked w
    Step-IsBacked {v} {w} r (starts x req l e) b =
        let s : Reach platform v w = next here (starts x req l e) in
        subst (λ ts. All (Backed w) ts) (sym (ap (λ u. u.tasks) e))
          (All-append _ v.tasks _ (All-map _ _ (Backed-later s) v.tasks b)
            (started-Backed x req v w r s))
    Step-IsBacked {v} {w} r (is_listed x req ctx before after q e) b =
        let s : Reach platform v w = next here (is_listed x req ctx before after q e) in
        resumed-IsBacked v w before _ after (listing req ctx) s q (ap (λ u. u.tasks) e) b
          (inspected-Backed x req ctx v w s)
    Step-IsBacked {v} {w} r (is_answered x req ctx before after q e) b =
        let s : Reach platform v w = next here (is_answered x req ctx before after q e) in
        resumed-IsBacked v w before _ after (calling req ctx) s q (ap (λ u. u.tasks) e) b
          (concluded-Backed x req ctx v w s)
    Step-IsBacked {v} {w} r (authenticates now session_id l e) b =
        stays-IsBacked v w (next here (authenticates now session_id l e)) (ap (λ u. u.tasks) e) b
    Step-IsBacked {v} {w} r (logs_in now drawn user_id api_key client_key e) b =
        stays-IsBacked v w (next here (logs_in now drawn user_id api_key client_key e))
          (ap (λ u. u.tasks) e) b
    Step-IsBacked {v} {w} r (approves now approver names l e) b =
        stays-IsBacked v w (next here (approves now approver names l e)) (ap (λ u. u.tasks) e) b
    Step-IsBacked {v} {w} r (revokes session_id e) b =
        stays-IsBacked v w (next here (revokes session_id e)) (ap (λ u. u.tasks) e) b
    Step-IsBacked {v} {w} r (registers user_id role api_key e) b =
        stays-IsBacked v w (next here (registers user_id role api_key e)) (ap (λ u. u.tasks) e) b

    Reach-IsBacked : {w : World} → w0.tasks ≡ [] → Reach platform w0 w → IsBacked w
    Reach-IsBacked e here = subst (λ ts. All (Backed w0) ts) (sym e) tt
    Reach-IsBacked e (next r st) = Step-IsBacked r st (Reach-IsBacked e r)

-- From a world where no request waits, through any turns that requests take at their waits: for each
-- request that waits for a reply of its tool, there was a time on the way when it had a valid
-- session, room in the rate limit, a well-formed tool name and the right to the tool, and a time no
-- earlier than that when the upstream listed one tool of that name, with the approved fingerprint,
-- its arguments were clean, and the tool's breaker let the call through.
pub calling-Cleared :
    (platform : Platform) (w0 w : World) (req : ToolRequest) (ctx : Ctx) (before after : List Task)
    → w0.tasks ≡ []
    → Reach platform w0 w
    → w.tasks ≡ before ++ calling req ctx ∷ after
    → Cleared platform w0 req w
calling-Cleared platform w0 w req ctx before after e r q =
    let b = Reach-IsBacked platform w0 e r in
    (All-middle (Backed platform w0 w) before (calling req ctx) after
      (subst (λ ts. All (Backed platform w0 w) ts) q b)).1
