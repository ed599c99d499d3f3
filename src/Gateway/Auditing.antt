-- ===== src/Gateway/Auditing.antt =====
-- The log that `handle` of app/firewall/gateway.py writes.
use agentic_firewall.Base.{
  suc, ◌≤◌, ◌≢◌, ◌==◌, ltb, eq_false, text_length, ◌≡◌, refl, ◌∙◌, ap, subst, String, true, false,
  Option, none, some, List, [], ◌∷◌, ◌++◌, arith,
}
use agentic_firewall.Platform.{Platform}
use agentic_firewall.Result.{Result, ok, raise, auth_error}
use agentic_firewall.Models.Events.{Stage, SecurityEvent, stage_name, clean_event}
use agentic_firewall.Models.Requests.{ToolRequest, ToolDefinition, UserSession, GatewayResult}
use agentic_firewall.Integrity.{IntegrityResult}
use agentic_firewall.Database.{Database, add_audit, get_session}
use agentic_firewall.Authentication.{validate, max_session_id_len}
use agentic_firewall.Audit.{record_event}
use agentic_firewall.Gateway.{Firewall, Instant, Ctx, no_ctx, deny_result, audit_result}
use agentic_firewall.Gateway.Pipeline.{
  Listing, listed, list_failed, list_cancelled, Reply, replied, call_failed, call_cancelled,
  Outcome, finished, crashed, lists_tools, calls_tool, receive, on_session, on_verdict,
  count_request, authorize, inspect, one_match, check_integrity, scan_input, pass_breaker, conclude,
  release,
}
use agentic_firewall.Gateway.Handle.{
  Exchange, before_call, on_listing, on_reply, pipeline, ending, respond, handle,
}
use agentic_firewall.Gateway.Frame.{fixed-pipeline}

-- A result names the tool that was asked for and the user of the context.
abbrev Owned : ToolRequest → Ctx → Outcome → Type 0
Owned req ctx (finished r) = (r.tool ≡ req.tool) × (r.user_id ≡ ctx.user_id) × (r.role ≡ ctx.role)
Owned req ctx _ = Unit

module _ (platform : Platform) (now : Instant) (req : ToolRequest) where
  on_session-Owned :
      (fw : Firewall) (r : Result UserSession)
      → let t : Firewall × Ctx × Outcome = on_session platform now req fw r in Owned req t.1 t.2
  unfolding deny_result count_request authorize
  on_session-Owned fw (ok s) = ground arith
  on_session-Owned fw (raise (auth_error reason)) = (refl, refl, refl)
  on_session-Owned fw (raise e) = tt

  on_verdict-Owned :
      (fw : Firewall) (ctx : Ctx) (r : Result IntegrityResult)
      → Owned req ctx (on_verdict platform now req fw ctx r).1
  unfolding scan_input pass_breaker deny_result
  on_verdict-Owned fw ctx (ok v) = ground arith
  on_verdict-Owned fw ctx (raise e) = tt

  one_match-Owned :
      (fw : Firewall) (ctx : Ctx) (ds : List ToolDefinition)
      → Owned req ctx (one_match platform now req fw ctx ds).1
  unfolding deny_result check_integrity
  one_match-Owned fw ctx [] = (refl, refl, refl)
  one_match-Owned fw ctx (d ∷ []) = on_verdict-Owned fw ctx _
  one_match-Owned fw ctx (d ∷ e ∷ ds) = (refl, refl, refl)

  inspect-Owned :
      (fw : Firewall) (ctx : Ctx) (l : Listing)
      → Owned req ctx (inspect platform now req fw ctx l).1
  unfolding inspect deny_result
  inspect-Owned fw ctx (listed tools) = one_match-Owned fw ctx _
  inspect-Owned fw ctx list_failed = (refl, refl, refl)
  inspect-Owned fw ctx list_cancelled = tt

  conclude-Owned :
      (fw : Firewall) (ctx : Ctx) (r : Reply) → Owned req ctx (conclude platform now req fw ctx r).1
  unfolding conclude release deny_result
  conclude-Owned fw ctx (replied t) = ground arith
  conclude-Owned fw ctx call_failed = (refl, refl, refl)
  conclude-Owned fw ctx call_cancelled = tt

module _ (platform : Platform) (x : Exchange) (req : ToolRequest) where
  on_listing-Owned :
      (t : Firewall × Ctx × Outcome)
      → Owned req t.1 t.2
      → let u : Firewall × Ctx × Outcome = on_listing platform x req t in Owned req u.1 u.2
  on_listing-Owned (fw, ctx, lists_tools) o =
      inspect-Owned platform x.listed_at req fw ctx x.listing
  on_listing-Owned (fw, ctx, outcome) o = o

  on_reply-Owned :
      (t : Firewall × Ctx × Outcome)
      → Owned req t.1 t.2
      → let u : Firewall × Ctx × Outcome = on_reply platform x req t in Owned req u.1 u.2
  on_reply-Owned (fw, ctx, calls_tool) o = conclude-Owned platform x.replied_at req fw ctx x.reply
  on_reply-Owned (fw, ctx, outcome) o = o

  pipeline-Owned :
      (fw : Firewall)
      → let u : Firewall × Ctx × Outcome = pipeline platform x req fw in Owned req u.1 u.2
  unfolding pipeline before_call receive
  pipeline-Owned fw =
      on_reply-Owned _ (on_listing-Owned _ (on_session-Owned platform x.started req fw _))

  -- The event that a result leaves in the log, with a reference to the caller's session.
  abbrev pub event_of : GatewayResult → Option String → SecurityEvent
  event_of r session_ref = clean_event (record {
    ts = x.ended.wall;
    user_id = r.user_id;
    session_ref = session_ref;
    role = r.role;
    tool = some req.tool;
    risk = r.risk;
    decision = r.decision;
    stage = stage_name r.stage;
    reason = r.reason;
    latency_ms = x.latency;
    id = none;
  })

  -- The database with one more row.
  abbrev pub appended : Database → SecurityEvent → Database
  appended db e = record db {
    audit_logs = db.audit_logs ++ record { id = db.next_id; event = e } ∷ [];
    next_id = suc db.next_id;
  }

  ending-audits :
      (t : Firewall × Ctx × Outcome) (fw' : Firewall) (r : GatewayResult)
      → Owned req t.1 t.2
      → t.0.db.connected ≡ true
      → ending platform x req t ≡ (fw', some r)
      → fw'.db ≡ appended t.0.db (event_of r t.1.session_ref)
  unfolding respond deny_result audit_result record_event add_audit
  ending-audits (fw, ctx, finished r') fw' r o up h = ground arith
  ending-audits (fw, ctx, outcome) fw' r o up h = ground arith

  -- While the database is connected, a request that gets a result, refused or allowed, adds exactly
  -- one row to the log and changes nothing else in the database: the row has the next id, and its
  -- cleaned event has the decision, the stage, the reason, the risk, the user and the role of the
  -- result, the tool that was asked for, and some reference to a session.
  pub handle-audits :
      (fw fw' : Firewall) (r : GatewayResult)
      → fw.db.connected ≡ true
      → handle platform x req fw ≡ (fw', some r)
      → (session_ref : Option String) × (fw'.db ≡ appended fw.db (event_of r session_ref))
  unfolding handle
  handle-audits fw fw' r up h =
      let t : Firewall × Ctx × Outcome = pipeline platform x req fw in
      let same : t.0.db ≡ fw.db = ap (λ b. b.1) (fixed-pipeline platform x req fw) in
      let up' : t.0.db.connected ≡ true = ap (λ (d : Database). d.connected) same ∙ up in
      (
        t.1.session_ref,
        subst (λ (d : Database). fw'.db ≡ appended d (event_of r t.1.session_ref)) same
            (ending-audits t fw' r (pipeline-Owned fw) up' h),
      )

  receive-closed :
      (fw : Firewall)
      → fw.db.connected ≡ false
      → req.session_id ≢ ""
      → text_length req.session_id ≤ max_session_id_len
      → receive platform x.started req fw ≡ (fw, no_ctx, crashed)
  unfolding receive validate get_session
  receive-closed fw down some_id short =
      let e : (req.session_id == "") ≡ false = eq_false req.session_id "" some_id in
      let n : ltb max_session_id_len (text_length req.session_id) ≡ false = ground arith in
      rw (e, n, down)

  -- Once the database is closed, a request with a session id that is not empty and not too long is
  -- refused by the last guard, whatever the upstream would answer, and nothing changes: no slot of
  -- the rate limit is taken, no breaker moves, and the log, which cannot be written, stays.
  pub handle-closed :
      (fw : Firewall)
      → fw.db.connected ≡ false
      → req.session_id ≢ ""
      → text_length req.session_id ≤ max_session_id_len
      → handle platform x req fw ≡ (
        fw,
        some
            (record (deny_result req no_ctx Stage.internal
              "internal error; request denied (fail closed)" none) { latency_ms = x.latency }),
      )
  unfolding handle pipeline before_call respond audit_result record_event add_audit
  handle-closed fw down some_id short = rw (receive-closed fw down some_id short, down)
