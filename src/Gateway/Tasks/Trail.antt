-- ===== src/Gateway/Tasks/Trail.antt =====
-- The database while many requests of app/firewall/gateway.py are under way: what each stretch of a
-- request and each other call adds to it.
mod Tests
use agentic_firewall.Base.{ℕ, ◌≡◌, ◌≢◌, refl, ap, true, String, Bool, List, [], ◌++◌, arith}
use agentic_firewall.Platform.{Platform}
use agentic_firewall.Result.{Result, ok, raise, auth_error}
use agentic_firewall.Models.Requests.{ToolRequest, UserSession}
use agentic_firewall.Database.{Database, AuditRow, revoke_session, add_user}
use agentic_firewall.Database.Later.{
  Later, Revoked, same, later, add_user-Later, revoke_session-Later, revoke_session-Revoked,
}
use agentic_firewall.Authentication.{validate, register_user, revoke}
use agentic_firewall.Gateway.{Firewall, Instant, Ctx, audit_result}
use agentic_firewall.Gateway.Pipeline.{
  Outcome, finished, crashed, cancelled, lists_tools, calls_tool, receive, on_session,
}
use agentic_firewall.Gateway.Frame.{fixed, fixed-receive, fixed-inspect, fixed-conclude}
use agentic_firewall.Gateway.Handle.{Exchange, respond}
use agentic_firewall.Gateway.Tools.{authenticate}
use agentic_firewall.Gateway.Tasks
use agentic_firewall.Gateway.Tasks.{World, advance, started, inspected, concluded, written, revoked}
use agentic_firewall.Gateway.Writes.{logged-Later}
use agentic_firewall.Gateway.Login.Writes.{login-Later}
use agentic_firewall.Gateway.Approve.Writes.{approve_tools-Later}
use agentic_firewall.Authentication.Sessions.{Accepted, validate-Accepted}

module _ (platform : Platform) where
  advance-Later :
      (x : Exchange) (req : ToolRequest) (t : Firewall × Ctx × Outcome)
      → Later t.0.db (advance platform x req t).0.db
  unfolding respond audit_result
  advance-Later x req (fw, ctx, finished r) = logged-Later fw.db _ x.ended.wall _ refl
  advance-Later x req (fw, ctx, crashed) = logged-Later fw.db _ x.ended.wall _ refl
  advance-Later x req (fw, ctx, cancelled) = same _ _ refl
  advance-Later x req (fw, ctx, lists_tools) = same _ _ refl
  advance-Later x req (fw, ctx, calls_tool) = same _ _ refl

  -- A stretch of a request only writes when it ends.
  stretch-Later :
      (x : Exchange) (req : ToolRequest) (fw : Firewall) (t : Firewall × Ctx × Outcome)
      → fixed t.0 ≡ fixed fw
      → Later fw.db (advance platform x req t).0.db
  stretch-Later x req fw t e =
      later _ _ _ (same fw.db t.0.db (ap (λ p. p.1) e)) (advance-Later x req t)

  db-authenticate :
      (fw : Firewall) (now : Instant) (session_id : String)
      → (authenticate platform fw now session_id).0.db ≡ fw.db
  unfolding authenticate
  db-authenticate fw now session_id = ground arith

  written-Later :
      (db : Database) (r : Result Database)
      → ((db' : Database) → r ≡ ok db' → Later db db')
      → Later db (written db r)
  written-Later db (raise e) h = same _ _ refl
  written-Later db (ok db') h = h db' refl

  registered :
      (db db' : Database) (user_id role api_key : String)
      → register_user platform.sha256 db user_id role api_key ≡ ok db'
      → add_user db user_id role (platform.sha256 api_key) ≡ ok db'
  unfolding register_user
  registered db db' user_id role api_key h = ground arith

  revoked-Later :
      (db : Database) (key : String) (r : Result (Database × Bool))
      → revoke_session db key ≡ r
      → Later db (revoked db r)
  revoked-Later db key (raise e) h = same _ _ refl
  revoked-Later db key (ok (db', found)) h = revoke_session-Later db db' key found h

  arrive : (db : Database) (w w' : World) → w' ≡ w → Later db w.fw.db → Later db w'.fw.db
  arrive db w w' e r = rw e r

  Step-Later : {w w' : World} → Tasks.Step platform w w' → Later w.fw.db w'.fw.db
  unfolding revoke
  Step-Later {w} (Tasks.starts x req l e) =
      arrive w.fw.db _ _ e (stretch-Later x req w.fw _ (fixed-receive platform x.started req w.fw))
  Step-Later {w} (Tasks.is_listed x req ctx before after q e) =
      arrive w.fw.db _ _ e
        (stretch-Later x req w.fw _ (fixed-inspect platform x.listed_at req w.fw ctx x.listing))
  Step-Later {w} (Tasks.is_answered x req ctx before after q e) =
      arrive w.fw.db _ _ e
        (stretch-Later x req w.fw _ (fixed-conclude platform x req w.fw ctx x.reply))
  Step-Later {w} (Tasks.authenticates now session_id l e) =
      arrive w.fw.db _ _ e (same _ _ (db-authenticate w.fw now session_id))
  Step-Later {w} (Tasks.logs_in now drawn user_id api_key client_key e) =
      arrive w.fw.db _ _ e (login-Later platform w.fw now drawn user_id api_key client_key)
  Step-Later {w} (Tasks.approves now approver names l e) =
      arrive w.fw.db _ _ e (approve_tools-Later platform w.fw now approver names l)
  Step-Later {w} (Tasks.revokes session_id e) =
      arrive w.fw.db _ _ e (revoked-Later w.fw.db _ _ refl)
  Step-Later {w} (Tasks.registers user_id role api_key e) = arrive w.fw.db _ _ e (
      written-Later w.fw.db _
        (λ db' h. add_user-Later _ _ _ _ _ (registered w.fw.db db' user_id role api_key h)))

  Reach-Later : {w w' : World} → Tasks.Reach platform w w' → Later w.fw.db w'.fw.db
  Reach-Later Tasks.here = same _ _ refl
  Reach-Later (Tasks.next r st) = later _ _ _ (Reach-Later r) (Step-Later st)

  -- Through any turns that requests take at their waits, with checks of sessions, logins, approvals,
  -- revocations and registrations between them, rows are only added to the log, at its end: those
  -- that were there stay as they were.
  pub audit_logs-grow :
      {w w' : World}
      → Tasks.Reach platform w w'
      → (rows : List AuditRow) × (w'.fw.db.audit_logs ≡ w.fw.db.audit_logs ++ rows)
  audit_logs-grow r = ((Reach-Later r).rows, (Reach-Later r).appended)

  revoke-Revoked :
      (db db' : Database) (session_id : String)
      → revoke platform.sha256 db session_id ≡ ok (db', true)
      → Revoked (platform.sha256 session_id) db'.sessions
  unfolding revoke
  revoke-Revoked db db' session_id h = revoke_session-Revoked db db' _ h

  Revoked-refused :
      (db : Database) (session_id : String) (now : ℕ) (u : UserSession)
      → Revoked (platform.sha256 session_id) db.sessions
      → validate platform.sha256 db session_id now ≢ ok u
  Revoked-refused db session_id now u (s, stored, dead) e =
      let a : Accepted platform.sha256 db session_id now u =
        validate-Accepted platform.sha256 db session_id now u e in
      cc (a.active, a.stored, stored, dead)

  nobody_waits :
      (x : Exchange) (req : ToolRequest) (fw : Firewall) (r : Result UserSession)
      → ((u : UserSession) → r ≢ ok u)
      → (advance platform x req (on_session platform x.started req fw r)).1 ≡ []
  nobody_waits x req fw (ok u) h = absurd (h u refl)
  nobody_waits x req fw (raise (auth_error reason)) h = refl
  nobody_waits x req fw (raise e) h = refl

  -- Once a session that the table holds has been revoked, then after any turns of requests and other
  -- calls, more logins among them, `validate` does not accept its id, and a request that starts with
  -- it ends at once: it waits neither for the upstream's tools nor for a reply.
  pub revoke-final :
      (w w' : World) (db : Database) (x : Exchange) (req : ToolRequest) (u : UserSession)
      → revoke platform.sha256 w.fw.db req.session_id ≡ ok (db, true)
      → Tasks.Reach platform (record w { fw = record w.fw { db = db } }) w'
      → (validate platform.sha256 w'.fw.db req.session_id x.started.wall ≢ ok u)
        × ((started platform x req w'.fw).1 ≡ [])
  unfolding receive
  revoke-final w w' db x req u h r =
      let dead : Revoked (platform.sha256 req.session_id) w'.fw.db.sessions =
        (Reach-Later r).dead _ (revoke-Revoked w.fw.db db req.session_id h) in
      let refused : (v : UserSession)
          → validate platform.sha256 w'.fw.db req.session_id x.started.wall ≢ ok v =
        λ v. Revoked-refused w'.fw.db req.session_id x.started.wall v dead in
      (refused u, nobody_waits x req w'.fw _ refused)
