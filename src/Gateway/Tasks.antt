-- ===== src/Gateway/Tasks.antt =====
-- Many requests at once. The program runs on one event loop: between two waits a request of
-- app/firewall/gateway.py is not interrupted, and while it waits for the upstream server others go
-- on, on the same firewall. A step is such a stretch of one request, or a whole call that does not
-- wait: a login, a check of a session, a revocation, the registration of a user, and the approvals
-- behind the listing of the tools. The clocks and the upstream answer as they like, save that the
-- monotonic clock does not go back.
pub mod Effects
pub mod Alone
pub mod Frame
pub mod View
pub mod Charging
pub mod Limits
pub mod History
pub mod Trail
mod Tests
pub mod Breakers
use agentic_firewall.Base.{
  ℕ, ◌≤◌, ◌≡◌, String, Bool, true, false, not, Option, none, some, List, [], ◌∷◌, ◌++◌,
  if◌then◌else◌,
}
use agentic_firewall.Platform.{Platform}
use agentic_firewall.Result.{Result, ok, raise}
use agentic_firewall.Models.Events.{Stage}
use agentic_firewall.Models.Requests.{ToolRequest, UserSession}
use agentic_firewall.Database.{Database}
use agentic_firewall.Authentication.{register_user, revoke}
use agentic_firewall.RateLimiter.Refinement.{Log, granted}
use agentic_firewall.Gateway.{Firewall, Instant, Ctx}
use agentic_firewall.Gateway.Pipeline.{
  Listing, Outcome, finished, lists_tools, calls_tool, receive, inspect, conclude,
}
use agentic_firewall.Gateway.Handle.{Exchange, with_ctx, ending}
use agentic_firewall.Gateway.Login.{login}
use agentic_firewall.Gateway.Tools.{authenticate}
use agentic_firewall.Gateway.Approve.{approve_tools}

-- A request that waits for the listing of the tools, or for the reply to its call.
pub data Task : Type 0 where
  listing calling : ToolRequest → Ctx → Task

-- `admitted` is the log of the requests of users that were let through, and of their checks of
-- sessions that returned one, and `last` the time of
-- the last check of the rate limit.
pub record World : Type 0 where
  pub fw : Firewall
  pub tasks : List Task
  pub admitted : Log
  pub last : ℕ

-- A firewall that has just been made.
abbrev pub fresh_world : Firewall → World
fresh_world fw = record { fw = fw; tasks = []; admitted = []; last = 0 }

abbrev pub is_rate_limit : Stage → Bool
is_rate_limit Stage.rate_limit = true
is_rate_limit _ = false

-- Whether the rate limit has refused a request.
abbrev pub over_limit : Outcome → Bool
over_limit (finished r) = is_rate_limit r.stage
over_limit _ = false

-- A user's request goes on at that time, or does not; without a user there is nothing to count.
abbrev pub noted : Bool → Option String → ℕ → Log → Log
noted goes_on none now log = log
noted goes_on (some user_id) now log = granted goes_on log user_id now

-- The log after the first stretch of a request: where it has a user, it went on, or the rate limit
-- refused it.
abbrev pub let_through : Instant → Firewall × Ctx × Outcome → Log → Log
let_through now (fw, ctx, outcome) log = noted (not (over_limit outcome)) ctx.user_id now.mono log

-- The log after a check of a session, which returned the session or raised.
abbrev pub let_in : Instant → Result UserSession → Log → Log
let_in now (raise e) log = log
let_in now (ok session) log = granted true log session.user_id now.mono

-- The database behind a call that raises or returns a new one.
abbrev pub written : Database → Result Database → Database
written db (ok db') = db'
written db (raise e) = db

abbrev pub revoked : Database → Result (Database × Bool) → Database
revoked db (ok (db', found)) = db'
revoked db (raise e) = db

module _ (platform : Platform) where
  -- A request goes on to wait, or ends and is recorded.
  abbrev pub advance : Exchange → ToolRequest → Firewall × Ctx × Outcome → Firewall × List Task
  advance x req (fw, ctx, lists_tools) = (fw, listing req ctx ∷ [])
  advance x req (fw, ctx, calls_tool) = (fw, calling req ctx ∷ [])
  advance x req (fw, ctx, outcome) = ((ending platform x req (fw, ctx, outcome)).0, [])

  abbrev pub started : Exchange → ToolRequest → Firewall → Firewall × List Task
  started x req fw = advance x req (receive platform x.started req fw)

  abbrev pub inspected : Exchange → ToolRequest → Ctx → Firewall → Firewall × List Task
  inspected x req ctx fw =
      advance x req
        (with_ctx platform x req ctx (inspect platform x.listed_at req fw ctx x.listing))

  abbrev pub concluded : Exchange → ToolRequest → Ctx → Firewall → Firewall × List Task
  concluded x req ctx fw =
      advance x req
        (with_ctx platform x req ctx (conclude platform x.replied_at req fw ctx x.reply))

  pub data Step (w w' : World) : Type 0 where
    starts :
        (x : Exchange) (req : ToolRequest)
        → w.last ≤ x.started.mono
        → w' ≡ record {
          fw = (started x req w.fw).0;
          tasks = w.tasks ++ (started x req w.fw).1;
          admitted = let_through x.started (receive platform x.started req w.fw) w.admitted;
          last = x.started.mono;
        }
        → Step w w'
    is_listed :
        (x : Exchange) (req : ToolRequest) (ctx : Ctx) (before after : List Task)
        → w.tasks ≡ before ++ listing req ctx ∷ after
        → w' ≡ record w {
          fw = (inspected x req ctx w.fw).0;
          tasks = before ++ ((inspected x req ctx w.fw).1 ++ after);
        }
        → Step w w'
    is_answered :
        (x : Exchange) (req : ToolRequest) (ctx : Ctx) (before after : List Task)
        → w.tasks ≡ before ++ calling req ctx ∷ after
        → w' ≡ record w {
          fw = (concluded x req ctx w.fw).0;
          tasks = before ++ ((concluded x req ctx w.fw).1 ++ after);
        }
        → Step w w'
    authenticates :
        (now : Instant) (session_id : String)
        → w.last ≤ now.mono
        → w' ≡ record w {
          fw = (authenticate platform w.fw now session_id).0;
          admitted = let_in now (authenticate platform w.fw now session_id).1 w.admitted;
          last = now.mono;
        }
        → Step w w'
    logs_in :
        (now : Instant) (drawn user_id api_key client_key : String)
        → w' ≡ record w { fw = (login platform w.fw now drawn user_id api_key client_key).0 }
        → Step w w'
    approves :
        (now : Instant) (approver : UserSession) (names : Option (List String)) (l : Listing)
        → w' ≡ record w { fw = (approve_tools platform w.fw now approver names l).0 }
        → Step w w'
    revokes :
        (session_id : String)
        → w' ≡ record w {
          fw = record w.fw { db = revoked w.fw.db (revoke platform.sha256 w.fw.db session_id) };
        }
        → Step w w'
    registers :
        (user_id role api_key : String)
        → w' ≡ record w {
          fw = record w.fw {
            db = written w.fw.db (register_user platform.sha256 w.fw.db user_id role api_key);
          };
        }
        → Step w w'

  pub data Reach (w : World) : World → Type 0 where
    here : Reach w w
    next : {u v : World} → Reach w u → Step u v → Reach w v
