-- ===== src/Gateway/Tasks/Limits.antt =====
-- The rate limit while many requests of app/firewall/gateway.py are under way.
use agentic_firewall.Base.{ℕ, ◌≤◌, ◌≡◌, refl, ◌∙◌, ap, String, arith}
use agentic_firewall.Platform.{Platform}
use agentic_firewall.Result.{Result, ok, raise, auth_error}
use agentic_firewall.Models.Policies.{Policy}
use agentic_firewall.Models.Requests.{ToolRequest, UserSession}
use agentic_firewall.Database.{Database}
use agentic_firewall.RateLimiter
use agentic_firewall.RateLimiter.{SlidingWindowRateLimiter}
use agentic_firewall.RateLimiter.Refinement.{
  Log, times, has_room, granted, Refines, check-Refines, wait-Refines, empty-Refines,
}
use agentic_firewall.RateLimiter.Bound.{
  count_in, IsBounded, granted-IsBounded, limits, limits-check,
}
use agentic_firewall.Gateway.{Firewall, Instant, init, deny_result}
use agentic_firewall.Gateway.Pipeline.{receive, on_session, count_request, authorize}
use agentic_firewall.Gateway.Tools.{authenticate}
use agentic_firewall.Authentication.{validate}
use agentic_firewall.Gateway.Tasks
use agentic_firewall.Gateway.Tasks.{
  World, fresh_world, let_through, let_in, advance, started, inspected, concluded,
}
use agentic_firewall.Gateway.Tasks.Charging.{
  charged, limiter-started, limiter-inspected, limiter-concluded, limiter-authenticate,
}
use agentic_firewall.Gateway.Tasks.Frame.{shared-login, shared-approve_tools}

-- What the rate limiter's answer on a session's user adds to the log.
abbrev charge : Firewall → Instant → Result UserSession → Log → Log
charge fw now (raise e) log = log
charge fw now (ok session) log =
    granted (RateLimiter.check fw.limiter session.user_id now.mono).1.allowed log session.user_id
      now.mono

-- The log of what has happened is the one of the rate limiter's answers.
module _ (platform : Platform) (now : Instant) where
  let_through-on_session :
      (req : ToolRequest) (fw : Firewall) (log : Log) (r : Result UserSession)
      → let_through now (on_session platform now req fw r) log ≡ charge fw now r log
  unfolding count_request authorize deny_result
  let_through-on_session req fw log (raise (auth_error reason)) = refl
  let_through-on_session req fw log (raise e) = refl
  let_through-on_session req fw log (ok s) = ground arith

  let_through-receive :
      (req : ToolRequest) (fw : Firewall) (log : Log)
      → let_through now (receive platform now req fw) log
        ≡ charge fw now (validate platform.sha256 fw.db req.session_id now.wall) log
  unfolding receive
  let_through-receive req fw log = let_through-on_session req fw log _

  let_in-authenticate :
      (fw : Firewall) (session_id : String) (log : Log)
      → let_in now (authenticate platform fw now session_id).1 log
        ≡ charge fw now (validate platform.sha256 fw.db session_id now.wall) log
  unfolding authenticate
  let_in-authenticate fw session_id log = ground arith

-- The limiter stands for the log of what it let through, which keeps to the limits `m` per `w`.
record Limited (m w : ℕ) (l : SlidingWindowRateLimiter) (log : Log) (last : ℕ) : Type 0 where
  fixed : limits l ≡ (m, w)
  refines : Refines l log last
  bounded : IsBounded m w log

module _ (m w : ℕ) where
  check-Limited :
      (l : SlidingWindowRateLimiter) (log : Log) (last now : ℕ) (key : String)
      → last ≤ now
      → Limited m w l log last
      → let t = RateLimiter.check l key now in Limited m w t.0 (granted t.1.allowed log key now) now
  check-Limited l log last now key h r =
      let step = check-Refines l log last now key h r.refines in
      let same : (RateLimiter.check l key now).1.allowed ≡ has_room m w log key now =
        ground (arith, step.0, r.fixed) in
      record {
        fixed = limits-check l key now ∙ r.fixed;
        refines = rw step.0 step.1;
        bounded = rw same (granted-IsBounded m w log key now r.bounded);
      }

  charge-Limited :
      (fw : Firewall) (log : Log) (last : ℕ) (now : Instant) (r : Result UserSession)
      → last ≤ now.mono
      → Limited m w fw.limiter log last
      → Limited m w (charged fw now r) (charge fw now r log) now.mono
  charge-Limited fw log last now (raise e) h r = record {
    fixed = r.fixed;
    refines = wait-Refines log last now.mono h fw.limiter r.refines;
    bounded = r.bounded;
  }
  charge-Limited fw log last now (ok session) h r =
      check-Limited fw.limiter log last now.mono session.user_id h r

  abbrev HasLimits : World → Type 0
  HasLimits w' = Limited m w w'.fw.limiter w'.admitted w'.last

  kept-Limited :
      (l l' : SlidingWindowRateLimiter) (log : Log) (last : ℕ)
      → l' ≡ l
      → Limited m w l log last
      → Limited m w l' log last
  kept-Limited l l' log last e r = rw e r

  same_log :
      (l : SlidingWindowRateLimiter) (log log' : Log) (last : ℕ)
      → log' ≡ log
      → Limited m w l log last
      → Limited m w l log' last
  same_log l log log' last e r = rw e r

  module _ (platform : Platform) where
    arrive : (v v' : World) → v' ≡ v → HasLimits v → HasLimits v'
    arrive v v' e r = rw e r

    Step-HasLimits : {v v' : World} → Tasks.Step platform v v' → HasLimits v → HasLimits v'
    Step-HasLimits {v} (Tasks.starts x req l e) r = arrive _ _ e (
        same_log _ _ _ _ (let_through-receive platform x.started req v.fw v.admitted) (
          kept-Limited _ _ _ _ (limiter-started platform req x v.fw)
            (charge-Limited v.fw v.admitted v.last x.started _ l r)))
    Step-HasLimits {v} (Tasks.is_listed x req ctx before after q e) r =
        arrive _ _ e (kept-Limited _ _ _ _ (limiter-inspected platform req x ctx v.fw) r)
    Step-HasLimits {v} (Tasks.is_answered x req ctx before after q e) r =
        arrive _ _ e (kept-Limited _ _ _ _ (limiter-concluded platform req x ctx v.fw) r)
    Step-HasLimits {v} (Tasks.authenticates now session_id l e) r = arrive _ _ e (
        same_log _ _ _ _ (let_in-authenticate platform now v.fw session_id v.admitted) (
          kept-Limited _ _ _ _ (limiter-authenticate platform v.fw now session_id)
            (charge-Limited v.fw v.admitted v.last now _ l r)))
    Step-HasLimits {v} (Tasks.logs_in now drawn user_id api_key client_key e) r = arrive _ _ e (
        kept-Limited _ _ _ _
          (ap (λ p. p.1) (shared-login platform v.fw now drawn user_id api_key client_key)) r)
    Step-HasLimits {v} (Tasks.approves now approver names l e) r = arrive _ _ e (
        kept-Limited _ _ _ _
          (ap (λ p. p.1) (shared-approve_tools platform v.fw now approver names l)) r)
    Step-HasLimits (Tasks.revokes session_id e) r = arrive _ _ e r
    Step-HasLimits (Tasks.registers user_id role api_key e) r = arrive _ _ e r

    Reach-HasLimits : {v v' : World} → Tasks.Reach platform v v' → HasLimits v → HasLimits v'
    Reach-HasLimits Tasks.here l = l
    Reach-HasLimits (Tasks.next r st) l = Step-HasLimits st (Reach-HasLimits r l)

fresh-HasLimits :
    (policy : Policy) (db : Database)
    → HasLimits policy.rate_limit.max_requests policy.rate_limit.window_seconds
        (fresh_world (init policy db))
unfolding init
fresh-HasLimits policy db = record {
  fixed = refl;
  refines = empty-Refines _ refl;
  bounded = λ k t. omega arith;
}

-- From a firewall that has just been made, through any turns that requests take at their waits, with
-- checks of sessions, logins, approvals, revocations and registrations between them: of the requests
-- of one user that the rate limit did not refuse, and of the checks that returned a session of the
-- user, at most `max_requests` together stand in each window of the policy.
pub count_in-admitted-le :
    (platform : Platform) (policy : Policy) (db : Database) (user_id : String) (at : ℕ) {w : World}
    → Tasks.Reach platform (fresh_world (init policy db)) w
    → count_in policy.rate_limit.window_seconds at (times user_id w.admitted)
      ≤ policy.rate_limit.max_requests
count_in-admitted-le platform policy db user_id at r =
    (Reach-HasLimits _ _ platform r (fresh-HasLimits policy db)).bounded user_id at

-- In any such world, a check of a user's rate limit that comes no earlier than the last one lets the
-- request through exactly when fewer than `max_requests` of the user's were let through in the
-- window that ends then.
pub check-allowed-has_room :
    (platform : Platform) (policy : Policy) (db : Database) (user_id : String) (now : ℕ) {w : World}
    → Tasks.Reach platform (fresh_world (init policy db)) w
    → w.last ≤ now
    → (RateLimiter.check w.fw.limiter user_id now).1.allowed
      ≡ has_room policy.rate_limit.max_requests policy.rate_limit.window_seconds w.admitted user_id
          now
check-allowed-has_room platform policy db user_id now {w} r h =
    let l = Reach-HasLimits _ _ platform r (fresh-HasLimits policy db) in
    let step = check-Refines w.fw.limiter w.admitted w.last now user_id h l.refines in
    ground (arith, step.0, l.fixed)
