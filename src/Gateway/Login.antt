-- ===== src/Gateway/Login.antt =====
-- `Firewall.login` of app/firewall/gateway.py. The random session id that a login draws is the
-- argument `drawn`.
pub mod Throttle
pub mod Session
pub mod Writes
mod Tests
use agentic_firewall.Base.{String, none, some, if◌then◌else◌}
use agentic_firewall.Platform.{Platform}
use agentic_firewall.Result.{Result, ok, raise, auth_error, rate_limited}
use agentic_firewall.Models.Events.{Stage, allow, deny}
use agentic_firewall.Models.Requests.{UserSession}
use agentic_firewall.Database.{Database}
use agentic_firewall.Authentication
use agentic_firewall.RateLimiter
use agentic_firewall.Gateway.{Firewall, Instant, audit_simple}

-- What the authenticator's answer leads to, with the log; an error that is no `AuthError` passes
-- through without a row.
unfoldable pub on_login :
    Firewall
    → Instant
    → String
    → Result (String × UserSession × Database)
    → Firewall × Result (String × UserSession)
on_login fw now user_id (ok (session_id, session, db)) = (
  audit_simple (record fw { db = db }) now (some session.user_id) Stage.login allow "login ok"
      (some session.role) (some session.session_ref),
  ok (session_id, session),
)
on_login fw now user_id (raise (auth_error reason)) = (
  audit_simple fw now (some user_id) Stage.login deny "invalid credentials" none none,
  raise (auth_error reason),
)
on_login fw now user_id (raise e) = (fw, raise e)

module _ (platform : Platform) where
  unfoldable pub login :
      Firewall
      → Instant
      → String
      → String
      → String
      → String
      → Firewall × Result (String × UserSession)
  login fw now drawn user_id api_key client_key =
      let (limiter, rl) = RateLimiter.check fw.login_limiter client_key now.mono in
      let fw' : Firewall = record fw { login_limiter = limiter } in
      let answer =
        Authentication.login platform.sha256 fw.db fw.policy.session_ttl_seconds user_id api_key
          drawn now.wall in
      if rl.allowed then on_login fw' now user_id answer else (
        audit_simple fw' now (some user_id) Stage.login deny "too many login attempts" none none,
        raise (rate_limited rl.retry_after),
      )
