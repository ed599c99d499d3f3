-- ===== src/Gateway/Login/Writes.antt =====
-- What `login` of app/firewall/gateway.py adds to the database.
use agentic_firewall.Base.{ℕ, ◌≡◌, refl, String, ◌+◌, arith, Bool-cases, inl, inr}
use agentic_firewall.Platform.{Platform}
use agentic_firewall.Result.{Result, ok, raise, auth_error}
use agentic_firewall.Models.Requests.{UserSession}
use agentic_firewall.Database.{Database, User, create_session}
use agentic_firewall.Database.Later.{Later, same, later, create_session-Later}
use agentic_firewall.Authentication.{validate, register_user, revoke, open_session}
use agentic_firewall.Authentication.Login.{login_ok}
use agentic_firewall.Authentication
use agentic_firewall.RateLimiter
use agentic_firewall.Gateway.{Firewall, Instant}
use agentic_firewall.Gateway.Login.{login, on_login}
use agentic_firewall.Gateway.Writes.{audit_simple-Later}

module _ (platform : Platform) where
  on_login-Later :
      (fw : Firewall) (now : Instant) (user_id : String)
      (r : Result (String × UserSession × Database))
      → ((sid : String) (u : UserSession) (db : Database) → r ≡ ok (sid, u, db) → Later fw.db db)
      → Later fw.db (on_login fw now user_id r).0.db
  unfolding on_login
  on_login-Later fw now user_id (ok (sid, u, db)) h =
      later _ _ _ (h sid u db refl) (audit_simple-Later (record fw { db = db }) now _ _ _ _ _ _)
  on_login-Later fw now user_id (raise (auth_error reason)) h =
      audit_simple-Later fw now _ _ _ _ _ _
  on_login-Later fw now user_id (raise e) h = same _ _ refl

  opened :
      (db db' : Database) (row : User) (ttl now : ℕ) (drawn sid : String) (u : UserSession)
      → open_session platform.sha256 db row ttl drawn now ≡ ok (sid, u, db')
      → create_session db (platform.sha256 drawn) row.user_id now (now + ttl) ≡ ok db'
  unfolding open_session
  opened db db' row ttl now drawn sid u h = ground arith

  opens-Later :
      (db db' : Database) (ttl now : ℕ) (user_id api_key drawn sid : String) (u : UserSession)
      → Authentication.login platform.sha256 db ttl user_id api_key drawn now ≡ ok (sid, u, db')
      → Later db db'
  opens-Later db db' ttl now user_id api_key drawn sid u h =
      let (row, a, b, c, d, o) =
        login_ok platform.sha256 db db' ttl now user_id api_key drawn sid u h in
      create_session-Later db db' _ _ _ _ (opened db db' row ttl now drawn sid u o)

  pub login-Later :
      (fw : Firewall) (now : Instant) (drawn user_id api_key client_key : String)
      → Later fw.db (login platform fw now drawn user_id api_key client_key).0.db
  unfolding login
  login-Later fw now drawn user_id api_key client_key =
      elim (Bool-cases (RateLimiter.check fw.login_limiter client_key now.mono).1.allowed) [
        | inl room ↦ rw room (
            on_login-Later
              (record fw {
                login_limiter = (RateLimiter.check fw.login_limiter client_key now.mono).0;
              })
              now user_id _ (λ sid u db. opens-Later fw.db db _ _ user_id api_key drawn sid u))
        | inr full ↦ rw full (
            audit_simple-Later
              (record fw {
                login_limiter = (RateLimiter.check fw.login_limiter client_key now.mono).0;
              })
              now _ _ _ _ _ _)
      ]
