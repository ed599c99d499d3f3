-- ===== src/Gateway/Login/Session.antt =====
-- The session that `login` of app/firewall/gateway.py hands out.
use agentic_firewall.Base.{ℕ, ◌+◌, ◌<◌, ◌≤◌, ◌≡◌, ◌≢◌, String, true, some, arith, text_length}
use agentic_firewall.Dict.{lookup}
use agentic_firewall.Platform.{Platform}
use agentic_firewall.Result.{Result, ok, raise, auth_error}
use agentic_firewall.Models.Requests.{UserSession}
use agentic_firewall.Database.{Database, User, get_session, join, add_audit}
use agentic_firewall.Audit.{record_event}
use agentic_firewall.Authentication
use agentic_firewall.Authentication.{max_session_id_len, validate}
use agentic_firewall.Authentication.Login.{IsKeyed, login_ok, validate-login}
use agentic_firewall.RateLimiter
use agentic_firewall.Gateway.{Firewall, Instant, audit_simple}
use agentic_firewall.Gateway.Login.{login, on_login}

-- Two databases that sessions cannot tell apart.
abbrev SameSessions : Database → Database → Type 0
SameSessions db db' =
    (db'.connected ≡ db.connected) × (db'.users ≡ db.users) × (db'.sessions ≡ db.sessions)

validate_same :
    (sha256 : String → String) (db db' : Database) (session_id : String) (now : ℕ)
    → SameSessions db db'
    → validate sha256 db' session_id now ≡ validate sha256 db session_id now
unfolding validate get_session join
validate_same sha256 db db' session_id now (c, u, s) = rw (c, u, s)

on_login_ok :
    (fw fw' : Firewall) (now : Instant) (user_id sid : String) (u : UserSession)
    (r : Result (String × UserSession × Database))
    → on_login fw now user_id r ≡ (fw', ok (sid, u))
    → (db : Database) × (r ≡ ok (sid, u, db)) × SameSessions db fw'.db
unfolding on_login audit_simple record_event add_audit
on_login_ok fw fw' now user_id sid u (ok (sid', u', db)) h =
    (db, ground arith, (ground arith, ground arith, ground arith))
on_login_ok fw fw' now user_id sid u (raise (auth_error reason)) h = cc
on_login_ok fw fw' now user_id sid u (raise e) h = cc

module _ (platform : Platform) where
  login_room :
      (fw fw' : Firewall) (now : Instant) (drawn user_id api_key client_key sid : String)
      (u : UserSession)
      → login platform fw now drawn user_id api_key client_key ≡ (fw', ok (sid, u))
      → ((RateLimiter.check fw.login_limiter client_key now.mono).1.allowed ≡ true)
        × (on_login
              (record fw {
                login_limiter = (RateLimiter.check fw.login_limiter client_key now.mono).0;
              })
              now
              user_id
              (Authentication.login platform.sha256 fw.db fw.policy.session_ttl_seconds user_id
                api_key drawn now.wall)
            ≡ (fw', ok (sid, u)))
  unfolding login
  login_room fw fw' now drawn user_id api_key client_key sid u h = ground arith

  login_parts :
      (fw fw' : Firewall) (now : Instant) (drawn user_id api_key client_key sid : String)
      (u : UserSession)
      → login platform fw now drawn user_id api_key client_key ≡ (fw', ok (sid, u))
      → ((RateLimiter.check fw.login_limiter client_key now.mono).1.allowed ≡ true)
        × (db : Database) × (Authentication.login platform.sha256 fw.db
              fw.policy.session_ttl_seconds user_id api_key drawn now.wall
            ≡ ok (sid, u, db))
        × SameSessions db fw'.db
  unfolding login
  login_parts fw fw' now drawn user_id api_key client_key sid u h =
      let (room, done) = login_room fw fw' now drawn user_id api_key client_key sid u h in
      let (db, answered, same) = on_login_ok _ fw' now user_id sid u _ done in
      (room, db, answered, same)

  -- Where `login` succeeds, the client had room in the limit of logins, the key that was given
  -- hashes to the one that is stored for the user, and the session that is handed out is accepted
  -- until it expires, also behind the row that the login adds to the log. The id that was drawn must
  -- not be empty nor longer than 256 characters, and each user must stand under its own id.
  pub login-validate :
      (fw fw' : Firewall) (now : Instant) (later : ℕ)
      (drawn user_id api_key client_key sid : String) (u : UserSession)
      → IsKeyed fw.db
      → drawn ≢ ""
      → text_length drawn ≤ max_session_id_len
      → login platform fw now drawn user_id api_key client_key ≡ (fw', ok (sid, u))
      → later < now.wall + fw.policy.session_ttl_seconds
      → ((RateLimiter.check fw.login_limiter client_key now.mono).1.allowed ≡ true)
        × ((row : User) × (lookup user_id fw.db.users ≡ some row)
            × (platform.sha256 api_key ≡ row.api_key_hash))
        × (validate platform.sha256 fw'.db sid later ≡ ok u)
  login-validate fw fw' now later drawn user_id api_key client_key sid u keyed some_id short h
        soon =
      let (room, db, logged_in, same) =
        login_parts fw fw' now drawn user_id api_key client_key sid u h in
      let ttl : ℕ = fw.policy.session_ttl_seconds in
      let (row, stored, key, form, up, opened) =
        login_ok platform.sha256 fw.db db ttl now.wall user_id api_key drawn sid u logged_in in
      (
        room,
        (row, stored, key),
        rw (validate_same platform.sha256 db fw'.db sid later same) (
            validate-login platform.sha256 fw.db db ttl now.wall later user_id api_key drawn sid u
              keyed logged_in some_id short soon),
      )
