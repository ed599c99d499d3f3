-- ===== src/Gateway/Login/Throttle.antt =====
-- How often `login` of app/firewall/gateway.py lets a client try a key.
use agentic_firewall.Base.{
  ℕ, ◌≤◌, ◌<◌, ◌≡◌, refl, ◌∙◌, String, Bool, true, false, not, Option, none, some, List, [], ◌∷◌,
  arith,
}
use agentic_firewall.Platform.{Platform}
use agentic_firewall.Result.{
  Result, ◌>>=◌, ok, raise, auth_error, value_error, permission_denied, rate_limited, db_error,
  upstream_error, cancelled,
}
use agentic_firewall.Models.Policies.{Policy}
use agentic_firewall.Models.Requests.{UserSession}
use agentic_firewall.Database.{Database, User, get_user, create_session}
use agentic_firewall.Authentication
use agentic_firewall.Authentication.{find_user, accept, open_session}
use agentic_firewall.RateLimiter
use agentic_firewall.RateLimiter.Refinement.{Log, times, granted}
use agentic_firewall.RateLimiter.Bound.{count_in, run, InOrder, count_in-run-le}
use agentic_firewall.Gateway.{Firewall, Instant, init, audit_simple}
use agentic_firewall.Gateway.Login.{login, on_login}

-- One call of `login`.
pub record Attempt : Type 0 where
  pub now : Instant
  pub drawn : String
  pub user_id : String
  pub api_key : String
  pub client_key : String

abbrev is_throttled {ℓ} : {A : Type ℓ} → Result A → Bool
is_throttled (raise (rate_limited n)) = true
is_throttled _ = false

abbrev call : Attempt → String × ℕ
call a = (a.client_key, a.now.mono)

abbrev pub calls : List Attempt → List (String × ℕ)
calls [] = []
calls (a ∷ attempts) = call a ∷ calls attempts

bind_unthrottled {ℓ κ} :
    {A : Type ℓ} {B : Type κ} (m : Result A) (f : A → Result B)
    → is_throttled m ≡ false
    → ((a : A) → is_throttled (f a) ≡ false)
    → is_throttled (m >>= f) ≡ false
bind_unthrottled (ok a) f h k = k a
bind_unthrottled (raise e) f h k = h

module _ (platform : Platform) where
  -- A series of attempts, and the log of those that were not turned away by the limit.
  unfoldable pub login_all : Firewall → Log → List Attempt → Firewall × Log
  login_all fw log [] = (fw, log)
  login_all fw log (a ∷ attempts) =
      let (fw', r) = login platform fw a.now a.drawn a.user_id a.api_key a.client_key in
      login_all fw' (granted (not (is_throttled r)) log a.client_key a.now.mono) attempts

  accept_unthrottled :
      (db : Database) (o : Option User) (matches : Bool) (ttl now : ℕ) (drawn : String)
      → is_throttled (accept platform.sha256 db o matches ttl drawn now) ≡ false
  unfolding accept open_session create_session
  accept_unthrottled db none matches ttl now drawn = refl
  accept_unthrottled db (some row) true ttl now drawn = ground arith
  accept_unthrottled db (some row) false ttl now drawn = refl

  login_unthrottled :
      (db : Database) (ttl now : ℕ) (user_id api_key drawn : String)
      → is_throttled (Authentication.login platform.sha256 db ttl user_id api_key drawn now) ≡ false
  unfolding Authentication.login find_user get_user
  login_unthrottled db ttl now user_id api_key drawn =
      bind_unthrottled (find_user platform.sha256 db user_id) _ (ground arith)
        (λ o. accept_unthrottled db o _ ttl now drawn)

  on_login_lem :
      (fw : Firewall) (now : Instant) (user_id : String)
      (r : Result (String × UserSession × Database))
      → ((on_login fw now user_id r).0.login_limiter ≡ fw.login_limiter)
        × (is_throttled (on_login fw now user_id r).1 ≡ is_throttled r)
  unfolding on_login audit_simple
  on_login_lem fw now user_id (ok (sid, u, db)) = (refl, refl)
  on_login_lem fw now user_id (raise (auth_error reason)) = (refl, refl)
  on_login_lem fw now user_id (raise (value_error reason)) = (refl, refl)
  on_login_lem fw now user_id (raise (permission_denied reason)) = (refl, refl)
  on_login_lem fw now user_id (raise (rate_limited n)) = (refl, refl)
  on_login_lem fw now user_id (raise db_error) = (refl, refl)
  on_login_lem fw now user_id (raise upstream_error) = (refl, refl)
  on_login_lem fw now user_id (raise cancelled) = (refl, refl)

  login_limit :
      (fw : Firewall) (now : Instant) (drawn user_id api_key client_key : String)
      → let t = login platform fw now drawn user_id api_key client_key in
        let c = RateLimiter.check fw.login_limiter client_key now.mono in
        (t.0.login_limiter ≡ c.0) × (not (is_throttled t.1) ≡ c.1.allowed)
  unfolding login audit_simple
  login_limit fw now drawn user_id api_key client_key =
      let e =
        login_unthrottled fw.db fw.policy.session_ttl_seconds now.wall user_id api_key drawn in
      let answer =
        Authentication.login platform.sha256 fw.db fw.policy.session_ttl_seconds user_id api_key
          drawn now.wall in
      let fw' : Firewall = record fw {
        login_limiter = (RateLimiter.check fw.login_limiter client_key now.mono).0;
      } in
      ground (arith, on_login_lem fw' now user_id answer, e)

  pub login_all-run :
      (fw : Firewall) (log : Log) (attempts : List Attempt)
      → (login_all fw log attempts).1 ≡ (run fw.login_limiter log (calls attempts)).1
  unfolding login_all run
  login_all-run fw log [] = refl
  login_all-run fw log (a ∷ attempts) =
      let (same, allowed) = login_limit fw a.now a.drawn a.user_id a.api_key a.client_key in
      let t = login platform fw a.now a.drawn a.user_id a.api_key a.client_key in
      login_all-run t.0 (granted (not (is_throttled t.1)) log a.client_key a.now.mono) attempts
      ∙ rw (same, allowed) refl

  -- Whatever is tried on a new firewall, with a clock that does not go back: for each client and
  -- each window of time, no more attempts than the policy's limit reach the check of the key; all
  -- others are turned away as rate-limited. The limit must be at least 1 and the window not empty.
  pub login_all-bounded :
      (policy : Policy) (db : Database) (attempts : List Attempt) (client : String) (at : ℕ)
      → 1 ≤ policy.login_rate_limit.max_requests
      → 0 < policy.login_rate_limit.window_seconds
      → InOrder 0 (calls attempts)
      → count_in policy.login_rate_limit.window_seconds at
          (times client (login_all (init policy db) [] attempts).1)
        ≤ policy.login_rate_limit.max_requests
  unfolding init RateLimiter.init
  login_all-bounded policy db attempts client at some_ pos o =
      rw (login_all-run (init policy db) [] attempts) (
        count_in-run-le policy.login_rate_limit.max_requests policy.login_rate_limit.window_seconds
          (init policy db).login_limiter (calls attempts) client at (ground arith) o)
