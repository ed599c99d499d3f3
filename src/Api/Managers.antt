-- ===== src/Api/Managers.antt =====
-- The routes of app/main.py that only a manager may use.
use agentic_firewall.Base.{
  ℕ, ◌≡◌, ◌≢◌, refl, ◌∙◌, ap, sym, String, Bool, true, false, Option, List, arith, in_range,
  if◌then◌else◌,
}
use agentic_firewall.Platform.{Platform}
use agentic_firewall.Result.{Error, Result, ok, raise}
use agentic_firewall.Models.Requests.{UserSession, ApprovalOutcome}
use agentic_firewall.Authentication.{validate}
use agentic_firewall.Authorization
use agentic_firewall.RateLimiter
use agentic_firewall.Gateway.{Firewall, Instant}
use agentic_firewall.Gateway.Pipeline.{Listing}
use agentic_firewall.Gateway.Tools.{authenticate, managing, require_manager}
use agentic_firewall.Api.{HttpResponse, http_error, excepted, guarded}
use agentic_firewall.Api.Routes.{
  ApproveBody, session_header, limit_of, approve_tools, approvals, get_policies, get_logs, logs_for,
}

module _ (platform : Platform) (now : Instant) (session_id : String) where
  -- The caller's session is valid, its user has room in the rate limit, and its role may manage.
  pub record IsManager (fw : Firewall) : Type 0 where
    pub session : UserSession
    pub valid : validate platform.sha256 fw.db session_id now.wall ≡ ok session
    pub within_rate : (RateLimiter.check fw.limiter session.user_id now.mono).1.allowed ≡ true
    pub manages : Authorization.can_manage fw.policy.roles session.role ≡ true

  authenticate_ok :
      (fw : Firewall) (s : UserSession) (r : Result UserSession)
      → (r ≡ validate platform.sha256 fw.db session_id now.wall)
      → (authenticate platform fw now session_id).1 ≡ ok s
      → (r ≡ ok s) × ((RateLimiter.check fw.limiter s.user_id now.mono).1.allowed ≡ true)
  unfolding authenticate
  authenticate_ok fw s (raise e) v h = ground (arith, v)
  authenticate_ok fw s (ok t) v h = ground (arith, v)

  policy-authenticate :
      (fw : Firewall) → (authenticate platform fw now session_id).0.policy ≡ fw.policy
  unfolding authenticate
  policy-authenticate fw = ground arith

  managing_ok :
      (fw : Firewall) (r : Result UserSession) (s : UserSession)
      → managing platform fw r ≡ ok s
      → (r ≡ ok s) × (Authorization.can_manage fw.policy.roles s.role ≡ true)
  managing_ok fw (raise e) s h = cc
  managing_ok fw (ok t) s h = (ground arith, ground arith)

  require_manager_ok :
      (fw : Firewall) (s : UserSession)
      → (require_manager platform fw now session_id).1 ≡ ok s
      → IsManager fw
  unfolding require_manager
  require_manager_ok fw s h =
      let (fw', r) = authenticate platform fw now session_id in
      let (known, manages) = managing_ok fw' r s h in
      let (valid, rate) =
        authenticate_ok fw s (validate platform.sha256 fw.db session_id now.wall) refl known in
      record {
        session = s;
        valid = valid;
        within_rate = rate;
        manages =
            ap (λ p. Authorization.can_manage p.roles s.role) (sym (policy-authenticate fw))
            ∙ manages;
      }

-- No answer to an exception has the status 200.
module _ (ceil : ℕ → ℕ) where
  http_error_bad :
      (e : Error) (resp : HttpResponse) → http_error ceil e ≡ ok resp → resp.status ≢ 200
  unfolding http_error
  http_error_bad e resp h good = ground arith

  excepted_bad :
      (catches : Error → Bool) (e : Error) (resp : HttpResponse)
      → excepted ceil catches e ≡ ok resp
      → resp.status ≢ 200
  unfolding excepted
  excepted_bad catches e resp h good = ground (arith, http_error_bad e resp)

  -- A route that is answered with 200 got through its guarded part.
  guarded_ok {ℓ} :
      {A : Type ℓ} (catches : Error → Bool) (then_ : A → HttpResponse) (r : Result A)
      (resp : HttpResponse)
      → guarded ceil catches then_ r ≡ ok resp
      → resp.status ≡ 200
      → (a : A) × (r ≡ ok a)
  unfolding guarded
  guarded_ok catches then_ (ok a) resp h good = (a, refl)
  guarded_ok catches then_ (raise e) resp h good = absurd (excepted_bad catches e resp h good)

module _ (platform : Platform) (ceil : ℕ → ℕ) (fw : Firewall) (now : Instant)
    (x_session_id : Option String) where
  -- An answer of one of the three routes that are for managers.
  pub data ManagerReply (fw' : Firewall) (resp : HttpResponse) : Type 0 where
    to_policies :
        get_policies platform ceil fw now x_session_id ≡ (fw', ok resp) → ManagerReply fw' resp
    to_logs :
        (limit : Option ℕ)
        → get_logs platform ceil fw now limit x_session_id ≡ (fw', ok resp)
        → ManagerReply fw' resp
    to_approvals :
        (listed_at : Instant) (body : ApproveBody) (listing : Listing)
        → approve_tools platform ceil fw now listed_at body x_session_id listing ≡ (fw', ok resp)
        → ManagerReply fw' resp

  checked : Result UserSession
  checked = (require_manager platform fw now (session_header x_session_id)).1

  logs_for_ok :
      (fw' : Firewall) (limit : ℕ) (r : Result UserSession) (resp : HttpResponse)
      → logs_for platform ceil fw' limit r ≡ ok resp
      → resp.status ≡ 200
      → (s : UserSession) × (r ≡ ok s)
  logs_for_ok fw' limit (ok s) resp h good = (s, refl)
  logs_for_ok fw' limit (raise e) resp h good = absurd (excepted_bad ceil _ e resp h good)

  -- The framework's refusal has another status.
  in_range_ok :
      (b : Bool) (t : Firewall × Result HttpResponse) (fw' : Firewall) (refusal resp : HttpResponse)
      → refusal.status ≡ 422
      → (if b then t else (fw, ok refusal)) ≡ (fw', ok resp)
      → resp.status ≡ 200
      → t.1 ≡ ok resp
  in_range_ok true t fw' refusal resp e h good = ap (λ p. p.1) h
  in_range_ok false t fw' refusal resp e h good = absurd (ground arith)

  get_logs_ok :
      (fw' : Firewall) (limit : Option ℕ) (resp : HttpResponse)
      → get_logs platform ceil fw now limit x_session_id ≡ (fw', ok resp)
      → resp.status ≡ 200
      → (s : UserSession) × (checked ≡ ok s)
  unfolding get_logs checked
  get_logs_ok fw' limit resp h good =
      logs_for_ok (require_manager platform fw now (session_header x_session_id)).0 (limit_of limit)
        _ resp (in_range_ok (in_range 1 500 (limit_of limit)) _ fw' _ resp refl h good) good

  approvals_ok :
      (fw' fw'' : Firewall) (listed_at : Instant) (names : Option (List String)) (listing : Listing)
      (r : Result UserSession) (os : List ApprovalOutcome)
      → (approvals platform ceil fw' listed_at names listing r).1 ≡ ok os
      → (s : UserSession) × (r ≡ ok s)
  approvals_ok fw' fw'' listed_at names listing (ok s) os h = (s, refl)
  approvals_ok fw' fw'' listed_at names listing (raise e) os h = cc

  ManagerReply-checked :
      (fw' : Firewall) (resp : HttpResponse)
      → ManagerReply fw' resp
      → resp.status ≡ 200
      → (s : UserSession) × (checked ≡ ok s)
  unfolding checked get_policies approve_tools
  ManagerReply-checked fw' resp (to_policies h) good =
      guarded_ok ceil _ _ _ resp (ap (λ p. p.1) h) good
  ManagerReply-checked fw' resp (to_logs limit h) good = get_logs_ok fw' limit resp h good
  ManagerReply-checked fw' resp (to_approvals listed_at body listing h) good =
      let (os, approved) = guarded_ok ceil _ _ _ resp (ap (λ p. p.1) h) good in
      approvals_ok _ fw' listed_at body.tools listing _ os approved

  -- Where `GET /api/policies`, `GET /api/logs` or `POST /api/tools/approve` answers with status 200,
  -- the caller's session is valid, its user had room in the rate limit, and its role may manage.
  pub ManagerReply-IsManager :
      (fw' : Firewall) (resp : HttpResponse)
      → ManagerReply fw' resp
      → resp.status ≡ 200
      → IsManager platform now (session_header x_session_id) fw
  unfolding checked
  ManagerReply-IsManager fw' resp m good =
      let (s, h) = ManagerReply-checked fw' resp m good in
      require_manager_ok platform now (session_header x_session_id) fw s h
