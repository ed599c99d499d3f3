-- ===== src/Api.antt =====
-- The HTTP routes and the command line of app/main.py. What a route gives back is a response, which
-- may be an `HTTPException`, or the exception that it lets through to the web framework. The JSON
-- forms of the bodies and the framework's own answers (to a malformed body, to an exception) are not
-- modelled, save the answer to a limit that is out of range.
pub mod Routes
pub mod Mediation
pub mod Managers
pub mod Accounts
mod Tests
use agentic_firewall.Base.{
  ℕ, String, Bool, true, false, Option, none, some, List, ltb, in_range, map, if◌then◌else◌,
}
use agentic_firewall.Dict.{Dict, lookup}
use agentic_firewall.Result.{
  Error, Result, ok, raise, auth_error, value_error, permission_denied, rate_limited,
}
use agentic_firewall.Models.Policies.{Policy, RolePolicy}
use agentic_firewall.Models.Events.{Stage, SecurityEvent}
use agentic_firewall.Models.Requests.{
  ToolInfo, ApprovalOutcome, GatewayResult, UserSession, is_allow,
}
use agentic_firewall.Database.{Database}
use agentic_firewall.Authentication.{register_user}

-- What a response holds: the model that the route dumps, the text of an error, or the framework's
-- report on a request that does not fit the route.
pub data Body : Type 0 where
  health : String → Body
  session : String → String → String → ℕ → Body
  tools : List ToolInfo → Body
  outcomes : List ApprovalOutcome → Body
  result : GatewayResult → Body
  active_policy : Policy → Body
  events : List SecurityEvent → Body
  detail : String → Body
  invalid_request : Body

-- `retry_after` is the number in the header `Retry-After`, if there is one.
pub record HttpResponse : Type 0 where
  pub status : ℕ
  pub body : Body
  pub retry_after : Option ℕ

abbrev pub reply : Body → HttpResponse
reply body = record { status = 200; body = body; retry_after = none }

abbrev pub http_exception : ℕ → String → HttpResponse
http_exception status text = record { status = status; body = detail text; retry_after = none }

-- `_STATUS_BY_STAGE.get(stage, 403)`
unfoldable pub status_by_stage : Stage → ℕ
status_by_stage Stage.authentication = 401
status_by_stage Stage.rate_limit = 429
status_by_stage Stage.validation = 400
status_by_stage Stage.authorization = 403
status_by_stage Stage.integrity = 403
status_by_stage Stage.input_scan = 403
status_by_stage Stage.output_scan = 403
status_by_stage Stage.circuit_breaker = 503
status_by_stage Stage.upstream = 502
status_by_stage Stage.internal = 500
status_by_stage stage = 403

-- except (AuthError, RateLimitExceeded)
abbrev pub catches_session : Error → Bool
catches_session (auth_error reason) = true
catches_session (rate_limited t) = true
catches_session e = false

-- except (AuthError, RateLimitExceeded, PermissionDenied)
abbrev pub catches_manager : Error → Bool
catches_manager (permission_denied reason) = true
catches_manager e = catches_session e

-- `ceil` is `math.ceil` of a duration, in whole seconds.
module _ (ceil : ℕ → ℕ) where
  -- `_retry_headers`; a duration of 0 is false.
  unfoldable pub retry_headers : Option ℕ → Option ℕ
  retry_headers none = none
  retry_headers (some t) = if ltb 0 t then some (if ltb (ceil t) 1 then 1 else ceil t) else none

  -- `_http_error`, which raises an exception that it does not know.
  unfoldable pub http_error : Error → Result HttpResponse
  http_error (auth_error reason) = ok (http_exception 401 reason)
  http_error (rate_limited t) =
      ok
        (record (http_exception 429 "rate limit exceeded") { retry_after = retry_headers (some t) })
  http_error (permission_denied reason) = ok (http_exception 403 reason)
  http_error e = raise e

  -- except ... as exc: raise _http_error(exc)
  unfoldable pub excepted : (Error → Bool) → Error → Result HttpResponse
  excepted catches e = if catches e then http_error e else raise e

  -- try: ... with that `except`
  unfoldable pub guarded {ℓ} :
      {A : Type ℓ} → (Error → Bool) → (A → HttpResponse) → Result A → Result HttpResponse
  unfolding excepted
  guarded catches then_ (ok a) = ok (then_ a)
  guarded catches then_ (raise e) = excepted catches e

-- What `create-user` prints, with the exit code 2 of the errors and 0 of the success.
pub data CreateUser : Type 0 where
  unknown_role : String → List String → CreateUser
  refused : String → CreateUser
  created : String → String → String → CreateUser

unfoldable pub exit_code : CreateUser → ℕ
exit_code (unknown_role role roles) = 2
exit_code (refused reason) = 2
exit_code (created user_id role api_key) = 0

abbrev pub role_names : Dict RolePolicy → List String
role_names roles = map (λ (p : String × RolePolicy). p.0) roles

-- The end of `create-user`: only a `ValueError` is caught.
abbrev pub registered :
    Database → String → String → String → Result Database → Database × Result CreateUser
registered db user_id role api_key (ok db') = (db', ok (created user_id role api_key))
registered db user_id role api_key (raise (value_error reason)) = (db, ok (refused reason))
registered db user_id role api_key (raise e) = (db, raise e)

-- `_cmd_create_user`, with the policy and the database that are loaded and the key that is drawn.
unfoldable pub cmd_create_user :
    (String → String) → Policy → Database → String → String → String → Database × Result CreateUser
cmd_create_user sha256 policy db user_id role api_key = elim (lookup role policy.roles) [
  | none ↦ (db, ok (unknown_role role (role_names policy.roles)))
  | some p ↦ registered db user_id role api_key (register_user sha256 db user_id role api_key)
]
