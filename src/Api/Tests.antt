-- ===== src/Api/Tests.antt =====
-- Runs of the routes of app/main.py, and the theorems on them.
use agentic_firewall.Base.{
  ℕ, ◌≤◌, ◌≡◌, ◌≢◌, refl, ap, String, true, false, none, some, [], ◌∷◌, arith,
}
use agentic_firewall.Json.{no_fields, field, text}
use agentic_firewall.Result.{Result, ok}
use agentic_firewall.Samples.{plain, policy, filled}
use agentic_firewall.Samples.Requests.{at_ten, files, good, fw0}
use agentic_firewall.Models.Events.{allow, deny, Stage}
use agentic_firewall.Models.Policies.{Policy, low}
use agentic_firewall.Models.Requests.{GatewayResult}
use agentic_firewall.Database.{Database}
use agentic_firewall.Gateway.{Firewall, init}
use agentic_firewall.Gateway.Pipeline.{call_failed}
use agentic_firewall.Gateway.Handle.{Exchange}
use agentic_firewall.Gateway.Allowed.{Cleared, Delivered}
use agentic_firewall.Api.{
  Body, session, result, active_policy, HttpResponse, reply, CreateUser, created, cmd_create_user,
}
use agentic_firewall.Api.Routes.{RequestBody, LoginBody, tool_request, get_policies, create_session}
use agentic_firewall.Api.Mediation.{request_of, tool_request-ok, tool_request-refused}
use agentic_firewall.Api.Managers.{IsManager, to_policies, ManagerReply-IsManager}
use agentic_firewall.Api.Accounts.{create_session-cmd_create_user}

-- A duration of one tick is one second.
abbrev ceil : ℕ → ℕ
ceil n = n

abbrev body : RequestBody
body = record { tool = "list_files"; arguments = field "dir" (text "docs") no_fields }

abbrev failing : Exchange
failing = record good { reply = call_failed }

abbrev allowed_result : GatewayResult
allowed_result = record {
  decision = allow;
  stage = Stage.allowed;
  reason = "allowed";
  tool = "list_files";
  user_id = some "ann";
  role = some "dev";
  risk = some "LOW";
  latency_ms = 3;
  retry_after = none;
  response = some files;
}

abbrev failed_result : GatewayResult
failed_result = record allowed_result {
  decision = deny;
  stage = Stage.upstream;
  reason = "upstream call failed";
  response = none;
}

abbrev served : Firewall × Result HttpResponse
served = tool_request plain ceil fw0 good body (some "s1")

abbrev unserved : Firewall × Result HttpResponse
unserved = tool_request plain ceil fw0 failing body (some "s1")

abbrev bad_gateway : HttpResponse
bad_gateway = record { status = 502; body = result failed_result; retry_after = none }

tool_request_run : (served.1 ≡ ok (reply (result allowed_result))) × (unserved.1 ≡ ok bad_gateway)
unfolding agentic_firewall.Api.Routes.tool_request agentic_firewall.Api.Routes.result_response
    agentic_firewall.Api.retry_headers agentic_firewall.Api.status_by_stage
    agentic_firewall.Gateway.Handle.handle agentic_firewall.Gateway.Handle.pipeline
    agentic_firewall.Gateway.Handle.before_call agentic_firewall.Gateway.Pipeline.receive
    agentic_firewall.Authentication.validate agentic_firewall.Base.text_length
    agentic_firewall.Database.get_session agentic_firewall.Gateway.init agentic_firewall.Dict.lookup
    agentic_firewall.Gateway.Pipeline.count_request agentic_firewall.RateLimiter.check
    agentic_firewall.RateLimiter.drop_expired agentic_firewall.Gateway.Pipeline.authorize
    agentic_firewall.Gateway.is_tool_name agentic_firewall.Base.all_codes
    agentic_firewall.Authorization.check agentic_firewall.Risk.classify
    agentic_firewall.Gateway.Pipeline.inspect agentic_firewall.Audit.record_event
    agentic_firewall.Authentication.check_row agentic_firewall.Authorization.check_role
    agentic_firewall.Base.codes agentic_firewall.Base.text_take
    agentic_firewall.CircuitBreaker.allow agentic_firewall.CircuitBreaker.current
    agentic_firewall.CircuitBreaker.get agentic_firewall.CircuitBreaker.put
    agentic_firewall.CircuitBreaker.record_success agentic_firewall.Database.add_audit
    agentic_firewall.Database.get_fingerprint agentic_firewall.Database.join
    agentic_firewall.Dict.insert agentic_firewall.Gateway.Handle.respond
    agentic_firewall.Gateway.Pipeline.check_integrity agentic_firewall.Gateway.Pipeline.conclude
    agentic_firewall.Gateway.Pipeline.pass_breaker agentic_firewall.Gateway.Pipeline.release
    agentic_firewall.Gateway.Pipeline.scan_input agentic_firewall.Gateway.Pipeline.settle
    agentic_firewall.Gateway.audit_result agentic_firewall.Gateway.deny_result
    agentic_firewall.Integrity.approved_fingerprint agentic_firewall.Integrity.fingerprint
    agentic_firewall.Integrity.payload agentic_firewall.Integrity.verify
    agentic_firewall.Models.Events.Sanitize.blank_unsafe
    agentic_firewall.Models.Events.Sanitize.is_unsafe agentic_firewall.Models.Events.sanitize
    agentic_firewall.Models.Events.clean_event agentic_firewall.RateLimiter.admit
    agentic_firewall.RateLimiter.hits_of agentic_firewall.RateLimiter.sweep
    agentic_firewall.RateLimiter.swept agentic_firewall.Risk.classify_words
    agentic_firewall.Risk.is_among agentic_firewall.Risk.mark_camel agentic_firewall.Risk.meets
    agentic_firewall.Risk.same_word agentic_firewall.Risk.split_words agentic_firewall.Risk.words
    agentic_firewall.Scanner.Rules.rules_for agentic_firewall.Scanner.Walk.scan_value
    agentic_firewall.Scanner.Walk.walk agentic_firewall.Scanner.apply_rules
    agentic_firewall.Scanner.collapse agentic_firewall.Scanner.decimal
    agentic_firewall.Scanner.give_up agentic_firewall.Scanner.has_flagged
    agentic_firewall.Scanner.is_flagged agentic_firewall.Scanner.is_space
    agentic_firewall.Scanner.is_stripped agentic_firewall.Scanner.normalize
    agentic_firewall.Scanner.scan_string agentic_firewall.Scanner.scan_text
tool_request_run = (refl, refl)

tool_request-ok_example :
    Cleared plain good (request_of body (some "s1")) fw0
    × ((r : GatewayResult) × (result allowed_result ≡ result r)
        × Delivered plain at_ten (request_of body (some "s1")) 1000 good.reply r)
unfolding init
tool_request-ok_example =
    tool_request-ok plain ceil fw0 served.0 good body (some "s1") (reply (result allowed_result))
      (ap (λ r. (served.0, r)) tool_request_run.0) refl

tool_request-refused_example :
    (400 ≤ 502)
    × (502 ≤ 503)
    × ((r : GatewayResult) × (result failed_result ≡ result r) × (r.response ≡ none))
tool_request-refused_example =
    tool_request-refused plain ceil fw0 unserved.0 failing body (some "s1") bad_gateway
      (ap (λ r. (unserved.0, r)) tool_request_run.1) (omega arith)

abbrev managed : Policy
managed = record policy {
  roles = ("dev", record { allowed_tools = []; max_risk = low; can_manage = true }) ∷ [];
}

abbrev fw1 : Firewall
fw1 = init managed filled

abbrev shown : Firewall × Result HttpResponse
shown = get_policies plain ceil fw1 at_ten (some "s1")

get_policies_run : shown.1 ≡ ok (reply (active_policy managed))
unfolding agentic_firewall.Api.Routes.get_policies agentic_firewall.Api.guarded
    agentic_firewall.Gateway.Tools.require_manager agentic_firewall.Gateway.Tools.authenticate
    agentic_firewall.Authorization.can_manage agentic_firewall.Authentication.validate
    agentic_firewall.Base.text_length agentic_firewall.Database.get_session
    agentic_firewall.Gateway.init agentic_firewall.Dict.lookup agentic_firewall.RateLimiter.check
    agentic_firewall.RateLimiter.drop_expired agentic_firewall.Base.all_codes
    agentic_firewall.Authorization.check agentic_firewall.Authentication.check_row
    agentic_firewall.Authorization.check_role agentic_firewall.Base.codes
    agentic_firewall.Base.text_take agentic_firewall.Database.add_audit
    agentic_firewall.Database.get_fingerprint agentic_firewall.Database.join
    agentic_firewall.Dict.insert agentic_firewall.RateLimiter.admit
    agentic_firewall.RateLimiter.hits_of agentic_firewall.RateLimiter.sweep
    agentic_firewall.RateLimiter.swept
get_policies_run = refl

ManagerReply-IsManager_example : IsManager plain at_ten "s1" fw1
ManagerReply-IsManager_example =
    ManagerReply-IsManager plain ceil fw1 at_ten (some "s1") shown.0 (reply (active_policy managed))
      (to_policies (ap (λ r. (shown.0, r)) get_policies_run)) refl

abbrev with_bob : Database × Result CreateUser
with_bob = cmd_create_user plain.sha256 policy filled "bob" "dev" "a key of some length"

cmd_create_user_run : with_bob.1 ≡ ok (created "bob" "dev" "a key of some length")
unfolding cmd_create_user agentic_firewall.Authentication.register_user
    agentic_firewall.Authentication.is_user_id agentic_firewall.Database.add_user
    agentic_firewall.Dict.lookup agentic_firewall.Dict.insert agentic_firewall.Base.text_length
    agentic_firewall.Base.all_codes agentic_firewall.Base.codes
cmd_create_user_run = refl

create_session-cmd_create_user_example :
    (create_session plain ceil
      (init policy with_bob.0)
      at_ten
      "s2"
      (record { user_id = "bob"; api_key = "a key of some length" })
      none).1
    ≡ ok (reply (session "s2" "bob" "dev" 3610))
unfolding init agentic_firewall.Api.exit_code agentic_firewall.Dict.lookup
    agentic_firewall.RateLimiter.check agentic_firewall.RateLimiter.drop_expired
    agentic_firewall.Base.text_take
create_session-cmd_create_user_example =
    create_session-cmd_create_user plain ceil policy filled with_bob.0 "bob" "dev"
      "a key of some length" "s2" (created "bob" "dev" "a key of some length")
      (init policy with_bob.0) at_ten none (ap (λ r. (with_bob.0, r)) cmd_create_user_run) refl refl
      refl refl
