-- ===== src/Gateway/Tests.antt =====
-- One request through the gateway, allowed and refused, and the theorems on it.
use agentic_firewall.Base.{
  true, ◌≡◌, refl, arith, text_length, String, false, Option, none, some, [], ◌∷◌,
}
use agentic_firewall.Samples.{plain, filled}
use agentic_firewall.Samples.Requests.{at_ten, files, good, request, fw0}
use agentic_firewall.Models.Events.{allow, deny, Stage}
use agentic_firewall.Models.Requests.{GatewayResult}
use agentic_firewall.Database.{Database}
use agentic_firewall.Integrity.{fingerprint}
use agentic_firewall.CircuitBreaker.{half_open, fresh, current}
use agentic_firewall.Gateway.Settling.{breaker_of, Answered, handle-half_open, handle-settles}
use agentic_firewall.Gateway.{Firewall, Instant, init, deny_result, no_ctx}
use agentic_firewall.Gateway.Pipeline.{listed, replied, call_failed}
use agentic_firewall.Gateway.Handle.{Exchange, before_call, handle}
use agentic_firewall.Gateway.Allowed.{Cleared, Delivered}
use agentic_firewall.Gateway.Responses.{handle-allow, handle-deny}
use agentic_firewall.Gateway.Complete.{Harmless, handle-allows}
use agentic_firewall.Gateway.Auditing.{event_of, appended, handle-audits, handle-closed}

abbrev failing : Exchange
failing = record good { reply = call_failed }

abbrev result : GatewayResult
result = record {
  decision = allow;
  stage = Stage.allowed;
  reason = "allowed";
  tool = "list_files";
  user_id = some "ann";
  role = some "dev";
  risk = some "LOW";
  latency_ms = 3;
  retry_after = none;
  response = some files;
}

allowed_run : (handle plain good request fw0).1 ≡ some result
unfolding handle agentic_firewall.Gateway.Handle.pipeline
    agentic_firewall.Gateway.Handle.before_call agentic_firewall.Gateway.Pipeline.receive
    agentic_firewall.Authentication.validate agentic_firewall.Base.text_length
    agentic_firewall.Database.get_session init agentic_firewall.Dict.lookup
    agentic_firewall.Gateway.Pipeline.count_request agentic_firewall.RateLimiter.check
    agentic_firewall.RateLimiter.drop_expired agentic_firewall.Gateway.Pipeline.authorize
    agentic_firewall.Gateway.is_tool_name agentic_firewall.Base.all_codes
    agentic_firewall.Authorization.check agentic_firewall.Risk.classify
    agentic_firewall.Gateway.Pipeline.inspect agentic_firewall.Audit.record_event
    agentic_firewall.Authentication.check_row agentic_firewall.Authorization.check_role
    agentic_firewall.Base.codes agentic_firewall.Base.text_take
    agentic_firewall.CircuitBreaker.allow agentic_firewall.CircuitBreaker.current
    agentic_firewall.CircuitBreaker.get agentic_firewall.CircuitBreaker.put
    agentic_firewall.CircuitBreaker.record_success agentic_firewall.Database.add_audit
    agentic_firewall.Database.get_fingerprint agentic_firewall.Database.join
    agentic_firewall.Dict.insert agentic_firewall.Gateway.Handle.respond
    agentic_firewall.Gateway.Pipeline.check_integrity agentic_firewall.Gateway.Pipeline.conclude
    agentic_firewall.Gateway.Pipeline.pass_breaker agentic_firewall.Gateway.Pipeline.release
    agentic_firewall.Gateway.Pipeline.scan_input agentic_firewall.Gateway.Pipeline.settle
    agentic_firewall.Gateway.audit_result deny_result
    agentic_firewall.Integrity.approved_fingerprint fingerprint agentic_firewall.Integrity.payload
    agentic_firewall.Integrity.verify agentic_firewall.Models.Events.Sanitize.blank_unsafe
    agentic_firewall.Models.Events.Sanitize.is_unsafe agentic_firewall.Models.Events.sanitize
    agentic_firewall.Models.Events.clean_event agentic_firewall.RateLimiter.admit
    agentic_firewall.RateLimiter.hits_of agentic_firewall.RateLimiter.sweep
    agentic_firewall.RateLimiter.swept agentic_firewall.Risk.classify_words
    agentic_firewall.Risk.is_among agentic_firewall.Risk.mark_camel agentic_firewall.Risk.meets
    agentic_firewall.Risk.same_word agentic_firewall.Risk.split_words agentic_firewall.Risk.words
    agentic_firewall.Scanner.Rules.rules_for agentic_firewall.Scanner.Walk.scan_value
    agentic_firewall.Scanner.Walk.walk agentic_firewall.Scanner.apply_rules
    agentic_firewall.Scanner.collapse agentic_firewall.Scanner.decimal
    agentic_firewall.Scanner.give_up agentic_firewall.Scanner.has_flagged
    agentic_firewall.Scanner.is_flagged agentic_firewall.Scanner.is_space
    agentic_firewall.Scanner.is_stripped agentic_firewall.Scanner.normalize
    agentic_firewall.Scanner.scan_string agentic_firewall.Scanner.scan_text
allowed_run = refl

handle-allow_example :
    Cleared plain good request fw0 × Delivered plain at_ten request 1000 (replied files) result
unfolding init
handle-allow_example =
    handle-allow plain good request fw0 (handle plain good request fw0).0 result
      (λ i. ((handle plain good request fw0).0, allowed_run i)) refl

harmless : Harmless plain fw0.policy files
unfolding init agentic_firewall.Base.codes agentic_firewall.Base.text_length
    agentic_firewall.Scanner.Rules.rules_for agentic_firewall.Scanner.Walk.scan_value
    agentic_firewall.Scanner.Walk.walk agentic_firewall.Scanner.apply_rules
    agentic_firewall.Scanner.collapse agentic_firewall.Scanner.decimal
    agentic_firewall.Scanner.give_up agentic_firewall.Scanner.has_flagged
    agentic_firewall.Scanner.is_flagged agentic_firewall.Scanner.is_space
    agentic_firewall.Scanner.is_stripped agentic_firewall.Scanner.normalize
    agentic_firewall.Scanner.scan_string agentic_firewall.Scanner.scan_text
harmless = refl

cleared : Cleared plain good request fw0
cleared =
    (handle-allow plain good request fw0 (handle plain good request fw0).0 result
      (λ i. ((handle plain good request fw0).0, allowed_run i)) refl).0

handle-allows_example :
    (r : GatewayResult) × ((handle plain good request fw0).1 ≡ some r)
    × (r.decision ≡ allow)
    × (r.response ≡ some files)
handle-allows_example = handle-allows plain good request fw0 files cleared refl harmless

handle-audits_example :
    (session_ref : Option String) × ((handle plain good request fw0).0.db
      ≡ appended plain good request filled (event_of plain good request result session_ref))
unfolding init
handle-audits_example =
    handle-audits plain good request fw0 (handle plain good request fw0).0 result refl
      (λ i. ((handle plain good request fw0).0, allowed_run i))

abbrev failed : GatewayResult
failed = record result {
  decision = deny;
  stage = Stage.upstream;
  reason = "upstream call failed";
  response = none;
}

failing_run : (handle plain failing request fw0).1 ≡ some failed
unfolding handle agentic_firewall.Gateway.Handle.pipeline
    agentic_firewall.Gateway.Handle.before_call agentic_firewall.Gateway.Pipeline.receive
    agentic_firewall.Authentication.validate agentic_firewall.Base.text_length
    agentic_firewall.Database.get_session init agentic_firewall.Dict.lookup
    agentic_firewall.Gateway.Pipeline.count_request agentic_firewall.RateLimiter.check
    agentic_firewall.RateLimiter.drop_expired agentic_firewall.Gateway.Pipeline.authorize
    agentic_firewall.Gateway.is_tool_name agentic_firewall.Base.all_codes
    agentic_firewall.Authorization.check agentic_firewall.Risk.classify
    agentic_firewall.Gateway.Pipeline.inspect agentic_firewall.Audit.record_event
    agentic_firewall.Authentication.check_row agentic_firewall.Authorization.check_role
    agentic_firewall.Base.codes agentic_firewall.Base.text_take
    agentic_firewall.CircuitBreaker.allow agentic_firewall.CircuitBreaker.current
    agentic_firewall.CircuitBreaker.get agentic_firewall.CircuitBreaker.put
    agentic_firewall.CircuitBreaker.record_success agentic_firewall.Database.add_audit
    agentic_firewall.Database.get_fingerprint agentic_firewall.Database.join
    agentic_firewall.Dict.insert agentic_firewall.Gateway.Handle.respond
    agentic_firewall.Gateway.Pipeline.check_integrity agentic_firewall.Gateway.Pipeline.conclude
    agentic_firewall.Gateway.Pipeline.pass_breaker agentic_firewall.Gateway.Pipeline.release
    agentic_firewall.Gateway.Pipeline.scan_input agentic_firewall.Gateway.Pipeline.settle
    agentic_firewall.Gateway.audit_result deny_result
    agentic_firewall.Integrity.approved_fingerprint fingerprint agentic_firewall.Integrity.payload
    agentic_firewall.Integrity.verify agentic_firewall.Models.Events.Sanitize.blank_unsafe
    agentic_firewall.Models.Events.Sanitize.is_unsafe agentic_firewall.Models.Events.sanitize
    agentic_firewall.Models.Events.clean_event agentic_firewall.RateLimiter.admit
    agentic_firewall.RateLimiter.hits_of agentic_firewall.RateLimiter.sweep
    agentic_firewall.RateLimiter.swept agentic_firewall.Risk.classify_words
    agentic_firewall.Risk.is_among agentic_firewall.Risk.mark_camel agentic_firewall.Risk.meets
    agentic_firewall.Risk.same_word agentic_firewall.Risk.split_words agentic_firewall.Risk.words
    agentic_firewall.Scanner.Rules.rules_for agentic_firewall.Scanner.Walk.scan_value
    agentic_firewall.Scanner.Walk.walk agentic_firewall.Scanner.apply_rules
    agentic_firewall.Scanner.collapse agentic_firewall.Scanner.decimal
    agentic_firewall.Scanner.give_up agentic_firewall.Scanner.has_flagged
    agentic_firewall.Scanner.is_flagged agentic_firewall.Scanner.is_space
    agentic_firewall.Scanner.is_stripped agentic_firewall.Scanner.normalize
    agentic_firewall.Scanner.scan_string agentic_firewall.Scanner.scan_text
    agentic_firewall.CircuitBreaker.record_failure agentic_firewall.CircuitBreaker.trip
failing_run = refl

handle-deny_run : failed.response ≡ none
handle-deny_run =
    handle-deny plain failing request fw0 (handle plain failing request fw0).0 failed
      (λ i. ((handle plain failing request fw0).0, failing_run i)) refl

abbrev closed_fw : Firewall
closed_fw = record fw0 { db = record filled { connected = false } }

handle-closed_example : handle plain good request closed_fw ≡ (
  closed_fw,
  some
      (record (deny_result request no_ctx Stage.internal
        "internal error; request denied (fail closed)" none) { latency_ms = 3 }),
)
unfolding init text_length
handle-closed_example = handle-closed plain good request closed_fw refl (λ e. cc) (omega arith)

-- A breaker whose probe is in flight.
abbrev probing : Firewall
probing = record fw0 {
  breakers = record {
    threshold = 2;
    cooldown = 30;
    breakers =
        ("list_files", record (fresh 2 30) { state = half_open; probe_in_flight = true }) ∷ [];
  };
}

probing_run :
    (current (handle plain good request probing).0.breakers "list_files").state ≡ half_open
unfolding handle agentic_firewall.Gateway.Handle.pipeline
    agentic_firewall.Gateway.Handle.before_call agentic_firewall.Gateway.Pipeline.receive
    agentic_firewall.Authentication.validate agentic_firewall.Base.text_length
    agentic_firewall.Database.get_session init agentic_firewall.Dict.lookup
    agentic_firewall.Gateway.Pipeline.count_request agentic_firewall.RateLimiter.check
    agentic_firewall.RateLimiter.drop_expired agentic_firewall.Gateway.Pipeline.authorize
    agentic_firewall.Gateway.is_tool_name agentic_firewall.Base.all_codes
    agentic_firewall.Authorization.check agentic_firewall.Risk.classify
    agentic_firewall.Gateway.Pipeline.inspect agentic_firewall.Audit.record_event
    agentic_firewall.Authentication.check_row agentic_firewall.Authorization.check_role
    agentic_firewall.Base.codes agentic_firewall.Base.text_take
    agentic_firewall.CircuitBreaker.allow agentic_firewall.CircuitBreaker.current
    agentic_firewall.CircuitBreaker.get agentic_firewall.CircuitBreaker.put
    agentic_firewall.CircuitBreaker.record_success agentic_firewall.Database.add_audit
    agentic_firewall.Database.get_fingerprint agentic_firewall.Database.join
    agentic_firewall.Dict.insert agentic_firewall.Gateway.Handle.respond
    agentic_firewall.Gateway.Pipeline.check_integrity agentic_firewall.Gateway.Pipeline.conclude
    agentic_firewall.Gateway.Pipeline.pass_breaker agentic_firewall.Gateway.Pipeline.release
    agentic_firewall.Gateway.Pipeline.scan_input agentic_firewall.Gateway.Pipeline.settle
    agentic_firewall.Gateway.audit_result deny_result
    agentic_firewall.Integrity.approved_fingerprint fingerprint agentic_firewall.Integrity.payload
    agentic_firewall.Integrity.verify agentic_firewall.Models.Events.Sanitize.blank_unsafe
    agentic_firewall.Models.Events.Sanitize.is_unsafe agentic_firewall.Models.Events.sanitize
    agentic_firewall.Models.Events.clean_event agentic_firewall.RateLimiter.admit
    agentic_firewall.RateLimiter.hits_of agentic_firewall.RateLimiter.sweep
    agentic_firewall.RateLimiter.swept agentic_firewall.Risk.classify_words
    agentic_firewall.Risk.is_among agentic_firewall.Risk.mark_camel agentic_firewall.Risk.meets
    agentic_firewall.Risk.same_word agentic_firewall.Risk.split_words agentic_firewall.Risk.words
    agentic_firewall.Scanner.Rules.rules_for agentic_firewall.Scanner.Walk.scan_value
    agentic_firewall.Scanner.Walk.walk agentic_firewall.Scanner.apply_rules
    agentic_firewall.Scanner.collapse agentic_firewall.Scanner.decimal
    agentic_firewall.Scanner.give_up agentic_firewall.Scanner.has_flagged
    agentic_firewall.Scanner.is_flagged agentic_firewall.Scanner.is_space
    agentic_firewall.Scanner.is_stripped agentic_firewall.Scanner.normalize
    agentic_firewall.Scanner.scan_string agentic_firewall.Scanner.scan_text
    agentic_firewall.CircuitBreaker.retry_after
probing_run = refl

handle-half_open_run : (current probing.breakers "list_files").state ≡ half_open
handle-half_open_run = handle-half_open request plain good probing probing_run

handle-settles_example :
    Answered request plain failing fw0
      (before_call plain failing request fw0).2
      (breaker_of request (handle plain failing request fw0).0)
handle-settles_example = handle-settles request plain failing fw0
