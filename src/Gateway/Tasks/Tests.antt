-- ===== src/Gateway/Tasks/Tests.antt =====
-- A request of app/firewall/gateway.py that starts, has its tools listed and waits for the reply,
-- and the theorems on it.
use agentic_firewall.Base.{◌≡◌, refl, ap, ◌+◌, ◌≤◌, arith, true, false, none, some, [], ◌∷◌, ◌++◌}
use agentic_firewall.Samples.{plain, policy, filled}
use agentic_firewall.Samples.Requests.{at_ten, good, request}
use agentic_firewall.Models.Policies.{low}
use agentic_firewall.Authentication.{validate}
use agentic_firewall.RateLimiter.Refinement.{times}
use agentic_firewall.RateLimiter.Bound.{count_in}
use agentic_firewall.CircuitBreaker.{fresh, allow, current}
use agentic_firewall.CircuitBreaker.Probe.{start}
use agentic_firewall.CircuitBreaker.Probe
use agentic_firewall.Gateway.{Instant, Ctx, init}
use agentic_firewall.Gateway.Pipeline.{listed, replied}
use agentic_firewall.Gateway.Handle.{handle, Exchange}
use agentic_firewall.Gateway.Pipeline.{receive}
use agentic_firewall.Gateway.Tasks.{
  World, fresh_world, let_through, started, inspected, concluded, listing, calling, starts,
  is_listed, is_answered, Reach, here, next,
}
use agentic_firewall.Gateway.Tasks.Alone.{turns, turns-handle}
use agentic_firewall.Gateway.Tasks.Effects.{calls_to}
use agentic_firewall.Gateway.Tasks.View.{view}
use agentic_firewall.Gateway.Tasks.Breakers.{simulates, recovers}
use agentic_firewall.Gateway.Tasks.Limits.{count_in-admitted-le}
use agentic_firewall.Gateway.Tasks.History.{Cleared, calling-Cleared}

abbrev ctx : Ctx
ctx = record { user_id = some "ann"; role = some "dev"; session_ref = some "s1"; risk = some low }

abbrev w0 : World
w0 = fresh_world (init policy filled)

abbrev w1 : World
w1 = record {
  fw = (started plain good request w0.fw).0;
  tasks = w0.tasks ++ (started plain good request w0.fw).1;
  admitted = let_through at_ten (receive plain at_ten request w0.fw) w0.admitted;
  last = 10;
}

abbrev w2 : World
w2 = record w1 {
  fw = (inspected plain good request ctx w1.fw).0;
  tasks = [] ++ ((inspected plain good request ctx w1.fw).1 ++ []);
}

abbrev w3 : World
w3 = record w2 {
  fw = (concluded plain good request ctx w2.fw).0;
  tasks = [] ++ ((concluded plain good request ctx w2.fw).1 ++ []);
}

-- It waits for the listing, then for the reply, and then no more, with the breaker as it was.
runs :
    (w1.tasks ≡ listing request ctx ∷ [])
    × (w2.tasks ≡ calling request ctx ∷ [])
    × (w3.tasks ≡ [])
    × (current w3.fw.breakers "list_files" ≡ fresh 2 30)
unfolding agentic_firewall.Gateway.Handle.pipeline agentic_firewall.Gateway.Handle.before_call
    agentic_firewall.Gateway.Pipeline.receive agentic_firewall.Authentication.validate
    agentic_firewall.Base.text_length agentic_firewall.Database.get_session
    agentic_firewall.Gateway.init agentic_firewall.Dict.lookup
    agentic_firewall.Gateway.Pipeline.count_request agentic_firewall.RateLimiter.check
    agentic_firewall.RateLimiter.drop_expired agentic_firewall.Gateway.Pipeline.authorize
    agentic_firewall.Gateway.is_tool_name agentic_firewall.Base.all_codes
    agentic_firewall.Authorization.check agentic_firewall.Risk.classify
    agentic_firewall.Gateway.Pipeline.inspect agentic_firewall.Audit.record_event
    agentic_firewall.Authentication.check_row agentic_firewall.Authorization.check_role
    agentic_firewall.Base.codes agentic_firewall.Base.text_take
    agentic_firewall.CircuitBreaker.allow agentic_firewall.CircuitBreaker.current
    agentic_firewall.CircuitBreaker.get agentic_firewall.CircuitBreaker.put
    agentic_firewall.CircuitBreaker.record_success agentic_firewall.Database.add_audit
    agentic_firewall.Database.get_fingerprint agentic_firewall.Database.join
    agentic_firewall.Dict.insert agentic_firewall.Gateway.Handle.respond
    agentic_firewall.Gateway.Pipeline.check_integrity agentic_firewall.Gateway.Pipeline.conclude
    agentic_firewall.Gateway.Pipeline.pass_breaker agentic_firewall.Gateway.Pipeline.release
    agentic_firewall.Gateway.Pipeline.scan_input agentic_firewall.Gateway.Pipeline.settle
    agentic_firewall.Gateway.audit_result agentic_firewall.Gateway.deny_result
    agentic_firewall.Integrity.approved_fingerprint agentic_firewall.Integrity.fingerprint
    agentic_firewall.Integrity.payload agentic_firewall.Integrity.verify
    agentic_firewall.Models.Events.Sanitize.blank_unsafe
    agentic_firewall.Models.Events.Sanitize.is_unsafe agentic_firewall.Models.Events.sanitize
    agentic_firewall.Models.Events.clean_event agentic_firewall.RateLimiter.admit
    agentic_firewall.RateLimiter.hits_of agentic_firewall.RateLimiter.sweep
    agentic_firewall.RateLimiter.swept agentic_firewall.Risk.classify_words
    agentic_firewall.Risk.is_among agentic_firewall.Risk.mark_camel agentic_firewall.Risk.meets
    agentic_firewall.Risk.same_word agentic_firewall.Risk.split_words agentic_firewall.Risk.words
    agentic_firewall.Scanner.Rules.rules_for agentic_firewall.Scanner.Walk.scan_value
    agentic_firewall.Scanner.Walk.walk agentic_firewall.Scanner.apply_rules
    agentic_firewall.Scanner.collapse agentic_firewall.Scanner.decimal
    agentic_firewall.Scanner.give_up agentic_firewall.Scanner.has_flagged
    agentic_firewall.Scanner.is_flagged agentic_firewall.Scanner.is_space
    agentic_firewall.Scanner.is_stripped agentic_firewall.Scanner.normalize
    agentic_firewall.Scanner.scan_string agentic_firewall.Scanner.scan_text
runs = (refl, refl, refl, refl)

on_the_way : Reach plain w0 w2
on_the_way =
    next (next here (starts good request (omega arith) refl))
      (is_listed good request ctx [] [] runs.0 refl)

all_the_way : Reach plain w0 w3
all_the_way = next on_the_way (is_answered good request ctx [] [] runs.1 refl)

calling-Cleared_example : Cleared plain w0 request w2
calling-Cleared_example = calling-Cleared plain w0 w2 request ctx [] [] refl on_the_way runs.1

count_in-admitted-le_example : count_in 60 10 (times "ann" w3.admitted) ≤ 2
count_in-admitted-le_example = count_in-admitted-le plain policy filled "ann" 10 all_the_way

simulates_example : Probe.Reach (start 2 30) (view "list_files" w2.fw.breakers w2.tasks)
simulates_example = simulates plain policy filled "list_files" on_the_way

recovers_example : (allow (current w3.fw.breakers "list_files") 99).1 ≡ true
recovers_example =
    recovers plain policy filled "list_files" 99 (omega arith) all_the_way
      (ap (λ ts. calls_to "list_files" ts) runs.2)
      (omega (arith, ap (λ b. b.opened_at + b.cooldown) runs.3))

turns-handle_run :
    turns plain good (started plain good request w0.fw) ≡ (handle plain good request w0.fw).0
turns-handle_run = turns-handle plain good request w0.fw
