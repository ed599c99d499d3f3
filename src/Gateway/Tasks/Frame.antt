-- ===== src/Gateway/Tasks/Frame.antt =====
-- What the calls of app/firewall/gateway.py that are no tool calls leave as it was: the policy, the
-- rate limiter of requests and the circuit breakers.
use agentic_firewall.Base.{
  ℕ, ◌≡◌, refl, ◌∙◌, String, Option, none, some, List, [], ◌∷◌, arith, Bool-cases, inl, inr,
}
use agentic_firewall.Dict.{Dict, lookup}
use agentic_firewall.Platform.{Platform}
use agentic_firewall.Result.{Result, ok, raise, auth_error}
use agentic_firewall.Models.Policies.{Policy}
use agentic_firewall.Models.Requests.{ToolDefinition, UserSession, ApprovalOutcome}
use agentic_firewall.Database.{Database, upsert_fingerprint, add_audit}
use agentic_firewall.Audit.{record_event}
use agentic_firewall.Authorization
use agentic_firewall.Integrity.{approve}
use agentic_firewall.RateLimiter
use agentic_firewall.RateLimiter.{SlidingWindowRateLimiter}
use agentic_firewall.CircuitBreaker.{CircuitBreakerRegistry}
use agentic_firewall.Gateway.{Firewall, Instant, audit_simple}
use agentic_firewall.Gateway.Pipeline.{Listing}
use agentic_firewall.Gateway.Login.{login, on_login}
use agentic_firewall.Gateway.Wanted.{count_of}
use agentic_firewall.Gateway.Approve.{
  approve_one, decide, decided, record_outcome, add_outcome, approve_all, approve_fetched,
  approve_tools,
}

abbrev pub shared : Firewall → Policy × SlidingWindowRateLimiter × CircuitBreakerRegistry
shared fw = (fw.policy, fw.limiter, fw.breakers)

module _ (platform : Platform) where
  shared-on_login :
      (fw : Firewall) (now : Instant) (user_id : String)
      (r : Result (String × UserSession × Database))
      → shared (on_login fw now user_id r).0 ≡ shared fw
  unfolding on_login audit_simple
  shared-on_login fw now user_id (ok t) = refl
  shared-on_login fw now user_id (raise (auth_error reason)) = refl
  shared-on_login fw now user_id (raise e) = refl

  pub shared-login :
      (fw : Firewall) (now : Instant) (drawn user_id api_key client_key : String)
      → shared (login platform fw now drawn user_id api_key client_key).0 ≡ shared fw
  unfolding login audit_simple
  shared-login fw now drawn user_id api_key client_key =
      elim (Bool-cases (RateLimiter.check fw.login_limiter client_key now.mono).1.allowed) [
        | inl room ↦ rw room (shared-on_login _ now user_id _)
        | inr full ↦ rw full refl
      ]

  shared-approve_one :
      (fw fw' : Firewall) (now : Instant) (d : ToolDefinition) (u : UserSession)
      (o : ApprovalOutcome)
      → approve_one platform fw now d u ≡ ok (o, fw')
      → shared fw' ≡ shared fw
  unfolding approve_one approve upsert_fingerprint
  shared-approve_one fw fw' now d u o h = ground arith

  shared-decide :
      (fw fw' : Firewall) (now : Instant) (u : UserSession) (found : Option ToolDefinition) (n : ℕ)
      (name : String) (o : ApprovalOutcome)
      → decide platform fw now u found n name ≡ ok (o, fw')
      → shared fw' ≡ shared fw
  unfolding decide
  shared-decide fw fw' now u none n name o h = ground arith
  shared-decide fw fw' now u (some d) n name o h =
      ground (arith, shared-approve_one fw fw' now d u o)

  shared-decided_ok :
      (fw fw' : Firewall) (now : Instant) (u : UserSession) (name : String) (o : ApprovalOutcome)
      → shared (decided platform fw now u name (ok (o, fw'))).0 ≡ shared fw'
  unfolding record_outcome record_event add_audit
  shared-decided_ok fw fw' now u name o = ground arith

  shared-decided :
      (fw : Firewall) (now : Instant) (u : UserSession) (name : String)
      (r : Result (ApprovalOutcome × Firewall))
      → ((o : ApprovalOutcome) (fw' : Firewall) → r ≡ ok (o, fw') → shared fw' ≡ shared fw)
      → shared (decided platform fw now u name r).0 ≡ shared fw
  shared-decided fw now u name (raise e) h = refl
  shared-decided fw now u name (ok (o, fw')) h =
      shared-decided_ok fw fw' now u name o ∙ h o fw' refl

  shared-add_outcome :
      (fw : Firewall) (r : Result ApprovalOutcome) (t : Firewall × Result (List ApprovalOutcome))
      → shared t.0 ≡ shared fw
      → shared (add_outcome platform fw r t).0 ≡ shared fw
  shared-add_outcome fw (raise e) t h = refl
  shared-add_outcome fw (ok o) (fw', raise e) h = h
  shared-add_outcome fw (ok o) (fw', ok os) h = h

  shared-approve_all :
      (fw : Firewall) (now : Instant) (u : UserSession) (by_name : Dict ToolDefinition)
      (counts : Dict ℕ) (names : List String)
      → shared (approve_all platform fw now u by_name counts names).0 ≡ shared fw
  unfolding approve_all
  shared-approve_all fw now u by_name counts [] = refl
  shared-approve_all fw now u by_name counts (name ∷ names) =
      let r = decide platform fw now u (lookup name by_name) (count_of (lookup name counts)) name in
      let t = decided platform fw now u name r in
      shared-add_outcome t.0 t.1 (approve_all platform t.0 now u by_name counts names)
        (shared-approve_all t.0 now u by_name counts names)
      ∙ shared-decided fw now u name r (λ o fw' e. shared-decide fw fw' now u _ _ name o e)

  shared-approve_fetched :
      (fw : Firewall) (now : Instant) (u : UserSession) (names : Option (List String))
      (r : Result (List ToolDefinition))
      → shared (approve_fetched platform fw now u names r).0 ≡ shared fw
  shared-approve_fetched fw now u names (raise e) = refl
  shared-approve_fetched fw now u names (ok tools) = shared-approve_all fw now u _ _ _

  pub shared-approve_tools :
      (fw : Firewall) (now : Instant) (u : UserSession) (names : Option (List String)) (l : Listing)
      → shared (approve_tools platform fw now u names l).0 ≡ shared fw
  unfolding approve_tools
  shared-approve_tools fw now u names l =
      elim (Bool-cases (Authorization.can_manage fw.policy.roles u.role)) [
        | inl manages ↦ rw manages (shared-approve_fetched fw now u names _)
        | inr plain ↦ rw plain refl
      ]
