-- ===== src/Gateway/Tasks/View.antt =====
-- One tool's breaker and the number of its calls under way, in a firewall of app/firewall/gateway.py,
-- and how a stretch of a request moves them.
use agentic_firewall.Base.{
  ℕ, suc, ◌+◌, ◌≡◌, inl, inr, refl, ap, sym, subst, String, Bool, true, false, List, ◌∷◌, ◌++◌,
  arith, ◌==◌, eq_iff, Bool-cases, if◌then◌else◌,
}
use agentic_firewall.Platform.{Platform}
use agentic_firewall.Models.Requests.{ToolRequest}
use agentic_firewall.CircuitBreaker.{
  CircuitBreaker, CircuitBreakerRegistry, allow, record_success, record_failure, current, put,
}
use agentic_firewall.CircuitBreaker.Registry.{current-put, current-get}
use agentic_firewall.CircuitBreaker.Probe.{
  System, Step, starts, succeeds, fails, Reach, here, next, start, idle_recovers,
}
use agentic_firewall.CircuitBreaker.Probe
use agentic_firewall.Gateway.{Firewall, Instant}
use agentic_firewall.Gateway.Pipeline.{Outcome}
use agentic_firewall.Gateway.Tasks.{Task}
use agentic_firewall.Gateway.Tasks.Effects.{
  is_call, is_call_to, calls_to, calls_to-append, Tried, Recorded,
}

-- The breaker of the tool `k`, with the requests that wait for a reply of it.
abbrev pub view : String → CircuitBreakerRegistry → List Task → System
view k registry tasks = record { breaker = current registry k; in_flight = calls_to k tasks }

pub Reach-same : (s t : System) → t ≡ s → Reach s t
Reach-same s t e = subst (λ u. Reach s u) (sym e) here

Reach-one : (s t u : System) → Step s t → u ≡ t → Reach s u
Reach-one s t u st e = subst (λ v. Reach s v) (sym e) (next here st)

module _ (k : String) where
  -- Nothing of the tool is touched, and as many calls are under way as before.
  pub view-same :
      (r r' : CircuitBreakerRegistry) (ts ts' : List Task)
      → r' ≡ r
      → calls_to k ts' ≡ calls_to k ts
      → Reach (view k r ts) (view k r' ts')
  view-same r r' ts ts' e n = Reach-same _ _ (ground (arith, ap (λ s. current s k) e))

  pub calls_to-middle :
      (before mid after : List Task)
      → calls_to k (before ++ (mid ++ after))
        ≡ calls_to k before + calls_to k mid + calls_to k after
  calls_to-middle before mid after =
      omega (arith, calls_to-append k before (mid ++ after), calls_to-append k mid after)

  abbrev pub system : CircuitBreaker → ℕ → System
  system b n = record { breaker = b; in_flight = n }

  pub System-ext : (b b' : CircuitBreaker) (n n' : ℕ) → b' ≡ b → n' ≡ n → system b' n' ≡ system b n
  System-ext b b' n n' p q = λ i. system (p i) (q i)

  -- What a write of the breaker of `j`, taken from what `current` gives, means for the one of `k`.
  current-written :
      (r s r' : CircuitBreakerRegistry) (j : String) (f : CircuitBreaker → CircuitBreaker)
      → current s k ≡ current r k
      → r' ≡ put s j (f (current r j))
      → ((j == k) ≡ true → current r' k ≡ f (current r k))
        × ((j == k) ≡ false → current r' k ≡ current r k)
  current-written r s r' j f h e =
      ground (arith, e, current-put s j k (f (current r j)), eq_iff j k)

  pub calls_to-one :
      (before after : List Task) (t : Task)
      → calls_to k (before ++ t ∷ after) ≡ (
          if is_call_to k t
          then suc (calls_to k (before ++ after))
          else calls_to k (before ++ after))
  calls_to-one before after t =
      ground (arith, calls_to-append k before (t ∷ after), calls_to-append k before after)

  module _ (platform : Platform) (req : ToolRequest) where
    abbrev pub gone : Bool → ℕ → ℕ
    gone passed n = if passed then (if req.tool == k then suc n else n) else n

    tried-in_flight :
        (c passed : Bool) (n n' : ℕ)
        → c ≡ passed
        → n' ≡ gone c n
        → ((req.tool == k) ≡ true → n' ≡ (if passed then suc n else n))
          × ((req.tool == k) ≡ false → n' ≡ n)
    tried-in_flight c passed n n' e count = ground arith

    pub view-Tried :
        (now : Instant) (fw : Firewall) (t : Firewall × Outcome) (n n' : ℕ)
        → Tried platform req now fw t
        → n' ≡ gone (is_call t.1) n
        → Reach
            (record { breaker = current fw.breakers k; in_flight = n })
            (record { breaker = current t.0.breakers k; in_flight = n' })
    view-Tried now fw t n n' (e, c) count =
        let b : CircuitBreaker = current fw.breakers k in
        let passed = (allow (current fw.breakers req.tool) now.mono).1 in
        let (same_b, other_b) =
          current-written fw.breakers _ _ req.tool (λ b. (allow b now.mono).0)
            (current-get fw.breakers req.tool k) e in
        let (same_n, other_n) = tried-in_flight (is_call t.1) passed n n' c count in
        elim (Bool-cases (req.tool == k)) [
          | inl same ↦ Reach-one _ (Probe.started (system b n) now.mono) _ (starts _ now.mono) (
              System-ext _ _ _ _ (same_b same) (
                subst (λ j. n' ≡ (if (allow (current fw.breakers j) now.mono).1 then suc n else n))
                  ((eq_iff req.tool k).0 same) (same_n same)))
          | inr other ↦ Reach-same _ _ (System-ext _ _ _ _ (other_b other) (other_n other))
        ]

    -- A reply ends a call that is under way, and its result is recorded.
    reply-in_flight :
        (n m : ℕ)
        → m ≡ (if req.tool == k then suc n else n)
        → ((req.tool == k) ≡ true → m ≡ suc n) × ((req.tool == k) ≡ false → n ≡ m)
    reply-in_flight n m h = ground arith

    pub view-Recorded :
        (now : Instant) (fw : Firewall) (t : Firewall × Outcome) (n m : ℕ)
        → Recorded platform req now fw t
        → m ≡ (if req.tool == k then suc n else n)
        → Reach (system (current fw.breakers k) m) (system (current t.0.breakers k) n)
    view-Recorded now fw t n m r count =
        let b : CircuitBreaker = current fw.breakers k in
        elim (Bool-cases (req.tool == k)) [
          | inl same ↦ elim r [
            | inl e ↦
                Reach-one _ _ _ (succeeds (system b m) n ((reply-in_flight n m count).0 same)) (
                  System-ext _ _ _ _
                    ((current-written fw.breakers _ _ req.tool record_success refl e).0 same) refl)
            | inr e ↦
                Reach-one _ _ _ (fails (system b m) n now.mono ((reply-in_flight n m count).0 same))
                  (System-ext _ _ _ _
                    ((current-written fw.breakers _ _ req.tool (λ c. record_failure c now.mono) refl
                        e).0
                      same)
                    refl)
          ]
          | inr other ↦ elim r [
            | inl e ↦ Reach-same _ _ (
                System-ext _ _ _ _
                  ((current-written fw.breakers _ _ req.tool record_success refl e).1 other)
                  ((reply-in_flight n m count).1 other))
            | inr e ↦ Reach-same _ _ (
                System-ext _ _ _ _
                  ((current-written fw.breakers _ _ req.tool (λ c. record_failure c now.mono) refl
                      e).1
                    other)
                  ((reply-in_flight n m count).1 other))
          ]
        ]
