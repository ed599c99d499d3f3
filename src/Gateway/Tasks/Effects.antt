-- ===== src/Gateway/Tasks/Effects.antt =====
-- What a stretch of a request of app/firewall/gateway.py does to the circuit breakers.
use agentic_firewall.Base.{
  ℕ, suc, ◌+◌, ◌≡◌, ◌⊎◌, inl, inr, refl, String, Bool, true, false, List, [], ◌∷◌, ◌++◌, arith,
  ◌==◌, Bool-cases, if◌then◌else◌,
}
use agentic_firewall.Platform.{Platform}
use agentic_firewall.Result.{Result, ok, raise, auth_error}
use agentic_firewall.Models.Requests.{ToolRequest, ToolDefinition, UserSession}
use agentic_firewall.Integrity.{IntegrityResult}
use agentic_firewall.CircuitBreaker.{allow, record_success, record_failure, current, put, get}
use agentic_firewall.Gateway.{Firewall, Instant, Ctx, audit_result}
use agentic_firewall.Gateway.Pipeline.{
  Listing, listed, list_failed, list_cancelled, Reply, replied, call_failed, call_cancelled,
  Outcome, finished, crashed, cancelled, lists_tools, calls_tool, receive, on_session, on_verdict,
  count_request, authorize, inspect, one_match, check_integrity, scan_input, pass_breaker, conclude,
  settle, release,
}
use agentic_firewall.Gateway.Handle.{Exchange, respond}
use agentic_firewall.Gateway.Tasks.{Task, listing, calling, advance}

abbrev pub is_call : Outcome → Bool
is_call calls_tool = true
is_call _ = false

abbrev pub is_call_to : String → Task → Bool
is_call_to k (calling req ctx) = req.tool == k
is_call_to k (listing req ctx) = false

-- How many requests wait for a reply of the tool `k`.
abbrev pub calls_to : String → List Task → ℕ
calls_to k [] = 0
calls_to k (t ∷ ts) = if is_call_to k t then suc (calls_to k ts) else calls_to k ts

pub calls_to-append :
    (k : String) (ts us : List Task) → calls_to k (ts ++ us) ≡ calls_to k ts + calls_to k us
calls_to-append k [] us = omega arith
calls_to-append k (t ∷ ts) us = ground (arith, calls_to-append k ts us)

module _ (platform : Platform) (req : ToolRequest) where
  -- The breaker was not asked, and the call is not made; or it was asked, and decides.
  abbrev pub Untouched : Firewall → Firewall × Outcome → Type 0
  Untouched fw t = (t.0.breakers ≡ fw.breakers) × (is_call t.1 ≡ false)

  abbrev pub Tried : Instant → Firewall → Firewall × Outcome → Type 0
  Tried now fw t =
      (t.0.breakers
        ≡ put (get fw.breakers req.tool).0 req.tool
            (allow (current fw.breakers req.tool) now.mono).0)
      × (is_call t.1 ≡ (allow (current fw.breakers req.tool) now.mono).1)

  pass_breaker-Tried :
      (now : Instant) (fw : Firewall) (ctx : Ctx)
      → Tried now fw (pass_breaker platform now req fw ctx)
  unfolding pass_breaker get
  pass_breaker-Tried now fw ctx =
      elim (Bool-cases (allow (current fw.breakers req.tool) now.mono).1) [
        | inl passed ↦ rw passed (refl, refl)
        | inr refused ↦ rw refused (refl, refl)
      ]

  on_verdict-effect :
      (now : Instant) (fw : Firewall) (ctx : Ctx) (r : Result IntegrityResult)
      → Untouched fw (on_verdict platform now req fw ctx r)
        ⊎ Tried now fw (on_verdict platform now req fw ctx r)
  unfolding scan_input
  on_verdict-effect now fw ctx (ok v) = ground (arith, pass_breaker-Tried now fw ctx)
  on_verdict-effect now fw ctx (raise e) = inl (refl, refl)

  one_match-effect :
      (now : Instant) (fw : Firewall) (ctx : Ctx) (ds : List ToolDefinition)
      → Untouched fw (one_match platform now req fw ctx ds)
        ⊎ Tried now fw (one_match platform now req fw ctx ds)
  unfolding check_integrity
  one_match-effect now fw ctx [] = inl (refl, refl)
  one_match-effect now fw ctx (d ∷ []) = on_verdict-effect now fw ctx _
  one_match-effect now fw ctx (d ∷ e ∷ ds) = inl (refl, refl)

  on_session-Untouched :
      (now : Instant) (fw : Firewall) (r : Result UserSession)
      → let t = on_session platform now req fw r in Untouched fw (t.0, t.2)
  unfolding count_request authorize
  on_session-Untouched now fw (ok s) = ground arith
  on_session-Untouched now fw (raise (auth_error reason)) = (refl, refl)
  on_session-Untouched now fw (raise e) = (refl, refl)

  pub inspect-effect :
      (now : Instant) (fw : Firewall) (ctx : Ctx) (l : Listing)
      → Untouched fw (inspect platform now req fw ctx l)
        ⊎ Tried now fw (inspect platform now req fw ctx l)
  unfolding inspect
  inspect-effect now fw ctx (listed tools) = one_match-effect now fw ctx _
  inspect-effect now fw ctx list_failed = inl (refl, refl)
  inspect-effect now fw ctx list_cancelled = inl (refl, refl)

  pub receive-Untouched :
      (now : Instant) (fw : Firewall)
      → let t = receive platform now req fw in Untouched fw (t.0, t.2)
  unfolding receive
  receive-Untouched now fw = on_session-Untouched now fw _

  -- The reply's result is recorded.
  abbrev pub Recorded : Instant → Firewall → Firewall × Outcome → Type 0
  Recorded now fw t =
      (t.0.breakers ≡ put fw.breakers req.tool (record_success (current fw.breakers req.tool)))
      ⊎ (t.0.breakers
          ≡ put fw.breakers req.tool (record_failure (current fw.breakers req.tool) now.mono))

  pub conclude-Recorded :
      (now : Instant) (fw : Firewall) (ctx : Ctx) (r : Reply)
      → Recorded now fw (conclude platform now req fw ctx r)
        × (is_call (conclude platform now req fw ctx r).1 ≡ false)
  unfolding conclude settle release
  conclude-Recorded now fw ctx (replied t) = ground arith
  conclude-Recorded now fw ctx call_failed = (inr refl, refl)
  conclude-Recorded now fw ctx call_cancelled = (inr refl, refl)

  pub advance-breakers :
      (x : Exchange) (fw : Firewall) (ctx : Ctx) (o : Outcome)
      → (advance platform x req (fw, ctx, o)).0.breakers ≡ fw.breakers
  unfolding respond audit_result
  advance-breakers x fw ctx (finished r) = refl
  advance-breakers x fw ctx crashed = refl
  advance-breakers x fw ctx cancelled = refl
  advance-breakers x fw ctx lists_tools = refl
  advance-breakers x fw ctx calls_tool = refl

  pub calls_to-advance :
      (k : String) (x : Exchange) (fw : Firewall) (ctx : Ctx) (o : Outcome)
      → calls_to k (advance platform x req (fw, ctx, o)).1
        ≡ (if is_call o then (if req.tool == k then 1 else 0) else 0)
  calls_to-advance k x fw ctx (finished r) = refl
  calls_to-advance k x fw ctx crashed = refl
  calls_to-advance k x fw ctx cancelled = refl
  calls_to-advance k x fw ctx lists_tools = refl
  calls_to-advance k x fw ctx calls_tool = refl
