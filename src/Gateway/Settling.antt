-- ===== src/Gateway/Settling.antt =====
-- The circuit breakers behind `handle` of app/firewall/gateway.py.
use agentic_firewall.Base.{
  ℕ, ◌⊎◌, ◌≡◌, ◌≢◌, inl, inr, Bool-cases, refl, ◌∙◌, ap, subst, sym, false, true, List, [], ◌∷◌,
  arith,
}
use agentic_firewall.Platform.{Platform}
use agentic_firewall.Result.{Result, ok, raise, auth_error}
use agentic_firewall.Models.Requests.{ToolRequest, ToolDefinition, UserSession}
use agentic_firewall.Integrity.{IntegrityResult}
use agentic_firewall.CircuitBreaker.{
  CircuitBreaker, CircuitBreakerRegistry, closed, half_open, allow, record_success, record_failure,
  current, put, get,
}
use agentic_firewall.CircuitBreaker.Records.{
  Failed, current-put_self, allow_refused, record_failure_moves, record_success_state,
  record_failure-Failed,
}
use agentic_firewall.Gateway.{Firewall, Instant, Ctx, audit_result}
use agentic_firewall.Gateway.Pipeline.{
  Listing, listed, list_failed, list_cancelled, Reply, replied, call_failed, call_cancelled,
  Outcome, finished, cancelled, lists_tools, calls_tool, receive, on_session, on_verdict,
  count_request, inspect, one_match, check_integrity, scan_input, pass_breaker, conclude, settle,
}
use agentic_firewall.Gateway.Allowed.{early_call}
use agentic_firewall.Gateway.Handle.{
  Exchange, before_call, on_listing, on_reply, pipeline, ending, respond, handle,
}

-- What the reply to a call, at a time, makes of the breaker that let it through: a reply that is no
-- error closes it and clears its count, and all else is a failure.
abbrev pub Settled : ℕ → Reply → CircuitBreaker → CircuitBreaker → Type 0
Settled at (replied t) b after =
    ((t.is_error ≡ false) × (after.state ≡ closed) × (after.failures ≡ 0))
    ⊎ ((t.is_error ≡ true) × Failed b after at)
Settled at _ b after = Failed b after at

module _ (req : ToolRequest) where
  -- The tool's breaker.
  abbrev pub breaker_of : Firewall → CircuitBreaker
  breaker_of fw = current fw.breakers req.tool

  -- Unless the tool is called next, a stretch leaves the tool's breaker as it was; and where it is,
  -- the breaker was asked at that time and said yes.
  abbrev Spared : ℕ → Firewall → Firewall → Outcome → Type 0
  Spared at fw fw' calls_tool =
      ((allow (breaker_of fw) at).1 ≡ true) × (breaker_of fw' ≡ (allow (breaker_of fw) at).0)
  Spared at fw fw' outcome = breaker_of fw' ≡ breaker_of fw

  module _ (platform : Platform) (now : Instant) where
    pass_breaker-Spared :
        (fw : Firewall) (ctx : Ctx)
        → let t = pass_breaker platform now req fw ctx in Spared now.mono fw t.0 t.1
    unfolding pass_breaker get
    pass_breaker-Spared fw ctx =
        let b : CircuitBreaker = breaker_of fw in
        elim (Bool-cases (allow b now.mono).1) [
          | inl passed ↦
              rw passed (
                passed,
                current-put_self (get fw.breakers req.tool).0 req.tool (allow b now.mono).0,
              )
          | inr refused ↦ rw refused (
              current-put_self (get fw.breakers req.tool).0 req.tool (allow b now.mono).0
              ∙ allow_refused b now.mono refused)
        ]

    on_verdict-Spared :
        (fw : Firewall) (ctx : Ctx) (r : Result IntegrityResult)
        → let t = on_verdict platform now req fw ctx r in Spared now.mono fw t.0 t.1
    unfolding scan_input
    on_verdict-Spared fw ctx (ok v) = ground (arith, pass_breaker-Spared fw ctx)
    on_verdict-Spared fw ctx (raise e) = refl

    one_match-Spared :
        (fw : Firewall) (ctx : Ctx) (ds : List ToolDefinition)
        → let t = one_match platform now req fw ctx ds in Spared now.mono fw t.0 t.1
    unfolding check_integrity
    one_match-Spared fw ctx [] = refl
    one_match-Spared fw ctx (d ∷ []) = on_verdict-Spared fw ctx _
    one_match-Spared fw ctx (d ∷ e ∷ ds) = refl

    inspect-Spared :
        (fw : Firewall) (ctx : Ctx) (l : Listing)
        → let t = inspect platform now req fw ctx l in Spared now.mono fw t.0 t.1
    unfolding inspect
    inspect-Spared fw ctx (listed tools) = one_match-Spared fw ctx _
    inspect-Spared fw ctx list_failed = refl
    inspect-Spared fw ctx list_cancelled = refl

    on_session-breakers :
        (fw : Firewall) (r : Result UserSession)
        → (on_session platform now req fw r).0.breakers ≡ fw.breakers
    unfolding count_request
    on_session-breakers fw (ok s) = ground arith
    on_session-breakers fw (raise (auth_error reason)) = refl
    on_session-breakers fw (raise e) = refl

    stored :
        (fw : Firewall) (b : CircuitBreaker)
        → b.state ≡ (current (put fw.breakers req.tool b) req.tool).state
    stored fw b =
        ap (λ (c : CircuitBreaker). c.state) (sym (current-put_self fw.breakers req.tool b))

    conclude-moves :
        (fw : Firewall) (ctx : Ctx) (r : Reply)
        → (breaker_of (conclude platform now req fw ctx r).0).state ≢ half_open
    unfolding conclude settle record_success
    conclude-moves fw ctx (replied t) h = elim (Bool-cases t.is_error) [
      | inl e ↦ record_failure_moves (breaker_of fw) now.mono (stored fw _ ∙ (rw e at h))
      | inr e ↦ cc (stored fw (record_success (breaker_of fw)) ∙ (rw e at h))
    ]
    conclude-moves fw ctx call_failed h =
        record_failure_moves (breaker_of fw) now.mono (stored fw _ ∙ h)
    conclude-moves fw ctx call_cancelled h =
        record_failure_moves (breaker_of fw) now.mono (stored fw _ ∙ h)

  Spared-from :
      (at : ℕ) (fw fw' fw'' : Firewall) (o : Outcome)
      → breaker_of fw' ≡ breaker_of fw
      → Spared at fw' fw'' o
      → Spared at fw fw'' o
  Spared-from at fw fw' fw'' calls_tool e (said, asked) =
      (ap (λ b. (allow b at).1) (sym e) ∙ said, asked ∙ ap (λ b. (allow b at).0) e)
  Spared-from at fw fw' fw'' o e s = s ∙ e

  module _ (platform : Platform) (x : Exchange) where
    on_listing-Spared :
        (fw : Firewall) (t : Firewall × Ctx × Outcome)
        → t.2 ≢ calls_tool
        → breaker_of t.0 ≡ breaker_of fw
        → let u = on_listing platform x req t in Spared x.listed_at.mono fw u.0 u.2
    on_listing-Spared fw (fw', ctx, lists_tools) ne e =
        let u = inspect platform x.listed_at req fw' ctx x.listing in
        Spared-from x.listed_at.mono fw fw' u.0 u.1 e
          (inspect-Spared platform x.listed_at fw' ctx x.listing)
    on_listing-Spared fw (fw', ctx, calls_tool) ne e = absurd (ne refl)
    on_listing-Spared fw (fw', ctx, outcome) ne e = e

    before_call-Spared :
        (fw : Firewall)
        → let u = before_call platform x req fw in Spared x.listed_at.mono fw u.0 u.2
    unfolding before_call receive
    before_call-Spared fw =
        let t : Firewall × Ctx × Outcome = receive platform x.started req fw in
        on_listing-Spared fw t (λ e. early_call platform x req fw t.0 t.1 _ (λ i. (t.0, t.1, e i)))
          (ap (λ (r : CircuitBreakerRegistry). current r req.tool)
            (on_session-breakers platform x.started fw _))

    on_reply-settles :
        (fw : Firewall) (t : Firewall × Ctx × Outcome)
        → Spared x.listed_at.mono fw t.0 t.2
        → (breaker_of (on_reply platform x req t).0).state ≡ half_open
        → (breaker_of fw).state ≡ half_open
    on_reply-settles fw (fw', ctx, calls_tool) s h =
        absurd (conclude-moves platform x.replied_at fw' ctx x.reply h)
    on_reply-settles fw (fw', ctx, outcome) s h = ap (λ (b : CircuitBreaker). b.state) (sym s) ∙ h

    ending-breakers :
        (t : Firewall × Ctx × Outcome) → (ending platform x req t).0.breakers ≡ t.0.breakers
    unfolding respond audit_result
    ending-breakers (fw, ctx, finished r) = refl
    ending-breakers (fw, ctx, cancelled) = refl
    ending-breakers (fw, ctx, outcome) = refl

    -- No request leaves a probe behind: whatever the clocks and the upstream do, a cancellation of the
    -- call included, the tool's breaker is half-open after `handle` only if it was so before.
    pub handle-half_open :
        (fw : Firewall)
        → (breaker_of (handle platform x req fw).0).state ≡ half_open
        → (breaker_of fw).state ≡ half_open
    unfolding handle pipeline
    handle-half_open fw h =
        on_reply-settles fw (before_call platform x req fw) (before_call-Spared fw) (
          ap (λ (r : CircuitBreakerRegistry). (current r req.tool).state)
            (sym (ending-breakers (on_reply platform x req (before_call platform x req fw))))
          ∙ h)

    conclude-Settled :
        (fw : Firewall) (ctx : Ctx) (r : Reply)
        → Settled x.replied_at.mono r
            (breaker_of fw)
            (breaker_of (conclude platform x.replied_at req fw ctx r).0)
    unfolding conclude settle
    conclude-Settled fw ctx (replied t) = elim (Bool-cases t.is_error) [
      | inl e ↦ inr (
        e,
        rw
            (
              e,
              current-put_self fw.breakers req.tool
                  (record_failure (breaker_of fw) x.replied_at.mono),
            )
            (record_failure-Failed (breaker_of fw) x.replied_at.mono),
      )
      | inr e ↦
          let (calm, none_left) = record_success_state (breaker_of fw) in
          inl (
            e,
            rw (e, current-put_self fw.breakers req.tool (record_success (breaker_of fw))) calm,
            rw (e, current-put_self fw.breakers req.tool (record_success (breaker_of fw)))
                none_left,
          )
    ]
    conclude-Settled fw ctx call_failed =
        rw
          (current-put_self fw.breakers req.tool (record_failure (breaker_of fw) x.replied_at.mono))
          (record_failure-Failed (breaker_of fw) x.replied_at.mono)
    conclude-Settled fw ctx call_cancelled =
        rw
          (current-put_self fw.breakers req.tool (record_failure (breaker_of fw) x.replied_at.mono))
          (record_failure-Failed (breaker_of fw) x.replied_at.mono)

    -- What a request has done to its tool's breaker when it ends.
    abbrev pub Answered : Firewall → Outcome → CircuitBreaker → Type 0
    Answered fw o after =
        ((o ≢ calls_tool) × (after ≡ breaker_of fw))
        ⊎ ((o ≡ calls_tool)
            × ((allow (breaker_of fw) x.listed_at.mono).1 ≡ true)
            × Settled x.replied_at.mono x.reply (allow (breaker_of fw) x.listed_at.mono).0 after)

    on_reply-Answered :
        (fw : Firewall) (t : Firewall × Ctx × Outcome)
        → Spared x.listed_at.mono fw t.0 t.2
        → Answered fw t.2 (breaker_of (on_reply platform x req t).0)
    on_reply-Answered fw (fw', ctx, calls_tool) (said, asked) = inr (
      refl,
      said,
      subst
          (λ b.
            Settled x.replied_at.mono x.reply b
              (breaker_of (conclude platform x.replied_at req fw' ctx x.reply).0))
          asked (conclude-Settled fw' ctx x.reply),
    )
    on_reply-Answered fw (fw', ctx, outcome) s = inl ((λ e. cc), s)

    -- Whatever the clocks and the upstream do: a request that does not come to its call leaves the
    -- tool's breaker as it was. One that does was let through by the breaker, and the breaker is told:
    -- a reply that is no error closes it and clears its count; an error, a failed and a cancelled call
    -- open it, at the time of the reply, if it was half-open or the count reaches the threshold, and
    -- add one to the count if not.
    pub handle-settles :
        (fw : Firewall)
        → Answered fw (before_call platform x req fw).2 (breaker_of (handle platform x req fw).0)
    unfolding handle pipeline
    handle-settles fw =
        subst (λ r. Answered fw (before_call platform x req fw).2 (current r req.tool))
          (sym (ending-breakers (on_reply platform x req (before_call platform x req fw))))
          (on_reply-Answered fw (before_call platform x req fw) (before_call-Spared fw))
