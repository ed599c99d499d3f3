-- ===== src/Gateway/Tasks/Breakers.antt =====
-- The circuit breaker of one tool while many requests of app/firewall/gateway.py are under way,
-- seen as the breaker with its calls in flight.
use agentic_firewall.Base.{
  ℕ, ◌+◌, ◌≤◌, ◌≡◌, inl, inr, refl, ◌∙◌, ap, sym, subst, String, true, List, ◌∷◌, ◌++◌, arith,
}
use agentic_firewall.Platform.{Platform}
use agentic_firewall.Models.Policies.{Policy}
use agentic_firewall.Models.Requests.{ToolRequest}
use agentic_firewall.Database.{Database}
use agentic_firewall.CircuitBreaker.{allow, current}
use agentic_firewall.CircuitBreaker.Probe.{System, Reach, here, next, start, idle_recovers}
use agentic_firewall.Gateway.{Firewall, Instant, Ctx, init}
use agentic_firewall.Gateway.Pipeline.{Outcome, receive, inspect, conclude}
use agentic_firewall.Gateway.Handle.{Exchange}
use agentic_firewall.Gateway.Tasks
use agentic_firewall.Gateway.Tasks.{
  Task, listing, calling, World, fresh_world, advance, started, inspected, concluded,
}
use agentic_firewall.Gateway.Tasks.Effects.{
  is_call, calls_to, calls_to-append, inspect-effect, receive-Untouched, conclude-Recorded,
  advance-breakers, calls_to-advance,
}
use agentic_firewall.Gateway.Tools.{authenticate}
use agentic_firewall.Gateway.Login.{login}
use agentic_firewall.Gateway.Approve.{approve_tools}
use agentic_firewall.Gateway.Tasks.View.{
  view, system, System-ext, Reach-same, view-same, calls_to-middle, calls_to-one, gone, view-Tried,
  view-Recorded,
}
use agentic_firewall.Gateway.Tasks.Frame.{shared, shared-login, shared-approve_tools}

module _ (k : String) where
  Reach-trans : {s t u : System} → Reach s t → Reach t u → Reach s u
  Reach-trans r here = r
  Reach-trans r (next q st) = next (Reach-trans r q) st

  module _ (platform : Platform) where
    view-starts :
        (x : Exchange) (req : ToolRequest) (fw : Firewall) (ts : List Task)
        → let t = started platform x req fw in
          Reach (view k fw.breakers ts) (view k t.0.breakers (ts ++ t.1))
    view-starts x req fw ts =
        let t = receive platform x.started req fw in
        let (kept, no_call) = receive-Untouched platform req x.started fw in
        view-same k _ _ ts (ts ++ (started platform x req fw).1)
          (advance-breakers platform req x t.0 t.1 t.2 ∙ kept)
          (ground (
            arith,
            no_call,
            calls_to-append k ts (started platform x req fw).1,
            calls_to-advance platform req k x t.0 t.1 t.2,
          ))

    calls_to-resumed :
        (x : Exchange) (req : ToolRequest) (fw : Firewall) (ctx : Ctx) (o : Outcome)
        (before after : List Task)
        → calls_to k (before ++ ((advance platform x req (fw, ctx, o)).1 ++ after))
          ≡ gone k platform req (is_call o) (calls_to k (before ++ after))
    calls_to-resumed x req fw ctx o before after = ground (
      arith,
      calls_to-middle k before (advance platform x req (fw, ctx, o)).1 after,
      calls_to-append k before after,
      calls_to-advance platform req k x fw ctx o,
    )

    -- A request that waited goes on.
    view-resumed :
        (x : Exchange) (req : ToolRequest) (ctx : Ctx) (t : Firewall × Outcome)
        (before after : List Task)
        → let u = advance platform x req (t.0, ctx, t.1) in
          view k u.0.breakers (before ++ (u.1 ++ after))
          ≡ system k
              (current t.0.breakers k)
              (gone k platform req (is_call t.1) (calls_to k (before ++ after)))
    view-resumed x req ctx t before after =
        System-ext k _ _ _ _ (ap (λ r. current r k) (advance-breakers platform req x t.0 ctx t.1))
          (calls_to-resumed x req t.0 ctx t.1 before after)

    view-listed :
        (x : Exchange) (req : ToolRequest) (ctx : Ctx) (fw : Firewall) (before after : List Task)
        → let t = inspected platform x req ctx fw in
          Reach
            (view k fw.breakers (before ++ listing req ctx ∷ after))
            (view k t.0.breakers (before ++ (t.1 ++ after)))
    view-listed x req ctx fw before after =
        let t = inspect platform x.listed_at req fw ctx x.listing in
        let n = calls_to k (before ++ after) in
        let goal = view-resumed x req ctx t before after in
        let source = calls_to-one k before after (listing req ctx) in
        Reach-trans
          (Reach-same _ (system k (current fw.breakers k) n)
            (System-ext k _ _ _ _ refl (sym source)))
          (elim (inspect-effect platform req x.listed_at fw ctx x.listing) [
            | inl (kept, no_call) ↦ Reach-same _ _ (
                goal
                ∙ System-ext k _ _ _ _ (ap (λ r. current r k) kept)
                    (ap (λ c. gone k platform req c n) no_call))
            | inr tried ↦
                Reach-trans (view-Tried k platform req x.listed_at fw t n _ tried refl)
                  (Reach-same _ _ goal)
          ])

    view-answered :
        (x : Exchange) (req : ToolRequest) (ctx : Ctx) (fw : Firewall) (before after : List Task)
        → let t = concluded platform x req ctx fw in
          Reach
            (view k fw.breakers (before ++ calling req ctx ∷ after))
            (view k t.0.breakers (before ++ (t.1 ++ after)))
    view-answered x req ctx fw before after =
        let t = conclude platform x.replied_at req fw ctx x.reply in
        let (r, no_call) = conclude-Recorded platform req x.replied_at fw ctx x.reply in
        let n = calls_to k (before ++ after) in
        Reach-trans
          (view-Recorded k platform req x.replied_at fw t n _ r
            (calls_to-one k before after (calling req ctx)))
          (Reach-same _ _ (
            view-resumed x req ctx t before after
            ∙ System-ext k _ _ _ _ refl (ap (λ c. gone k platform req c n) no_call)))

    view-shared :
        (fw fw' : Firewall) (ts : List Task)
        → shared fw' ≡ shared fw
        → Reach (view k fw.breakers ts) (view k fw'.breakers ts)
    view-shared fw fw' ts e = view-same k _ _ ts ts (ap (λ p. p.2) e) refl

    view-authenticates :
        (fw : Firewall) (now : Instant) (session_id : String)
        → (authenticate platform fw now session_id).0.breakers ≡ fw.breakers
    unfolding authenticate
    view-authenticates fw now session_id = ground arith

    landed :
        (w w' v : World)
        → w' ≡ v
        → Reach (view k w.fw.breakers w.tasks) (view k v.fw.breakers v.tasks)
        → Reach (view k w.fw.breakers w.tasks) (view k w'.fw.breakers w'.tasks)
    landed w w' v e r =
        subst {A = World} (λ u. Reach (view k w.fw.breakers w.tasks) (view k u.fw.breakers u.tasks))
          (sym e) r

    landed_from :
        (w w' v : World) (ts : List Task)
        → w.tasks ≡ ts
        → w' ≡ v
        → Reach (view k w.fw.breakers ts) (view k v.fw.breakers v.tasks)
        → Reach (view k w.fw.breakers w.tasks) (view k w'.fw.breakers w'.tasks)
    landed_from w w' v ts q e r = landed w w' v e (
        subst {A = List Task} (λ us. Reach (view k w.fw.breakers us) (view k v.fw.breakers v.tasks))
          (sym q) r)

    -- A step of the program is, for the tool `k`, a call that starts, a result, or nothing.
    Step-Reach :
        (w w' : World)
        → Tasks.Step platform w w'
        → Reach (view k w.fw.breakers w.tasks) (view k w'.fw.breakers w'.tasks)
    Step-Reach w w' (Tasks.starts x req l e) = landed w w' _ e (view-starts x req w.fw w.tasks)
    Step-Reach w w' (Tasks.is_listed x req ctx before after q e) =
        landed_from w w' _ _ q e (view-listed x req ctx w.fw before after)
    Step-Reach w w' (Tasks.is_answered x req ctx before after q e) =
        landed_from w w' _ _ q e (view-answered x req ctx w.fw before after)
    Step-Reach w w' (Tasks.authenticates now session_id l e) =
        landed w w' _ e
          (view-same k _ _ w.tasks w.tasks (view-authenticates w.fw now session_id) refl)
    Step-Reach w w' (Tasks.logs_in now drawn user_id api_key client_key e) = landed w w' _ e (
        view-shared w.fw (login platform w.fw now drawn user_id api_key client_key).0 w.tasks
          (shared-login platform w.fw now drawn user_id api_key client_key))
    Step-Reach w w' (Tasks.approves now approver names l e) = landed w w' _ e (
        view-shared w.fw (approve_tools platform w.fw now approver names l).0 w.tasks
          (shared-approve_tools platform w.fw now approver names l))
    Step-Reach w w' (Tasks.revokes session_id e) = landed w w' _ e here
    Step-Reach w w' (Tasks.registers user_id role api_key e) = landed w w' _ e here

    -- However many requests take turns at their waits, with logins, approvals, checks of sessions,
    -- revocations and new users between them, each tool's breaker and the number of its calls
    -- under way move only the way the breaker with its calls in flight does.
    pub Reach-view :
        {w w' : World}
        → Tasks.Reach platform w w'
        → Reach (view k w.fw.breakers w.tasks) (view k w'.fw.breakers w'.tasks)
    Reach-view Tasks.here = here
    Reach-view (Tasks.next r st) = Reach-trans (Reach-view r) (Step-Reach _ _ st)

-- From a firewall that has just been made, through any turns that requests take at their waits, with
-- logins, approvals, checks of sessions, revocations and registrations between them: each tool's
-- breaker, with the requests that wait for a reply of the tool, is in a state that the breaker with
-- its calls in flight reaches.
pub simulates :
    (platform : Platform) (policy : Policy) (db : Database) (k : String) {w : World}
    → Tasks.Reach platform (fresh_world (init policy db)) w
    → Reach
        (start policy.circuit_breaker.failure_threshold policy.circuit_breaker.cooldown_seconds)
        (view k w.fw.breakers w.tasks)
unfolding init current agentic_firewall.Dict.lookup
simulates platform policy db k r = Reach-view k platform r

-- From a firewall that has just been made, through any such turns, with a threshold of at least one:
-- when no request waits for a reply of the tool, and the cooldown has passed since the last trip of
-- its breaker, the breaker lets the next call through.
pub recovers :
    (platform : Platform) (policy : Policy) (db : Database) (k : String) (now : ℕ) {w : World}
    → 1 ≤ policy.circuit_breaker.failure_threshold
    → Tasks.Reach platform (fresh_world (init policy db)) w
    → calls_to k w.tasks ≡ 0
    → let b = current w.fw.breakers k in b.opened_at + b.cooldown ≤ now → (allow b now).1 ≡ true
recovers platform policy db k now h r idle late =
    idle_recovers _ _ now h (simulates platform policy db k r) idle late
