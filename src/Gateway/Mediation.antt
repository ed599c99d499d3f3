-- ===== src/Gateway/Mediation.antt =====
-- What has been checked when the gateway calls a tool, and when it allows a request.
use agentic_firewall.Base.{◌≡◌, refl, true, some, List, [], ◌∷◌, arith, keep}
use agentic_firewall.Json.{object}
use agentic_firewall.Platform.{Platform}
use agentic_firewall.Result.{Result, ok, raise, auth_error}
use agentic_firewall.Models.Requests.{ToolRequest, ToolDefinition, UserSession}
use agentic_firewall.Authentication.{validate}
use agentic_firewall.Authorization
use agentic_firewall.Risk.{classify}
use agentic_firewall.RateLimiter
use agentic_firewall.Integrity.{IntegrityResult, unmodified, approved_fingerprint, fingerprint}
use agentic_firewall.Integrity.Pinning.{verify_ok}
use agentic_firewall.Scanner.Rules.{input}
use agentic_firewall.Scanner.Walk.{scan_value}
use agentic_firewall.CircuitBreaker
use agentic_firewall.Gateway.{Firewall, Instant, Ctx, is_tool_name}
use agentic_firewall.Gateway.Pipeline.{
  Listing, listed, list_failed, list_cancelled, lists_tools, calls_tool, receive, on_session,
  on_verdict, count_request, authorize, inspect, named, one_match, check_integrity, scan_input,
  pass_breaker,
}

module _ (platform : Platform) (now : Instant) (req : ToolRequest) where
  -- The caller has a valid session, room in the rate limit, a well-formed tool name, and the right
  -- to that tool at its risk.
  pub record Entitled (fw : Firewall) : Type 0 where
    pub session : UserSession
    pub valid : validate platform.sha256 fw.db req.session_id now.wall ≡ ok session
    pub within_rate : (RateLimiter.check fw.limiter session.user_id now.mono).1.allowed ≡ true
    pub well_named : is_tool_name req.tool ≡ true
    pub permitted :
        (Authorization.check fw.policy.roles session.role req.tool
          (classify fw.policy.tool_risk req.tool)).allowed
        ≡ true

  count_request-lists_tools :
      (fw fw' : Firewall) (s : UserSession) (ctx : Ctx)
      → count_request platform now req fw s ≡ (fw', ctx, lists_tools)
      → ((RateLimiter.check fw.limiter s.user_id now.mono).1.allowed ≡ true)
        × (is_tool_name req.tool ≡ true)
        × ((Authorization.check fw.policy.roles s.role req.tool
              (classify fw.policy.tool_risk req.tool)).allowed
            ≡ true)
  unfolding count_request authorize
  count_request-lists_tools fw fw' s ctx h = ground arith

  on_session-lists_tools :
      (fw fw' : Firewall) (ctx : Ctx) (r : Result UserSession)
      → on_session platform now req fw r ≡ (fw', ctx, lists_tools)
      → (s : UserSession) × (r ≡ ok s)
        × (count_request platform now req fw s ≡ (fw', ctx, lists_tools))
  on_session-lists_tools fw fw' ctx (ok s) h = (s, refl, h)
  on_session-lists_tools fw fw' ctx (raise (auth_error reason)) h = cc
  on_session-lists_tools fw fw' ctx (raise e) h = cc

  pub receive-lists_tools :
      (fw fw' : Firewall) (ctx : Ctx)
      → receive platform now req fw ≡ (fw', ctx, lists_tools)
      → Entitled fw
  unfolding receive
  receive-lists_tools fw fw' ctx h =
      let (s, valid, counted) = on_session-lists_tools fw fw' ctx _ h in
      let (rate, well_named, permitted) = count_request-lists_tools fw fw' s ctx counted in
      record {
        session = s;
        valid = valid;
        within_rate = rate;
        well_named = well_named;
        permitted = permitted;
      }

  -- One definition has the tool's name, its fingerprint is the pinned one, the arguments are clean,
  -- and the tool's circuit breaker lets the call through.
  pub record Vetted (fw : Firewall) (listing : Listing) : Type 0 where
    pub tools : List ToolDefinition
    pub defn : ToolDefinition
    pub answered : listing ≡ listed tools
    pub unique : keep (named platform now req) tools ≡ defn ∷ []
    pub pinned : approved_fingerprint fw.db defn.name ≡ ok (some (fingerprint platform defn))
    pub clean :
        scan_value platform input fw.policy.scanner.max_scan_chars
          (object req.arguments)
          "arguments"
        ≡ []
    pub closed :
        (CircuitBreaker.allow (CircuitBreaker.current fw.breakers req.tool) now.mono).1 ≡ true

  pass_breaker-calls_tool :
      (fw fw' : Firewall) (ctx : Ctx)
      → pass_breaker platform now req fw ctx ≡ (fw', calls_tool)
      → (CircuitBreaker.allow (CircuitBreaker.current fw.breakers req.tool) now.mono).1 ≡ true
  unfolding pass_breaker CircuitBreaker.get
  pass_breaker-calls_tool fw fw' ctx h = ground arith

  scan_input-calls_tool :
      (fw fw' : Firewall) (ctx : Ctx)
      → scan_input platform now req fw ctx ≡ (fw', calls_tool)
      → (scan_value platform input fw.policy.scanner.max_scan_chars
            (object req.arguments)
            "arguments"
          ≡ [])
        × (pass_breaker platform now req fw ctx ≡ (fw', calls_tool))
  unfolding scan_input
  scan_input-calls_tool fw fw' ctx h = ground arith

  on_verdict-calls_tool :
      (fw fw' : Firewall) (ctx : Ctx) (r : Result IntegrityResult)
      → on_verdict platform now req fw ctx r ≡ (fw', calls_tool)
      → (v : IntegrityResult) × (r ≡ ok v)
        × (v.status ≡ unmodified)
        × (scan_input platform now req fw ctx ≡ (fw', calls_tool))
  on_verdict-calls_tool fw fw' ctx (ok v) h = (v, refl, ground arith, ground arith)
  on_verdict-calls_tool fw fw' ctx (raise e) h = cc

  one_match-calls_tool :
      (fw fw' : Firewall) (ctx : Ctx) (ds : List ToolDefinition)
      → one_match platform now req fw ctx ds ≡ (fw', calls_tool)
      → (d : ToolDefinition) × (ds ≡ d ∷ [])
        × (check_integrity platform now req fw ctx d ≡ (fw', calls_tool))
  one_match-calls_tool fw fw' ctx [] h = cc
  one_match-calls_tool fw fw' ctx (d ∷ []) h = (d, refl, h)
  one_match-calls_tool fw fw' ctx (d ∷ e ∷ ds) h = cc

  matched-calls_tool :
      (fw fw' : Firewall) (ctx : Ctx) (tools : List ToolDefinition)
      → one_match platform now req fw ctx (keep (named platform now req) tools) ≡ (fw', calls_tool)
      → Vetted fw (listed tools)
  unfolding check_integrity
  matched-calls_tool fw fw' ctx tools h =
      let (d, unique, checked) = one_match-calls_tool fw fw' ctx _ h in
      let (v, verdict, unchanged, scanned) = on_verdict-calls_tool fw fw' ctx _ checked in
      let (clean, passed) = scan_input-calls_tool fw fw' ctx scanned in
      record {
        tools = tools;
        defn = d;
        answered = refl;
        unique = unique;
        pinned = verify_ok platform fw.db d v verdict unchanged;
        clean = clean;
        closed = pass_breaker-calls_tool fw fw' ctx passed;
      }

  pub inspect-calls_tool :
      (fw fw' : Firewall) (ctx : Ctx) (listing : Listing)
      → inspect platform now req fw ctx listing ≡ (fw', calls_tool)
      → Vetted fw listing
  unfolding inspect
  inspect-calls_tool fw fw' ctx (listed tools) h = matched-calls_tool fw fw' ctx tools h
  inspect-calls_tool fw fw' ctx list_failed h = cc
  inspect-calls_tool fw fw' ctx list_cancelled h = cc
