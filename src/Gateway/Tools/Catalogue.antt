-- ===== src/Gateway/Tools/Catalogue.antt =====
-- Which tools `list_tools` of app/firewall/gateway.py shows to whom.
use agentic_firewall.Base.{
  ◌≡◌, ◌⊎◌, inl, inr, refl, ◌∙◌, subst, ap, String, true, false, Option, none, some, List, [], ◌∷◌,
  arith, All, Bool-cases,
}
use agentic_firewall.Platform.{Platform}
use agentic_firewall.Result.{Result, ok, raise}
use agentic_firewall.Models.Requests.{ToolDefinition, ToolInfo, UserSession}
use agentic_firewall.Authentication.{validate}
use agentic_firewall.Authorization
use agentic_firewall.Risk.{classify}
use agentic_firewall.RateLimiter
use agentic_firewall.RateLimiter.{SlidingWindowRateLimiter}
use agentic_firewall.Integrity.{
  IntegrityResult, unmodified, fingerprint, approved_fingerprint, verify,
}
use agentic_firewall.Integrity.Pinning.{verify_ok}
use agentic_firewall.Gateway.{Firewall, Instant}
use agentic_firewall.Gateway.Pipeline.{listed}
use agentic_firewall.Gateway.Tools.{
  authenticate, shown_tool, add_info, list_infos, list_for, list_tools,
}

-- The definition is one of the tools.
abbrev pub IsListed : List ToolDefinition → ToolDefinition → Type 0
IsListed [] d = ⊥
IsListed (t ∷ tools) d = (t ≡ d) ⊎ IsListed tools d

module _ (platform : Platform) where
  -- What an entry tells of its tool: a definition that the upstream lists, whose fingerprint is the
  -- one that was pinned, and which the role may use at its risk.
  pub record Visible (fw : Firewall) (role : String) (tools : List ToolDefinition) (info : ToolInfo)
      : Type 0 where
    pub defn : ToolDefinition
    pub member : IsListed tools defn
    pub same_name : info.name ≡ defn.name
    pub same_description : info.description ≡ defn.description
    pub pinned : approved_fingerprint fw.db defn.name ≡ ok (some (fingerprint platform defn))
    pub permitted :
        (Authorization.check fw.policy.roles role defn.name
          (classify fw.policy.tool_risk defn.name)).allowed
        ≡ true

  shown_tool_ok :
      (fw : Firewall) (session : UserSession) (defn : ToolDefinition) (v : IntegrityResult)
      (info : ToolInfo)
      → Authorization.can_manage fw.policy.roles session.role ≡ false
      → shown_tool platform fw session defn v ≡ some info
      → (info.name ≡ defn.name)
        × (info.description ≡ defn.description)
        × (v.status ≡ unmodified)
        × ((Authorization.check fw.policy.roles session.role defn.name
              (classify fw.policy.tool_risk defn.name)).allowed
            ≡ true)
  unfolding shown_tool
  shown_tool_ok fw session defn v info plain h = ground arith

  later-Visible :
      (fw : Firewall) (role : String) (d : ToolDefinition) (tools : List ToolDefinition)
      (infos : List ToolInfo)
      → All (Visible fw role tools) infos
      → All (Visible fw role (d ∷ tools)) infos
  later-Visible fw role d tools [] a = tt
  later-Visible fw role d tools (info ∷ infos) (v, a) = (
    record {
      defn = v.defn;
      member = inr v.member;
      same_name = v.same_name;
      same_description = v.same_description;
      pinned = v.pinned;
      permitted = v.permitted;
    },
    later-Visible fw role d tools infos a,
  )

  add_info-Visible :
      (fw : Firewall) (session : UserSession) (d : ToolDefinition) (tools : List ToolDefinition)
      (v : IntegrityResult) (shown : Option ToolInfo) (rest : Result (List ToolInfo))
      (infos : List ToolInfo)
      → Authorization.can_manage fw.policy.roles session.role ≡ false
      → verify platform fw.db d ≡ ok v
      → shown_tool platform fw session d v ≡ shown
      → ((is : List ToolInfo) → rest ≡ ok is → All (Visible fw session.role tools) is)
      → add_info platform shown rest ≡ ok infos
      → All (Visible fw session.role (d ∷ tools)) infos
  add_info-Visible fw session d tools v shown (raise e) infos plain verdict s inner h = cc
  add_info-Visible fw session d tools v none (ok is) infos plain verdict s inner h =
      later-Visible fw session.role d tools infos (inner infos h)
  add_info-Visible fw session d tools v (some info) (ok is) [] plain verdict s inner h = cc
  add_info-Visible fw session d tools v (some info) (ok is) (i ∷ infos) plain verdict s inner h =
      let e : info ≡ i = ground arith in
      let (name, description, unchanged, permitted) =
        shown_tool_ok fw session d v i plain (s ∙ ap (λ (x : ToolInfo). some x) e) in
      (
        record {
          defn = d;
          member = inl refl;
          same_name = name;
          same_description = description;
          pinned = verify_ok platform fw.db d v verdict unchanged;
          permitted = permitted;
        },
        later-Visible fw session.role d tools infos (inner infos (ground arith)),
      )

  list_infos-step :
      (fw : Firewall) (session : UserSession) (d : ToolDefinition) (tools : List ToolDefinition)
      (infos : List ToolInfo)
      → list_infos platform fw session (d ∷ tools) ≡ ok infos
      → (v : IntegrityResult) × (verify platform fw.db d ≡ ok v)
        × (add_info platform
              (shown_tool platform fw session d v)
              (list_infos platform fw session tools)
            ≡ ok infos)
  unfolding list_infos
  list_infos-step fw session d tools infos h = ground arith

  list_infos-Visible :
      (fw : Firewall) (session : UserSession) (tools : List ToolDefinition) (infos : List ToolInfo)
      → Authorization.can_manage fw.policy.roles session.role ≡ false
      → list_infos platform fw session tools ≡ ok infos
      → All (Visible fw session.role tools) infos
  list_infos-Visible fw session [] [] plain h = tt
  list_infos-Visible fw session [] (i ∷ infos) plain h = absurd (unfold list_infos in cc)
  list_infos-Visible fw session (d ∷ tools) infos plain h =
      let (v, verdict, added) = list_infos-step fw session d tools infos h in
      add_info-Visible fw session d tools v _ _ infos plain verdict refl
        (λ is e. list_infos-Visible fw session tools is plain e) added

  limiter-Visible :
      (fw : Firewall) (role : String) (tools : List ToolDefinition) (infos : List ToolInfo)
      (l : SlidingWindowRateLimiter)
      → All (Visible (record fw { limiter = l }) role tools) infos
      → All (Visible fw role tools) infos
  limiter-Visible fw role tools [] l a = tt
  limiter-Visible fw role tools (info ∷ infos) l (v, a) = (
    record {
      defn = v.defn;
      member = v.member;
      same_name = v.same_name;
      same_description = v.same_description;
      pinned = v.pinned;
      permitted = v.permitted;
    },
    limiter-Visible fw role tools infos l a,
  )

  authenticate_ok :
      (fw : Firewall) (now : Instant) (session_id : String) (u : UserSession)
      → (authenticate platform fw now session_id).1 ≡ ok u
      → (validate platform.sha256 fw.db session_id now.wall ≡ ok u)
        × ((authenticate platform fw now session_id).0
            ≡ record fw { limiter = (RateLimiter.check fw.limiter u.user_id now.mono).0 })
        × ((RateLimiter.check fw.limiter u.user_id now.mono).1.allowed ≡ true)
  unfolding authenticate
  authenticate_ok fw now session_id u h = ground arith

  list_for_ok :
      (fw : Firewall) (r : Result UserSession) (tools : List ToolDefinition) (infos : List ToolInfo)
      → list_for platform fw r (ok tools) ≡ ok infos
      → (u : UserSession) × (r ≡ ok u) × (list_infos platform fw u tools ≡ ok infos)
  list_for_ok fw (raise e) tools infos h = cc
  list_for_ok fw (ok u) tools infos h = (u, refl, h)

  -- Whoever gets a list of tools has a valid session and room in the rate limit, and, unless the role
  -- may manage, each entry is that of a definition that the upstream lists now, whose fingerprint is
  -- the pinned one and which the role may use at its risk; the entry has its name and description.
  pub list_tools-Visible :
      (fw : Firewall) (now : Instant) (session_id : String) (tools : List ToolDefinition)
      (infos : List ToolInfo)
      → (list_tools platform fw now session_id (listed tools)).1 ≡ ok infos
      → (u : UserSession) × (validate platform.sha256 fw.db session_id now.wall ≡ ok u)
        × ((RateLimiter.check fw.limiter u.user_id now.mono).1.allowed ≡ true)
        × ((Authorization.can_manage fw.policy.roles u.role ≡ true)
            ⊎ All (Visible fw u.role tools) infos)
  unfolding list_tools
  list_tools-Visible fw now session_id tools infos h =
      let t = authenticate platform fw now session_id in
      let (u, authenticated, listing) = list_for_ok t.0 t.1 tools infos h in
      let (valid, state, room) = authenticate_ok fw now session_id u authenticated in
      (
        u,
        valid,
        room,
        elim (Bool-cases (Authorization.can_manage fw.policy.roles u.role)) [
          | inl manages ↦ inl manages
          | inr plain ↦ inr (
              limiter-Visible fw u.role tools infos _ (
                list_infos-Visible
                  (record fw { limiter = (RateLimiter.check fw.limiter u.user_id now.mono).0 }) u
                  tools infos plain
                  (subst (λ f. list_infos platform f u tools ≡ ok infos) state listing)))
        ],
      )
