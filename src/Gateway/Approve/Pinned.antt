-- ===== src/Gateway/Approve/Pinned.antt =====
-- What `approve_tools` of app/firewall/gateway.py pins.
use agentic_firewall.Base.{
  ℕ, ◌≡◌, ◌⊎◌, inl, inr, Bool-cases, refl, ◌∙◌, subst, ap, sym, String, true, false, Option, none,
  some, List, [], ◌∷◌, arith, ltb, ◌==◌, eq_iff,
}
use agentic_firewall.Dict.{Dict, lookup, insert, lookup-insert}
use agentic_firewall.Json.{object}
use agentic_firewall.Platform.{Platform}
use agentic_firewall.Result.{Result, ok, raise}
use agentic_firewall.Models.Policies.{Policy}
use agentic_firewall.Models.Requests.{ToolDefinition, ApprovalOutcome, UserSession}
use agentic_firewall.Database.{Fingerprint, add_audit, upsert_fingerprint}
use agentic_firewall.Audit.{record_event}
use agentic_firewall.Authorization
use agentic_firewall.Integrity.{fingerprint, payload, approve}
use agentic_firewall.Scanner.Rules.{description}
use agentic_firewall.Scanner.Walk.{scan_value}
use agentic_firewall.Gateway.{Firewall, Instant}
use agentic_firewall.Gateway.Pipeline.{listed}
use agentic_firewall.Gateway.Approve.{
  approve_one, decide, record_outcome, decided, add_outcome, approve_all, approve_tools,
}
use agentic_firewall.Gateway.Approve.Listed.{
  under, under_unique, Keyed, empty-Keyed, by_name_from-Keyed,
}
use agentic_firewall.Gateway.Wanted.{count_of, counts_from, by_name_from, wanted}

module _ (platform : Platform) where
  -- What may be pinned for a tool's name, by the dictionaries: the fingerprint of the definition
  -- under it, if it is counted once and has nothing suspicious in it.
  record Pinnable (max_chars : ℕ) (by_name : Dict ToolDefinition) (counts : Dict ℕ) (name : String)
      (fp : Fingerprint) : Type 0 where
    defn : ToolDefinition
    listed_as : lookup name by_name ≡ some defn
    once : ltb 1 (count_of (lookup name counts)) ≡ false
    harmless : scan_value platform description max_chars (object (payload defn)) "definition" ≡ []
    own : fp.fingerprint ≡ fingerprint platform defn

  -- A tool keeps the pin that it had, or gets one that is pinnable.
  abbrev Repinned :
      ℕ → Dict ToolDefinition → Dict ℕ → String → Dict Fingerprint → Dict Fingerprint → Type 0
  Repinned max_chars by_name counts name before after =
      (lookup name after ≡ lookup name before)
      ⊎ ((fp : Fingerprint) × (lookup name after ≡ some fp)
          × Pinnable max_chars by_name counts name fp)

  approve_one_ok :
      (fw fw' : Firewall) (now : Instant) (defn : ToolDefinition) (approver : UserSession)
      (o : ApprovalOutcome)
      → approve_one platform fw now defn approver ≡ ok (o, fw')
      → (fw' ≡ fw)
        ⊎ ((scan_value platform description fw.policy.scanner.max_scan_chars
                (object (payload defn))
                "definition"
              ≡ [])
            × (fw' ≡ record fw {
              db = record fw.db {
                fingerprints =
                    insert defn.name
                      (record {
                        fingerprint = fingerprint platform defn;
                        approved_at = now.wall;
                        approved_by = some approver.user_id;
                      })
                      fw.db.fingerprints;
              };
            }))
  unfolding approve_one approve upsert_fingerprint
  approve_one_ok fw fw' now defn approver o h = ground arith

  module _ (max_chars : ℕ) (by_name : Dict ToolDefinition) (counts : Dict ℕ) (tool : String) where
    Repinned-trans :
        (a b c : Dict Fingerprint)
        → Repinned max_chars by_name counts tool a b
        → Repinned max_chars by_name counts tool b c
        → Repinned max_chars by_name counts tool a c
    Repinned-trans a b c p (inr q) = inr q
    Repinned-trans a b c (inl p) (inl q) = inl (q ∙ p)
    Repinned-trans a b c (inr (fp, e, ok_)) (inl q) = inr (fp, q ∙ e, ok_)

    -- A stretch of the loop keeps the policy and repins.
    abbrev Goes : Firewall → Firewall → Type 0
    Goes fw fw' =
        (fw'.policy ≡ fw.policy)
        × Repinned max_chars by_name counts tool fw.db.fingerprints fw'.db.fingerprints

    pin-Repinned :
        (before : Dict Fingerprint) (defn : ToolDefinition) (fp : Fingerprint)
        → lookup defn.name by_name ≡ some defn
        → ltb 1 (count_of (lookup defn.name counts)) ≡ false
        → scan_value platform description max_chars (object (payload defn)) "definition" ≡ []
        → fp.fingerprint ≡ fingerprint platform defn
        → Repinned max_chars by_name counts tool before (insert defn.name fp before)
    pin-Repinned before defn fp listed_as once harmless own =
        elim (Bool-cases (defn.name == tool)) [
          | inl same ↦
              let e : defn.name ≡ tool = (eq_iff defn.name tool).0 same in
              inr (
                fp,
                ground (arith, lookup-insert defn.name tool fp before),
                record {
                  defn = defn;
                  listed_as = ap (λ (k : String). lookup k by_name) (sym e) ∙ listed_as;
                  once = ap (λ (k : String). ltb 1 (count_of (lookup k counts))) (sym e) ∙ once;
                  harmless = harmless;
                  own = own;
                },
              )
          | inr differ ↦ inl (ground (arith, lookup-insert defn.name tool fp before))
        ]

    decide-Goes :
        (fw fw' : Firewall) (now : Instant) (approver : UserSession) (found : Option ToolDefinition)
        (name : String) (o : ApprovalOutcome)
        → fw.policy.scanner.max_scan_chars ≡ max_chars
        → Keyed by_name
        → lookup name by_name ≡ found
        → decide platform fw now approver found (count_of (lookup name counts)) name ≡ ok (o, fw')
        → Goes fw fw'
    unfolding decide
    decide-Goes fw fw' now approver none name o m keyed e h = (ground arith, inl (ground arith))
    decide-Goes fw fw' now approver (some defn) name o m keyed e h =
        elim (Bool-cases (ltb 1 (count_of (lookup name counts)))) [
          | inl many ↦ (ground arith, inl (ground arith))
          | inr once ↦ elim (approve_one_ok fw fw' now defn approver o (ground arith)) [
            | inl same ↦ rw same (refl, inl refl)
            | inr (harmless, state) ↦
                let e' : defn.name ≡ name = keyed name defn e in
                rw state (
                  refl,
                  pin-Repinned fw.db.fingerprints defn _
                      (ap (λ (k : String). lookup k by_name) e' ∙ e)
                      (ap (λ (k : String). ltb 1 (count_of (lookup k counts))) e' ∙ once)
                      (subst
                        (λ (n : ℕ).
                          scan_value platform description n (object (payload defn)) "definition"
                          ≡ [])
                        m harmless)
                      refl,
                )
          ]
        ]

    decided_same :
        (fw fw' : Firewall) (now : Instant) (approver : UserSession) (name : String)
        (o : ApprovalOutcome)
        → let u : Firewall = (decided platform fw now approver name (ok (o, fw'))).0 in
          (u.policy ≡ fw'.policy) × (u.db.fingerprints ≡ fw'.db.fingerprints)
    unfolding record_outcome record_event add_audit
    decided_same fw fw' now approver name o = ground arith

    decided-Goes :
        (fw : Firewall) (now : Instant) (approver : UserSession) (name : String)
        (r : Result (ApprovalOutcome × Firewall))
        → ((o : ApprovalOutcome) (fw' : Firewall) → r ≡ ok (o, fw') → Goes fw fw')
        → Goes fw (decided platform fw now approver name r).0
    decided-Goes fw now approver name (raise e) go = (refl, inl refl)
    decided-Goes fw now approver name (ok (o, fw')) go =
        let (policy, pins) = go o fw' refl in
        let (same, kept) = decided_same fw fw' now approver name o in
        (
          same ∙ policy,
          Repinned-trans fw.db.fingerprints fw'.db.fingerprints _ pins
              (inl (ap (λ (d : Dict Fingerprint). lookup tool d) kept)),
        )

    add_outcome_state :
        (fw fw' : Firewall) (r : Result ApprovalOutcome) (rest : Result (List ApprovalOutcome))
        → Goes fw fw'
        → Goes fw (add_outcome platform fw r (fw', rest)).0
    add_outcome_state fw fw' (raise e) rest g = (refl, inl refl)
    add_outcome_state fw fw' (ok o) (raise e) g = g
    add_outcome_state fw fw' (ok o) (ok os) g = g

    Goes-trans : (a b c : Firewall) → Goes a b → Goes b c → Goes a c
    Goes-trans a b c (p, q) (p', q') =
        (p' ∙ p, Repinned-trans a.db.fingerprints b.db.fingerprints c.db.fingerprints q q')

    approve_all-Goes :
        (fw : Firewall) (now : Instant) (approver : UserSession) (names : List String)
        → fw.policy.scanner.max_scan_chars ≡ max_chars
        → Keyed by_name
        → Goes fw (approve_all platform fw now approver by_name counts names).0
    unfolding approve_all
    approve_all-Goes fw now approver [] m keyed = (refl, inl refl)
    approve_all-Goes fw now approver (name ∷ names) m keyed =
        let r =
          decide platform fw now approver (lookup name by_name) (count_of (lookup name counts))
            name in
        let t = decided platform fw now approver name r in
        let first : Goes fw t.0 = decided-Goes fw now approver name r (λ o fw' e.
          decide-Goes fw fw' now approver (lookup name by_name) name o m keyed refl e) in
        let rest = approve_all platform t.0 now approver by_name counts names in
        let later : Goes t.0 rest.0 =
          approve_all-Goes t.0 now approver names
            (ap (λ (p : Policy). p.scanner.max_scan_chars) first.0 ∙ m) keyed in
        Goes-trans fw t.0 (add_outcome platform t.0 t.1 (rest.0, rest.1)).0 first
          (add_outcome_state t.0 rest.0 t.1 rest.1 later)

  -- What may be pinned for a tool's name, by the list: the fingerprint of the only definition that the
  -- upstream lists under it, if it has nothing suspicious in it.
  pub record Approvable (max_chars : ℕ) (tools : List ToolDefinition) (name : String)
      (fp : Fingerprint) : Type 0 where
    pub defn : ToolDefinition
    pub unique : under name tools ≡ defn ∷ []
    pub harmless :
        scan_value platform description max_chars (object (payload defn)) "definition" ≡ []
    pub own : fp.fingerprint ≡ fingerprint platform defn

  Pinnable-Approvable :
      (max_chars : ℕ) (tools : List ToolDefinition) (name : String) (fp : Fingerprint)
      → Pinnable max_chars (by_name_from [] tools) (counts_from [] tools) name fp
      → Approvable max_chars tools name fp
  Pinnable-Approvable max_chars tools name fp p = record {
    defn = p.defn;
    unique = under_unique name tools p.defn p.listed_as p.once;
    harmless = p.harmless;
    own = p.own;
  }

  -- What `approve_tools` does to the pin of any tool, whatever the outcome, an error half-way
  -- included: it stays as it was; or the caller's role may manage, and the new pin is the fingerprint
  -- of a definition that is the only one of that name in the list of the upstream, and in which the
  -- scanner finds nothing.
  pub approve_tools_lem :
      (fw : Firewall) (now : Instant) (approver : UserSession) (names : Option (List String))
      (tools : List ToolDefinition) (tool : String)
      → let fw' : Firewall = (approve_tools platform fw now approver names (listed tools)).0 in
        (lookup tool fw'.db.fingerprints ≡ lookup tool fw.db.fingerprints)
        ⊎ ((Authorization.can_manage fw.policy.roles approver.role ≡ true)
            × (fp : Fingerprint) × (lookup tool fw'.db.fingerprints ≡ some fp)
            × Approvable fw.policy.scanner.max_scan_chars tools tool fp)
  unfolding approve_tools
  approve_tools_lem fw now approver names tools tool =
      elim (Bool-cases (Authorization.can_manage fw.policy.roles approver.role)) [
        | inl manages ↦
            let by_name : Dict ToolDefinition = by_name_from [] tools in
            let go =
              approve_all-Goes fw.policy.scanner.max_scan_chars by_name (counts_from [] tools) tool
                fw now approver (wanted names by_name) refl
                (by_name_from-Keyed [] tools empty-Keyed) in
            elim go.1 [
              | inl same ↦ inl (rw manages same)
              | inr (fp, e, a) ↦
                  inr (manages, fp, rw manages e, Pinnable-Approvable _ tools tool fp a)
            ]
        | inr may_not ↦ inl (rw may_not refl)
      ]
