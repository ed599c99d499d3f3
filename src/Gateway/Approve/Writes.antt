-- ===== src/Gateway/Approve/Writes.antt =====
-- What `approve_tools` of app/firewall/gateway.py adds to the database.
use agentic_firewall.Base.{
  ℕ, ◌≡◌, refl, String, Option, none, some, List, [], ◌∷◌, ◌⊎◌, ltb, arith, Bool-cases, inl, inr,
}
use agentic_firewall.Dict.{Dict, lookup}
use agentic_firewall.Platform.{Platform}
use agentic_firewall.Result.{Result, ok, raise}
use agentic_firewall.Models.Events.{clean_event}
use agentic_firewall.Models.Requests.{ToolDefinition, UserSession, ApprovalOutcome}
use agentic_firewall.Database.{Database, upsert_fingerprint, add_audit}
use agentic_firewall.Database.Later.{Later, same, later, add_audit-Later, upsert_fingerprint-Later}
use agentic_firewall.Audit.{record_event}
use agentic_firewall.Integrity.{approve, fingerprint}
use agentic_firewall.Authorization
use agentic_firewall.Gateway.{Firewall, Instant}
use agentic_firewall.Gateway.Pipeline.{Listing}
use agentic_firewall.Gateway.Wanted.{count_of}
use agentic_firewall.Gateway.Approve.{
  approve_one, decide, decided, record_outcome, recorded, approval_event, add_outcome, approve_all,
  approve_fetched, approve_tools,
}

module _ (platform : Platform) where
  approve_one-db :
      (fw fw' : Firewall) (now : Instant) (d : ToolDefinition) (u : UserSession)
      (o : ApprovalOutcome)
      → approve_one platform fw now d u ≡ ok (o, fw')
      → (fw'.db ≡ fw.db)
        ⊎ (upsert_fingerprint fw.db d.name (fingerprint platform d) now.wall (some u.user_id)
            ≡ ok fw'.db)
  unfolding approve_one approve upsert_fingerprint
  approve_one-db fw fw' now d u o h = ground arith

  approve_one-Later :
      (fw fw' : Firewall) (now : Instant) (d : ToolDefinition) (u : UserSession)
      (o : ApprovalOutcome)
      → approve_one platform fw now d u ≡ ok (o, fw')
      → Later fw.db fw'.db
  approve_one-Later fw fw' now d u o h = elim (approve_one-db fw fw' now d u o h) [
    | inl nothing ↦ same _ _ nothing
    | inr pinned ↦ upsert_fingerprint-Later _ _ _ _ _ _ pinned
  ]

  decide-Later :
      (fw fw' : Firewall) (now : Instant) (u : UserSession) (found : Option ToolDefinition) (n : ℕ)
      (name : String) (o : ApprovalOutcome)
      → decide platform fw now u found n name ≡ ok (o, fw')
      → Later fw.db fw'.db
  unfolding decide
  decide-Later fw fw' now u none n name o h = same _ _ (ground arith)
  decide-Later fw fw' now u (some d) n name o h = elim (Bool-cases (ltb 1 n)) [
    | inl twice ↦ same _ _ (ground arith)
    | inr once ↦ approve_one-Later fw fw' now d u o (ground arith)
  ]

  outcome_row :
      (fw fw' : Firewall) (now : Instant) (u : UserSession) (name : String) (o : ApprovalOutcome)
      → record_outcome platform fw now u name o ≡ ok fw'
      → add_audit fw.db
          (clean_event (record (approval_event platform fw u name o) { ts = now.wall }))
        ≡ ok (fw'.db, fw.db.next_id)
  unfolding record_outcome record_event add_audit
  outcome_row fw fw' now u name o h = ground arith

  recorded-Later :
      (fw : Firewall) (o : ApprovalOutcome) (r : Result Firewall)
      → ((fw' : Firewall) → r ≡ ok fw' → Later fw.db fw'.db)
      → Later fw.db (recorded platform fw o r).0.db
  recorded-Later fw o (raise e) h = same _ _ refl
  recorded-Later fw o (ok fw') h = h fw' refl

  decided-Later :
      (fw : Firewall) (now : Instant) (u : UserSession) (name : String)
      (r : Result (ApprovalOutcome × Firewall))
      → ((o : ApprovalOutcome) (fw' : Firewall) → r ≡ ok (o, fw') → Later fw.db fw'.db)
      → Later fw.db (decided platform fw now u name r).0.db
  decided-Later fw now u name (raise e) h = same _ _ refl
  decided-Later fw now u name (ok (o, fw')) h = later _ _ _ (h o fw' refl) (
      recorded-Later fw' o _
        (λ fw'' e. add_audit-Later _ _ _ _ (outcome_row fw' fw'' now u name o e)))

  add_outcome-Later :
      (db : Database) (fw : Firewall) (r : Result ApprovalOutcome)
      (t : Firewall × Result (List ApprovalOutcome))
      → Later db fw.db
      → Later fw.db t.0.db
      → Later db (add_outcome platform fw r t).0.db
  add_outcome-Later db fw (raise e) t h k = h
  add_outcome-Later db fw (ok o) (fw', raise e) h k = later _ _ _ h k
  add_outcome-Later db fw (ok o) (fw', ok os) h k = later _ _ _ h k

  approve_all-Later :
      (fw : Firewall) (now : Instant) (u : UserSession) (by_name : Dict ToolDefinition)
      (counts : Dict ℕ) (names : List String)
      → Later fw.db (approve_all platform fw now u by_name counts names).0.db
  unfolding approve_all
  approve_all-Later fw now u by_name counts [] = same _ _ refl
  approve_all-Later fw now u by_name counts (name ∷ names) =
      let r = decide platform fw now u (lookup name by_name) (count_of (lookup name counts)) name in
      let t = decided platform fw now u name r in
      add_outcome-Later fw.db t.0 t.1 (approve_all platform t.0 now u by_name counts names)
        (decided-Later fw now u name r (λ o fw' e. decide-Later fw fw' now u _ _ name o e))
        (approve_all-Later t.0 now u by_name counts names)

  approve_fetched-Later :
      (fw : Firewall) (now : Instant) (u : UserSession) (names : Option (List String))
      (r : Result (List ToolDefinition))
      → Later fw.db (approve_fetched platform fw now u names r).0.db
  approve_fetched-Later fw now u names (raise e) = same _ _ refl
  approve_fetched-Later fw now u names (ok tools) = approve_all-Later fw now u _ _ _

  pub approve_tools-Later :
      (fw : Firewall) (now : Instant) (u : UserSession) (names : Option (List String)) (l : Listing)
      → Later fw.db (approve_tools platform fw now u names l).0.db
  unfolding approve_tools
  approve_tools-Later fw now u names l =
      elim (Bool-cases (Authorization.can_manage fw.policy.roles u.role)) [
        | inl manages ↦ rw manages (approve_fetched-Later fw now u names _)
        | inr plain ↦ rw plain (same _ _ refl)
      ]
