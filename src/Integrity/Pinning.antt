-- ===== src/Integrity/Pinning.antt =====
-- Pinning a tool's definition, and what `verify` of app/firewall/integrity.py says afterwards.
use agentic_firewall.Base.{
  ℕ, ◌≡◌, ◌∙◌, ap, String, Option, none, some, arith, ◌==◌, eq_iff, if◌then◌else◌,
}
use agentic_firewall.Platform.{Platform}
use agentic_firewall.Result.{Result, ok, >>=-eq-ok}
use agentic_firewall.Models.Requests.{ToolDefinition}
use agentic_firewall.Database.{Database, upsert_fingerprint}
use agentic_firewall.Database.Laws.{get_fingerprint-upsert_fingerprint}
use agentic_firewall.Integrity.{
  unmodified, changed, IntegrityResult, fingerprint, approved_fingerprint, compare_fingerprint,
  approve, verify,
}

compare_unmodified :
    (o : Option String) (current : String)
    → compare_fingerprint o current ≡ unmodified
    → o ≡ some current
compare_unmodified none current h = cc
compare_unmodified (some stored) current h = ground (arith, eq_iff stored current)

module _ (platform : Platform) where
  approve_ok :
      (db db' : Database) (d : ToolDefinition) (by : Option String) (now : ℕ) (fp : String)
      → approve platform db d by now ≡ ok (fp, db')
      → (fp ≡ fingerprint platform d)
        × (upsert_fingerprint db d.name (fingerprint platform d) now by ≡ ok db')
  unfolding approve
  approve_ok db db' d by now fp h = ground arith

  -- What `verify` answers on the database that an approval of `d` leaves.
  abbrev pub Verdict : Database → ToolDefinition → ToolDefinition → Result IntegrityResult
  Verdict db d e =
      if d.name == e.name
      then ok (record {
        status = if fingerprint platform d == fingerprint platform e then unmodified else changed;
        fingerprint = fingerprint platform e;
      })
      else verify platform db e

  -- After `d` was approved, a definition of the same name is unmodified exactly if it has the
  -- fingerprint of `d`, and changed if not, whatever was pinned before; the verdict on a tool of
  -- another name stays as it was.
  pub verify-approve :
      (db db' : Database) (d e : ToolDefinition) (by : Option String) (now : ℕ) (fp : String)
      → approve platform db d by now ≡ ok (fp, db')
      → verify platform db' e ≡ Verdict db d e
  unfolding verify approved_fingerprint
  verify-approve db db' d e by now fp h =
      let (same, stored) = approve_ok db db' d by now fp h in
      ground (
        arith,
        get_fingerprint-upsert_fingerprint db db' d.name e.name (fingerprint platform d) now by
            stored,
      )

  -- Where the verdict is that a definition is unmodified, the fingerprint stored for its name is
  -- its own.
  pub verify_ok :
      (db : Database) (d : ToolDefinition) (r : IntegrityResult)
      → verify platform db d ≡ ok r
      → r.status ≡ unmodified
      → approved_fingerprint db d.name ≡ ok (some (fingerprint platform d))
  unfolding verify
  verify_ok db d r h e =
      let (stored, found, made) = >>=-eq-ok (approved_fingerprint db d.name) _ h in
      found
      ∙ ap (λ (o : Option String). ok o)
          (compare_unmodified stored (fingerprint platform d) (ground arith))
