-- ===== src/Gateway/Writes.antt =====
-- What `_audit_result` and `_audit_simple` of app/firewall/gateway.py add to the database.
use agentic_firewall.Base.{ℕ, ◌≡◌, refl, String, Option, arith}
use agentic_firewall.Result.{Result, ok, raise}
use agentic_firewall.Models.Events.{SecurityEvent, Stage, Decision, clean_event}
use agentic_firewall.Database.{Database, add_audit}
use agentic_firewall.Database.Later.{Later, same, add_audit-Later}
use agentic_firewall.Audit.{record_event}
use agentic_firewall.Gateway.{Firewall, Instant, logged, audit_simple}

recorded_row :
    (db db' : Database) (e e' : SecurityEvent) (now : ℕ)
    → record_event db e now ≡ ok (db', e')
    → (id : ℕ) × (add_audit db (clean_event (record e { ts = now })) ≡ ok (db', id))
unfolding record_event add_audit
recorded_row db db' e e' now h = (db.next_id, ground arith)

pub logged-Later :
    (db : Database) (e : SecurityEvent) (now : ℕ) (r : Result (Database × SecurityEvent))
    → record_event db e now ≡ r
    → Later db (logged db r)
logged-Later db e now (ok (db', e')) h =
    add_audit-Later db db' _ _ (recorded_row db db' e e' now h).1
logged-Later db e now (raise x) h = same db db refl

pub audit_simple-Later :
    (fw : Firewall) (now : Instant) (user_id : Option String) (reason : String)
    (role ref : Option String) (stage : Stage) (decision : Decision)
    → Later fw.db (audit_simple fw now user_id stage decision reason role ref).db
unfolding audit_simple
audit_simple-Later fw now user_id reason role ref stage decision =
    logged-Later fw.db _ now.wall _ refl
