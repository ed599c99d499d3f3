-- ===== src/Audit/Reading.antt =====
-- What `recent` of app/firewall/audit.py reads back.
use agentic_firewall.Base.{ℕ, suc, ◌≡◌, refl, ap, String, Option, none, some, ◌∷◌, arith}
use agentic_firewall.Result.{ok}
use agentic_firewall.Models.Events.{SecurityEvent, clean_option, clean_event, sanitize}
use agentic_firewall.Models.Events.Sanitize.{sanitize_safe, sanitize_fixed}
use agentic_firewall.Database.{Database, take_rows, newest_first, add_audit}
use agentic_firewall.Database.Laws.{recent_audit-add_audit}
use agentic_firewall.Audit.{record_event, recent, events}

sanitize_twice : (s : String) → sanitize 300 (sanitize 300 s) ≡ sanitize 300 s
sanitize_twice s =
    let (safe, short) = sanitize_safe 300 s (omega arith) in
    sanitize_fixed 300 (sanitize 300 s) safe short

clean_option_twice : (o : Option String) → clean_option (clean_option o) ≡ clean_option o
clean_option_twice none = refl
clean_option_twice (some s) = ap (λ (t : String). some t) (sanitize_twice s)

clean_event_twice :
    (e : SecurityEvent) (id : Option ℕ)
    → clean_event (record (clean_event e) { id = id }) ≡ record (clean_event e) { id = id }
unfolding clean_event
clean_event_twice e id = rw (
  clean_option_twice e.user_id,
  clean_option_twice e.session_ref,
  clean_option_twice e.role,
  clean_option_twice e.tool,
  clean_option_twice e.risk,
  sanitize_twice e.stage,
  sanitize_twice e.reason,
)

record_event_ok :
    (db db' : Database) (e event : SecurityEvent) (now : ℕ)
    → record_event db e now ≡ ok (db', event)
    → let made = clean_event (record e { ts = now }) in
      (event ≡ record made { id = some db.next_id }) × (add_audit db made ≡ ok (db', db.next_id))
unfolding record_event add_audit
record_event_ok db db' e event now h = ground arith

-- The event that was recorded last is the first that `recent` returns, exactly as `record` made it:
-- cleaning it once more changes nothing. Behind it stand the cleaned events from before.
pub recent-record_event :
    (db db' : Database) (e event : SecurityEvent) (now limit : ℕ)
    → record_event db e now ≡ ok (db', event)
    → recent db' (suc limit) ≡ ok (event ∷ events (take_rows limit (newest_first db.audit_logs)))
unfolding recent
recent-record_event db db' e event now limit h =
    let (made, stored) = record_event_ok db db' e event now h in
    rw (
      recent_audit-add_audit db db' (clean_event (record e { ts = now })) db.next_id limit stored,
      made,
      clean_event_twice (record e { ts = now }) (some db.next_id),
    )
