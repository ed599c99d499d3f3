-- ===== src/Audit/Tests.antt =====
-- An event with a line break, recorded and read back.
use agentic_firewall.Base.{◌≡◌, refl, none, some, [], ◌∷◌}
use agentic_firewall.Result.{ok}
use agentic_firewall.Models.Events.{SecurityEvent, deny}
use agentic_firewall.Database.{Database, empty, take_rows, newest_first}
use agentic_firewall.Audit.{record_event, recent, events}
use agentic_firewall.Audit.Reading.{recent-record_event}

abbrev forged : SecurityEvent
forged = record {
  ts = 0;
  user_id = some "eve\nALLOW";
  session_ref = none;
  role = none;
  tool = none;
  risk = none;
  decision = deny;
  stage = "login";
  reason = "invalid credentials";
  latency_ms = 0;
  id = none;
}

abbrev cleaned : SecurityEvent
cleaned = record forged { ts = 7; user_id = some "eve ALLOW" }

abbrev logged_db : Database
logged_db = record empty { audit_logs = record { id = 1; event = cleaned } ∷ []; next_id = 2 }

record_run : record_event empty forged 7 ≡ ok (logged_db, record cleaned { id = some 1 })
unfolding record_event agentic_firewall.Database.add_audit
    agentic_firewall.Models.Events.clean_event agentic_firewall.Models.Events.sanitize
    agentic_firewall.Base.text_length agentic_firewall.Models.Events.Sanitize.blank_unsafe
    agentic_firewall.Models.Events.Sanitize.is_unsafe
record_run = refl

recent-record_event_example :
    recent logged_db 1
    ≡ ok (record cleaned { id = some 1 } ∷ events (take_rows 0 (newest_first empty.audit_logs)))
recent-record_event_example =
    recent-record_event empty logged_db forged (record cleaned { id = some 1 }) 7 0 record_run
