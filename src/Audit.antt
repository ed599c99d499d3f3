-- ===== src/Audit.antt =====
-- app/firewall/audit.py. The logger is not modelled; the line that `record` writes to it is in
-- Models/Events/LogLine.
pub mod Reading
mod Tests
use agentic_firewall.Base.{ℕ, some, List, [], ◌∷◌}
use agentic_firewall.Result.{◌>>=◌, Result, ok}
use agentic_firewall.Models.Events.{SecurityEvent, clean_event}
use agentic_firewall.Database.{Database, AuditRow, add_audit, recent_audit}

-- `AuditLog.record`, with the clock's reading; the event is sanitised when it is made, and has no id
-- until its row has one.
unfoldable pub record_event : Database → SecurityEvent → ℕ → Result (Database × SecurityEvent)
record_event db e now = do
  let event = clean_event (record e { ts = now })
  (db', id) ← add_audit db event
  ok (db', record event { id = some id })

abbrev pub events : List AuditRow → List SecurityEvent
events [] = []
events (row ∷ rows) = clean_event (record row.event { id = some row.id }) ∷ events rows

-- `AuditLog.recent`, where each event is made, and so sanitised, once more.
unfoldable pub recent : Database → ℕ → Result (List SecurityEvent)
recent db limit = do rows ← recent_audit db limit; ok (events rows)
