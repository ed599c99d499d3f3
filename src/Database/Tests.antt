-- ===== src/Database/Tests.antt =====
-- The tables' theorems at concrete rows.
use agentic_firewall.Base.{◌≡◌, refl, none, some, [], ◌∷◌, arith, ◌==◌, if◌then◌else◌}
use agentic_firewall.Result.{ok}
use agentic_firewall.Models.Events.{SecurityEvent, allow}
use agentic_firewall.Database.{
  Database, empty, add_audit, recent_audit, take_rows, newest_first, get_fingerprint,
  upsert_fingerprint,
}
use agentic_firewall.Database.Laws.{
  Rising, add_audit-Rising, recent_audit-add_audit, get_fingerprint-upsert_fingerprint,
}

abbrev logged_in : SecurityEvent
logged_in = record {
  ts = 5;
  user_id = some "ann";
  session_ref = none;
  role = none;
  tool = none;
  risk = none;
  decision = allow;
  stage = "login";
  reason = "login successful";
  latency_ms = 0;
  id = none;
}

abbrev one_row : Database
one_row = record empty { audit_logs = record { id = 1; event = logged_in } ∷ []; next_id = 2 }

abbrev two_rows : Database
two_rows = record empty {
  audit_logs = record { id = 1; event = logged_in } ∷ record { id = 2; event = logged_in } ∷ [];
  next_id = 3;
}

append_run : add_audit one_row logged_in ≡ ok (two_rows, 2)
unfolding add_audit
append_run = refl

add_audit-Rising_run : Rising 0 3 two_rows.audit_logs
add_audit-Rising_run =
    add_audit-Rising one_row two_rows logged_in 2 (omega arith) (omega arith, omega arith, tt)
      append_run

recent_audit-add_audit_example :
    recent_audit two_rows 2
    ≡ ok (record { id = 2; event = logged_in } ∷ take_rows 1 (newest_first one_row.audit_logs))
recent_audit-add_audit_example = recent_audit-add_audit one_row two_rows logged_in 2 1 append_run

abbrev pinned : Database
pinned = record empty {
  fingerprints = ("t", record { fingerprint = "f"; approved_at = 4; approved_by = none }) ∷ [];
}

pin_run : upsert_fingerprint empty "t" "f" 4 none ≡ ok pinned
unfolding upsert_fingerprint agentic_firewall.Dict.insert
pin_run = refl

get_fingerprint-upsert_fingerprint_run : get_fingerprint pinned "u" ≡ (
    if "t" == "u"
    then ok (some (record { fingerprint = "f"; approved_at = 4; approved_by = none }))
    else get_fingerprint empty "u")
get_fingerprint-upsert_fingerprint_run =
    get_fingerprint-upsert_fingerprint empty pinned "t" "u" "f" 4 none pin_run
