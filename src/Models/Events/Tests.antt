-- ===== src/Models/Events/Tests.antt =====
-- `sanitize` on short texts, and the line of an event.
use agentic_firewall.Base.{
  ◌≡◌, ◌≤◌, refl, true, false, arith, ℕ, String, none, some, all_codes, text_length,
}
use agentic_firewall.Models.Events.{SecurityEvent, deny, clean_event}
use agentic_firewall.Models.Events.LogLine.{to_log_line, to_log_line_lem, to_log_line-forged}
use agentic_firewall.Models.Events.Sanitize.{is_unsafe, sanitize}
use agentic_firewall.Models.Events.Plain.{is_plain, sanitize_lem}

cut_run : sanitize 4 "a\nbcdef" ≡ "a b…"
unfolding sanitize text_length agentic_firewall.Models.Events.Sanitize.blank_unsafe
    agentic_firewall.Models.Events.Sanitize.is_unsafe agentic_firewall.Base.text_take
cut_run = refl

sanitize_lem_example :
    (all_codes is_plain (sanitize 4 "a\nbcdef") ≡ true) × (text_length (sanitize 4 "a\nbcdef") ≤ 4)
sanitize_lem_example = sanitize_lem 4 "a\nbcdef" (omega arith)

-- The ARABIC LETTER MARK, a directional mark too, is kept.
arabic_mark_run : is_unsafe 0x061c ≡ false
unfolding is_unsafe
arabic_mark_run = refl

abbrev event : SecurityEvent
event = record {
  ts = 5;
  user_id = some "ann\nbob";
  session_ref = none;
  role = none;
  tool = none;
  risk = none;
  decision = deny;
  stage = "login";
  reason = "invalid credentials";
  latency_ms = 0;
  id = none;
}

abbrev shown : ℕ → String
shown n = "0.00"

to_log_line_lem_example : all_codes is_plain (to_log_line shown shown (clean_event event)) ≡ true
unfolding all_codes
to_log_line_lem_example = to_log_line_lem shown shown event refl refl

to_log_line-forged_run :
    to_log_line shown shown (record event { user_id = some "a"; role = some "b role=-" })
    ≡ to_log_line shown shown (record event { user_id = some "a role=b"; role = none })
to_log_line-forged_run = to_log_line-forged shown shown event
