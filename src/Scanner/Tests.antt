-- ===== src/Scanner/Tests.antt =====
-- Runs of the scanner with a search that finds nothing, and its theorem at a small object.
use agentic_firewall.Base.{◌≡◌, ◌↔◌, ◌≤◌, refl, [], ◌∷◌}
use agentic_firewall.Json.{Value, object, field, no_fields, text}
use agentic_firewall.Samples.{plain}
use agentic_firewall.Scanner.Rules.{input}
use agentic_firewall.Scanner.Walk.{scan_value}
use agentic_firewall.Scanner.Sound.{IsClean, cost}
use agentic_firewall.Scanner.Exact.{scan_value_nil}

abbrev arguments : Value
arguments = object (field "q" (text "hello") no_fields)

fits_run : scan_value plain input 8 arguments "arguments" ≡ []
unfolding scan_value agentic_firewall.Scanner.Walk.walk agentic_firewall.Scanner.scan_string
    agentic_firewall.Base.text_length agentic_firewall.Scanner.scan_text
    agentic_firewall.Scanner.has_flagged agentic_firewall.Base.codes
    agentic_firewall.Scanner.apply_rules agentic_firewall.Scanner.Rules.rules_for
fits_run = refl

oversized_run :
    scan_value plain input 7 arguments "arguments"
    ≡ record { rule = "oversized_payload"; category = "resource_abuse"; location = "arguments.q" }
      ∷ []
unfolding scan_value agentic_firewall.Scanner.Walk.walk agentic_firewall.Scanner.scan_string
    agentic_firewall.Base.text_length agentic_firewall.Scanner.give_up
    agentic_firewall.Scanner.scan_text agentic_firewall.Scanner.has_flagged
    agentic_firewall.Base.codes agentic_firewall.Scanner.apply_rules
    agentic_firewall.Scanner.Rules.rules_for agentic_firewall.Base.text_take
oversized_run = refl

-- A zero-width space, also in a key.
hidden_run :
    scan_value plain input 100 (object (field "q\u{200b}" (text "hi") no_fields)) "a"
    ≡ record { rule = "hidden_characters"; category = "obfuscation"; location = "a.<key>" } ∷ []
unfolding scan_value agentic_firewall.Scanner.Walk.walk agentic_firewall.Scanner.scan_string
    agentic_firewall.Base.text_length agentic_firewall.Scanner.scan_text
    agentic_firewall.Scanner.has_flagged agentic_firewall.Base.codes
    agentic_firewall.Scanner.apply_rules agentic_firewall.Scanner.Rules.rules_for
hidden_run = refl

scan_value_nil_example :
    (scan_value plain input 8 arguments "arguments" ≡ [])
    ↔ (IsClean plain input arguments 0 × (cost arguments ≤ 8))
scan_value_nil_example = scan_value_nil plain input 8 arguments "arguments"
