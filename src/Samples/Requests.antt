-- ===== src/Samples/Requests.antt =====
-- A firewall, a request and an exchange that goes well, for the runs.
use agentic_firewall.Base.{false, [], ◌∷◌}
use agentic_firewall.Json.{no_fields, field, text}
use agentic_firewall.Models.Requests.{ToolRequest, ToolResponse}
use agentic_firewall.Gateway.{Firewall, Instant, init}
use agentic_firewall.Gateway.Pipeline.{listed, replied}
use agentic_firewall.Gateway.Handle.{Exchange}
use agentic_firewall.Samples.{policy, list_files, filled}

abbrev pub at_ten : Instant
at_ten = record { wall = 10; mono = 10; again = 10; once_more = 10 }

abbrev pub files : ToolResponse
files = record { text = "a.txt"; is_error = false }

abbrev pub good : Exchange
good = record {
  started = at_ten;
  listed_at = at_ten;
  replied_at = at_ten;
  ended = at_ten;
  listing = listed (list_files ∷ []);
  reply = replied files;
  latency = 3;
}

abbrev pub request : ToolRequest
request = record {
  session_id = "s1";
  tool = "list_files";
  arguments = field "dir" (text "docs") no_fields;
}

abbrev pub fw0 : Firewall
fw0 = init policy filled
