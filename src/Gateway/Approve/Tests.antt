-- ===== src/Gateway/Approve/Tests.antt =====
-- A manager approves a tool whose definition has changed.
use agentic_firewall.Base.{◌≡◌, ◌⊎◌, refl, true, none, some, [], ◌∷◌}
use agentic_firewall.Dict.{lookup}
use agentic_firewall.Models.Policies.{low}
use agentic_firewall.Models.Requests.{UserSession}
use agentic_firewall.Database.{Fingerprint}
use agentic_firewall.Authorization
use agentic_firewall.Samples.{plain, policy, list_files, filled}
use agentic_firewall.Gateway.{Firewall, Instant, init}
use agentic_firewall.Gateway.Pipeline.{listed}
use agentic_firewall.Gateway.Approve.{approve_tools}
use agentic_firewall.Gateway.Wanted.{without_repeats, strip_end}
use agentic_firewall.Gateway.Approve.Pinned.{Approvable, approve_tools_lem}

repeats_run : without_repeats [] ("a" ∷ "b" ∷ "a" ∷ []) ≡ "a" ∷ "b" ∷ []
unfolding without_repeats
repeats_run = refl

strip_run : strip_end "approved: " ≡ "approved"
unfolding strip_end
strip_run = refl

abbrev managed : Firewall
managed =
    init
      (record policy {
        roles = ("boss", record { allowed_tools = []; max_risk = low; can_manage = true }) ∷ [];
      })
      filled

abbrev boss : UserSession
boss = record {
  user_id = "eve";
  role = "boss";
  session_ref = "s2";
  created_at = 0;
  expires_at = 100;
}

abbrev at_ten : Instant
at_ten = record { wall = 10; mono = 10; again = 10; once_more = 10 }

approve_tools_lem_example :
    (lookup "list_files"
        (approve_tools plain managed at_ten boss none (listed (list_files ∷ []))).0.db.fingerprints
      ≡ lookup "list_files" managed.db.fingerprints)
    ⊎ ((Authorization.can_manage managed.policy.roles "boss" ≡ true)
        × (fp : Fingerprint) × (lookup "list_files"
              (approve_tools plain managed at_ten boss none
                (listed (list_files ∷ []))).0.db.fingerprints
            ≡ some fp)
        × Approvable plain managed.policy.scanner.max_scan_chars (list_files ∷ []) "list_files" fp)
approve_tools_lem_example =
    approve_tools_lem plain managed at_ten boss none (list_files ∷ []) "list_files"
