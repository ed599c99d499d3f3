-- ===== src/Gateway/Tasks/Trail/Tests.antt =====
-- A session of app/firewall/gateway.py that is revoked, a request that starts with it, a login of its
-- user, and the theorems on them.
use agentic_firewall.Base.{◌≡◌, ◌≢◌, ◌++◌, refl, arith, true, List, [], ◌∷◌}
use agentic_firewall.Samples.{plain, policy, filled}
use agentic_firewall.Samples.Requests.{at_ten, good, request}
use agentic_firewall.Result.{ok}
use agentic_firewall.Dict.{lookup, insert}
use agentic_firewall.Models.Requests.{UserSession}
use agentic_firewall.Database.{Database, AuditRow, revoke_session}
use agentic_firewall.Authentication.{validate, revoke}
use agentic_firewall.Gateway.{init}
use agentic_firewall.Gateway.Login.{login}
use agentic_firewall.Gateway.Pipeline.{receive}
use agentic_firewall.Gateway.Tasks.{
  World, fresh_world, let_through, started, starts, logs_in, Reach, here, next,
}
use agentic_firewall.Gateway.Tasks.Trail.{audit_logs-grow, revoke-final}

abbrev w0 : World
w0 = fresh_world (init policy filled)

abbrev without_s1 : Database
without_s1 = record filled {
  sessions =
      ("s1", record { user_id = "ann"; created_at = 0; expires_at = 100; revoked = true }) ∷ [];
}

abbrev w1 : World
w1 = record w0 { fw = record w0.fw { db = without_s1 } }

abbrev w2 : World
w2 = record w1 { fw = (login plain w1.fw at_ten "s2" "ann" "k" "10.0.0.1").0 }

abbrev w3 : World
w3 = record {
  fw = (started plain good request w2.fw).0;
  tasks = w2.tasks ++ (started plain good request w2.fw).1;
  admitted = let_through at_ten (receive plain at_ten request w2.fw) w2.admitted;
  last = 10;
}

abbrev ann : UserSession
ann = record { user_id = "ann"; role = "dev"; session_ref = "s1"; created_at = 0; expires_at = 100 }

revoked : revoke plain.sha256 w0.fw.db "s1" ≡ ok (without_s1, true)
unfolding revoke revoke_session lookup insert init
revoked = refl

on_the_way : Reach plain w1 w3
on_the_way =
    next (next here (logs_in at_ten "s2" "ann" "k" "10.0.0.1" refl))
      (starts good request (omega arith) refl)

audit_logs-grow_example :
    (rows : List AuditRow) × (w3.fw.db.audit_logs ≡ w1.fw.db.audit_logs ++ rows)
audit_logs-grow_example = audit_logs-grow plain on_the_way

revoke-final_example :
    (validate plain.sha256 w3.fw.db "s1" 10 ≢ ok ann) × ((started plain good request w3.fw).1 ≡ [])
revoke-final_example = revoke-final plain w0 w3 without_s1 good request ann revoked on_the_way
