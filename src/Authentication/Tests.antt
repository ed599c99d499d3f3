-- ===== src/Authentication/Tests.antt =====
-- The sessions' theorems on a login, its session and its end.
use agentic_firewall.Base.{
  ◌≡◌, ◌≢◌, refl, inl, inr, String, true, false, [], ◌∷◌, arith, eq_iff, text_length,
}
use agentic_firewall.Dict.{lookup}
use agentic_firewall.Result.{ok, raise, auth_error}
use agentic_firewall.Models.Requests.{UserSession}
use agentic_firewall.Database.{Database, User, empty}
use agentic_firewall.Authentication.{login, validate, revoke}
use agentic_firewall.Authentication.Sessions.{Accepted, validate-Accepted, validate-revoke}
use agentic_firewall.Authentication.Login.{IsKeyed, validate-login, login_refuses}

abbrev hash : String → String
hash s = s

abbrev key : String
key = "0123456789abcdef"

abbrev ann : User
ann = record { user_id = "ann"; role = "dev"; api_key_hash = key }

abbrev with_ann : Database
with_ann = record empty { users = ("ann", ann) ∷ [] }

abbrev with_session : Database
with_session = record with_ann {
  sessions =
      ("s1", record { user_id = "ann"; created_at = 10; expires_at = 40; revoked = false }) ∷ [];
}

abbrev with_revoked : Database
with_revoked = record with_ann {
  sessions =
      ("s1", record { user_id = "ann"; created_at = 10; expires_at = 40; revoked = true }) ∷ [];
}

abbrev session : UserSession
session = record {
  user_id = "ann";
  role = "dev";
  session_ref = "s1";
  created_at = 10;
  expires_at = 40;
}

login_run : login hash with_ann 30 "ann" key "s1" 10 ≡ ok ("s1", session, with_session)
unfolding login agentic_firewall.Authentication.find_user agentic_firewall.Authentication.is_user_id
    text_length agentic_firewall.Base.all_codes agentic_firewall.Database.get_user
    agentic_firewall.Authentication.accept lookup agentic_firewall.Authentication.open_session
    agentic_firewall.Database.create_session agentic_firewall.Base.text_take
    agentic_firewall.Dict.insert
login_run = refl

validate_run : validate hash with_session "s1" 39 ≡ ok session
unfolding validate text_length agentic_firewall.Database.get_session lookup
    agentic_firewall.Base.text_take
validate_run = refl

revoke_run : revoke hash with_session "s1" ≡ ok (with_revoked, true)
unfolding revoke agentic_firewall.Database.revoke_session lookup agentic_firewall.Dict.insert
revoke_run = refl

with_ann-IsKeyed : IsKeyed with_ann
unfolding lookup
with_ann-IsKeyed = record { keyed = λ k u e. ground (arith, eq_iff "ann" k) }

validate-Accepted_example : Accepted hash with_session "s1" 39 session
validate-Accepted_example = validate-Accepted hash with_session "s1" 39 session validate_run

validate-login_run : validate hash with_session "s1" 39 ≡ ok session
unfolding text_length
validate-login_run =
    validate-login hash with_ann with_session 30 10 39 "ann" key "s1" "s1" session with_ann-IsKeyed
      login_run (λ e. cc) (omega arith) (omega arith)

validate-revoke_run : validate hash with_revoked "s1" 12 ≢ ok session
validate-revoke_run = validate-revoke hash with_session with_revoked "s1" 12 true session revoke_run

login_refuses_example :
    login hash with_ann 30 "eve" key "s1" 10 ≡ raise (auth_error "invalid credentials")
unfolding lookup
login_refuses_example = login_refuses hash with_ann 30 10 "eve" key "s1" refl (inr (inl refl))
