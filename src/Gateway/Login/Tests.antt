-- ===== src/Gateway/Login/Tests.antt =====
-- A login, and three attempts of which the limit lets two through.
use agentic_firewall.Base.{
  ℕ, ◌≤◌, ◌≡◌, refl, String, true, some, List, [], ◌∷◌, arith, text_length, eq_iff,
}
use agentic_firewall.Dict.{lookup}
use agentic_firewall.Result.{ok}
use agentic_firewall.Models.Requests.{UserSession}
use agentic_firewall.Database.{Database, User, empty}
use agentic_firewall.Authentication.{validate}
use agentic_firewall.Authentication.Login.{IsKeyed}
use agentic_firewall.RateLimiter
use agentic_firewall.RateLimiter.Refinement.{times}
use agentic_firewall.RateLimiter.Bound.{count_in}
use agentic_firewall.Samples.{plain, policy}
use agentic_firewall.Gateway.{Firewall, Instant, init}
use agentic_firewall.Gateway.Login.{login}
use agentic_firewall.Gateway.Login.Session.{login-validate}
use agentic_firewall.Gateway.Login.Throttle.{Attempt, login_all, login_all-run, login_all-bounded}

abbrev key : String
key = "0123456789abcdef"

abbrev ann : User
ann = record { user_id = "ann"; role = "dev"; api_key_hash = key }

abbrev with_ann : Database
with_ann = record empty { users = ("ann", ann) ∷ [] }

abbrev fw0 : Firewall
fw0 = init policy with_ann

abbrev at_ten : Instant
at_ten = record { wall = 10; mono = 10; again = 10; once_more = 10 }

abbrev opened : UserSession
opened = record {
  user_id = "ann";
  role = "dev";
  session_ref = "s1";
  created_at = 10;
  expires_at = 3610;
}

login_run : (login plain fw0 at_ten "s1" "ann" key "client").1 ≡ ok ("s1", opened)
unfolding login RateLimiter.check init RateLimiter.drop_expired lookup
    agentic_firewall.Gateway.Login.on_login agentic_firewall.Authentication.login
    agentic_firewall.Authentication.find_user agentic_firewall.Authentication.is_user_id text_length
    agentic_firewall.Base.all_codes agentic_firewall.Database.get_user
    agentic_firewall.Authentication.accept agentic_firewall.Authentication.open_session
    agentic_firewall.Database.create_session agentic_firewall.Base.text_take
login_run = refl

with_ann-IsKeyed : IsKeyed with_ann
unfolding lookup
with_ann-IsKeyed = record { keyed = λ k u e. ground (arith, eq_iff "ann" k) }

login-validate_example :
    ((RateLimiter.check fw0.login_limiter "client" 10).1.allowed ≡ true)
    × ((row : User) × (lookup "ann" fw0.db.users ≡ some row) × (key ≡ row.api_key_hash))
    × (validate plain.sha256 (login plain fw0 at_ten "s1" "ann" key "client").0.db "s1" 3609
        ≡ ok opened)
unfolding init text_length
login-validate_example =
    login-validate plain fw0 (login plain fw0 at_ten "s1" "ann" key "client").0 at_ten 3609 "s1"
      "ann" key "client" "s1" opened with_ann-IsKeyed (λ e. cc) (omega arith)
      (λ i. ((login plain fw0 at_ten "s1" "ann" key "client").0, login_run i)) (omega arith)

abbrev guess : ℕ → Attempt
guess t = record {
  now = record { wall = t; mono = t; again = t; once_more = t };
  drawn = "s1";
  user_id = "ann";
  api_key = "wrong";
  client_key = "client";
}

abbrev guesses : List Attempt
guesses = guess 10 ∷ guess 11 ∷ guess 12 ∷ []

guesses_run :
    (login_all plain (init policy with_ann) [] guesses).1 ≡ ("client", 10) ∷ ("client", 11) ∷ []
unfolding init agentic_firewall.RateLimiter.Bound.run RateLimiter.check RateLimiter.swept
    RateLimiter.admit RateLimiter.drop_expired RateLimiter.hits_of lookup
    agentic_firewall.Dict.insert
guesses_run = login_all-run plain (init policy with_ann) [] guesses

login_all-bounded_example :
    count_in 60 30 (times "client" (login_all plain (init policy with_ann) [] guesses).1) ≤ 2
login_all-bounded_example =
    login_all-bounded plain policy with_ann guesses "client" 30 (omega arith) (omega arith)
      (omega arith, (omega arith, (omega arith, tt)))
