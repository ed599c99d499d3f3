-- ===== src/Api/Accounts.antt =====
-- A user that the command `create-user` of app/main.py made, at `POST /api/session`.
use agentic_firewall.Base.{
  ℕ, ◌+◌, ◌≡◌, refl, ◌∙◌, ap, String, true, false, Option, none, some, arith, eq_refl, text_take,
  if◌then◌else◌,
}
use agentic_firewall.Dict.{lookup, insert, lookup-insert}
use agentic_firewall.Platform.{Platform}
use agentic_firewall.Result.{ok}
use agentic_firewall.Models.Policies.{Policy}
use agentic_firewall.Models.Requests.{UserSession}
use agentic_firewall.Database
use agentic_firewall.Database.{Database, User, Session, add_user, get_user}
use agentic_firewall.Authentication.{is_user_id, register_user, find_user, accept, open_session}
use agentic_firewall.Authentication
use agentic_firewall.RateLimiter
use agentic_firewall.Gateway.{Firewall, Instant}
use agentic_firewall.Gateway.Login
use agentic_firewall.Gateway.Login.{on_login}
use agentic_firewall.Api.{session, reply, CreateUser, exit_code, cmd_create_user, guarded}
use agentic_firewall.Api.Routes.{LoginBody, client_of, create_session}

module _ (sha256 : String → String) where
  -- The row of the new user.
  abbrev pub new_user : String → String → String → User
  new_user user_id role api_key = record {
    user_id = user_id;
    role = role;
    api_key_hash = sha256 api_key;
  }

  register_user_ok :
      (db db' : Database) (user_id role api_key : String)
      → register_user sha256 db user_id role api_key ≡ ok db'
      → (is_user_id user_id ≡ true)
        × (db.connected ≡ true)
        × (db' ≡ record db { users = insert user_id (new_user user_id role api_key) db.users })
  unfolding register_user add_user
  register_user_ok db db' user_id role api_key h = ground arith

  -- The user's session, right after the login that drew `session_id`.
  abbrev pub opened : String → String → String → ℕ → ℕ → UserSession
  opened user_id role session_id ttl now = record {
    user_id = user_id;
    role = role;
    session_ref = text_take 12 (sha256 session_id);
    created_at = now;
    expires_at = now + ttl;
  }

  registered_user :
      (db db' : Database) (user_id role api_key : String)
      → register_user sha256 db user_id role api_key ≡ ok db'
      → find_user sha256 db' user_id ≡ ok (some (new_user user_id role api_key))
  unfolding find_user get_user
  registered_user db db' user_id role api_key h =
      let (form, up, state) = register_user_ok db db' user_id role api_key h in
      rw (
        state,
        form,
        up,
        lookup-insert user_id user_id (new_user user_id role api_key) db.users,
        eq_refl user_id,
      )

  -- A session with a new hash is stored for a user that exists.
  create_session_new :
      (db : Database) (u : User) (hash user_id : String) (now end : ℕ)
      → db.connected ≡ true
      → lookup user_id db.users ≡ some u
      → lookup hash db.sessions ≡ none
      → let s : Session = record {
        user_id = user_id;
        created_at = now;
        expires_at = end;
        revoked = false;
      } in
        Database.create_session db hash user_id now end
        ≡ ok (record db { sessions = insert hash s db.sessions })
  unfolding Database.create_session
  create_session_new db u hash user_id now end up known new = ground arith

  registered_session :
      (db db' : Database) (user_id role api_key hash : String) (now end : ℕ)
      → register_user sha256 db user_id role api_key ≡ ok db'
      → lookup hash db.sessions ≡ none
      → (db'' : Database) × (Database.create_session db' hash user_id now end ≡ ok db'')
  registered_session db db' user_id role api_key hash now end h new =
      let (form, up, state) = register_user_ok db db' user_id role api_key h in
      let row = new_user user_id role api_key in
      (
        _,
        create_session_new db' row hash user_id now end (ap (λ d. d.connected) state ∙ up)
            (ap (λ d. lookup user_id d.users) state
              ∙ lookup-insert user_id user_id row db.users
              ∙ ap (λ same. if same then some row else lookup user_id db.users) (eq_refl user_id))
            (ap (λ d. lookup hash d.sessions) state ∙ new),
      )

  login-register_user :
      (db db' : Database) (user_id role api_key drawn : String) (ttl now : ℕ)
      → register_user sha256 db user_id role api_key ≡ ok db'
      → lookup (sha256 drawn) db.sessions ≡ none
      → (db'' : Database) × (Authentication.login sha256 db' ttl user_id api_key drawn now
          ≡ ok (drawn, opened user_id role drawn ttl now, db''))
  unfolding Authentication.login accept open_session
  login-register_user db db' user_id role api_key drawn ttl now h new =
      let (db'', stored) =
        registered_session db db' user_id role api_key (sha256 drawn) now (now + ttl) h new in
      (
        db'',
        rw (registered_user db db' user_id role api_key h, eq_refl (sha256 api_key), stored) refl,
      )

module _ (sha256 : String → String) (policy : Policy) where
  -- The state behind a command that exits with 0.
  cmd_create_user_ok :
      (db db' : Database) (user_id role api_key : String) (out : CreateUser)
      → cmd_create_user sha256 policy db user_id role api_key ≡ (db', ok out)
      → exit_code out ≡ 0
      → register_user sha256 db user_id role api_key ≡ ok db'
  unfolding cmd_create_user exit_code
  cmd_create_user_ok db db' user_id role api_key out h good = ground arith

-- A user that `create-user` has made, with exit code 0, and that logs in with the key it printed, to
-- a firewall on that database, from a client with room in the limit of logins: when the session id
-- that is drawn has a new hash, `POST /api/session` answers 200 with that id, the user, the role that
-- was given, and the time when the policy's time to live is over.
pub create_session-cmd_create_user :
    (platform : Platform) (ceil : ℕ → ℕ) (policy : Policy) (db db' : Database)
    (user_id role api_key drawn : String) (out : CreateUser) (fw : Firewall) (now : Instant)
    (client : Option String)
    → cmd_create_user platform.sha256 policy db user_id role api_key ≡ (db', ok out)
    → exit_code out ≡ 0
    → fw.db ≡ db'
    → lookup (platform.sha256 drawn) db.sessions ≡ none
    → (RateLimiter.check fw.login_limiter (client_of client) now.mono).1.allowed ≡ true
    → let body : LoginBody = record { user_id = user_id; api_key = api_key } in
      (create_session platform ceil fw now drawn body client).1
      ≡ ok (reply (session drawn user_id role (now.wall + fw.policy.session_ttl_seconds)))
unfolding create_session guarded Login.login on_login
create_session-cmd_create_user platform ceil policy db db' user_id role api_key drawn out fw now
      client made good same new room =
    let h = cmd_create_user_ok platform.sha256 policy db db' user_id role api_key out made good in
    let (db'', logged_in) =
      login-register_user platform.sha256 db db' user_id role api_key drawn
        fw.policy.session_ttl_seconds now.wall h new in
    rw (room, same, logged_in) refl
