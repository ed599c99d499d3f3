-- ===== src/Authentication/Sessions.antt =====
-- What `validate` of app/firewall/authentication.py accepts.
use agentic_firewall.Base.{
  ℕ, ◌≤◌, ◌<◌, ◌≡◌, ◌≢◌, ◌∙◌, String, Bool, true, false, Option, none, some, arith, eq_false,
  Option-cases, inl, inr, text_length, text_take,
}
use agentic_firewall.Dict.{lookup, lookup-insert_self}
use agentic_firewall.Result.{ok}
use agentic_firewall.Models.Requests.{UserSession}
use agentic_firewall.Database.{
  Database, User, Session, SessionRow, get_session, join, revoke_session,
}
use agentic_firewall.Authentication.{max_session_id_len, validate, check_row, revoke}

module _ (sha256 : String → String) where
  -- The stored session behind an id that `validate` accepts at a time: it is not revoked and has
  -- not expired, and the role is the one that the users table has now.
  pub record Accepted (db : Database) (session_id : String) (now : ℕ) (u : UserSession)
      : Type 0 where
    pub session : Session
    pub user : User
    pub stored : lookup (sha256 session_id) db.sessions ≡ some session
    pub owner : lookup session.user_id db.users ≡ some user
    pub active : session.revoked ≡ false
    pub unexpired : now < session.expires_at
    pub current_role : u.role ≡ user.role
    pub same_user : u.user_id ≡ session.user_id
    pub reference : u.session_ref ≡ text_take 12 (sha256 session_id)

  find_row :
      (db : Database) (session_id : String) (now : ℕ) (u : UserSession)
      → validate sha256 db session_id now ≡ ok u
      → (row : SessionRow) × (join db (lookup (sha256 session_id) db.sessions) ≡ some row)
        × (check_row sha256 (sha256 session_id) now (some row) ≡ ok u)
  unfolding validate get_session
  find_row db session_id now u h = ground arith

  join_row :
      (db : Database) (o : Option Session) (row : SessionRow)
      → join db o ≡ some row
      → (user : User) × (o ≡ some row.session)
        × (lookup row.user_id db.users ≡ some user)
        × (row.role ≡ user.role)
  unfolding join
  join_row db none row h = cc
  join_row db (some s) row h = elim (Option-cases (lookup s.user_id db.users)) [
    | inl e ↦ cc (let k : join db (some s) ≡ none = rw (e, join) in k)
    | inr (user, e) ↦ (user, ground arith, ground arith, ground arith)
  ]

  check_row_ok :
      (session_hash : String) (now : ℕ) (row : SessionRow) (u : UserSession)
      → check_row sha256 session_hash now (some row) ≡ ok u
      → (row.revoked ≡ false)
        × (now < row.expires_at)
        × (u.role ≡ row.role)
        × (u.user_id ≡ row.user_id)
        × (u.session_ref ≡ text_take 12 session_hash)
  unfolding check_row
  check_row_ok session_hash now row u h = ground arith

  -- Whoever `validate` lets in holds the id of a stored session that is neither revoked nor
  -- expired, and gets the role that the users table has now.
  pub validate-Accepted :
      (db : Database) (session_id : String) (now : ℕ) (u : UserSession)
      → validate sha256 db session_id now ≡ ok u
      → Accepted db session_id now u
  validate-Accepted db session_id now u h =
      let (row, found, checked) = find_row db session_id now u h in
      let (user, stored, owner, role) = join_row db _ row found in
      let (active, unexpired, same_role, same_user, reference) =
        check_row_ok (sha256 session_id) now row u checked in
      record {
        session = row.session;
        user = user;
        stored = stored;
        owner = owner;
        active = active;
        unexpired = unexpired;
        current_role = same_role ∙ role;
        same_user = same_user;
        reference = reference;
      }

  -- And the other way round: a stored session of a user, neither revoked nor expired, is accepted
  -- under its id, if the id is not empty and not too long.
  pub validate_stored :
      (db : Database) (session_id : String) (now : ℕ) (s : Session) (r : User)
      → db.connected ≡ true
      → session_id ≢ ""
      → text_length session_id ≤ max_session_id_len
      → lookup (sha256 session_id) db.sessions ≡ some s
      → lookup s.user_id db.users ≡ some r
      → s.revoked ≡ false
      → now < s.expires_at
      → validate sha256 db session_id now
        ≡ ok (record {
          user_id = s.user_id;
          role = r.role;
          session_ref = text_take 12 (sha256 session_id);
          created_at = s.created_at;
          expires_at = s.expires_at;
        })
  unfolding validate get_session
  validate_stored db session_id now s r up some_id short stored owner active unexpired =
      ground (arith, eq_false session_id "" some_id)

  revoked_row :
      (db db' : Database) (session_id : String) (found : Bool) (s : Session)
      → revoke sha256 db session_id ≡ ok (db', found)
      → lookup (sha256 session_id) db'.sessions ≡ some s
      → s.revoked ≡ true
  unfolding revoke revoke_session
  revoked_row db db' session_id found s h e =
      let hash : String = sha256 session_id in
      elim (Option-cases (lookup hash db.sessions)) [
        | inl missing ↦ ground arith
        | inr (old, there) ↦
            ground (arith, lookup-insert_self hash (record old { revoked = true }) db.sessions)
      ]

  -- A session that was revoked is never accepted again.
  pub validate-revoke :
      (db db' : Database) (session_id : String) (now : ℕ) (found : Bool) (u : UserSession)
      → revoke sha256 db session_id ≡ ok (db', found)
      → validate sha256 db' session_id now ≢ ok u
  validate-revoke db db' session_id now found u h e =
      let a : Accepted db' session_id now u = validate-Accepted db' session_id now u e in
      cc (a.active, revoked_row db db' session_id found a.session h a.stored)
