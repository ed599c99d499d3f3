-- ===== src/Authentication/Login.antt =====
-- `login` and `register_user` of app/firewall/authentication.py.
use agentic_firewall.Base.{
  ℕ, ◌+◌, ◌≤◌, ◌<◌, ◌≡◌, ◌≢◌, ◌∙◌, ◌⊎◌, inl, inr, refl, ap, subst, String, Bool, true, false,
  Option, none, some, arith, ◌==◌, eq_iff, eq_false, text_length, text_take,
}
use agentic_firewall.Dict.{lookup, insert, lookup-insert, lookup-insert_self}
use agentic_firewall.Result.{ok, raise, auth_error, >>=-eq-ok}
use agentic_firewall.Models.Requests.{UserSession}
use agentic_firewall.Database.{Database, User, Session, add_user, get_user, create_session}
use agentic_firewall.Authentication.{
  max_session_id_len, is_user_id, find_user, expected_hash, open_session, accept, login, validate,
}
use agentic_firewall.Authentication.Sessions.{validate_stored}

-- A row of the users table stands under its own user id.
pub record IsKeyed (db : Database) : Type 0 where
  pub keyed : (k : String) (u : User) → lookup k db.users ≡ some u → u.user_id ≡ k

add_user-state :
    (db db' : Database) (user_id role hash : String)
    → add_user db user_id role hash ≡ ok db'
    → let row : User = record { user_id = user_id; role = role; api_key_hash = hash } in
      db' ≡ record db { users = insert user_id row db.users }
unfolding add_user
add_user-state db db' user_id role hash h = ground arith

pub add_user-IsKeyed :
    (db db' : Database) (user_id role hash : String)
    → IsKeyed db
    → add_user db user_id role hash ≡ ok db'
    → IsKeyed db'
add_user-IsKeyed db db' user_id role hash v h =
    let row : User = record { user_id = user_id; role = role; api_key_hash = hash } in
    rw (add_user-state db db' user_id role hash h) (record {
      keyed = λ k u e.
          ground (arith, lookup-insert user_id k row db.users, eq_iff user_id k, v.keyed k u);
    })

module _ (sha256 : String → String) where
  accept_ok :
      (db db' : Database) (o : Option User) (matches : Bool) (ttl now : ℕ) (session_id sid : String)
      (u : UserSession)
      → accept sha256 db o matches ttl session_id now ≡ ok (sid, u, db')
      → (row : User) × (o ≡ some row)
        × (matches ≡ true)
        × (open_session sha256 db row ttl session_id now ≡ ok (sid, u, db'))
  unfolding accept
  accept_ok db db' none matches ttl now session_id sid u h = cc
  accept_ok db db' (some row) true ttl now session_id sid u h = (row, refl, refl, h)
  accept_ok db db' (some row) false ttl now session_id sid u h = cc

  find_user_ok :
      (db : Database) (user_id : String) (row : User)
      → find_user sha256 db user_id ≡ ok (some row)
      → (lookup user_id db.users ≡ some row) × (is_user_id user_id ≡ true) × (db.connected ≡ true)
  unfolding find_user get_user
  find_user_ok db user_id row h = ground arith

  -- What a session that has been opened leaves behind.
  open_session_ok :
      (db db' : Database) (row : User) (ttl now : ℕ) (session_id sid : String) (u : UserSession)
      → open_session sha256 db row ttl session_id now ≡ ok (sid, u, db')
      → let s : Session = record {
        user_id = row.user_id;
        created_at = now;
        expires_at = now + ttl;
        revoked = false;
      } in
        (sid ≡ session_id)
        × (u ≡ record {
          user_id = row.user_id;
          role = row.role;
          session_ref = text_take 12 (sha256 session_id);
          created_at = now;
          expires_at = now + ttl;
        })
        × (db' ≡ record db { sessions = insert (sha256 session_id) s db.sessions })
  unfolding open_session create_session
  open_session_ok db db' row ttl now session_id sid u h = ground arith

  matched :
      (api_key : String) (o : Option User) (row : User)
      → o ≡ some row
      → (sha256 api_key == expected_hash sha256 o) ≡ true
      → sha256 api_key ≡ row.api_key_hash
  matched api_key o row e m =
      (eq_iff _ _).0 (subst (λ x. (sha256 api_key == expected_hash sha256 x) ≡ true) e m)

  -- A login that succeeds has found the user's row, under a well-formed id, with the hash of
  -- the key that was given.
  pub login_ok :
      (db db' : Database) (ttl now : ℕ) (user_id api_key session_id sid : String) (u : UserSession)
      → login sha256 db ttl user_id api_key session_id now ≡ ok (sid, u, db')
      → (row : User) × (lookup user_id db.users ≡ some row)
        × (sha256 api_key ≡ row.api_key_hash)
        × (is_user_id user_id ≡ true)
        × (db.connected ≡ true)
        × (open_session sha256 db row ttl session_id now ≡ ok (sid, u, db'))
  unfolding login
  login_ok db db' ttl now user_id api_key session_id sid u h =
      let (o, found, rest) = >>=-eq-ok (find_user sha256 db user_id) _ h in
      let (row, is_row, matches, opened) = accept_ok db db' o _ ttl now session_id sid u rest in
      let (stored, form, up) =
        find_user_ok db user_id row (found ∙ ap (λ (x : Option User). ok x) is_row) in
      (row, stored, matched api_key o row is_row matches, form, up, opened)

  -- A session that a login opened is accepted until it expires, as the session that the login
  -- returned: the id that was drawn must not be empty nor longer than 256 characters, and each
  -- row of the users table must stand under its own user id.
  pub validate-login :
      (db db' : Database) (ttl now later : ℕ) (user_id api_key session_id sid : String)
      (u : UserSession)
      → IsKeyed db
      → login sha256 db ttl user_id api_key session_id now ≡ ok (sid, u, db')
      → session_id ≢ ""
      → text_length session_id ≤ max_session_id_len
      → later < now + ttl
      → validate sha256 db' sid later ≡ ok u
  validate-login db db' ttl now later user_id api_key session_id sid u v h some_id short soon =
      let (row, stored, key, form, up, opened) =
        login_ok db db' ttl now user_id api_key session_id sid u h in
      let (same_id, session, state) = open_session_ok db db' row ttl now session_id sid u opened in
      let s : Session = record {
        user_id = row.user_id;
        created_at = now;
        expires_at = now + ttl;
        revoked = false;
      } in
      rw (same_id, session, state)
        (validate_stored sha256 (record db { sessions = insert (sha256 session_id) s db.sessions })
          session_id later s row up some_id short
          (lookup-insert_self (sha256 session_id) s db.sessions)
          (ap (λ k. lookup k db.users) (v.keyed user_id row stored) ∙ stored) refl soon)

  -- An unknown user, a malformed id and a wrong key.
  abbrev pub Refusable : Database → String → String → Type 0
  Refusable db user_id api_key =
      (is_user_id user_id ≡ false)
      ⊎ (lookup user_id db.users ≡ none)
      ⊎ ((row : User) × (lookup user_id db.users ≡ some row) × (sha256 api_key ≢ row.api_key_hash))

  -- With a connected database, an unknown user, a malformed id and a wrong key are refused with one
  -- and the same message.
  pub login_refuses :
      (db : Database) (ttl now : ℕ) (user_id api_key session_id : String)
      → db.connected ≡ true
      → Refusable db user_id api_key
      → login sha256 db ttl user_id api_key session_id now
        ≡ raise (auth_error "invalid credentials")
  unfolding login find_user get_user accept
  login_refuses db ttl now user_id api_key session_id up (inl e) = rw (e, accept)
  login_refuses db ttl now user_id api_key session_id up (inr (inl e)) = ground arith
  login_refuses db ttl now user_id api_key session_id up (inr (inr (row, e, ne))) =
      ground (arith, eq_false (sha256 api_key) row.api_key_hash ne)
