-- ===== src/Authentication.antt =====
-- app/firewall/authentication.py. SHA-256 is the parameter `sha256`; a new random session id and
-- the clock's reading are arguments of the calls that draw them. Arguments are texts, so the
-- `isinstance` tests pass.
pub mod Sessions
pub mod Login
mod Tests
use agentic_firewall.Base.{
  ℕ, ◌+◌, String, Bool, true, false, ◌&&◌, ◌||◌, Option, none, some, leb, ltb, ◌==◌, eqb, is_alnum,
  in_range, text_length, text_take, all_codes, if◌then◌else◌,
}
use agentic_firewall.Result.{◌>>=◌, Result, ok, raise, auth_error, value_error}
use agentic_firewall.Models.Requests.{UserSession}
use agentic_firewall.Database.{
  Database, User, SessionRow, add_user, get_user, create_session, get_session, revoke_session,
}

abbrev pub min_api_key_len : ℕ
min_api_key_len = 16

abbrev pub max_session_id_len : ℕ
max_session_id_len = 256

-- USER_ID_RE.fullmatch(user_id): 1 to 64 characters of [A-Za-z0-9_.@-]
unfoldable pub is_user_id : String → Bool
is_user_id user_id =
    in_range 1 64 (text_length user_id)
    && all_codes (λ c. is_alnum c || eqb b'_' c || eqb b'.' c || eqb b'@' c || eqb b'-' c) user_id

module _ (sha256 : String → String) where
  abbrev pub dummy_hash : String
  dummy_hash = sha256 "dummy-credential-used-for-constant-time-comparison"

  unfoldable pub register_user : Database → String → String → String → Result Database
  register_user db user_id role api_key =
      if is_user_id user_id
      then (if ltb (text_length api_key) min_api_key_len
          then raise (value_error "api_key must be at least 16 characters")
          else if role == ""
          then raise (value_error "role must not be empty")
          else add_user db user_id role (sha256 api_key))
      else raise (value_error "user_id must be 1-64 chars of letters, digits, _ . @ -")

  -- The row of the user, if the id has the form of one.
  unfoldable pub find_user : Database → String → Result (Option User)
  find_user db user_id = if is_user_id user_id then get_user db user_id else ok none

  -- The new session of a user whose key matched; `session_id` is the random id that was drawn.
  unfoldable pub open_session :
      Database → User → ℕ → String → ℕ → Result (String × UserSession × Database)
  open_session db row ttl session_id now = do
    let session_hash = sha256 session_id
    db' ← create_session db session_hash row.user_id now (now + ttl)
    ok (
      session_id,
      record {
        user_id = row.user_id;
        role = row.role;
        session_ref = text_take 12 session_hash;
        created_at = now;
        expires_at = now + ttl;
      },
      db',
    )

  -- row["api_key_hash"] if row else _DUMMY_HASH
  abbrev pub expected_hash : Option User → String
  expected_hash none = dummy_hash
  expected_hash (some row) = row.api_key_hash

  -- The test behind the comparison, which is made whether or not there is a row.
  unfoldable pub accept :
      Database → Option User → Bool → ℕ → String → ℕ → Result (String × UserSession × Database)
  accept db none matches ttl session_id now = raise (auth_error "invalid credentials")
  accept db (some row) true ttl session_id now = open_session db row ttl session_id now
  accept db (some row) false ttl session_id now = raise (auth_error "invalid credentials")

  unfoldable pub login :
      Database → ℕ → String → String → String → ℕ → Result (String × UserSession × Database)
  login db ttl user_id api_key session_id now = do
    row ← find_user db user_id
    let matches = sha256 api_key == expected_hash row
    accept db row matches ttl session_id now

  -- The checks of `validate` on the row that was found, with the clock's reading.
  unfoldable pub check_row : String → ℕ → Option SessionRow → Result UserSession
  check_row session_hash now none = raise (auth_error "invalid session")
  check_row session_hash now (some row) =
      if row.revoked
      then raise (auth_error "session revoked")
      else if leb row.expires_at now
      then raise (auth_error "session expired")
      else ok (record {
        user_id = row.user_id;
        role = row.role;
        session_ref = text_take 12 session_hash;
        created_at = row.created_at;
        expires_at = row.expires_at;
      })

  unfoldable pub validate : Database → String → ℕ → Result UserSession
  unfolding check_row
  validate db session_id now =
      if session_id == ""
      then raise (auth_error "missing session")
      else if ltb max_session_id_len (text_length session_id)
      then raise (auth_error "invalid session")
      else (do row ← get_session db (sha256 session_id); check_row (sha256 session_id) now row)

  unfoldable pub revoke : Database → String → Result (Database × Bool)
  revoke db session_id = revoke_session db (sha256 session_id)
