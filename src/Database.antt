-- ===== src/Database.antt =====
-- app/storage/database.py: the four tables and the methods on them. A table with a text primary key
-- is a dictionary from that key. `connected` is false once `close` has been called: from then on
-- every statement raises. Other faults of sqlite3 are not modelled.
pub mod Laws
pub mod Later
mod Tests
use Prim.Native.Nat.Ordering.{lt, eq, gt}
use Prim.Native.String.{◌++◌ as ◌⧺◌, compare}
use agentic_firewall.Base.{
  ℕ, zero, suc, String, Bool, true, false, Option, none, some, List, [], ◌∷◌, ◌++◌, if◌then◌else◌,
}
use agentic_firewall.Dict.{Dict, lookup, insert}
use agentic_firewall.Result.{◌>>=◌, Result, ok, raise, value_error, db_error}
use agentic_firewall.Models.Events.{SecurityEvent}

pub record User : Type 0 where
  pub user_id : String
  pub role : String
  pub api_key_hash : String

pub record Session : Type 0 where
  pub user_id : String
  pub created_at : ℕ
  pub expires_at : ℕ
  pub revoked : Bool

-- A row of the join of sessions and users.
pub record SessionRow : Type 0 where
  pub session : Session
  pub open session use *
  pub role : String

-- A row of the log: its id, and in `event` its other columns, which are those of the event that was
-- written, when it had no id yet.
pub record AuditRow : Type 0 where
  pub id : ℕ
  pub event : SecurityEvent

pub record Fingerprint : Type 0 where
  pub fingerprint : String
  pub approved_at : ℕ
  pub approved_by : Option String

pub record Database : Type 0 where
  pub connected : Bool
  pub users : Dict User
  pub sessions : Dict Session
  pub audit_logs : List AuditRow
  pub next_id : ℕ
  pub fingerprints : Dict Fingerprint

abbrev pub empty : Database
empty = record {
  connected = true;
  users = [];
  sessions = [];
  audit_logs = [];
  next_id = 1;
  fingerprints = [];
}

-- `_write` and `_query`: a statement on a closed connection raises.
abbrev pub execute {ℓ} : {A : Type ℓ} → Database → A → Result A
execute db a = if db.connected then ok a else raise db_error

unfoldable pub close : Database → Database
close db = record db { connected = false }

-- The message shows the id by `!r`, which is the plain quoted text for the ids that reach this.
unfoldable pub add_user : Database → String → String → String → Result Database
add_user db user_id role api_key_hash = do
  users ← execute db db.users
  elim (lookup user_id users) [
    | none ↦ ok (record db {
      users =
          insert user_id (record { user_id = user_id; role = role; api_key_hash = api_key_hash })
            users;
    })
    | some u ↦ raise (value_error ("user '" ⧺ user_id ⧺ "' already exists"))
  ]

unfoldable pub get_user : Database → String → Result (Option User)
get_user db user_id = execute db (lookup user_id db.users)

-- The primary key must be new, and the user must exist (`PRAGMA foreign_keys`).
unfoldable pub create_session : Database → String → String → ℕ → ℕ → Result Database
create_session db session_hash user_id created_at expires_at = do
  users ← execute db db.users
  elim (lookup user_id users) [
    | none ↦ raise db_error
    | some u ↦ elim (lookup session_hash db.sessions) [
      | none ↦ ok (record db {
        sessions =
            insert session_hash
              (record {
                user_id = user_id;
                created_at = created_at;
                expires_at = expires_at;
                revoked = false;
              })
              db.sessions;
      })
      | some s ↦ raise db_error
    ]
  ]

-- JOIN users ON u.user_id = s.user_id
unfoldable pub join : Database → Option Session → Option SessionRow
join db none = none
join db (some s) = elim (lookup s.user_id db.users) [
  | none ↦ none
  | some u ↦ some (record { session = s; role = u.role })
]

unfoldable pub get_session : Database → String → Result (Option SessionRow)
unfolding join
get_session db session_hash = execute db (join db (lookup session_hash db.sessions))

unfoldable pub revoke_session : Database → String → Result (Database × Bool)
revoke_session db session_hash = do
  found ← execute db (lookup session_hash db.sessions)
  elim found [
    | none ↦ ok (db, false)
    | some s ↦ ok (
      record db { sessions = insert session_hash (record s { revoked = true }) db.sessions },
      true,
    )
  ]

unfoldable pub add_audit : Database → SecurityEvent → Result (Database × ℕ)
add_audit db event = execute db (
  record db {
    audit_logs = db.audit_logs ++ record { id = db.next_id; event = event } ∷ [];
    next_id = suc db.next_id;
  },
  db.next_id,
)

abbrev pub take_rows : ℕ → List AuditRow → List AuditRow
take_rows zero rows = []
take_rows (suc n) [] = []
take_rows (suc n) (row ∷ rows) = row ∷ take_rows n rows

abbrev pub newest_first : List AuditRow → List AuditRow
newest_first [] = []
newest_first (row ∷ rows) = newest_first rows ++ row ∷ []

-- ORDER BY id DESC LIMIT limit; the rows stand in the order of their ids.
unfoldable pub recent_audit : Database → ℕ → Result (List AuditRow)
recent_audit db limit = execute db (take_rows limit (newest_first db.audit_logs))

unfoldable pub get_fingerprint : Database → String → Result (Option Fingerprint)
get_fingerprint db tool_name = execute db (lookup tool_name db.fingerprints)

-- INSERT … ON CONFLICT(tool_name) DO UPDATE
unfoldable pub upsert_fingerprint : Database → String → String → ℕ → Option String → Result Database
upsert_fingerprint db tool_name fingerprint approved_at approved_by = execute db (record db {
  fingerprints =
      insert tool_name
        (record { fingerprint = fingerprint; approved_at = approved_at; approved_by = approved_by })
        db.fingerprints;
})

-- A row of tool_fingerprints into its place by name; the texts are compared by code points.
abbrev pub place : String × Fingerprint → Dict Fingerprint → Dict Fingerprint
place row [] = row ∷ []
place row (other ∷ rest) = elim (compare row.0 other.0) [
  | gt ↦ other ∷ place row rest
  | _ ↦ row ∷ other ∷ rest
]

abbrev pub by_name : Dict Fingerprint → Dict Fingerprint
by_name [] = []
by_name (row ∷ rest) = place row (by_name rest)

-- ORDER BY tool_name
unfoldable pub list_fingerprints : Database → Result (Dict Fingerprint)
list_fingerprints db = execute db (by_name db.fingerprints)
