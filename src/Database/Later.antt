-- ===== src/Database/Later.antt =====
-- What the statements of app/storage/database.py leave in place: the rows of the log, and the
-- sessions that have been revoked.
use agentic_firewall.Base.{
  ℕ, ◌≡◌, refl, sym, ◌∙◌, String, Bool, true, false, Option, none, some, List, [], ◌∷◌, ◌++◌, arith,
  ◌==◌, eq_iff, Bool-cases, Option-cases, inl, inr, append_nil, append_assoc,
}
use agentic_firewall.Dict.{Dict, lookup, insert, lookup-insert, lookup-insert_self}
use agentic_firewall.Result.{ok}
use agentic_firewall.Models.Events.{SecurityEvent}
use agentic_firewall.Database.{
  Database, Session, AuditRow, add_audit, add_user, create_session, revoke_session,
  upsert_fingerprint,
}

-- The session under a key of the table has been revoked.
abbrev pub Revoked : String → Dict Session → Type 0
Revoked key sessions = (s : Session) × (lookup key sessions ≡ some s) × (s.revoked ≡ true)

-- A database that comes after another: rows have been added to the log at its end, and what had been
-- revoked is revoked.
pub record Later (db db' : Database) : Type 0 where
  pub rows : List AuditRow
  pub appended : db'.audit_logs ≡ db.audit_logs ++ rows
  pub dead : (key : String) → Revoked key db.sessions → Revoked key db'.sessions

pub same_tables :
    (db db' : Database) → db'.audit_logs ≡ db.audit_logs → db'.sessions ≡ db.sessions → Later db db'
same_tables db db' logs sessions = record {
  rows = [];
  appended = logs ∙ sym (append_nil db.audit_logs);
  dead = λ key d. rw sessions d;
}

pub same : (db db' : Database) → db' ≡ db → Later db db'
same db db' e = same_tables db db' (rw e refl) (rw e refl)

pub later : (a b c : Database) → Later a b → Later b c → Later a c
later a b c h k = record {
  rows = h.rows ++ k.rows;
  appended = rw (k.appended, h.appended) (append_assoc a.audit_logs h.rows k.rows);
  dead = λ key d. k.dead key (h.dead key d);
}

pub add_audit-Later :
    (db db' : Database) (e : SecurityEvent) (id : ℕ) → add_audit db e ≡ ok (db', id) → Later db db'
unfolding add_audit
add_audit-Later db db' e id h = record {
  rows = record { id = db.next_id; event = e } ∷ [];
  appended = ground arith;
  dead = λ key d. ground arith;
}

pub upsert_fingerprint-Later :
    (db db' : Database) (tool_name fingerprint : String) (approved_at : ℕ) (by : Option String)
    → upsert_fingerprint db tool_name fingerprint approved_at by ≡ ok db'
    → Later db db'
unfolding upsert_fingerprint
upsert_fingerprint-Later db db' tool_name fingerprint approved_at by h =
    same_tables db db' (ground arith) (ground arith)

pub add_user-Later :
    (db db' : Database) (user_id role hash : String)
    → add_user db user_id role hash ≡ ok db'
    → Later db db'
unfolding add_user
add_user-Later db db' user_id role hash h = same_tables db db' (ground arith) (ground arith)

-- A write to one key of the sessions, under which there was nothing, or which is now revoked.
insert-Revoked :
    (key other : String) (s : Session) (sessions : Dict Session)
    → (Revoked key sessions → s.revoked ≡ true)
    → Revoked other sessions
    → Revoked other (insert key s sessions)
insert-Revoked key other s sessions h d = elim (Bool-cases (key == other)) [
  | inr differs ↦ (d.0, lookup-insert key other s sessions ∙ rw differs d.1, d.2)
  | inl same ↦
      let e : key ≡ other = ground (arith, eq_iff key other) in
      (s, lookup-insert key other s sessions ∙ rw same refl, h (rw e d))
]

insert-Later :
    (db : Database) (key : String) (s : Session)
    → (Revoked key db.sessions → s.revoked ≡ true)
    → Later db (record db { sessions = insert key s db.sessions })
insert-Later db key s h = record {
  rows = [];
  appended = sym (append_nil db.audit_logs);
  dead = λ other. insert-Revoked key other s db.sessions h;
}

vacant :
    (db : Database) (key : String) (s : Session)
    → lookup key db.sessions ≡ none
    → Revoked key db.sessions
    → s.revoked ≡ true
vacant db key s h d = cc (h, d.1)

create_session-state :
    (db db' : Database) (hash user_id : String) (created expires : ℕ)
    → create_session db hash user_id created expires ≡ ok db'
    → let s : Session = record {
      user_id = user_id;
      created_at = created;
      expires_at = expires;
      revoked = false;
    } in
      (lookup hash db.sessions ≡ none) × (db' ≡ record db { sessions = insert hash s db.sessions })
unfolding create_session
create_session-state db db' hash user_id created expires h = ground arith

revoked_state :
    (db db' : Database) (hash : String) (found : Bool) (s : Session)
    → lookup hash db.sessions ≡ some s
    → revoke_session db hash ≡ ok (db', found)
    → db' ≡ record db { sessions = insert hash (record s { revoked = true }) db.sessions }
unfolding revoke_session
revoked_state db db' hash found s there h = ground arith

pub create_session-Later :
    (db db' : Database) (hash user_id : String) (created expires : ℕ)
    → create_session db hash user_id created expires ≡ ok db'
    → Later db db'
create_session-Later db db' hash user_id created expires h =
    let s : Session = record {
      user_id = user_id;
      created_at = created;
      expires_at = expires;
      revoked = false;
    } in
    let (free, made) = create_session-state db db' hash user_id created expires h in
    rw made (insert-Later db hash s (vacant db hash s free))

pub revoke_session-Later :
    (db db' : Database) (hash : String) (found : Bool)
    → revoke_session db hash ≡ ok (db', found)
    → Later db db'
unfolding revoke_session
revoke_session-Later db db' hash found h = elim (Option-cases (lookup hash db.sessions)) [
  | inl missing ↦ same db db' (ground arith)
  | inr (s, there) ↦
      rw (revoked_state db db' hash found s there h)
        (insert-Later db hash (record s { revoked = true }) (λ d. refl))
]

pub revoke_session-Revoked :
    (db db' : Database) (hash : String)
    → revoke_session db hash ≡ ok (db', true)
    → Revoked hash db'.sessions
unfolding revoke_session
revoke_session-Revoked db db' hash h = elim (Option-cases (lookup hash db.sessions)) [
  | inl missing ↦ ground arith
  | inr (s, there) ↦
      rw (revoked_state db db' hash true s there h)
        (record s { revoked = true }, lookup-insert_self hash _ db.sessions, refl)
]
