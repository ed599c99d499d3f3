-- ===== src/Database/Laws.antt =====
-- The tables of app/storage/database.py: what a read returns after a write.
use agentic_firewall.Base.{
  ℕ, suc, ◌<◌, ◌≡◌, refl, String, true, Option, some, List, [], ◌∷◌, ◌++◌, arith, ◌==◌,
  if◌then◌else◌,
}
use agentic_firewall.Dict.{insert, lookup-insert}
use agentic_firewall.Result.{ok}
use agentic_firewall.Models.Events.{SecurityEvent}
use agentic_firewall.Database.{
  Database, AuditRow, Fingerprint, add_audit, recent_audit, take_rows, newest_first,
  get_fingerprint, upsert_fingerprint,
}

-- The ids of the rows rise, and stay below the next one.
abbrev pub Rising : ℕ → ℕ → List AuditRow → Type 0
Rising lo next [] = Unit
Rising lo next (row ∷ rows) = (lo < row.id) × (row.id < next) × Rising row.id next rows

append-Rising :
    (lo next : ℕ) (rows : List AuditRow) (e : SecurityEvent)
    → lo < next
    → Rising lo next rows
    → Rising lo (suc next) (rows ++ record { id = next; event = e } ∷ [])
append-Rising lo next [] e h r = omega arith
append-Rising lo next (row ∷ rows) e h r =
    let rest : Rising row.id (suc next) (rows ++ record { id = next; event = e } ∷ []) =
      append-Rising row.id next rows e (omega arith) r.2 in
    (omega arith, omega arith, rest)

add_audit-state :
    (db db' : Database) (e : SecurityEvent) (id : ℕ)
    → add_audit db e ≡ ok (db', id)
    → (id ≡ db.next_id)
      × (db' ≡ record db {
        audit_logs = db.audit_logs ++ record { id = id; event = e } ∷ [];
        next_id = suc id;
      })
      × (db.connected ≡ true)
unfolding add_audit
add_audit-state db db' e id w = ground arith

-- Appending to the log keeps the ids in order, where they are and none is 0: so `ORDER BY id DESC`
-- is the reverse of the order of insertion.
pub add_audit-Rising :
    (db db' : Database) (e : SecurityEvent) (id : ℕ)
    → 0 < db.next_id
    → Rising 0 db.next_id db.audit_logs
    → add_audit db e ≡ ok (db', id)
    → Rising 0 db'.next_id db'.audit_logs
add_audit-Rising db db' e id h r w =
    let (fresh, state, up) = add_audit-state db db' e id w in
    rw (state, fresh) (append-Rising 0 db.next_id db.audit_logs e h r)

newest_first-append :
    (rows : List AuditRow) (row : AuditRow)
    → newest_first (rows ++ row ∷ []) ≡ row ∷ newest_first rows
newest_first-append [] row = refl
newest_first-append (r ∷ rows) row = rw (newest_first-append rows row)

-- The event that was recorded last is the first that `recent_audit` returns, in front of what it
-- returned before.
pub recent_audit-add_audit :
    (db db' : Database) (e : SecurityEvent) (id limit : ℕ)
    → add_audit db e ≡ ok (db', id)
    → recent_audit db' (suc limit)
      ≡ ok (record { id = id; event = e } ∷ take_rows limit (newest_first db.audit_logs))
unfolding recent_audit
recent_audit-add_audit db db' e id limit w =
    let (fresh, state, up) = add_audit-state db db' e id w in
    rw (state, up, newest_first-append db.audit_logs (record { id = id; event = e }))

upsert_fingerprint-state :
    (db db' : Database) (tool fp : String) (at : ℕ) (by : Option String)
    → upsert_fingerprint db tool fp at by ≡ ok db'
    → let row : Fingerprint = record { fingerprint = fp; approved_at = at; approved_by = by } in
      (db' ≡ record db { fingerprints = insert tool row db.fingerprints }) × (db.connected ≡ true)
unfolding upsert_fingerprint
upsert_fingerprint-state db db' tool fp at by w = ground arith

-- A fingerprint that was stored is the one that is read; the other tools' stay.
pub get_fingerprint-upsert_fingerprint :
    (db db' : Database) (tool j fp : String) (at : ℕ) (by : Option String)
    → upsert_fingerprint db tool fp at by ≡ ok db'
    → get_fingerprint db' j ≡ (
        if tool == j
        then ok (some (record { fingerprint = fp; approved_at = at; approved_by = by }))
        else get_fingerprint db j)
unfolding get_fingerprint
get_fingerprint-upsert_fingerprint db db' tool j fp at by w =
    let (state, up) = upsert_fingerprint-state db db' tool fp at by w in
    let row : Fingerprint = record { fingerprint = fp; approved_at = at; approved_by = by } in
    rw state (ground (arith, up, lookup-insert tool j row db.fingerprints))
