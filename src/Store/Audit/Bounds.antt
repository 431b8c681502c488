-- ===== src/Store/Audit/Bounds.antt =====
-- The audit trail stays within its limit, and touches no other table.
use samsarix_chat_engine.Base.{
  refl, sym, ◌==◌, false, ◌≤◌, ◌≡◌, Option, List, ◌++◌, ◌∷◌, [], arith, length, drop,
}
use samsarix_chat_engine.Base.Sql.{exists, length-delete}
use samsarix_chat_engine.Base.Order.{among, order_by, count-among-drop}
use samsarix_chat_engine.Base.Keys.{Unique, Unique-append, Unique-delete}
use samsarix_chat_engine.Store.Tables.{
  Text, Stamp, AuditAction, Details, Actor, AuditEvent, Database, Limits, ok, integrity,
}
use samsarix_chat_engine.Store.Outcomes.{Outcome, Outcome-raise_if}
use samsarix_chat_engine.Store.Results.{raise_if-eq-ok, ok-injective}
use samsarix_chat_engine.Store.Audit.{audit_event, insert_audit, trim_events, event_id, newer_event}

pub length-trim_events :
    (l : Limits) (rows : List AuditEvent) → length (trim_events l rows) ≤ l.max_audit_events
length-trim_events l rows =
    let stale : List AuditEvent = drop l.max_audit_events (order_by newer_event rows) in
    omega (
      arith,
      length-delete (among event_id stale) rows,
      count-among-drop event_id newer_event l.max_audit_events rows,
    )

module _ (l : Limits) (s : Stamp) (action : AuditAction) (actor : Actor) (room : Option Text)
    (details : Details) (db : Database) {db' : Database}
    (done : insert_audit l s action actor room details db ≡ ok db') where
  -- The event was new, and it was added before the trail was cut to the newest.
  pub insert_audit_cases :
      (exists (λ e. e.id == s.uid) db.audit_events ≡ false)
      × (db' ≡ record db {
        audit_events =
            trim_events l (db.audit_events ++ audit_event s action actor room details ∷ []);
      })
  unfolding insert_audit
  insert_audit_cases =
      let (fresh, e) = raise_if-eq-ok (exists (λ e. e.id == s.uid) db.audit_events) _ _ done in
      (fresh, sym (ok-injective e))

  -- After an audit insert that is not refused the trail holds at most `max_audit_events` events.
  length-insert_audit : length db'.audit_events ≤ l.max_audit_events
  length-insert_audit =
      rw insert_audit_cases.1
        (length-trim_events l (db.audit_events ++ audit_event s action actor room details ∷ []))

  -- An audit insert writes to no other table.
  pub insert_audit_frame : db' ≡ record db { audit_events = db'.audit_events }
  insert_audit_frame = rw insert_audit_cases.1

  pub Unique-insert_audit : Unique event_id db.audit_events → Unique event_id db'.audit_events
  Unique-insert_audit u =
      rw insert_audit_cases.1 (
        Unique-delete event_id _ _
          (Unique-append event_id db.audit_events _ u insert_audit_cases.0))

-- An audit insert raises only on a repeated identifier, and otherwise adds to its own table alone.
pub insert_audit-Outcome :
    (l : Limits) (s : Stamp) (action : AuditAction) (actor : Actor) (room : Option Text)
    (details : Details) (db : Database)
    → Outcome
        (λ e. e ≡ integrity)
        (λ db'. db' ≡ record db { audit_events = db'.audit_events })
        (insert_audit l s action actor room details db)
unfolding insert_audit
insert_audit-Outcome l s action actor room details db =
    Outcome-raise_if (λ e. e ≡ integrity) _ (exists (λ e. e.id == s.uid) db.audit_events) integrity
      _ (λ _. refl) (λ _. refl)
