-- ===== src/Store/Audit.antt =====
-- `_insert_audit` of samsarix_chat_engine/store.py.
pub mod Bounds
use samsarix_chat_engine.Base.{◌==◌, Bool, ◌&&◌, ◌||◌, ltb, Option, List, [], ◌∷◌, ◌++◌, drop}
use samsarix_chat_engine.Base.Sql.{exists, delete}
use samsarix_chat_engine.Base.Order.{order_by, among}
use samsarix_chat_engine.Store.Tables.{
  Text, Stamp, AuditAction, Details, Actor, AuditEvent, Database, Limits, Result, ok, integrity,
  ◌>>=◌, ◌>>◌, raise_if,
}

abbrev pub event_id : AuditEvent → Text
event_id e = e.id

-- ORDER BY created_at DESC, id DESC
abbrev pub newer_event : AuditEvent → AuditEvent → Bool
newer_event a b = ltb b.created_at a.created_at || a.created_at == b.created_at && ltb b.id a.id

-- The events past the newest `max_audit_events` are deleted.
abbrev pub trim_events : Limits → List AuditEvent → List AuditEvent
trim_events l rows =
    delete (among event_id (drop l.max_audit_events (order_by newer_event rows))) rows

abbrev pub audit_event : Stamp → AuditAction → Actor → Option Text → Details → AuditEvent
audit_event s action actor room details = record {
  id = s.uid;
  action = action;
  actor = actor;
  room_id = room;
  created_at = s.at;
  details = details;
}

unfoldable pub insert_audit :
    Limits → Stamp → AuditAction → Actor → Option Text → Details → Database → Result Database
insert_audit l s action actor room details db = do
  raise_if (exists (λ e. e.id == s.uid) db.audit_events) integrity
  let rows = db.audit_events ++ audit_event s action actor room details ∷ []
  ok (record db { audit_events = trim_events l rows })
