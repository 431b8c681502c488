-- ===== src/Store/Retention.antt =====
-- Retention of samsarix_chat_engine/store.py: `_delete_messages_with_webhook_scrub`,
-- `_trim_messages` and `_run_retention_sync`.
pub mod Caps
use samsarix_chat_engine.Base.{
  ℕ, ◌+◌, ◌-◌, ◌*◌, ◌==◌, ltb, Bool, not, ◌&&◌, ◌||◌, Option, none, some, List, length, take, map,
  if◌then◌else◌,
}
use samsarix_chat_engine.Base.Sql.{select, exists}
use samsarix_chat_engine.Base.Order.{order_by, among}
use samsarix_chat_engine.Store.Tables.{
  Text, Time, Stamp, MessageRow, DeliveryRow, AuditAction, Actor, Details, Database, Limits, Result,
  ok, ◌>>=◌, system_retention, named, trimmed, retained,
}
use samsarix_chat_engine.Store.Audit.{insert_audit}
use samsarix_chat_engine.Store.Outbox.{scrub, is_message_event}
use samsarix_chat_engine.Store.Cascade.{message_key, delete_messages}

-- ORDER BY created_at, id
abbrev pub older_message : MessageRow → MessageRow → Bool
older_message a b = ltb a.created_at b.created_at || a.created_at == b.created_at && ltb a.id b.id

-- A delivery about one of the messages of the batch.
abbrev pub about_any : List MessageRow → DeliveryRow → Bool
about_any batch d =
    is_message_event d.event_type
    && exists (λ m. m.id == d.resource_id && m.room_id == d.room_id) batch

-- `message_deletion_batch` is the list of the selected rows.
unfoldable pub delete_batch : List MessageRow → Database → ℕ × Database
delete_batch batch db =
    if length batch == 0
    then (0, db)
    else let scrubbed = record db { deliveries = scrub (about_any batch) db.deliveries } in
      (length batch, delete_messages (among message_key batch) scrubbed)

abbrev pub day : Time
day = 86400 * 1000000

-- `now - timedelta(days=…)`; a clock that far in the past raises OverflowError, and is not modelled.
abbrev pub cutoff : ℕ → Time → Time
cutoff days now = now - days * day

-- The age pass, which runs only where a retention period is set.
abbrev pub delete_expired : Option ℕ → Time → Database → ℕ × Database
delete_expired none now db = (0, db)
delete_expired (some days) now db =
    delete_batch (select (λ m. ltb m.created_at (cutoff days now)) db.messages) db

abbrev pub in_room : Text → MessageRow → Bool
in_room room m = m.room_id == room

-- The oldest rows of the room past `max_stored_messages_per_room`.
abbrev pub room_excess : Limits → Text → List MessageRow → List MessageRow
room_excess l room rows =
    let own = select (in_room room) rows in
    take (length own - l.max_stored_messages_per_room) (order_by older_message own)

-- The oldest rows of all past `max_stored_messages`.
abbrev pub global_excess : Limits → List MessageRow → List MessageRow
global_excess l rows = take (length rows - l.max_stored_messages) (order_by older_message rows)

abbrev pub trim_room : Limits → Text → Database → ℕ × Database
trim_room l room db = delete_batch (room_excess l room db.messages) db

abbrev pub trim_global : Limits → Database → ℕ × Database
trim_global l db = delete_batch (global_excess l db.messages) db

abbrev pub cutoff? : Option ℕ → Time → Option Time
cutoff? none now = none
cutoff? (some days) now = some (cutoff days now)

-- The three passes, and what they deleted.
abbrev pub trim_passes : Limits → Text → Time → Database → ℕ × ℕ × ℕ × Database
trim_passes l room now db =
    let (aged, db₁) = delete_expired l.message_retention_days now db in
    let (over_room, db₂) = trim_room l room db₁ in
    let (over_all, db₃) = trim_global l db₂ in (aged, over_room, over_all, db₃)

unfoldable pub trim_messages : Limits → Text → Time → Stamp → Database → Result Database
trim_messages l room now audited db =
    let (aged, over_room, over_all, db') = trim_passes l room now db in
    if aged == 0 && over_room == 0 && over_all == 0
    then ok db'
    else insert_audit l audited AuditAction.retention_automatic system_retention none
        (trimmed aged over_all over_room room (cutoff? l.message_retention_days now)) db'

-- The explicit pass of `run_retention`, with the cutoff that it computed.
unfoldable pub run_retention : Limits → Time → Text → Stamp → Database → Result (ℕ × Database)
run_retention l limit actor audited db =
    let (deleted, db') = delete_batch (select (λ m. ltb m.created_at limit) db.messages) db in
    do
      db₂ ←
          insert_audit l audited AuditAction.retention_executed (named actor) none
            (retained deleted limit) db'
      ok (deleted, db₂)
