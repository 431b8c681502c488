-- ===== src/Store/Pins.antt =====
-- `_set_message_pin_sync` of samsarix_chat_engine/store.py.
pub mod Sound
use samsarix_chat_engine.Base.{
  ◌==◌, Bool, true, false, not, is_some, bool_eq, Option, none, some, if◌then◌else◌,
}
use samsarix_chat_engine.Base.Sql.{update, fetch}
use samsarix_chat_engine.Store.Tables.{
  Text, Time, Stamp, MessageRow, PinMutation, AuditAction, EventType, EventBody, Details, Database,
  Limits, Result, ok, ◌>>=◌, ◌>>◌, raise_if, or_raise, message_not_found, message_deleted, named,
  message_from_row,
}
use samsarix_chat_engine.Store.Audit.{insert_audit}
use samsarix_chat_engine.Store.Outbox.{insert_webhook}
use samsarix_chat_engine.Store.Messages.{find_message, require_writable}

abbrev pub with_pin : Bool → Text → Time → MessageRow → MessageRow
with_pin pinned pinner now m = record m {
  pinned_at = if pinned then some now else none;
  pinned_by = if pinned then some pinner else none;
}

abbrev pub pin_mutation : MessageRow → Text → Bool → Bool → Time → Result PinMutation
pin_mutation row pinner pinned changed now = do
  message ← message_from_row row
  ok (record {
    message = message;
    pinner = pinner;
    pinned = pinned;
    changed = changed;
    updated_at = now;
  })

abbrev pub pin_changes : MessageRow → Bool → Bool
pin_changes row pinned = not (bool_eq (is_some row.pinned_at) pinned)

-- The part that writes.
unfoldable pub store_pin :
    Limits
    → Text
    → Text
    → Text
    → Text
    → Bool
    → Time
    → Stamp
    → Text
    → Database
    → Result (PinMutation × Database)
store_pin l room message pinner actor pinned now audited delivery db = do
  let written = record db {
    messages = update (λ m. m.id == message) (with_pin pinned pinner now) db.messages;
  }
  db₁ ←
      insert_audit l audited AuditAction.message_pin_updated (named actor) (some room)
        (Details.pin_state message pinned) written
  stored ← or_raise (fetch (λ m. m.id == message) db₁.messages) (message_not_found message)
  mutation ← pin_mutation stored pinner pinned true now
  db₂ ←
      insert_webhook l delivery EventType.message_pin_updated room message now
        (EventBody.pinned mutation) db₁
  ok (mutation, db₂)

abbrev pub report_pin : MessageRow → Text → Bool → Time → Database → Result (PinMutation × Database)
report_pin row pinner pinned now db = do
  mutation ← pin_mutation row pinner pinned false now
  ok (mutation, db)

unfoldable pub set_message_pin :
    Limits
    → Text
    → Text
    → Text
    → Text
    → Bool
    → Bool
    → Option Text
    → Time
    → Time
    → Stamp
    → Text
    → Database
    → Result (PinMutation × Database)
set_message_pin l room message pinner actor pinned allow_frozen subject now checked_at audited
      delivery db =
    do
      require_writable room allow_frozen subject checked_at db
      row ← or_raise (find_message room message db) (message_not_found message)
      raise_if (is_some row.deleted_at) (message_deleted message)
      if pin_changes row pinned
          then store_pin l room message pinner actor pinned now audited delivery db
          else report_pin row pinner pinned now db
