-- ===== src/Store/Messages.antt =====
-- Messages of samsarix_chat_engine/store.py: `_create_message_sync`, `_update_message_sync` and
-- `_delete_message_sync`.
pub mod Guards
pub mod Steps
pub mod Origins
pub mod Sound
pub mod Edits
pub mod Erasure
use samsarix_chat_engine.Base.{
  ◌==◌, Bool, true, false, not, ◌&&◌, ◌||◌, is_some, holds, Option, none, some, List, [], ◌∷◌, ◌++◌,
  if◌then◌else◌,
}
use samsarix_chat_engine.Base.Sql.{exists, update, fetch, delete}
use samsarix_chat_engine.Store.Tables.{
  Text, Time, Stamp, Room, MessageRow, Message, Metadata, Attachment, AuditAction, EventType,
  EventBody, Details, Database, Limits, Result, ok, err, StoreError, ◌>>=◌, ◌>>◌, raise_if,
  or_raise, room_not_found, room_archived, room_frozen, message_not_found, message_deleted,
  thread_depth, message_ownership, integrity, not_retained, named, posted, by_actor,
  message_from_row,
}
use samsarix_chat_engine.Store.Audit.{insert_audit}
use samsarix_chat_engine.Store.Outbox.{insert_webhook, scrub_message_webhooks}
use samsarix_chat_engine.Store.Rooms.{find_room}
use samsarix_chat_engine.Store.Members.{enforce_member_write}
use samsarix_chat_engine.Store.Retention.{trim_messages}

-- WHERE room_id = ? AND id = ?
abbrev pub at_id : Text → Text → MessageRow → Bool
at_id room message m = m.room_id == room && m.id == message

abbrev pub find_message : Text → Text → Database → Option MessageRow
find_message room message db = fetch (at_id room message) db.messages

-- The room checks of the writes: archived rooms are read-only, frozen ones are for `allowed`
-- callers only; then the member's mutes and bans.
unfoldable pub require_writable : Text → Bool → Option Text → Time → Database → Result (Unit {0})
require_writable room allowed subject now db = do
  row ← or_raise (find_room room db) (room_not_found room)
  raise_if (is_some row.archived_at) (room_archived room)
  raise_if (is_some row.frozen_at && not allowed) (room_frozen room)
  enforce_member_write room subject now db

pub record Draft : Type 0 where
  pub sender : Text
  pub content : Text
  pub metadata : Metadata
  pub attachments : List Attachment
  pub mentioned_subjects : List Text
  pub client_message_id : Option Text
  pub parent_message_id : Option Text
  pub allow_frozen : Bool
  pub member_subject : Option Text
  pub author_subject : Option Text

pub record CreateStamps : Type 0 where
  pub checked_at : Time
  pub created : Stamp
  pub trim_audit : Stamp
  pub delivery : Text

abbrev pub has_client_id : Text → Text → MessageRow → Bool
has_client_id room client m = m.room_id == room && holds m.client_message_id client

-- `if client_message_id:`, then the message of that room with that key.
abbrev pub find_submitted : Text → Option Text → Database → Option MessageRow
find_submitted room none db = none
find_submitted room (some client) db =
    if client == 0 then none else fetch (has_client_id room client) db.messages

-- A parent is there, not deleted, and no reply itself.
unfoldable pub check_parent : Text → Option Text → Database → Result (Unit {0})
check_parent room none db = ok tt
check_parent room (some parent) db = do
  row ← or_raise (find_message room parent db) (message_not_found parent)
  raise_if (is_some row.deleted_at) (message_deleted parent)
  raise_if (is_some row.parent_message_id) (thread_depth parent)

abbrev pub new_message : Text → Draft → Stamp → MessageRow
new_message room d s = record {
  id = s.uid;
  room_id = room;
  sender = d.sender;
  author_subject = d.author_subject;
  content = d.content;
  created_at = s.at;
  client_message_id = d.client_message_id;
  parent_message_id = d.parent_message_id;
  reactions = [];
  pinned_at = none;
  pinned_by = none;
  metadata = d.metadata;
  attachments = d.attachments;
  mentioned_subjects = d.mentioned_subjects;
  edited_at = none;
  deleted_at = none;
}

abbrev pub same_submission : Text → Option Text → MessageRow → Bool
same_submission room none m = false
same_submission room (some client) m = has_client_id room client m

-- INSERT, under the PRIMARY KEY and UNIQUE(room_id, client_message_id).
unfoldable pub insert_message : MessageRow → Database → Result Database
insert_message row db = do
  raise_if (exists (λ m. m.id == row.id) db.messages) integrity
  raise_if (exists (same_submission row.room_id row.client_message_id) db.messages) integrity
  ok (record db { messages = db.messages ++ row ∷ [] })

-- The end of `_create_message_sync`: the new row is read back, announced and returned.
unfoldable pub announce :
    Limits → Text → CreateStamps → Database → Result (Message × Bool × Database)
announce l room s db = do
  persisted ← or_raise (fetch (λ m. m.id == s.created.uid) db.messages) not_retained
  message ← message_from_row persisted
  db' ←
      insert_webhook l s.delivery EventType.message_created room message.id message.created_at
        (posted message) db
  ok (message, true, db')

-- The part of `_create_message_sync` that writes.
unfoldable pub post :
    Limits → Text → Draft → CreateStamps → Database → Result (Message × Bool × Database)
post l room d s db = do
  check_parent room d.parent_message_id db
  db₁ ← insert_message (new_message room d s.created) db
  db₂ ← trim_messages l room s.created.at s.trim_audit db₁
  announce l room s db₂

-- A repeated submission returns the stored message and writes nothing.
abbrev pub resubmit : MessageRow → Database → Result (Message × Bool × Database)
resubmit row db = do message ← message_from_row row; ok (message, false, db)

unfoldable pub create_message :
    Limits → Text → Draft → CreateStamps → Database → Result (Message × Bool × Database)
create_message l room d s db = do
  require_writable room d.allow_frozen d.member_subject s.checked_at db
  elim (find_submitted room d.client_message_id db) [
    | some row ↦ resubmit row db
    | none ↦ post l room d s db
  ]

pub record Edit : Type 0 where
  pub actor : Text
  pub content : Text
  pub metadata : Option Metadata
  pub mentioned_subjects : Option (List Text)
  pub is_admin : Bool
  pub member_subject : Option Text

pub record EditStamps : Type 0 where
  pub checked_at : Time
  pub changed_at : Time
  pub audit : Stamp
  pub delivery : Text

-- COALESCE(?, column)
abbrev pub coalesce {ℓ} : {A : Type ℓ} → Option A → A → A
coalesce none old = old
coalesce (some new) old = new

abbrev pub edited : Edit → Time → MessageRow → MessageRow
edited e at m = record m {
  content = e.content;
  metadata = coalesce e.metadata m.metadata;
  mentioned_subjects = coalesce e.mentioned_subjects m.mentioned_subjects;
  edited_at = some at;
}

-- `message.edited_at or datetime.now(…)`, where the first was set just before.
abbrev pub time_or : Option Time → Time → Time
time_or none now = now
time_or (some t) now = t

-- The part of `_update_message_sync` that writes.
unfoldable pub store_edit :
    Limits → Text → Text → Edit → EditStamps → Database → Result (Message × Database)
store_edit l room message e s db = do
  let written = record db {
    messages = update (λ m. m.id == message) (edited e s.changed_at) db.messages;
  }
  db₁ ←
      insert_audit l s.audit AuditAction.message_updated (named e.actor) (some room)
        (Details.message_id message) written
  stored ← or_raise (fetch (λ m. m.id == message) db₁.messages) (message_not_found message)
  shown ← message_from_row stored
  db₂ ←
      insert_webhook l s.delivery EventType.message_updated room shown.id
        (time_or shown.edited_at s.changed_at) (by_actor e.actor shown) db₁
  ok (shown, db₂)

unfoldable pub update_message :
    Limits → Text → Text → Edit → EditStamps → Database → Result (Message × Database)
update_message l room message e s db = do
  require_writable room e.is_admin e.member_subject s.checked_at db
  row ← or_raise (find_message room message db) (message_not_found message)
  raise_if (is_some row.deleted_at) (message_deleted message)
  raise_if (not e.is_admin && not (row.sender == e.actor)) (message_ownership message)
  store_edit l room message e s db

-- The content of a deleted message is gone; its place in the history stays.
abbrev pub tombstone : Time → MessageRow → MessageRow
tombstone at m = record m {
  content = 0;
  reactions = [];
  pinned_at = none;
  pinned_by = none;
  metadata = [];
  attachments = [];
  mentioned_subjects = [];
  deleted_at = some at;
}

-- The room checks of `_delete_message_sync`: an administrator deletes in any room.
unfoldable pub require_deletable : Text → Bool → Option Text → Time → Database → Result (Unit {0})
require_deletable room is_admin subject now db = do
  row ← or_raise (find_room room db) (room_not_found room)
  raise_if (not is_admin && is_some row.archived_at) (room_archived room)
  raise_if (not is_admin && is_some row.frozen_at) (room_frozen room)
  enforce_member_write room subject now db

-- The part of `_delete_message_sync` that writes.
unfoldable pub erase :
    Limits → Text → Text → Text → EditStamps → Database → Result (Message × Bool × Database)
erase l room message actor s db = do
  let written = record db {
    reactions = delete (λ r. r.message_id == message) db.reactions;
    messages = update (λ m. m.id == message) (tombstone s.changed_at) db.messages;
  }
  db₁ ←
      insert_audit l s.audit AuditAction.message_deleted (named actor) (some room)
        (Details.message_id message) written
  stored ← or_raise (fetch (λ m. m.id == message) db₁.messages) (message_not_found message)
  shown ← message_from_row stored
  db₂ ←
      insert_webhook l s.delivery EventType.message_deleted room shown.id
        (time_or shown.deleted_at s.changed_at) (by_actor actor shown)
        (scrub_message_webhooks room message db₁)
  ok (shown, true, db₂)

unfoldable pub delete_message :
    Limits
    → Text
    → Text
    → Text
    → Bool
    → Option Text
    → EditStamps
    → Database
    → Result (Message × Bool × Database)
delete_message l room message actor is_admin subject s db = do
  require_deletable room is_admin subject s.checked_at db
  row ← or_raise (find_message room message db) (message_not_found message)
  raise_if (not is_admin && not (row.sender == actor)) (message_ownership message)
  if is_some row.deleted_at then resubmit row db else erase l room message actor s db
