-- ===== src/Store/Cascade.antt =====
-- The foreign keys of the schema in samsarix_chat_engine/store.py (`_initialize_sync`), which
-- `PRAGMA foreign_keys = ON` enforces: what a DELETE on `messages` or on `rooms` takes along.
pub mod Frame
use samsarix_chat_engine.Base.{◌==◌, Bool, none, Option, some, false, List, map, holds}
use samsarix_chat_engine.Base.Sql.{select, delete, update}
use samsarix_chat_engine.Base.Order.{is_in}
use samsarix_chat_engine.Store.Tables.{Text, MessageRow, Database}

abbrev pub message_key : MessageRow → Text
message_key m = m.id

-- The parent is one of the deleted rows.
abbrev pub parent_in : List Text → MessageRow → Bool
parent_in gone m = elim m.parent_message_id [ none ↦ false | some p ↦ is_in p gone ]

abbrev pub clear_parent : MessageRow → MessageRow
clear_parent m = record m { parent_message_id = none }

-- DELETE FROM messages WHERE …: replies lose their parent (SET NULL), reactions go (CASCADE).
unfoldable pub delete_messages : (MessageRow → Bool) → Database → Database
delete_messages p db =
    let gone = map message_key (select p db.messages) in
    record db {
      messages = update (parent_in gone) clear_parent (delete p db.messages);
      reactions = delete (λ r. is_in r.message_id gone) db.reactions;
    }

-- DELETE FROM rooms WHERE id = ?: its messages, reactions, controls and read states go with it.
unfoldable pub delete_room_row : Text → Database → Database
unfolding delete_messages
delete_room_row room db =
    let cleared = delete_messages (λ m. m.room_id == room) db in
    record cleared {
      rooms = delete (λ r. r.id == room) cleared.rooms;
      reactions = delete (λ r. r.room_id == room) cleared.reactions;
      controls = delete (λ c. c.room_id == room) cleared.controls;
      read_states = delete (λ s. s.room_id == room) cleared.read_states;
    }
