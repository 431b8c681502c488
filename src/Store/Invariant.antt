-- ===== src/Store/Invariant.antt =====
-- The invariant of the `messages` table: identifiers are distinct, every row passes the checks of
-- the model `Message`, and a reply's parent is a stored message of its room that is no reply.
pub mod Threads
pub mod Deletion
use samsarix_chat_engine.Base.{◌==◌, ◌&&◌, Bool, true, ◌≡◌, Option, none, some, List, All}
use samsarix_chat_engine.Base.Sql.{fetch}
use samsarix_chat_engine.Base.Keys.{Unique}
use samsarix_chat_engine.Store.Tables.{Text, MessageRow, is_complete}
use samsarix_chat_engine.Store.Cascade.{message_key}

abbrev pub in_thread : Text → Text → MessageRow → Bool
in_thread room message m = m.room_id == room && m.id == message

abbrev pub HasRoot : List MessageRow → Text → Option Text → Type 0
HasRoot rows room none = Unit
HasRoot rows room (some p) =
    (q : MessageRow) × (fetch (in_thread room p) rows ≡ some q) × (q.parent_message_id ≡ none)

abbrev pub IsThreaded : List MessageRow → MessageRow → Type 0
IsThreaded rows m = HasRoot rows m.room_id m.parent_message_id

abbrev pub IsComplete : MessageRow → Type 0
IsComplete m = is_complete m ≡ true

pub record IsSound (rows : List MessageRow) : Type 0 where
  pub unique : Unique message_key rows
  pub complete : All IsComplete rows
  pub threaded : All (IsThreaded rows) rows
