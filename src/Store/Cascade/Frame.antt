-- ===== src/Store/Cascade/Frame.antt =====
-- How many messages a DELETE with its cascade leaves.
use samsarix_chat_engine.Base.{◌+◌, ◌≡◌, Bool, length, arith, map}
use samsarix_chat_engine.Base.Sql.{
  count, select, delete, length-update, length-delete, count-update, count-delete,
}
use samsarix_chat_engine.Store.Tables.{MessageRow, Database}
use samsarix_chat_engine.Store.Cascade.{message_key, parent_in, clear_parent, delete_messages}

module _ (p : MessageRow → Bool) (db : Database) where
  pub length-delete_messages :
      length (delete_messages p db).messages + count p db.messages ≡ length db.messages
  unfolding delete_messages
  length-delete_messages = omega (
    arith,
    length-update (parent_in (map message_key (select p db.messages))) clear_parent
        (delete p db.messages),
    length-delete p db.messages,
  )

  module _ (q : MessageRow → Bool) (blind : (m : MessageRow) → q (clear_parent m) ≡ q m) where
    pub count-delete_messages :
        count q (delete_messages p db).messages + count p (select q db.messages)
        ≡ count q db.messages
    unfolding delete_messages
    count-delete_messages = omega (
      arith,
      count-update (parent_in (map message_key (select p db.messages))) q clear_parent
          (delete p db.messages) blind,
      count-delete p q db.messages,
    )
