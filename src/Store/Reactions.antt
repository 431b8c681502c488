-- ===== src/Store/Reactions.antt =====
-- `_set_message_reaction_sync` of samsarix_chat_engine/store.py.
pub mod Toggle
pub mod Summary
pub mod Sound
use samsarix_chat_engine.Base.{
  ℕ, ◌==◌, leb, ltb, Bool, true, false, not, ◌&&◌, is_some, Option, none, some, List, [], ◌∷◌, ◌++◌,
  length, map, if◌then◌else◌,
}
use samsarix_chat_engine.Base.Sql.{select, count, exists, update, fetch, delete}
use samsarix_chat_engine.Base.Order.{order_by, is_in}
use samsarix_chat_engine.Base.Distinct.{distinct}
use samsarix_chat_engine.Store.Tables.{
  Text, Time, MessageRow, ReactionRow, ReactionSummary, ReactionMutation, EventType, EventBody,
  Database, Limits, Result, ok, ◌>>=◌, ◌>>◌, raise_if, or_raise, message_not_found, message_deleted,
  reaction_capacity, message_from_row,
}
use samsarix_chat_engine.Store.Outbox.{insert_webhook}
use samsarix_chat_engine.Store.Messages.{find_message, require_writable}

abbrev pub on_message : Text → ReactionRow → Bool
on_message message r = r.message_id == message

abbrev pub with_key : Text → Text → ReactionRow → Bool
with_key message key r = r.message_id == message && r.reaction_key == key

abbrev pub by_reactor : Text → Text → Text → ReactionRow → Bool
by_reactor message reactor key r =
    r.message_id == message && r.reactor == reactor && r.reaction_key == key

-- The keys in use on a message.
abbrev pub keys_on : Text → List ReactionRow → List Text
keys_on message rows =
    distinct (map (λ (r : ReactionRow). r.reaction_key) (select (on_message message) rows))

abbrev pub ascending : Text → Text → Bool
ascending a b = ltb a b

-- SELECT reaction_key, COUNT(*) … GROUP BY reaction_key ORDER BY reaction_key
unfoldable pub summaries : Text → List ReactionRow → List ReactionSummary
summaries message rows =
    map (λ (k : Text). record { key = k; total = count (with_key message k) rows })
      (order_by ascending (keys_on message rows))

abbrev pub max_reaction_keys : ℕ
max_reaction_keys = 20

abbrev pub new_reaction : Text → Text → Text → Text → Time → ReactionRow
new_reaction room message reactor key now = record {
  message_id = message;
  room_id = room;
  reactor = reactor;
  reaction_key = key;
  created_at = now;
}

-- A new key wants room among the 20 of a message.
unfoldable pub add_reaction :
    Text → Text → Text → Text → Time → List ReactionRow → Result (List ReactionRow)
add_reaction room message reactor key now rows = do
  raise_if
      (not (exists (with_key message key) rows)
        && leb max_reaction_keys (length (keys_on message rows)))
      (reaction_capacity message)
  ok (rows ++ new_reaction room message reactor key now ∷ [])

-- The reaction rows after the call, and whether they changed.
unfoldable pub toggle :
    Text → Text → Text → Text → Bool → Time → List ReactionRow → Result (List ReactionRow × Bool)
toggle room message reactor key present now rows =
    let existing = exists (by_reactor message reactor key) rows in
    if present && not existing
    then (do rows' ← add_reaction room message reactor key now rows; ok (rows', true))
    else if not present && existing
    then ok (delete (by_reactor message reactor key) rows, true)
    else ok (rows, false)

abbrev pub with_summary : Text → List ReactionRow → MessageRow → MessageRow
with_summary message rows m = record m { reactions = summaries message rows }

-- What is stored when the rows changed: the rows, and the summary on the message.
abbrev pub store_reactions : Text → List ReactionRow → Database → Database
store_reactions message rows db = record db {
  reactions = rows;
  messages = update (λ m. m.id == message) (with_summary message rows) db.messages;
}

abbrev pub reaction_mutation :
    MessageRow → Text → Text → Bool → Bool → Time → Result ReactionMutation
reaction_mutation row key reactor present changed now = do
  message ← message_from_row row
  ok (record {
    message = message;
    key = key;
    reactor = reactor;
    present = present;
    changed = changed;
    updated_at = now;
  })

-- The end of the call: nothing to store, or the new rows, their summary and an event.
unfoldable pub finish_reaction :
    Limits
    → Text
    → Text
    → Text
    → Text
    → Bool
    → Time
    → Text
    → MessageRow
    → List ReactionRow
    → Bool
    → Database
    → Result (ReactionMutation × Database)
finish_reaction l room message reactor key present now delivery row rows false db = do
  mutation ← reaction_mutation row key reactor present false now
  ok (mutation, db)
finish_reaction l room message reactor key present now delivery row rows true db = do
  let written = store_reactions message rows db
  stored ← or_raise (fetch (λ m. m.id == message) written.messages) (message_not_found message)
  mutation ← reaction_mutation stored key reactor present true now
  db' ←
      insert_webhook l delivery EventType.message_reaction_updated room message now
        (EventBody.reacted mutation) written
  ok (mutation, db')

-- `now` is read at the start of the call, `checked_at` by the member check.
unfoldable pub set_message_reaction :
    Limits
    → Text
    → Text
    → Text
    → Text
    → Bool
    → Bool
    → Option Text
    → Time
    → Time
    → Text
    → Database
    → Result (ReactionMutation × Database)
set_message_reaction l room message reactor key present allow_frozen subject now checked_at delivery
      db =
    do
      require_writable room allow_frozen subject checked_at db
      row ← or_raise (find_message room message db) (message_not_found message)
      raise_if (is_some row.deleted_at) (message_deleted message)
      (rows, changed) ← toggle room message reactor key present now db.reactions
      finish_reaction l room message reactor key present now delivery row rows changed db
