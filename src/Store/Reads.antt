-- ===== src/Store/Reads.antt =====
-- Read states of samsarix_chat_engine/store.py: `_mark_read_sync`, `_get_read_state_sync`,
-- `_clear_read_state_sync`, `_query_read_receipts_sync`, `_query_read_states_sync` and
-- `_read_state_from_connection`.
pub mod Upsert
pub mod Furthest
pub mod Marking
pub mod Unread
use samsarix_chat_engine.Base.{
  ℕ, ◌==◌, leb, ltb, Bool, true, false, not, ◌&&◌, ◌||◌, is_some, holds, bool_eq, Option, none,
  some, List, [], ◌∷◌, ◌++◌, length, if◌then◌else◌,
}
use samsarix_chat_engine.Base.Sql.{select, count, exists, update, fetch, delete, head?}
use samsarix_chat_engine.Base.Order.{order_by}
use samsarix_chat_engine.Store.Tables.{
  Text, Time, MessageRow, ReadStateRow, MemberModeration, Database, Limits, Result, ok, ◌>>=◌, ◌>>◌,
  raise_if, or_raise, message_not_found, read_state_capacity, room_not_found, member_banned,
  validation,
}
use samsarix_chat_engine.Store.Retention.{in_room}
use samsarix_chat_engine.Store.Members.{find_control, is_active}
use samsarix_chat_engine.Store.Messages.{find_message}
use samsarix_chat_engine.Store.Paging.{newer_message, require_room}

-- WHERE room_id = ? AND subject = ?
abbrev pub read_by : Text → Text → ReadStateRow → Bool
read_by room subject r = r.room_id == room && r.subject == subject

abbrev pub find_read_state : Text → Text → Database → Option ReadStateRow
find_read_state room subject db = fetch (read_by room subject) db.read_states

-- `row["message_id"] or ""`
abbrev pub text_or_empty : Option Text → Text
text_or_empty none = 0
text_or_empty (some k) = k

-- A message of the room that the subject did not write and that is not deleted.
abbrev pub is_foreign : Text → Text → MessageRow → Bool
is_foreign room subject m =
    m.room_id == room && not (is_some m.deleted_at) && not (holds m.author_subject subject)

-- `created_at > ? OR (created_at = ? AND id > ?)`
abbrev pub is_past : ReadStateRow → MessageRow → Bool
is_past r m =
    ltb r.message_created_at m.created_at
    || m.created_at == r.message_created_at && ltb (text_or_empty r.message_id) m.id

pub record ReadState : Type 0 where
  pub room_id : Text
  pub subject : Text
  pub last_read_message_id : Option Text
  pub last_read_at : Option Time
  pub unread_count : ℕ

abbrev pub state_of : Text → Text → Option ReadStateRow → List MessageRow → ReadState
state_of room subject none messages = record {
  room_id = room;
  subject = subject;
  last_read_message_id = none;
  last_read_at = none;
  unread_count = count (is_foreign room subject) messages;
}
state_of room subject (some r) messages = record {
  room_id = room;
  subject = subject;
  last_read_message_id = r.message_id;
  last_read_at = some r.updated_at;
  unread_count = count (λ m. is_foreign room subject m && is_past r m) messages;
}

-- `_read_state_from_connection`
abbrev pub read_state : Text → Text → Database → ReadState
read_state room subject db = state_of room subject (find_read_state room subject db) db.messages

unfoldable pub get_read_state : Text → Text → Database → Result ReadState
get_read_state room subject db = do require_room room db; ok (read_state room subject db)

pub record ReadReceipt : Type 0 where
  pub subject : Text
  pub last_read_message_id : Option Text
  pub last_read_message_at : Option Time
  pub last_read_at : Option Time

-- `ReadReceipt.require_complete_cursor`
abbrev pub check_receipt : ReadReceipt → Result ReadReceipt
check_receipt r =
    raise_if (not (bool_eq (is_some r.last_read_message_id) (is_some r.last_read_message_at)))
      validation
    >> raise_if (is_some r.last_read_message_id && not (is_some r.last_read_at)) validation
    >> ok r

-- The message that is marked: the named one, or the latest of the room if it has any.
abbrev pub mark_target : Text → Option Text → Database → Result (Option MessageRow)
mark_target room none db = ok (head? (order_by newer_message (select (in_room room) db.messages)))
mark_target room (some k) db = do
  m ← or_raise (find_message room k db) (message_not_found k)
  ok (some m)

abbrev pub candidate_at : Option MessageRow → Time → Time
candidate_at none now = now
candidate_at (some m) now = m.created_at

abbrev pub candidate_id : Option MessageRow → Option Text
candidate_id none = none
candidate_id (some m) = some m.id

-- The row that the mark would store.
abbrev pub candidate : Text → Text → Option MessageRow → Time → ReadStateRow
candidate room subject target now = record {
  room_id = room;
  subject = subject;
  message_id = candidate_id target;
  message_created_at = candidate_at target now;
  updated_at = now;
}

-- `candidate_key > existing_key`, of pairs
abbrev pub is_ahead : ReadStateRow → ReadStateRow → Bool
is_ahead c r =
    ltb r.message_created_at c.message_created_at
    || r.message_created_at == c.message_created_at
      && ltb (text_or_empty r.message_id) (text_or_empty c.message_id)

abbrev pub advances : ReadStateRow → Option ReadStateRow → Bool
advances c none = true
advances c (some r) = is_ahead c r

-- INSERT … ON CONFLICT(room_id, subject) DO UPDATE
abbrev pub upsert_read_state : ReadStateRow → List ReadStateRow → List ReadStateRow
upsert_read_state c rows =
    if exists (read_by c.room_id c.subject) rows
    then update (read_by c.room_id c.subject)
        (λ r. record r {
          message_id = c.message_id;
          message_created_at = c.message_created_at;
          updated_at = c.updated_at;
        })
        rows
    else rows ++ c ∷ []

abbrev pub receipt_at : Bool → ReadStateRow → Option ReadStateRow → Time
receipt_at changed c none = c.message_created_at
receipt_at changed c (some r) = if changed then c.message_created_at else r.message_created_at

abbrev pub receipt_for : Text → ReadState → Time → ReadReceipt
receipt_for subject s at = record {
  subject = subject;
  last_read_message_id = s.last_read_message_id;
  last_read_message_at = if is_some s.last_read_message_id then some at else none;
  last_read_at = s.last_read_at;
}

pub record ReadStateMutation : Type 0 where
  pub state : ReadState
  pub receipt : ReadReceipt
  pub changed : Bool

-- The mark of a subject whose row, if any, was read: store it if it is ahead, and read it back.
unfoldable pub store_mark :
    Text
    → Text
    → ReadStateRow
    → Option ReadStateRow
    → Database
    → Result (ReadStateMutation × Database)
store_mark room subject c existing db = do
  let changed = advances c existing
  let stored =
      if changed then record db { read_states = upsert_read_state c db.read_states } else db
  let state = read_state room subject stored
  receipt ← check_receipt (receipt_for subject state (receipt_at changed c existing))
  ok (record { state = state; receipt = receipt; changed = changed }, stored)

unfoldable pub mark_read :
    Limits → Text → Text → Option Text → Time → Database → Result (ReadStateMutation × Database)
mark_read l room subject message now db = do
  require_room room db
  target ← mark_target room message db
  let existing = find_read_state room subject db
  raise_if
      (not (is_some existing)
        && leb l.max_read_states_per_room
            (count (λ (r : ReadStateRow). r.room_id == room) db.read_states))
      (read_state_capacity room)
  store_mark room subject (candidate room subject target now) existing db

-- Whether there was a row to delete.
unfoldable pub clear_read_state : Text → Text → Database → Result (Bool × Database)
clear_read_state room subject db = do
  require_room room db
  ok (
    exists (read_by room subject) db.read_states,
    record db { read_states = delete (read_by room subject) db.read_states },
  )

abbrev pub stored_receipt : Text → Option ReadStateRow → ReadReceipt
stored_receipt subject none = record {
  subject = subject;
  last_read_message_id = none;
  last_read_message_at = none;
  last_read_at = none;
}
stored_receipt subject (some r) = record {
  subject = subject;
  last_read_message_id = r.message_id;
  last_read_message_at = if is_some r.message_id then some r.message_created_at else none;
  last_read_at = some r.updated_at;
}

abbrev pub receipts : Text → List Text → Database → Result (List ReadReceipt)
receipts room [] db = ok []
receipts room (subject ∷ rest) db = do
  r ← check_receipt (stored_receipt subject (find_read_state room subject db))
  rs ← receipts room rest db
  ok (r ∷ rs)

-- One receipt per requested subject, in their order.
unfoldable pub query_read_receipts : Text → List Text → Database → Result (List ReadReceipt)
query_read_receipts room subjects db = do require_room room db; receipts room subjects db

pub record ReadStateSummary : Type 0 where
  pub room_id : Text
  pub last_read_message_id : Option Text
  pub last_read_at : Option Time
  pub unread_count : ℕ
  pub latest_message_id : Option Text
  pub latest_message_at : Option Time

abbrev pub live_in : Text → MessageRow → Bool
live_in room m = m.room_id == room && not (is_some m.deleted_at)

abbrev pub summary_of : Text → ReadState → Option MessageRow → ReadStateSummary
summary_of room s latest = record {
  room_id = room;
  last_read_message_id = s.last_read_message_id;
  last_read_at = s.last_read_at;
  unread_count = s.unread_count;
  latest_message_id = candidate_id latest;
  latest_message_at = elim latest [ none ↦ none | some m ↦ some m.created_at ];
}

abbrev pub is_banned : Text → Text → Time → Database → Bool
is_banned room subject now db = elim (find_control room subject db) [
  | none ↦ false
  | some c ↦ is_active c.banned_until now
]

-- The rooms in their order, up to the first that is not there or that the subject is banned from.
unfoldable pub query_read_states :
    List Text → Text → Time → Database → Result (List ReadStateSummary)
query_read_states [] subject now db = ok []
query_read_states (room ∷ rooms) subject now db = do
  require_room room db
  raise_if (is_banned room subject now db) (member_banned subject)
  let latest = head? (order_by newer_message (select (live_in room) db.messages))
  rest ← query_read_states rooms subject now db
  ok (summary_of room (read_state room subject db) latest ∷ rest)
