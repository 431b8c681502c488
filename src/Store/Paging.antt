-- ===== src/Store/Paging.antt =====
-- The listings of samsarix_chat_engine/store.py: `_paginate_rows`, `_list_messages_sync`,
-- `_list_pinned_messages_sync`, `_list_replies_sync`, `_search_messages_sync`, `iter_messages`,
-- `_list_audit_events_sync` and `_list_webhook_deliveries_sync`.
pub mod Walk
pub mod Histories
use samsarix_chat_engine.Base.{
  ℕ, ◌+◌, ◌==◌, ltb, Bool, true, false, not, ◌&&◌, ◌||◌, is_some, holds, Option, none, some, List,
  [], ◌∷◌, length, take, reverse, if◌then◌else◌,
}
use samsarix_chat_engine.Base.Sql.{select, fetch, exists}
use samsarix_chat_engine.Base.Order.{order_by}
use samsarix_chat_engine.Store.Tables.{
  Text, Time, EventType, MessageRow, Message, AuditEvent, DeliveryRow, Database, StoreError, Result,
  ok, err, ◌>>=◌, ◌>>◌, raise_if, or_raise, room_not_found, message_not_found, thread_depth,
  invalid_cursor, invalid_audit_cursor, invalid_webhook_cursor, invalid_search_query,
  message_from_row,
}
use samsarix_chat_engine.Store.Audit.{event_id, newer_event}
use samsarix_chat_engine.Store.Outbox.{delivery_id, is_terminal}
use samsarix_chat_engine.Store.Cascade.{message_key}
use samsarix_chat_engine.Store.Retention.{in_room, older_message}
use samsarix_chat_engine.Store.Messages.{find_message}

module _ {ℓ} {A : Type ℓ} (key : A → Text) where
  -- `page_rows[-1]["id"]` of a page that is not empty
  abbrev pub last_key : List A → Option Text
  last_key [] = none
  last_key (x ∷ []) = some (key x)
  last_key (x ∷ y ∷ ys) = last_key (y ∷ ys)

  -- `_paginate_rows`
  abbrev pub paginate : ℕ → Bool → List A → List A × Option Text
  paginate limit chronological rows =
      let page = take limit rows in
      (
        (if chronological then reverse page else page),
        (if ltb limit (length rows) then last_key page else none),
      )

  -- The rows after the cursor, in the order of the query; none starts at the first.
  abbrev pub after : (A → A → Bool) → Option A → A → Bool
  after before none x = true
  after before (some c) x = before c x

  -- SELECT … WHERE p AND (the row comes after the cursor) ORDER BY … LIMIT limit + 1, cut to a page.
  abbrev pub read_page :
      (A → A → Bool) → (A → Bool) → ℕ → Bool → Option A → List A → List A × Option Text
  read_page before p limit chronological cursor rows =
      paginate limit chronological
        (take (limit + 1) (order_by before (select (λ x. p x && after before cursor x) rows)))

  -- `if before:`, then the row that the cursor names, or an error.
  abbrev pub find_cursor : Option Text → (Text → Option A) → (Text → StoreError) → Result (Option A)
  find_cursor none find e = ok none
  find_cursor (some k) find e =
      if k == 0 then ok none else (do c ← or_raise (find k) (e k); ok (some c))

-- [_message_from_row(row) for row in rows]
abbrev pub messages_from_rows : List MessageRow → Result (List Message)
messages_from_rows [] = ok []
messages_from_rows (r ∷ rs) = do m ← message_from_row r; ms ← messages_from_rows rs; ok (m ∷ ms)

abbrev pub Page : Type 0
Page = List Message × Option Text

abbrev pub message_page : List MessageRow × Option Text → Result Page
message_page (rows, next_before) = do ms ← messages_from_rows rows; ok (ms, next_before)

-- ORDER BY created_at DESC, id DESC
abbrev pub newer_message : MessageRow → MessageRow → Bool
newer_message a b = ltb b.created_at a.created_at || a.created_at == b.created_at && ltb b.id a.id

abbrev pub require_room : Text → Database → Result (Unit {0})
require_room room db = raise_if (not (exists (λ r. r.id == room) db.rooms)) (room_not_found room)

unfoldable pub list_messages : Text → ℕ → Option Text → Database → Result Page
list_messages room limit before db = do
  require_room room db
  cursor ← find_cursor message_key before (λ k. find_message room k db) invalid_cursor
  message_page (read_page message_key newer_message (in_room room) limit true cursor db.messages)

abbrev pub pinned_time : MessageRow → Time
pinned_time m = elim m.pinned_at [ none ↦ 0 | some t ↦ t ]

-- ORDER BY pinned_at DESC, id DESC, of pinned rows
abbrev pub later_pin : MessageRow → MessageRow → Bool
later_pin a b =
    ltb (pinned_time b) (pinned_time a) || pinned_time a == pinned_time b && ltb b.id a.id

abbrev pub pinned_in : Text → MessageRow → Bool
pinned_in room m = m.room_id == room && is_some m.pinned_at

unfoldable pub list_pinned_messages : Text → ℕ → Option Text → Database → Result Page
list_pinned_messages room limit before db = do
  require_room room db
  cursor ←
      find_cursor message_key before
        (λ k. fetch (λ m. m.room_id == room && m.id == k && is_some m.pinned_at) db.messages)
        invalid_cursor
  message_page (read_page message_key later_pin (pinned_in room) limit false cursor db.messages)

abbrev pub reply_to : Text → Text → MessageRow → Bool
reply_to room parent m = m.room_id == room && holds m.parent_message_id parent

unfoldable pub list_replies : Text → Text → ℕ → Option Text → Database → Result Page
list_replies room parent limit before db = do
  require_room room db
  row ← or_raise (find_message room parent db) (message_not_found parent)
  raise_if (is_some row.parent_message_id) (thread_depth parent)
  cursor ←
      find_cursor message_key before
        (λ k.
          fetch (λ m. m.room_id == room && holds m.parent_message_id parent && m.id == k)
            db.messages)
        invalid_cursor
  message_page
      (read_page message_key newer_message (reply_to room parent) limit true cursor db.messages)

-- What the search takes from Python's Unicode tables: `normalize_search_query`, which has no value
-- for a query of a length that it refuses, and whether the normalised content contains it.
pub record SearchText : Type 0 where
  pub normalize_query : Text → Option Text
  pub contains : Text → Text → Bool

abbrev pub found_in : SearchText → Text → Text → MessageRow → Bool
found_in t room query m =
    m.room_id == room && not (is_some m.deleted_at) && t.contains m.content query

unfoldable pub search_messages : SearchText → Text → Text → ℕ → Option Text → Database → Result Page
search_messages t room query limit before db = do
  normalized ← or_raise (t.normalize_query query) invalid_search_query
  require_room room db
  cursor ← find_cursor message_key before (λ k. find_message room k db) invalid_cursor
  message_page (
      read_page message_key newer_message (found_in t room normalized) limit true cursor
        db.messages)

-- What the snapshot of `iter_messages` yields, to its end.
abbrev pub iter_messages : Text → Database → Result (List Message)
iter_messages room db =
    messages_from_rows (order_by older_message (select (in_room room) db.messages))

unfoldable pub list_audit_events :
    ℕ → Option Text → Database → Result (List AuditEvent × Option Text)
list_audit_events limit before db = do
  cursor ←
      find_cursor event_id before (λ k. fetch (λ e. e.id == k) db.audit_events) invalid_audit_cursor
  ok (read_page event_id newer_event (λ _. true) limit true cursor db.audit_events)

-- ORDER BY created_at DESC, id DESC
abbrev pub newer_delivery : DeliveryRow → DeliveryRow → Bool
newer_delivery a b = ltb b.created_at a.created_at || a.created_at == b.created_at && ltb b.id a.id

pub data DeliveryStatus : Type 0 where
  pending delivered failed : DeliveryStatus

abbrev pub has_status : Option DeliveryStatus → DeliveryRow → Bool
has_status none d = true
has_status (some pending) d = not (is_terminal d)
has_status (some delivered) d = is_some d.delivered_at
has_status (some failed) d = is_some d.failed_at

-- `before is not None`
abbrev pub delivery_cursor : Option Text → Database → Result (Option DeliveryRow)
delivery_cursor none db = ok none
delivery_cursor (some k) db = do
  c ← or_raise (fetch (λ d. d.id == k) db.deliveries) (invalid_webhook_cursor k)
  ok (some c)

unfoldable pub list_webhook_deliveries :
    ℕ → Option Text → Option DeliveryStatus → Database → Result (List DeliveryRow × Option Text)
list_webhook_deliveries limit before status db = do
  cursor ← delivery_cursor before db
  ok (read_page delivery_id newer_delivery (has_status status) limit false cursor db.deliveries)
