-- ===== src/Store/Outbox.antt =====
-- The webhook outbox of samsarix_chat_engine/store.py: `_insert_webhook`, the two scrubs,
-- `_next_webhook_delivery_sync`, `_record_webhook_attempt_sync` and `_retry_webhook_delivery_sync`.
pub mod Capacity
pub mod Schedule
pub mod Erasure
use samsarix_chat_engine.Base.{
  ℕ, ◌+◌, ◌-◌, ◌==◌, leb, ltb, Bool, true, false, not, ◌&&◌, ◌||◌, is_some, Option, none, some,
  List, [], ◌∷◌, ◌++◌, length, take, if◌then◌else◌,
}
use samsarix_chat_engine.Base.Sql.{select, exists, delete, update, fetch, head?}
use samsarix_chat_engine.Base.Order.{order_by, among}
use samsarix_chat_engine.Store.Tables.{
  Text, Time, EventType, EventBody, DeliveryRow, Database, Limits, Result, ok, ◌>>=◌, ◌>>◌,
  raise_if, or_raise, integrity, webhook_capacity, invalid_attempt, delivery_not_found,
  payload_unavailable,
}

abbrev pub delivery_id : DeliveryRow → Text
delivery_id d = d.id

-- `delivered_at IS NOT NULL OR failed_at IS NOT NULL`
abbrev pub is_terminal : DeliveryRow → Bool
is_terminal d = is_some d.delivered_at || is_some d.failed_at

-- `event_type LIKE 'message.%'`
abbrev pub is_message_event : EventType → Bool
is_message_event EventType.member_moderation_updated = false
is_message_event _ = true

-- ORDER BY created_at, id
abbrev pub older_delivery : DeliveryRow → DeliveryRow → Bool
older_delivery a b = ltb a.created_at b.created_at || a.created_at == b.created_at && ltb a.id b.id

abbrev pub evicted : Limits → List DeliveryRow → List DeliveryRow
evicted l rows =
    take (length rows + 1 - l.max_webhook_deliveries)
      (order_by older_delivery (select is_terminal rows))

-- The oldest terminal rows make room for one more.
abbrev pub make_room : Limits → List DeliveryRow → List DeliveryRow
make_room l rows = delete (among delivery_id (evicted l rows)) rows

abbrev pub new_delivery : Text → EventType → Text → Text → Time → EventBody → DeliveryRow
new_delivery uid kind room resource occurred_at body = record {
  id = uid;
  event_type = kind;
  room_id = room;
  created_at = occurred_at;
  resource_id = resource;
  payload =
      some (record { id = uid; kind = kind; timestamp = occurred_at; room_id = room; body = body });
  attempt_count = 0;
  next_attempt_at = some occurred_at;
  last_attempt_at = none;
  delivered_at = none;
  failed_at = none;
  last_status_code = none;
  last_error = none;
}

unfoldable pub enqueue : Limits → DeliveryRow → Database → Result Database
enqueue l row db = do
  let kept = make_room l db.deliveries
  raise_if (leb l.max_webhook_deliveries (length kept)) webhook_capacity
  raise_if (exists (λ d. d.id == row.id) kept) integrity
  ok (record db { deliveries = kept ++ row ∷ [] })

-- `uid` is the new identifier, "wh_" and a `uuid4().hex`.
unfoldable pub insert_webhook :
    Limits → Text → EventType → Text → Text → Time → EventBody → Database → Result Database
unfolding enqueue
insert_webhook l uid kind room resource occurred_at body db =
    if l.webhook_events kind
    then enqueue l (new_delivery uid kind room resource occurred_at body) db
    else ok db

abbrev pub drop_payload : DeliveryRow → DeliveryRow
drop_payload d = record d { payload = none }

-- Pending rows of the chosen resources go, terminal ones lose their payload.
abbrev pub scrub : (DeliveryRow → Bool) → List DeliveryRow → List DeliveryRow
scrub chosen rows =
    update (λ d. chosen d && is_terminal d) drop_payload
      (delete (λ d. chosen d && not (is_terminal d)) rows)

abbrev pub about_message : Text → Text → DeliveryRow → Bool
about_message room message d =
    d.room_id == room && d.resource_id == message && is_message_event d.event_type

-- `_scrub_message_webhooks`
unfoldable pub scrub_message_webhooks : Text → Text → Database → Database
scrub_message_webhooks room message db = record db {
  deliveries = scrub (about_message room message) db.deliveries;
}

-- `_scrub_room_webhooks`
unfoldable pub scrub_room_webhooks : Text → Database → Database
scrub_room_webhooks room db = record db {
  deliveries = scrub (λ d. d.room_id == room) db.deliveries;
}

-- `next_attempt_at <= ?`, which is false of NULL
abbrev pub at_most : Option Time → Time → Bool
at_most none now = false
at_most (some t) now = leb t now

abbrev pub is_due : Time → DeliveryRow → Bool
is_due now d = not (is_terminal d) && is_some d.payload && at_most d.next_attempt_at now

abbrev pub due_time : DeliveryRow → Time
due_time d = elim d.next_attempt_at [ none ↦ 0 | some t ↦ t ]

-- ORDER BY next_attempt_at, created_at, id
abbrev pub due_before : DeliveryRow → DeliveryRow → Bool
due_before a b = ltb (due_time a) (due_time b) || due_time a == due_time b && older_delivery a b

unfoldable pub next_webhook_delivery : Time → Database → Option DeliveryRow
next_webhook_delivery now db = head? (order_by due_before (select (is_due now) db.deliveries))

-- What `_record_webhook_attempt_sync` is told of one attempt.
pub record Attempt : Type 0 where
  pub attempted_at : Time
  pub status_code : Option ℕ
  pub error : Option Text
  pub next_attempt_at : Option Time
  pub delivered : Bool
  pub failed : Bool

abbrev pub attempted : Attempt → DeliveryRow → DeliveryRow
attempted a d = record d {
  attempt_count = d.attempt_count + 1;
  next_attempt_at = a.next_attempt_at;
  last_attempt_at = some a.attempted_at;
  delivered_at = if a.delivered then some a.attempted_at else none;
  failed_at = if a.failed then some a.attempted_at else none;
  last_status_code = a.status_code;
  last_error = a.error;
}

abbrev pub is_open : Text → DeliveryRow → Bool
is_open uid d = d.id == uid && not (is_terminal d)

unfoldable pub record_webhook_attempt : Text → Attempt → Database → Result Database
record_webhook_attempt uid a db = do
  raise_if (a.delivered && a.failed) invalid_attempt
  raise_if (not (exists (is_open uid) db.deliveries)) (delivery_not_found uid)
  ok (record db { deliveries = update (is_open uid) (attempted a) db.deliveries })

abbrev pub renewed : Time → DeliveryRow → DeliveryRow
renewed now d = record d {
  attempt_count = 0;
  next_attempt_at = some now;
  last_attempt_at = none;
  delivered_at = none;
  failed_at = none;
  last_status_code = none;
  last_error = none;
}

-- Returns the row that it renewed.
unfoldable pub retry_webhook_delivery :
    Text → Time → Database → Result (Option DeliveryRow × Database)
retry_webhook_delivery uid now db = do
  existing ← or_raise (fetch (λ d. d.id == uid) db.deliveries) (delivery_not_found uid)
  raise_if (not (is_some existing.payload)) (payload_unavailable uid)
  let rows = update (λ d. d.id == uid) (renewed now) db.deliveries
  ok (fetch (λ d. d.id == uid) rows, record db { deliveries = rows })
