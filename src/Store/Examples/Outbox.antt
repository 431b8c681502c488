-- ===== src/Store/Examples/Outbox.antt =====
-- The theorems on the outbox and the audit trail at concrete inputs.
use samsarix_chat_engine.Base.{
  ◌≤◌, ◌==◌, is_some, true, false, not, ◌≡◌, ◌↔◌, refl, Option, none, some, length, All,
}
use samsarix_chat_engine.Base.Sql.{select, fetch}
use samsarix_chat_engine.Store.Tables.{
  DeliveryRow, EventType, EventBody, posted, message_of, Database, Limits, err, webhook_capacity,
  delivery_not_found,
}
use samsarix_chat_engine.Store.Examples.{limits, store, root, outcome}
use samsarix_chat_engine.Store.Outbox.{
  insert_webhook, enqueue, next_webhook_delivery, Attempt, record_webhook_attempt,
  retry_webhook_delivery, renewed, is_due, scrub_message_webhooks, scrub_room_webhooks,
}
use samsarix_chat_engine.Store.Outbox.Capacity.{
  pending, insert_webhook-within, insert_webhook-refused_iff, pending-insert_webhook,
}
use samsarix_chat_engine.Store.Outbox.Schedule.{
  IsNext, next_webhook_delivery-IsNext, IsExclusive, record_webhook_attempt-IsExclusive,
  record_webhook_attempt-twice, retry_webhook_delivery-renews,
}
use samsarix_chat_engine.Store.Outbox.Erasure.{
  concerns, IsErased, scrub_message_webhooks-erases, scrub_room_webhooks-erases,
}

-- Full, so that an insert has to give up the delivered row.
abbrev full : Limits
full = record limits { max_webhook_deliveries = 2 }

abbrev body : EventBody
body = posted (message_of root)

abbrev inserted : Database
inserted = outcome store (insert_webhook full 52 EventType.message_created 1 10 300 body store)

insert_webhook_within_example : length inserted.deliveries ≤ 2
unfolding insert_webhook enqueue
insert_webhook_within_example =
    insert_webhook-within full 52 EventType.message_created 1 10 300 body store {db' = inserted}
      refl refl

insert_webhook_refused_example :
    (insert_webhook full 52 EventType.message_created 1 10 300 body store ≡ err webhook_capacity)
    ↔ (2 ≤ pending store.deliveries)
insert_webhook_refused_example =
    insert_webhook-refused_iff full 52 EventType.message_created 1 10 300 body store
      (refl, (refl, tt)) refl

pending_insert_webhook_example : pending inserted.deliveries ≡ 2
unfolding insert_webhook enqueue
pending_insert_webhook_example =
    pending-insert_webhook full 52 EventType.message_created 1 10 300 body store {db' = inserted}
      (refl, (refl, tt)) refl

next_webhook_delivery_example : IsNext 300 store.deliveries (next_webhook_delivery 300 store)
next_webhook_delivery_example = next_webhook_delivery-IsNext 300 store

abbrev success : Attempt
success = record {
  attempted_at = 300;
  status_code = some 204;
  error = none;
  next_attempt_at = none;
  delivered = true;
  failed = false;
}

abbrev attempted_once : Database
attempted_once = outcome store (record_webhook_attempt 50 success store)

record_webhook_attempt_example : All IsExclusive attempted_once.deliveries
unfolding record_webhook_attempt
record_webhook_attempt_example =
    record_webhook_attempt-IsExclusive 50 success store {db' = attempted_once} (refl, (refl, tt))
      refl

record_twice_example :
    record_webhook_attempt 50 success attempted_once ≡ err (delivery_not_found 50)
unfolding record_webhook_attempt
record_twice_example =
    record_webhook_attempt-twice 50 success store success {db' = attempted_once} refl refl refl

abbrev replayed : Option DeliveryRow × Database
replayed = outcome (none, store) (retry_webhook_delivery 51 300 store)

retry_example :
    (d : DeliveryRow) × (fetch (λ e. e.id == 51) store.deliveries ≡ some d)
    × (is_some d.payload ≡ true)
    × (replayed.0 ≡ some (renewed 300 d))
    × (fetch (λ e. e.id == 51) replayed.1.deliveries ≡ some (renewed 300 d))
    × (is_due 300 (renewed 300 d) ≡ true)
unfolding retry_webhook_delivery
retry_example = retry_webhook_delivery-renews 51 300 store {r = replayed.0} {db' = replayed.1} refl

scrub_message_example :
    let rows = (scrub_message_webhooks 1 10 store).deliveries in
    let other = λ (d : DeliveryRow). not (concerns 1 10 d) in
    All (λ d. concerns 1 10 d ≡ true → IsErased d) rows
    × (select other rows ≡ select other store.deliveries)
scrub_message_example = scrub_message_webhooks-erases 1 10 store

scrub_room_example :
    let rows = (scrub_room_webhooks 1 store).deliveries in
    let other = λ (d : DeliveryRow). not (d.room_id == 1) in
    All (λ d. (d.room_id == 1) ≡ true → IsErased d) rows
    × (select other rows ≡ select other store.deliveries)
scrub_room_example = scrub_room_webhooks-erases 1 store
