-- ===== src/Store/Outbox/Erasure.antt =====
-- What the scrubs leave of the deliveries about a deleted message or a deleted room.
use samsarix_chat_engine.Base.{
  ◌==◌, Bool, true, false, not, ◌&&◌, subst, ◌≡◌, refl, none, List, [], ◌∷◌, arith, All,
}
use samsarix_chat_engine.Base.Sql.{select}
use samsarix_chat_engine.Store.Tables.{Text, DeliveryRow, Database, EventType}
use samsarix_chat_engine.Store.Outbox.{
  is_terminal, scrub, drop_payload, is_message_event, about_message, scrub_message_webhooks,
  scrub_room_webhooks,
}

-- A terminal row with no replay body.
abbrev pub IsErased : DeliveryRow → Type 0
IsErased d = (is_terminal d ≡ true) × (d.payload ≡ none)

module _ (chosen : DeliveryRow → Bool)
    (blind : (d : DeliveryRow) → chosen (drop_payload d) ≡ chosen d) where
  pub scrub-IsErased :
      (rows : List DeliveryRow) → All (λ d. chosen d ≡ true → IsErased d) (scrub chosen rows)
  scrub-IsErased [] = tt
  scrub-IsErased (d ∷ ds) = ground (arith, scrub-IsErased ds, blind d)

  pub select-scrub :
      (rows : List DeliveryRow)
      → select (λ d. not (chosen d)) (scrub chosen rows) ≡ select (λ d. not (chosen d)) rows
  select-scrub [] = refl
  select-scrub (d ∷ ds) = ground (arith, select-scrub ds, blind d)

-- The event is of the only kind that is about no message.
abbrev pub is_moderation : EventType → Bool
is_moderation EventType.member_moderation_updated = true
is_moderation _ = false

-- The delivery is of a message event, of that message in that room.
abbrev pub concerns : Text → Text → DeliveryRow → Bool
concerns room message d =
    d.room_id == room && d.resource_id == message && not (is_moderation d.event_type)

message_events : (k : EventType) → is_message_event k ≡ not (is_moderation k)
message_events EventType.message_created = refl
message_events EventType.message_updated = refl
message_events EventType.message_deleted = refl
message_events EventType.message_reaction_updated = refl
message_events EventType.message_pin_updated = refl
message_events EventType.member_moderation_updated = refl

about-eq : (room message : Text) → about_message room message ≡ concerns room message
about-eq room message =
    λ i d. d.room_id == room && d.resource_id == message && message_events d.event_type i

-- After the scrub for a deleted message, each delivery of a message event of that room whose resource is
-- the message is terminal and has no payload, and every other delivery is as it was, in its place.
pub scrub_message_webhooks-erases :
    (room message : Text) (db : Database)
    → let rows = (scrub_message_webhooks room message db).deliveries in
      let other = λ (d : DeliveryRow). not (concerns room message d) in
      All (λ d. concerns room message d ≡ true → IsErased d) rows
      × (select other rows ≡ select other db.deliveries)
unfolding scrub_message_webhooks
scrub_message_webhooks-erases room message db =
    let about = about_message room message in
    let rows = scrub about db.deliveries in
    subst
      (λ (p : DeliveryRow → Bool).
        All (λ d. p d ≡ true → IsErased d) rows
        × (select (λ d. not (p d)) rows ≡ select (λ d. not (p d)) db.deliveries))
      (about-eq room message)
      (scrub-IsErased about (λ d. refl) db.deliveries, select-scrub about (λ d. refl) db.deliveries)

-- After the scrub for a deleted room, each delivery of it is terminal and has no payload, and every
-- delivery of another room is as it was.
pub scrub_room_webhooks-erases :
    (room : Text) (db : Database)
    → let rows = (scrub_room_webhooks room db).deliveries in
      let other = λ (d : DeliveryRow). not (d.room_id == room) in
      All (λ d. (d.room_id == room) ≡ true → IsErased d) rows
      × (select other rows ≡ select other db.deliveries)
unfolding scrub_room_webhooks
scrub_room_webhooks-erases room db = (
  scrub-IsErased (λ d. d.room_id == room) (λ d. refl) db.deliveries,
  select-scrub (λ d. d.room_id == room) (λ d. refl) db.deliveries,
)
