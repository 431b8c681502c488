-- ===== src/Store/Examples.antt =====
-- A small store on which the theorems about samsarix_chat_engine/store.py are run: one open room with a
-- thread, a member, an outbox with one row of each kind, and limits that are met.
mod Messages
mod Rooms
mod Outbox
mod Listings
use samsarix_chat_engine.Base.{
  ℕ, Bool, true, false, ◌==◌, ◌≡◌, refl, Option, none, some, List, [], ◌∷◌, All,
}
use samsarix_chat_engine.Store.Tables.{
  Text, Time, Stamp, Room, MessageRow, ReactionRow, ReactionSummary, MemberModeration, ReadStateRow,
  AuditEvent, DeliveryRow, Envelope, EventType, EventBody, posted, message_of, Database, Limits,
  Result, ok, err, is_complete,
}
use samsarix_chat_engine.Store.Invariant.{IsSound}
use samsarix_chat_engine.Store.Paging.Histories.{IsNamed}

abbrev pub limits : Limits
limits = record {
  max_rooms = 2;
  max_stored_messages = 4;
  max_stored_messages_per_room = 3;
  max_read_states_per_room = 1;
  message_retention_days = some 1;
  max_audit_events = 1;
  webhook_events = λ _. true;
  max_webhook_deliveries = 3;
}

abbrev pub lobby : Room
lobby = record {
  id = 1;
  name = 7;
  description = 0;
  created_at = 5;
  archived_at = none;
  frozen_at = none;
}

abbrev pub attic : Room
attic = record lobby { id = 2; archived_at = some 9 }

abbrev pub root : MessageRow
root = record {
  id = 10;
  room_id = 1;
  sender = 20;
  author_subject = some 30;
  content = 99;
  created_at = 100;
  client_message_id = some 40;
  parent_message_id = none;
  reactions = record { key = 60; total = 1 } ∷ [];
  pinned_at = some 150;
  pinned_by = some 20;
  metadata = [];
  attachments = [];
  mentioned_subjects = [];
  edited_at = none;
  deleted_at = none;
}

abbrev pub reply : MessageRow
reply = record root {
  id = 11;
  created_at = 200;
  client_message_id = none;
  parent_message_id = some 10;
  reactions = [];
  pinned_at = none;
  pinned_by = none;
}

abbrev pub stored : MessageRow
stored = record reply { id = 12; room_id = 2; parent_message_id = none }

abbrev pub liked : ReactionRow
liked = record { message_id = 10; room_id = 1; reactor = 20; reaction_key = 60; created_at = 120 }

abbrev pub delivery : Text → Option Time → DeliveryRow
delivery k delivered = record {
  id = k;
  event_type = EventType.message_created;
  room_id = 1;
  created_at = 100;
  resource_id = 10;
  payload = some (record {
    id = k;
    kind = EventType.message_created;
    timestamp = 100;
    room_id = 1;
    body = posted (message_of root);
  });
  attempt_count = 0;
  next_attempt_at = some 100;
  last_attempt_at = none;
  delivered_at = delivered;
  failed_at = none;
  last_status_code = none;
  last_error = none;
}

abbrev pub store : Database
store = record {
  rooms = lobby ∷ [];
  messages = root ∷ reply ∷ [];
  reactions = liked ∷ [];
  controls =
      record {
        room_id = 1;
        subject = 31;
        muted_until = some 5000000;
        banned_until = none;
        updated_at = 90;
      }
      ∷ [];
  read_states =
      record {
        room_id = 1;
        subject = 30;
        message_id = some 10;
        message_created_at = 100;
        updated_at = 130;
      }
      ∷ [];
  audit_events = [];
  deliveries = delivery 50 none ∷ delivery 51 (some 110) ∷ [];
}

pub store-IsSound : IsSound store.messages
unfolding is_complete
store-IsSound = record {
  unique = (refl, (refl, tt));
  complete = (refl, (refl, tt));
  threaded = (tt, ((root, refl, refl), tt));
}

pub store-IsNamed : All IsNamed store.messages
store-IsNamed = (refl, (refl, tt))

-- The database or the rows that a run that is not refused ends in.
abbrev pub outcome {ℓ} : {A : Type ℓ} → A → Result A → A
outcome start (ok a) = a
outcome start (err e) = start

abbrev pub is_ok {ℓ} : {A : Type ℓ} → Result A → Bool
is_ok (ok a) = true
is_ok (err e) = false
