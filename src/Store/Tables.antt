-- ===== src/Store/Tables.antt =====
-- The tables of samsarix_chat_engine/store.py (schema version 11, `_initialize_sync`), the public
-- models of models.py that the store returns, the limits of `ChatStore.__init__` and its errors.
use samsarix_chat_engine.Base.{
  ℕ, Bool, false, true, Option, none, some, List, [], ◌∷◌, ◌&&◌, is_some, not, bool_eq,
  if◌then◌else◌,
}

-- An instant in UTC, in microseconds; `isoformat` keeps this order in the text columns.
abbrev pub Time : Type 0
Time = ℕ

-- A bounded text that the code only compares: its UTF-8 bytes, padded with zero bytes to a fixed
-- length, read as a number. So `==` is equality, `<` is SQLite's BINARY order, and 0 is "".
abbrev pub Text : Type 0
Text = ℕ

-- One call of `uuid.uuid4().hex` and one of `datetime.now(timezone.utc)`.
pub record Stamp : Type 0 where
  pub uid : Text
  pub at : Time

-- `MessageMetadataValue`: an integer by its sign and size, a float by its bits.
pub data Scalar : Type 0 where
  null : Scalar
  flag : Bool → Scalar
  number : Bool → ℕ → Scalar
  float : ℕ → Scalar
  words : Text → Scalar

abbrev pub Metadata : Type 0
Metadata = List (Text × Scalar)

pub record Attachment : Type 0 where
  pub id : Text
  pub name : Text
  pub media_type : Text
  pub size_bytes : ℕ
  pub sha256 : Option Text

pub record ReactionSummary : Type 0 where
  pub key : Text
  pub total : ℕ

pub record Room : Type 0 where
  pub id : Text
  pub name : Text
  pub description : Text
  pub created_at : Time
  pub archived_at : Option Time
  pub frozen_at : Option Time

-- A row of `messages`, its JSON columns decoded.
pub record MessageRow : Type 0 where
  pub id : Text
  pub room_id : Text
  pub sender : Text
  pub author_subject : Option Text
  pub content : Text
  pub created_at : Time
  pub client_message_id : Option Text
  pub parent_message_id : Option Text
  pub reactions : List ReactionSummary
  pub pinned_at : Option Time
  pub pinned_by : Option Text
  pub metadata : Metadata
  pub attachments : List Attachment
  pub mentioned_subjects : List Text
  pub edited_at : Option Time
  pub deleted_at : Option Time

-- The public `Message`: a row without its `author_subject`.
pub record Message : Type 0 where
  pub id : Text
  pub room_id : Text
  pub sender : Text
  pub content : Text
  pub created_at : Time
  pub client_message_id : Option Text
  pub parent_message_id : Option Text
  pub reactions : List ReactionSummary
  pub pinned_at : Option Time
  pub pinned_by : Option Text
  pub metadata : Metadata
  pub attachments : List Attachment
  pub mentioned_subjects : List Text
  pub edited_at : Option Time
  pub deleted_at : Option Time

pub record ReactionRow : Type 0 where
  pub message_id : Text
  pub room_id : Text
  pub reactor : Text
  pub reaction_key : Text
  pub created_at : Time

-- A row of `room_member_controls`, and the public `MemberModeration`.
pub record MemberModeration : Type 0 where
  pub room_id : Text
  pub subject : Text
  pub muted_until : Option Time
  pub banned_until : Option Time
  pub updated_at : Time

pub record ReadStateRow : Type 0 where
  pub room_id : Text
  pub subject : Text
  pub message_id : Option Text
  pub message_created_at : Time
  pub updated_at : Time

-- "room.created", "room.archived", … of the `_insert_audit` calls.
pub data AuditAction : Type 0 where
  room_created room_archived room_unarchived room_frozen room_unfrozen room_deleted : AuditAction
  room_export_requested message_updated message_deleted message_pin_updated : AuditAction
  member_moderation_updated retention_automatic retention_executed : AuditAction

-- The `details` of each call.
pub data Details : Type 0 where
  empty : Details
  deleted_messages : ℕ → Details
  message_id : Text → Details
  pin_state : Text → Bool → Details
  moderated : Text → Option Time → Option Time → Details
  trimmed : ℕ → ℕ → ℕ → Text → Option Time → Details
  retained : ℕ → Time → Details

pub data Actor : Type 0 where
  named : Text → Actor
  system_retention : Actor

pub record AuditEvent : Type 0 where
  pub id : Text
  pub action : AuditAction
  pub actor : Actor
  pub room_id : Option Text
  pub created_at : Time
  pub details : Details

pub data EventType : Type 0 where
  message_created message_updated message_deleted : EventType
  message_reaction_updated message_pin_updated member_moderation_updated : EventType

pub record ReactionMutation : Type 0 where
  pub message : Message
  pub key : Text
  pub reactor : Text
  pub present : Bool
  pub changed : Bool
  pub updated_at : Time

pub record PinMutation : Type 0 where
  pub message : Message
  pub pinner : Text
  pub pinned : Bool
  pub changed : Bool
  pub updated_at : Time

-- The `data` of a webhook envelope, beside its room.
pub data EventBody : Type 0 where
  posted : Message → EventBody
  by_actor : Text → Message → EventBody
  reacted : ReactionMutation → EventBody
  pinned : PinMutation → EventBody
  moderated : Text → MemberModeration → EventBody

-- `payload_json`.
pub record Envelope : Type 0 where
  pub id : Text
  pub kind : EventType
  pub timestamp : Time
  pub room_id : Text
  pub body : EventBody

-- A row of `webhook_deliveries`.
pub record DeliveryRow : Type 0 where
  pub id : Text
  pub event_type : EventType
  pub room_id : Text
  pub created_at : Time
  pub resource_id : Text
  pub payload : Option Envelope
  pub attempt_count : ℕ
  pub next_attempt_at : Option Time
  pub last_attempt_at : Option Time
  pub delivered_at : Option Time
  pub failed_at : Option Time
  pub last_status_code : Option ℕ
  pub last_error : Option Text

pub record Database : Type 0 where
  pub rooms : List Room
  pub messages : List MessageRow
  pub reactions : List ReactionRow
  pub controls : List MemberModeration
  pub read_states : List ReadStateRow
  pub audit_events : List AuditEvent
  pub deliveries : List DeliveryRow

-- The limits of `ChatStore.__init__`.
pub record Limits : Type 0 where
  pub max_rooms : ℕ
  pub max_stored_messages : ℕ
  pub max_stored_messages_per_room : ℕ
  pub max_read_states_per_room : ℕ
  pub message_retention_days : Option ℕ
  pub max_audit_events : ℕ
  pub webhook_events : EventType → Bool
  pub max_webhook_deliveries : ℕ

-- The exceptions of the store; `integrity` is sqlite3.IntegrityError, `not_retained` the
-- RuntimeError of `_create_message_sync`, `invalid_attempt` the ValueError of
-- `_record_webhook_attempt_sync`, and `validation` that of the model `Message`.
pub data StoreError : Type 0 where
  room_not_found room_already_exists room_archived room_frozen room_not_archived : Text → StoreError
  room_capacity webhook_capacity integrity not_retained invalid_attempt validation : StoreError
  message_not_found message_deleted thread_depth reaction_capacity : Text → StoreError
  message_ownership member_muted member_banned read_state_capacity invalid_cursor :
      Text → StoreError
  delivery_not_found payload_unavailable : Text → StoreError
  invalid_audit_cursor invalid_webhook_cursor : Text → StoreError
  invalid_search_query : StoreError

-- A transaction commits with a result, or raises and rolls back.
pub data Result {ℓ} (A : Type ℓ) : Type ℓ where
  ok : A → Result A
  err : StoreError → Result A

infixl 5 ◌>>=◌
abbrev pub ◌>>=◌ {μ ℓ} : {B : Type μ} {A : Type ℓ} → Result A → (A → Result B) → Result B
err e >>= next = err e
ok x >>= next = next x

-- `if test: raise error`
abbrev pub raise_if : Bool → StoreError → Result (Unit {0})
raise_if true e = err e
raise_if false e = ok tt

infixl 5 ◌>>◌
abbrev pub ◌>>◌ {ℓ} : {B : Type ℓ} → Result (Unit {0}) → Result B → Result B
check >> next = check >>= λ _. next

-- `if row is None: raise error`
abbrev pub or_raise {ℓ} : {A : Type ℓ} → Option A → StoreError → Result A
or_raise none e = err e
or_raise (some a) e = ok a

is_empty {ℓ} : {A : Type ℓ} → List A → Bool
is_empty [] = true
is_empty (x ∷ xs) = false

-- `Message.require_complete_pin_metadata`
unfoldable pub is_complete : MessageRow → Bool
unfolding is_empty
is_complete r =
    bool_eq (is_some r.pinned_at) (is_some r.pinned_by)
    && (if is_some r.deleted_at
        then not (is_some r.pinned_at)
          && is_empty r.metadata
          && is_empty r.attachments
          && is_empty r.mentioned_subjects
        else true)

-- `_message_from_row`: the model refuses a row that is not complete.
abbrev pub message_of : MessageRow → Message
message_of r = record {
  id = r.id;
  room_id = r.room_id;
  sender = r.sender;
  content = r.content;
  created_at = r.created_at;
  client_message_id = r.client_message_id;
  parent_message_id = r.parent_message_id;
  reactions = r.reactions;
  pinned_at = r.pinned_at;
  pinned_by = r.pinned_by;
  metadata = r.metadata;
  attachments = r.attachments;
  mentioned_subjects = r.mentioned_subjects;
  edited_at = r.edited_at;
  deleted_at = r.deleted_at;
}

unfoldable pub message_from_row : MessageRow → Result Message
unfolding is_complete
message_from_row r = if is_complete r then ok (message_of r) else err validation
