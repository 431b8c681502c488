-- ===== src/Store/Messages/Steps.antt =====
-- The steps that the writes share: reading a sound row back, an audit event, an outbox event.
use samsarix_chat_engine.Base.{Bool, true, is_some, ◌≡◌, ◌⊎◌, Option, none, some, inl, inr}
use samsarix_chat_engine.Store.Tables.{
  Text, Time, Stamp, MessageRow, Database, Limits, ok, StoreError, message_not_found,
  message_deleted, integrity, webhook_capacity, message_of, message_from_row, EventType, EventBody,
  named, AuditAction, Details,
}
use samsarix_chat_engine.Store.Outcomes.{AuditOnly, OutboxOnly, Outcome, Outcome-weaken}
use samsarix_chat_engine.Store.Audit.Bounds.{insert_audit-Outcome}
use samsarix_chat_engine.Store.Audit.{insert_audit}
use samsarix_chat_engine.Store.Outbox.{insert_webhook}
use samsarix_chat_engine.Store.Outbox.Capacity.{insert_webhook-Outcome}
use samsarix_chat_engine.Store.Invariant.{IsComplete}
use samsarix_chat_engine.Store.Messages.Guards.{Unwritable}
use samsarix_chat_engine.Store.Messages.{find_message}

pub message_from_row-IsComplete :
    (r : MessageRow) → IsComplete r → message_from_row r ≡ ok (message_of r)
unfolding message_from_row
message_from_row-IsComplete r c = rw c

-- What a write may still meet once its checks have passed: a repeated identifier, or a full outbox.
abbrev pub Late : StoreError → Type 0
Late e = (e ≡ integrity) ⊎ (e ≡ webhook_capacity)

-- The steps that the writes share, which touch the audit trail and the outbox alone.
pub audit-Late :
    (l : Limits) (s : Stamp) (action : AuditAction) (actor : Text) (room : Text) (details : Details)
    (db : Database)
    → Outcome Late (AuditOnly db) (insert_audit l s action (named actor) (some room) details db)
audit-Late l s action actor room details db =
    Outcome-weaken (λ e. e ≡ integrity) Late _ (AuditOnly db) _ (λ e h. inl h) (λ _ h. h)
      (insert_audit-Outcome l s action (named actor) (some room) details db)

raised : (e : StoreError) → (e ≡ webhook_capacity) ⊎ (e ≡ integrity) → Late e
raised e (inl h) = inr h
raised e (inr h) = inl h

pub webhook-Late :
    (l : Limits) (uid : Text) (kind : EventType) (room resource : Text) (at : Time)
    (body : EventBody) (db : Database)
    → Outcome Late (OutboxOnly db) (insert_webhook l uid kind room resource at body db)
webhook-Late l uid kind room resource at body db =
    Outcome-weaken (λ e. (e ≡ webhook_capacity) ⊎ (e ≡ integrity)) Late _ (OutboxOnly db) _ raised
      (λ _ h. h) (insert_webhook-Outcome l uid kind room resource at body db)

-- Why a reaction or a pin is refused: the caller may not write, the message is not there or is
-- deleted, or one of the reasons `More`.
pub data Untouched (room message : Text) (allowed : Bool) (subject : Option Text) (at : Time)
    (db : Database) (More : StoreError → Type 0) : StoreError → Type 0 where
  no_access :
      (e : StoreError)
      → Unwritable room allowed subject at db e
      → Untouched room message allowed subject at db More e
  no_message :
      find_message room message db ≡ none
      → Untouched room message allowed subject at db More (message_not_found message)
  dead :
      (row : MessageRow)
      → find_message room message db ≡ some row
      → is_some row.deleted_at ≡ true
      → Untouched room message allowed subject at db More (message_deleted message)
  more : (e : StoreError) → More e → Untouched room message allowed subject at db More e
