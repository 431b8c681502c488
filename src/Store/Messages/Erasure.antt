-- ===== src/Store/Messages/Erasure.antt =====
-- Deleting a message: a tombstone is left of the row, and nothing of its reactions or of the replay
-- bodies about it.
use samsarix_chat_engine.Base.{
  none, ◌==◌, Bool, true, false, not, ◌&&◌, ◌||◌, is_some, ◌≡◌, ◌≢◌, refl, sym, ap, ◌∙◌, Option,
  some, List, [], ◌∷◌, All, arith,
}
use samsarix_chat_engine.Base.Sql.{select, select-delete, fetch, update, delete, exists, All-fetch}
use samsarix_chat_engine.Store.Tables.{
  StoreError, Text, Time, MessageRow, Message, ReactionRow, DeliveryRow, Database, Limits,
  message_not_found, message_ownership, message_of, EventType, by_actor, AuditAction,
}
use samsarix_chat_engine.Store.Outcomes.{
  AuditOnly, OutboxOnly, Outcome, Outcome-bind, Outcome-after, Outcome-raise_if, Outcome-or_raise,
  Outcome-weaken, Outcome-if, Outcome-named,
}
use samsarix_chat_engine.Store.Outbox.{scrub_message_webhooks}
use samsarix_chat_engine.Store.Outbox.Capacity.{insert_webhook-All}
use samsarix_chat_engine.Store.Outbox.Erasure.{concerns, IsErased, scrub_message_webhooks-erases}
use samsarix_chat_engine.Store.Invariant.{IsComplete, IsSound}
use samsarix_chat_engine.Store.Messages.{
  at_id, find_message, EditStamps, tombstone, erase, delete_message, resubmit, require_deletable,
}
use samsarix_chat_engine.Store.Messages.Guards.{Undeletable, IsDeletable, require_deletable-Outcome}
use samsarix_chat_engine.Store.Messages.Steps.{
  message_from_row-IsComplete, Late, audit-Late, webhook-Late,
}
use samsarix_chat_engine.Store.Messages.Edits.{
  IsRewritten, tombstone-KeepsThread, tombstone-IsComplete, rewritten, row_update-found,
}

no_reactions :
    (message : Text) (rows : List ReactionRow)
    → exists (λ r. r.message_id == message) (delete (λ r. r.message_id == message) rows) ≡ false
no_reactions message [] = refl
no_reactions message (r ∷ rs) = ground (arith, no_reactions message rs)

All-weaken :
    (P R : DeliveryRow → Type 0)
    → ((d : DeliveryRow) → P d → R d)
    → (rows : List DeliveryRow) → All P rows
    → All R rows
All-weaken P R k [] h = tt
All-weaken P R k (d ∷ ds) h = (k d h.0, All-weaken P R k ds h.1)

-- The row of a deleted message: its text and all that was attached to it are gone, and it has the time
-- of the deletion; its place, sender and thread stay.
pub record IsTombstone (at : Time) (old new : MessageRow) : Type 0 where
  pub content : new.content ≡ 0
  pub reactions : new.reactions ≡ []
  pub pinned_at : new.pinned_at ≡ none
  pub pinned_by : new.pinned_by ≡ none
  pub metadata : new.metadata ≡ []
  pub attachments : new.attachments ≡ []
  pub mentions : new.mentioned_subjects ≡ []
  pub deleted_at : new.deleted_at ≡ some at
  pub rest : new ≡ record old {
    content = new.content;
    reactions = new.reactions;
    pinned_at = new.pinned_at;
    pinned_by = new.pinned_by;
    metadata = new.metadata;
    attachments = new.attachments;
    mentioned_subjects = new.mentioned_subjects;
    deleted_at = new.deleted_at;
  }

tombstone-IsTombstone : (at : Time) (m : MessageRow) → IsTombstone at m (tombstone at m)
tombstone-IsTombstone at m = record {
  content = refl;
  reactions = refl;
  pinned_at = refl;
  pinned_by = refl;
  metadata = refl;
  attachments = refl;
  mentions = refl;
  deleted_at = refl;
  rest = refl;
}

-- What an erasure leaves: a tombstone in place of the row and in the answer, no reaction to it and all
-- others, and no delivery about the message that is pending or holds a body, but the event of the
-- deletion itself.
pub record IsGone (room message : Text) (at : Time) (event : Text) (row : MessageRow)
    (db : Database) (m : Message) (db' : Database) : Type 0 where
  pub new : MessageRow
  pub blank : IsTombstone at row new
  pub written : IsRewritten message new db m db'
  pub unreacted : exists (λ r. r.message_id == message) db'.reactions ≡ false
  pub other_reactions :
      select (λ (r : ReactionRow). not (r.message_id == message)) db'.reactions
      ≡ select (λ (r : ReactionRow). not (r.message_id == message)) db.reactions
  pub scrubbed :
      All (λ d. concerns room message d ≡ true → d.id ≢ event → IsErased d) db'.deliveries

module _ (l : Limits) (room message actor : Text) (s : EditStamps) (db : Database)
    {row : MessageRow} (sound : IsSound db.messages)
    (found : find_message room message db ≡ some row) where
  erase-Outcome :
      Outcome Late
        (λ r. IsGone room message s.changed_at s.delivery row db r.0 r.2 × (r.1 ≡ true))
        (erase l room message actor s db)
  unfolding erase scrub_message_webhooks
  erase-Outcome =
      let f = tombstone s.changed_at in
      let k = tombstone-KeepsThread s.changed_at in
      let done : IsComplete (f row) = tombstone-IsComplete s.changed_at row in
      let rows = update (λ m. m.id == message) f db.messages in
      let written : Database = record db {
        reactions = delete (λ r. r.message_id == message) db.reactions;
        messages = rows;
      } in
      Outcome-bind Late (AuditOnly written) _ _ _
        (audit-Late l s.audit AuditAction.message_deleted actor room _ written)
        λ db₁ a.
          let same₁ : db₁.messages ≡ rows = ap (λ (t : Database). t.messages) a in
          let stored : fetch (λ m. m.id == message) db₁.messages ≡ some (f row) =
            rw same₁ (row_update-found room message f k db sound found) in
          let scrubbed : Database = scrub_message_webhooks room message db₁ in
          let about =
            λ (d : DeliveryRow). concerns room message d ≡ true → d.id ≢ s.delivery → IsErased d in
          let erased : All about scrubbed.deliveries =
            All-weaken _ about (λ d h t _. h t) scrubbed.deliveries
              (scrub_message_webhooks-erases room message db₁).0 in
          rw (stored, message_from_row-IsComplete (f row) done)
            (Outcome-bind Late (λ db₂. OutboxOnly scrubbed db₂ × All about db₂.deliveries) _ _ _
              (Outcome-named Late (OutboxOnly scrubbed) _
                (webhook-Late l s.delivery EventType.message_deleted room row.id s.changed_at
                  (by_actor actor (message_of (f row))) scrubbed)
                _
                (λ db₂ o e. (
                  o,
                  insert_webhook-All about l s.delivery EventType.message_deleted room row.id
                      s.changed_at (by_actor actor (message_of (f row))) scrubbed erased
                      (λ _ other. absurd (other refl)) e,
                )))
              λ db₂ h.
                let kept : db₂.messages ≡ rows = ap (λ (t : Database). t.messages) h.0 ∙ same₁ in
                let cleared : db₂.reactions ≡ written.reactions =
                  ap (λ (t : Database). t.reactions) h.0 ∙ ap (λ (t : Database). t.reactions) a in
                (
                  record {
                    new = f row;
                    blank = tombstone-IsTombstone s.changed_at row;
                    written = rewritten room message f k db db₂ sound found done kept;
                    unreacted = rw cleared (no_reactions message db.reactions);
                    other_reactions =
                        rw cleared (
                          select-delete (λ (r : ReactionRow). r.message_id == message)
                            db.reactions);
                    scrubbed = h.1;
                  },
                  refl,
                ))

-- Why a deletion is refused.
pub data Undeleted (room message actor : Text) (is_admin : Bool) (subject : Option Text)
    (s : EditStamps) (db : Database) : StoreError → Type 0 where
  no_access :
      (e : StoreError)
      → Undeletable room is_admin subject s.checked_at db e
      → Undeleted room message actor is_admin subject s db e
  no_message :
      find_message room message db ≡ none
      → Undeleted room message actor is_admin subject s db (message_not_found message)
  not_own :
      (row : MessageRow)
      → find_message room message db ≡ some row
      → (is_admin || row.sender == actor) ≡ false
      → Undeleted room message actor is_admin subject s db (message_ownership message)
  late : (e : StoreError) → Late e → Undeleted room message actor is_admin subject s db e

-- What a deletion returns: the caller might delete there, the row was the caller's own or the caller
-- administers; a live row is erased, and of one that was deleted before nothing changes.
abbrev pub IsDeleted :
    Text
    → Text
    → Text
    → Bool
    → Option Text
    → EditStamps
    → Database
    → Message × Bool × Database
    → Type 0
IsDeleted room message actor is_admin subject s db (m, changed, db') =
    IsDeletable room is_admin subject s.checked_at db
    × ((row : MessageRow) × (find_message room message db ≡ some row)
        × ((is_admin || row.sender == actor) ≡ true)
        × (changed ≡ not (is_some row.deleted_at))
        × (changed ≡ true → IsGone room message s.changed_at s.delivery row db m db')
        × (changed ≡ false → db' ≡ db))

module _ (l : Limits) (room message actor : Text) (is_admin : Bool) (subject : Option Text)
    (s : EditStamps) (db : Database) where
  -- In a sound table a deletion is refused because the caller may not delete in the room, because
  -- the message is not there or is not the caller's own (and the caller is no administrator), or
  -- late: on a repeated identifier or a full outbox. Otherwise a live message is erased: its row, and
  -- the answer, has no content, metadata, attachments, mentions, reactions or pin, the time of the
  -- deletion and its other columns, other messages stay, no reaction to it is left and all others, the
  -- table stays sound, and of the deliveries about it only that of the deletion itself may be pending
  -- or hold a body. A message that was deleted before is returned with nothing changed.
  pub delete_message-Outcome :
      IsSound db.messages
      → Outcome
          (Undeleted room message actor is_admin subject s db)
          (IsDeleted room message actor is_admin subject s db)
          (delete_message l room message actor is_admin subject s db)
  unfolding delete_message
  delete_message-Outcome sound =
      let Q = Undeleted room message actor is_admin subject s db in
      let P = IsDeleted room message actor is_admin subject s db in
      Outcome-after (Undeletable room is_admin subject s.checked_at db)
        (λ _. IsDeletable room is_admin subject s.checked_at db) Q P
        (require_deletable room is_admin subject s.checked_at db) _
        (require_deletable-Outcome room is_admin subject s.checked_at db) (λ e u. no_access e u)
        λ _ w.
          Outcome-or_raise Q P (find_message room message db) (message_not_found message) _
            (λ n. no_message n)
            λ row found.
              Outcome-raise_if Q P (not is_admin && not (row.sender == actor))
                (message_ownership message) _ (λ f. not_own row found (ground arith))
                λ owns.
                  let own : (is_admin || row.sender == actor) ≡ true = ground arith in
                  let complete : IsComplete row =
                    All-fetch IsComplete (at_id room message) db.messages sound.complete found in
                  Outcome-if Q P (is_some row.deleted_at) (resubmit row db)
                    (erase l room message actor s db)
                    (λ was.
                      rw (message_from_row-IsComplete row complete)
                        (w, (row, found, own, rw was, (λ t. cc), (λ _. refl))))
                    (λ live.
                      Outcome-weaken Late Q
                        (λ r.
                          IsGone room message s.changed_at s.delivery row db r.0 r.2 × (r.1 ≡ true))
                        P (erase l room message actor s db) (λ e h. late e h)
                        (λ r h. (
                          w,
                          (row, found, own, h.1 ∙ sym (rw live), (λ _. h.0), (λ f. cc (h.1, f))),
                        ))
                        (erase-Outcome l room message actor s db sound found))
