-- ===== src/Store/Messages/Edits.antt =====
-- Editing and deleting messages: the invariant, who may do it, and what it does to the row.
use samsarix_chat_engine.Base.{
  List, [], ◌∷◌, ◌==◌, true, false, not, ◌&&◌, ◌||◌, is_some, ◌≡◌, refl, ap, ◌∙◌, subst, none, some,
  All, arith,
}
use samsarix_chat_engine.Base.Sql.{select, fetch, update, All-fetch, fetch-holds, fetch-update_self}
use samsarix_chat_engine.Base.Keys.{IsListed, All-IsListed, All-key}
use samsarix_chat_engine.Store.Tables.{
  Metadata, Text, Time, MessageRow, Message, Database, Limits, StoreError, message_not_found,
  message_deleted, message_ownership, is_complete, message_of, EventType, by_actor, AuditAction,
}
use samsarix_chat_engine.Store.Outcomes.{
  AuditOnly, OutboxOnly, Outcome, Outcome-bind, Outcome-raise_if, Outcome-or_raise, Outcome-weaken,
}
use samsarix_chat_engine.Store.Cascade.{message_key}
use samsarix_chat_engine.Store.Invariant.{IsComplete, IsSound}
use samsarix_chat_engine.Store.Invariant.Threads.{IsSound-update, KeepsThread}
use samsarix_chat_engine.Store.Messages.{
  at_id, find_message, Edit, EditStamps, edited, store_edit, update_message, tombstone,
}
use samsarix_chat_engine.Store.Messages.Guards.{Unwritable, IsWritable, Outcome-writable}
use samsarix_chat_engine.Store.Messages.Steps.{
  message_from_row-IsComplete, Late, audit-Late, webhook-Late,
}

-- The row that a room and an identifier find, in a sound table.
module _ (room message : Text) (db : Database) {row : MessageRow} (s : IsSound db.messages)
    (found : find_message room message db ≡ some row) where
  pub found-IsListed : IsListed message_key db.messages row
  found-IsListed =
      All-fetch (IsListed message_key db.messages) (at_id room message) db.messages
        (All-IsListed message_key db.messages s.unique) found

  pub found-id : row.id ≡ message
  found-id = let t = fetch-holds (at_id room message) db.messages found in ground (arith, t)

  -- The identifier alone finds it.
  pub found-by_id : fetch (λ m. m.id == message) db.messages ≡ some row
  found-by_id =
      subst (λ (k : Text). fetch (λ m. m.id == k) db.messages ≡ some row) found-id found-IsListed

-- An UPDATE of one stored row by a function that keeps its identity and leaves it complete.
module _ (room message : Text) (f : MessageRow → MessageRow) (k : KeepsThread f) (db : Database)
    {row : MessageRow} (s : IsSound db.messages)
    (found : find_message room message db ≡ some row) where
  pub row_update-IsSound :
      IsComplete (f row) → IsSound (update (λ m. m.id == message) f db.messages)
  row_update-IsSound c =
      IsSound-update (λ m. m.id == message) f k db.messages
        (subst
          (λ (j : Text).
            All (λ m. (m.id == j) ≡ true → IsComplete m → IsComplete (f m)) db.messages)
          (found-id room message db s found)
          (All-key message_key (λ m. IsComplete m → IsComplete (f m)) db.messages row s.unique
            (found-IsListed room message db s found) (λ _. c)))
        s

  pub row_update-found :
      fetch (λ m. m.id == message) (update (λ m. m.id == message) f db.messages) ≡ some (f row)
  row_update-found =
      fetch-update_self (λ m. m.id == message) f
        (λ m. ap (λ (j : Text). j == message) (k.same_id m)) db.messages
        (found-by_id room message db s found)

edited-KeepsThread : (e : Edit) (at : Time) → KeepsThread (edited e at)
edited-KeepsThread e at = record {
  same_id = λ m. refl;
  same_room = λ m. refl;
  same_parent = λ m. refl;
}

pub tombstone-KeepsThread : (at : Time) → KeepsThread (tombstone at)
tombstone-KeepsThread at = record {
  same_id = λ m. refl;
  same_room = λ m. refl;
  same_parent = λ m. refl;
}

edited-IsComplete :
    (e : Edit) (at : Time) (m : MessageRow)
    → is_some m.deleted_at ≡ false
    → IsComplete m
    → IsComplete (edited e at m)
unfolding is_complete
edited-IsComplete e at m live c = ground arith

pub tombstone-IsComplete : (at : Time) (m : MessageRow) → IsComplete (tombstone at m)
unfolding is_complete
tombstone-IsComplete at m = refl

pub select-update_other :
    (message : Text) (f : MessageRow → MessageRow)
    → ((m : MessageRow) → (f m).id ≡ m.id)
    → (rows : List MessageRow)
    → select (λ m. not (m.id == message)) (update (λ m. m.id == message) f rows)
      ≡ select (λ m. not (m.id == message)) rows
select-update_other message f same [] = refl
select-update_other message f same (m ∷ ms) =
    ground (arith, same m, select-update_other message f same ms)

-- A sound table in which one stored row has become the new one, which is the message returned, and
-- every other message is as it was.
pub record IsRewritten (message : Text) (new : MessageRow) (db : Database) (m : Message)
    (db' : Database) : Type 0 where
  pub sound : IsSound db'.messages
  pub stored : fetch (λ r. r.id == message) db'.messages ≡ some new
  pub others :
      select (λ r. not (r.id == message)) db'.messages
      ≡ select (λ r. not (r.id == message)) db.messages
  pub returned : m ≡ message_of new

pub rewritten :
    (room message : Text) (f : MessageRow → MessageRow) (k : KeepsThread f) (db db' : Database)
    {row : MessageRow}
    → IsSound db.messages
    → find_message room message db ≡ some row
    → IsComplete (f row)
    → db'.messages ≡ update (λ m. m.id == message) f db.messages
    → IsRewritten message (f row) db (message_of (f row)) db'
rewritten room message f k db db' sound found done same = record {
  sound = rw same (row_update-IsSound room message f k db sound found done);
  stored = rw same (row_update-found room message f k db sound found);
  others = rw same (select-update_other message f k.same_id db.messages);
  returned = refl;
}

-- The row after an edit: the asked content and time, the metadata and mentions if they were given, and
-- nothing else.
pub record IsReworded (e : Edit) (at : Time) (old new : MessageRow) : Type 0 where
  pub content : new.content ≡ e.content
  pub edited_at : new.edited_at ≡ some at
  pub metadata : (x : Metadata) → e.metadata ≡ some x → new.metadata ≡ x
  pub metadata_kept : e.metadata ≡ none → new.metadata ≡ old.metadata
  pub mentions : (x : List Text) → e.mentioned_subjects ≡ some x → new.mentioned_subjects ≡ x
  pub mentions_kept : e.mentioned_subjects ≡ none → new.mentioned_subjects ≡ old.mentioned_subjects
  pub rest : new ≡ record old {
    content = new.content;
    edited_at = new.edited_at;
    metadata = new.metadata;
    mentioned_subjects = new.mentioned_subjects;
  }

edited-IsReworded : (e : Edit) (at : Time) (m : MessageRow) → IsReworded e at m (edited e at m)
edited-IsReworded e at m = record {
  content = refl;
  edited_at = refl;
  metadata = λ x h. rw h refl;
  metadata_kept = λ h. rw h refl;
  mentions = λ x h. rw h refl;
  mentions_kept = λ h. rw h refl;
  rest = refl;
}

module _ (l : Limits) (room message : Text) (e : Edit) (s : EditStamps) (db : Database)
    {row : MessageRow} (sound : IsSound db.messages)
    (found : find_message room message db ≡ some row) (live : is_some row.deleted_at ≡ false) where
  store_edit-Outcome :
      Outcome Late
        (λ r. IsRewritten message (edited e s.changed_at row) db r.0 r.1)
        (store_edit l room message e s db)
  unfolding store_edit
  store_edit-Outcome =
      let f = edited e s.changed_at in
      let k = edited-KeepsThread e s.changed_at in
      let complete : IsComplete row =
        All-fetch IsComplete (at_id room message) db.messages sound.complete found in
      let done : IsComplete (f row) = edited-IsComplete e s.changed_at row live complete in
      let rows = update (λ m. m.id == message) f db.messages in
      let written : Database = record db { messages = rows } in
      Outcome-bind Late (AuditOnly written) _ _ _
        (audit-Late l s.audit AuditAction.message_updated e.actor room _ written)
        λ db₁ a.
          let same₁ : db₁.messages ≡ rows = ap (λ (t : Database). t.messages) a in
          let stored : fetch (λ m. m.id == message) db₁.messages ≡ some (f row) =
            rw same₁ (row_update-found room message f k db sound found) in
          rw (stored, message_from_row-IsComplete (f row) done)
            (Outcome-bind Late (OutboxOnly db₁) _ _ _
              (webhook-Late l s.delivery EventType.message_updated room row.id s.changed_at
                (by_actor e.actor (message_of (f row))) db₁)
              λ db₂ o.
                let same₂ : db₂.messages ≡ rows = ap (λ (t : Database). t.messages) o ∙ same₁ in
                rewritten room message f k db db₂ sound found done same₂)

-- Why an edit is refused.
pub data Unedited (room message : Text) (e : Edit) (s : EditStamps) (db : Database)
    : StoreError → Type 0 where
  no_access :
      (x : StoreError)
      → Unwritable room e.is_admin e.member_subject s.checked_at db x
      → Unedited room message e s db x
  no_message :
      find_message room message db ≡ none → Unedited room message e s db (message_not_found message)
  dead :
      (row : MessageRow)
      → find_message room message db ≡ some row
      → is_some row.deleted_at ≡ true
      → Unedited room message e s db (message_deleted message)
  not_own :
      (row : MessageRow)
      → find_message room message db ≡ some row
      → (e.is_admin || row.sender == e.actor) ≡ false
      → Unedited room message e s db (message_ownership message)
  late : (x : StoreError) → Late x → Unedited room message e s db x

-- What an edit returns: the caller might write there, the row was live and the editor's own or the
-- editor administers, and that row alone was changed.
abbrev pub IsEdited : Text → Text → Edit → EditStamps → Database → Message × Database → Type 0
IsEdited room message e s db (m, db') =
    IsWritable room e.is_admin e.member_subject s.checked_at db
    × ((row : MessageRow) × (find_message room message db ≡ some row)
        × (is_some row.deleted_at ≡ false)
        × ((e.is_admin || row.sender == e.actor) ≡ true)
        × ((new : MessageRow) × IsReworded e s.changed_at row new
            × IsRewritten message new db m db'))

module _ (l : Limits) (room message : Text) (e : Edit) (s : EditStamps) (db : Database) where
  -- In a sound table an edit is refused because the caller may not write in the room, because the
  -- message is not there, is deleted or is not the caller's own (and the caller is no
  -- administrator), or late: on a repeated identifier or a full outbox. Otherwise the one row has
  -- the asked content and the time of the edit, the metadata and mentions that were given or else its
  -- old ones, and its other columns; no other message changes, the table stays sound, and the row
  -- is returned.
  pub update_message-Outcome :
      IsSound db.messages
      → Outcome
          (Unedited room message e s db)
          (IsEdited room message e s db)
          (update_message l room message e s db)
  unfolding update_message
  update_message-Outcome sound =
      let Q = Unedited room message e s db in
      let P = IsEdited room message e s db in
      Outcome-writable Q P room e.is_admin e.member_subject s.checked_at db _ (λ x u. no_access x u)
        λ w.
          Outcome-or_raise Q P (find_message room message db) (message_not_found message) _
            (λ n. no_message n)
            λ row found.
              Outcome-raise_if Q P (is_some row.deleted_at) (message_deleted message) _
                (λ d. dead row found d)
                λ live.
                  Outcome-raise_if Q P (not e.is_admin && not (row.sender == e.actor))
                    (message_ownership message) _ (λ f. not_own row found (ground arith))
                    λ owns.
                      Outcome-weaken Late Q
                        (λ r. IsRewritten message (edited e s.changed_at row) db r.0 r.1) P
                        (store_edit l room message e s db) (λ x h. late x h)
                        (λ r h. (
                          w,
                          (
                            row,
                            found,
                            live,
                            ground arith,
                            (edited e s.changed_at row, edited-IsReworded e s.changed_at row, h),
                          ),
                        ))
                        (store_edit-Outcome l room message e s db sound found live)
