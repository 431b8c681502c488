-- ===== src/Store/Pins/Sound.antt =====
-- Pinning: the invariant of the messages, and that the row ends up as asked, whatever it was.
use samsarix_chat_engine.Base.{
  ◌==◌, Bool, true, false, not, is_some, bool_eq, ◌≡◌, refl, sym, ap, ◌∙◌, Option, none, some,
  arith, if◌then◌else◌,
}
use samsarix_chat_engine.Base.Sql.{fetch, update, All-fetch}
use samsarix_chat_engine.Store.Tables.{
  Text, Time, Stamp, MessageRow, PinMutation, Database, Limits, message_not_found, message_deleted,
  is_complete, message_of, EventType, AuditAction,
}
use samsarix_chat_engine.Store.Outcomes.{
  AuditOnly, OutboxOnly, Outcome, Outcome-bind, Outcome-raise_if, Outcome-or_raise, Outcome-weaken,
  Outcome-if,
}
use samsarix_chat_engine.Store.Invariant.{IsComplete, IsSound}
use samsarix_chat_engine.Store.Invariant.Threads.{KeepsThread}
use samsarix_chat_engine.Store.Messages.{at_id, find_message}
use samsarix_chat_engine.Store.Messages.Guards.{Outcome-writable}
use samsarix_chat_engine.Store.Messages.Steps.{
  message_from_row-IsComplete, Late, audit-Late, webhook-Late, Untouched, no_access, no_message,
  dead, more,
}
use samsarix_chat_engine.Store.Messages.Edits.{row_update-IsSound, row_update-found, found-by_id}
use samsarix_chat_engine.Store.Pins.{with_pin, pin_changes, store_pin, report_pin, set_message_pin}

with_pin-KeepsThread : (b : Bool) (pinner : Text) (now : Time) → KeepsThread (with_pin b pinner now)
with_pin-KeepsThread b pinner now = record {
  same_id = λ m. refl;
  same_room = λ m. refl;
  same_parent = λ m. refl;
}

with_pin-IsComplete :
    (b : Bool) (pinner : Text) (now : Time) (m : MessageRow)
    → is_some m.deleted_at ≡ false
    → IsComplete (with_pin b pinner now m)
unfolding is_complete
with_pin-IsComplete true pinner now m live = ground arith
with_pin-IsComplete false pinner now m live = ground arith

-- A sound table in which the message is stored as returned, pinned or not as asked.
abbrev pub IsPinnedAs : Text → Bool → PinMutation → Database → Type 0
IsPinnedAs message pinned mutation db' =
    IsSound db'.messages
    × ((row : MessageRow) × (fetch (λ m. m.id == message) db'.messages ≡ some row)
        × (is_some row.pinned_at ≡ pinned)
        × (mutation.message ≡ message_of row))

-- The row after a change: pinned at the time of the call by the caller, or not pinned, and otherwise
-- as it was.
pub record IsRepinned (pinned : Bool) (pinner : Text) (now : Time) (old new : MessageRow)
    : Type 0 where
  pub on : pinned ≡ true → (new.pinned_at ≡ some now) × (new.pinned_by ≡ some pinner)
  pub off : pinned ≡ false → (new.pinned_at ≡ none) × (new.pinned_by ≡ none)
  pub columns : new ≡ record old { pinned_at = new.pinned_at; pinned_by = new.pinned_by }

with_pin-IsRepinned :
    (pinned : Bool) (pinner : Text) (now : Time) (m : MessageRow)
    → IsRepinned pinned pinner now m (with_pin pinned pinner now m)
with_pin-IsRepinned true pinner now m = record {
  on = λ _. (refl, refl);
  off = λ t. cc;
  columns = refl;
}
with_pin-IsRepinned false pinner now m = record {
  on = λ t. cc;
  off = λ _. (refl, refl);
  columns = refl;
}

abbrev pub PinOutcome :
    Text → Text → Bool → Text → Time → Database → PinMutation × Database → Type 0
PinOutcome room message pinned pinner now db (mutation, db') =
    IsPinnedAs message pinned mutation db'
    × ((row : MessageRow) × (find_message room message db ≡ some row)
        × (is_some row.deleted_at ≡ false)
        × (mutation.changed ≡ not (bool_eq (is_some row.pinned_at) pinned))
        × (mutation.changed ≡ false → db' ≡ db)
        × (mutation.changed ≡ true
            → (db'.messages
                ≡ update (λ m. m.id == message) (with_pin pinned pinner now) db.messages)
              × IsRepinned pinned pinner now row (with_pin pinned pinner now row)))

module _ (l : Limits) (room message pinner actor : Text) (pinned : Bool) (now : Time)
    (audited : Stamp) (delivery : Text) (db : Database) {row : MessageRow}
    (sound : IsSound db.messages) (found : find_message room message db ≡ some row)
    (live : is_some row.deleted_at ≡ false) where
  store_pin-Outcome :
      pin_changes row pinned ≡ true
      → Outcome Late
          (PinOutcome room message pinned pinner now db)
          (store_pin l room message pinner actor pinned now audited delivery db)
  unfolding store_pin
  store_pin-Outcome change =
      let f = with_pin pinned pinner now in
      let k = with_pin-KeepsThread pinned pinner now in
      let done : IsComplete (f row) = with_pin-IsComplete pinned pinner now row live in
      let rows = update (λ m. m.id == message) f db.messages in
      let written : Database = record db { messages = rows } in
      Outcome-bind Late (AuditOnly written) _ _ _
        (audit-Late l audited AuditAction.message_pin_updated actor room _ written)
        λ db₁ a.
          let same₁ : db₁.messages ≡ rows = ap (λ (t : Database). t.messages) a in
          let read = row_update-found room message f k db sound found in
          let stored : fetch (λ m. m.id == message) db₁.messages ≡ some (f row) = rw same₁ read in
          rw (stored, message_from_row-IsComplete (f row) done)
            (Outcome-bind Late (OutboxOnly db₁) _ _ _
              (webhook-Late l delivery EventType.message_pin_updated room message now _ db₁)
              λ db₂ o.
                let same₂ : db₂.messages ≡ rows = ap (λ (t : Database). t.messages) o ∙ same₁ in
                (
                  (
                    rw same₂ (row_update-IsSound room message f k db sound found done),
                    (f row, rw same₂ read, ground arith, refl),
                  ),
                  (
                    row,
                    found,
                    live,
                    sym change,
                    (λ t. cc),
                    (λ _. (same₂, with_pin-IsRepinned pinned pinner now row)),
                  ),
                ))

  report_pin-Outcome :
      pin_changes row pinned ≡ false
      → Outcome Late
          (PinOutcome room message pinned pinner now db)
          (report_pin row pinner pinned now db)
  report_pin-Outcome keep =
      let complete : IsComplete row =
        All-fetch IsComplete (at_id room message) db.messages sound.complete found in
      rw (message_from_row-IsComplete row complete) (
        (sound, (row, found-by_id room message db sound found, ground arith, refl)),
        (row, found, live, sym keep, (λ _. refl), (λ t. cc)),
      )

-- In a sound table a pin or unpin is refused because the caller may not write in the room, because
-- the message is not there or is deleted, or late: on a repeated identifier or a full outbox.
-- Otherwise the message is pinned or not as asked; the call writes only if that is a change, and
-- says so, and then the row has the time and the pinner of the call, or none, and its other columns;
-- no other message changes, and the table stays sound.
pub set_message_pin-Outcome :
    (l : Limits) (room message pinner actor : Text) (pinned allow_frozen : Bool)
    (subject : Option Text) (now checked_at : Time) (audited : Stamp) (delivery : Text)
    (db : Database)
    → IsSound db.messages
    → Outcome
        (Untouched room message allow_frozen subject checked_at db Late)
        (PinOutcome room message pinned pinner now db)
        (set_message_pin l room message pinner actor pinned allow_frozen subject now checked_at
          audited delivery db)
unfolding set_message_pin
set_message_pin-Outcome l room message pinner actor pinned allow_frozen subject now checked_at
      audited delivery db sound =
    let Q = Untouched room message allow_frozen subject checked_at db Late in
    let P = PinOutcome room message pinned pinner now db in
    Outcome-writable Q P room allow_frozen subject checked_at db _ (λ e u. no_access e u)
      λ w.
        Outcome-or_raise Q P (find_message room message db) (message_not_found message) _
          (λ n. no_message n)
          λ row found.
            Outcome-raise_if Q P (is_some row.deleted_at) (message_deleted message) _
              (λ d. dead row found d)
              λ live.
                Outcome-weaken Late Q P P
                  (if pin_changes row pinned
                    then store_pin l room message pinner actor pinned now audited delivery db
                    else report_pin row pinner pinned now db)
                  (λ e h. more e h) (λ _ h. h)
                  (Outcome-if Late P (pin_changes row pinned)
                    (store_pin l room message pinner actor pinned now audited delivery db)
                    (report_pin row pinner pinned now db)
                    (store_pin-Outcome l room message pinner actor pinned now audited delivery db
                      sound found live)
                    (report_pin-Outcome l room message pinner actor pinned now audited delivery db
                      sound found live))
