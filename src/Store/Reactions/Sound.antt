-- ===== src/Store/Reactions/Sound.antt =====
-- Reacting: the invariant of the messages, and that the message carries the summary of the rows.
use samsarix_chat_engine.Base.{
  ◌==◌, ◌∙◌, not, Bool, true, false, is_some, ◌≡◌, refl, sym, ap, ◌⊎◌, inl, inr, Option, some, List,
}
use mathlib.Core.Path.{subst₂}
use samsarix_chat_engine.Base.Sql.{fetch, select, All-fetch}
use samsarix_chat_engine.Store.Tables.{
  Text, Time, MessageRow, ReactionRow, ReactionMutation, Database, Limits, StoreError,
  message_not_found, message_deleted, is_complete, message_of, EventType,
}
use samsarix_chat_engine.Store.Outcomes.{
  OutboxOnly, Outcome, Outcome-bind, Outcome-after, Outcome-raise_if, Outcome-or_raise,
  Outcome-weaken,
}
use samsarix_chat_engine.Store.Invariant.{IsComplete, IsSound}
use samsarix_chat_engine.Store.Invariant.Threads.{KeepsThread}
use samsarix_chat_engine.Store.Messages.{at_id, find_message}
use samsarix_chat_engine.Store.Messages.Guards.{Outcome-writable}
use samsarix_chat_engine.Store.Messages.Steps.{
  message_from_row-IsComplete, Late, webhook-Late, Untouched, no_access, no_message, dead, more,
}
use samsarix_chat_engine.Store.Messages.Edits.{
  row_update-IsSound, row_update-found, found-by_id, select-update_other,
}
use samsarix_chat_engine.Store.Reactions.{
  with_summary, summaries, store_reactions, toggle, finish_reaction, set_message_reaction,
}
use samsarix_chat_engine.Store.Reactions.Toggle.{IsToggled, IsFull, toggle-Outcome}

with_summary-KeepsThread :
    (message : Text) (rows : List ReactionRow) → KeepsThread (with_summary message rows)
with_summary-KeepsThread message rows = record {
  same_id = λ m. refl;
  same_room = λ m. refl;
  same_parent = λ m. refl;
}

with_summary-IsComplete :
    (message : Text) (rows : List ReactionRow) (m : MessageRow)
    → IsComplete m
    → IsComplete (with_summary message rows m)
unfolding is_complete
with_summary-IsComplete message rows m c = c

-- The stored message is the one returned, and carries the summary of the reactions on it.
abbrev pub IsSummed : Text → ReactionMutation × Database → Type 0
IsSummed message (mutation, db') =
    IsSound db'.messages
    × ((row : MessageRow) × (fetch (λ m. m.id == message) db'.messages ≡ some row)
        × (mutation.message ≡ message_of row)
        × (row.reactions ≡ summaries message db'.reactions))

-- What a reaction call leaves alone: everything where nothing changes, the other columns of the
-- message, the other messages, and every table but the messages, the reactions and the outbox.
pub record IsFramed (message : Text) (changed : Bool) (db db' : Database) : Type 0 where
  pub idle : changed ≡ false → db' ≡ db
  pub columns :
      (old new : MessageRow)
      → fetch (λ r. r.id == message) db.messages ≡ some old
      → fetch (λ r. r.id == message) db'.messages ≡ some new
      → new ≡ record old { reactions = new.reactions }
  pub others :
      select (λ r. not (r.id == message)) db'.messages
      ≡ select (λ r. not (r.id == message)) db.messages
  pub rest : db' ≡ record db {
    messages = db'.messages;
    reactions = db'.reactions;
    deliveries = db'.deliveries;
  }

-- One row for another at equal results of a query.
kept_columns :
    (a b : MessageRow) {old new : MessageRow}
    → some a ≡ some old
    → some b ≡ some new
    → b ≡ record a { reactions = b.reactions }
    → new ≡ record old { reactions = new.reactions }
kept_columns a b {old} {new} p q h =
    let from : a ≡ old = cc p in
    let to : b ≡ new = cc q in
    subst₂ (λ (o n : MessageRow). n ≡ record o { reactions = n.reactions }) from to h

module _ (l : Limits) (room message reactor key : Text) (present : Bool) (now : Time)
    (delivery : Text) (db : Database) {row : MessageRow} (sound : IsSound db.messages)
    (found : find_message room message db ≡ some row)
    (kept : row.reactions ≡ summaries message db.reactions) where
  -- The rows and the summary that a call leaves, and its report.
  abbrev pub Reacted : List ReactionRow → Bool → ReactionMutation × Database → Type 0
  Reacted rows changed (mutation, db') =
      (IsSummed message (mutation, db') × IsFramed message mutation.changed db db')
      × (db'.reactions ≡ rows)
      × (mutation.changed ≡ changed)

  finish_reaction-Outcome :
      (rows : List ReactionRow) (changed : Bool)
      → (changed ≡ false → rows ≡ db.reactions)
      → Outcome Late
          (Reacted rows changed)
          (finish_reaction l room message reactor key present now delivery row rows changed db)
  unfolding finish_reaction
  finish_reaction-Outcome rows false same =
      let there = found-by_id room message db sound found in
      let complete = All-fetch IsComplete (at_id room message) db.messages sound.complete found in
      rw (message_from_row-IsComplete row complete) (
        (
          (sound, (row, there, refl, kept)),
          record {
            idle = λ _. refl;
            columns = λ old new p q. kept_columns row row (sym there ∙ p) (sym there ∙ q) refl;
            others = refl;
            rest = refl;
          },
        ),
        sym (same refl),
        refl,
      )
  finish_reaction-Outcome rows true same =
      let f = with_summary message rows in
      let k = with_summary-KeepsThread message rows in
      let complete = All-fetch IsComplete (at_id room message) db.messages sound.complete found in
      let done : IsComplete (f row) = with_summary-IsComplete message rows row complete in
      let written : Database = store_reactions message rows db in
      let read = row_update-found room message f k db sound found in
      rw (read, message_from_row-IsComplete (f row) done)
        (Outcome-bind Late (OutboxOnly written) _ _ _
          (webhook-Late l delivery EventType.message_reaction_updated room message now _ written)
          λ db' o.
            let messages : db'.messages ≡ written.messages = ap (λ (t : Database). t.messages) o in
            let after : fetch (λ m. m.id == message) db'.messages ≡ some (f row) =
              rw messages read in
            let reactions : db'.reactions ≡ rows = ap (λ (t : Database). t.reactions) o in
            (
              (
                (
                  rw messages (row_update-IsSound room message f k db sound found done),
                  (f row, after, refl, ap (summaries message) (sym reactions)),
                ),
                record {
                  idle = λ t. cc;
                  columns = λ old new p q.
                      kept_columns row (f row) (sym (found-by_id room message db sound found) ∙ p)
                        (sym after ∙ q) refl;
                  others = rw messages (select-update_other message f k.same_id db.messages);
                  rest = o ∙ λ i. record db {
                    messages = sym messages i;
                    reactions = sym reactions i;
                    deliveries = db'.deliveries;
                  };
                },
              ),
              reactions,
              refl,
            ))

-- What a reaction call returns.
abbrev pub IsReaction :
    Text → Text → Text → Text → Bool → Time → Database → ReactionMutation × Database → Type 0
IsReaction room message reactor key present now db (mutation, db') =
    (IsSummed message (mutation, db') × IsFramed message mutation.changed db db')
    × IsToggled room message reactor key present now db.reactions db'.reactions mutation.changed

abbrev Toggled :
    Text → Text → Text → Text → Bool → Time → Database → List ReactionRow × Bool → Type 0
Toggled room message reactor key present now db (rows, changed) =
    IsToggled room message reactor key present now db.reactions rows changed

-- The reasons that a reaction adds: the keys of the message are full, or those that are met late.
abbrev pub ReactionRefusal :
    Text → Text → Text → Text → Bool → Time → Database → StoreError → Type 0
ReactionRefusal room message reactor key present now db e =
    IsFull room message reactor key present now db.reactions e ⊎ Late e

-- In a sound table, where the message carries the summary of its reactions, a reaction call is
-- refused because the caller may not write in the room, because the message is not there or is
-- deleted, because it would add a key to the 20 that are in use, or late: on a repeated
-- identifier or a full outbox. Otherwise the reactor's row is there or not as asked, all others
-- stay, the call reports whether it changed anything and writes nothing if it did not, the table
-- stays sound, the message that is stored and returned carries the summary of the rows, and no
-- other column or message and no table but those of messages, reactions and deliveries changes.
pub set_message_reaction-Outcome :
    (l : Limits) (room message reactor key : Text) (present allow_frozen : Bool)
    (subject : Option Text) (now checked_at : Time) (delivery : Text) (db : Database)
    → IsSound db.messages
    → ((row : MessageRow)
        → find_message room message db ≡ some row
        → row.reactions ≡ summaries message db.reactions)
    → Outcome
        (Untouched room message allow_frozen subject checked_at db
          (ReactionRefusal room message reactor key present now db))
        (IsReaction room message reactor key present now db)
        (set_message_reaction l room message reactor key present allow_frozen subject now checked_at
          delivery db)
unfolding set_message_reaction
set_message_reaction-Outcome l room message reactor key present allow_frozen subject now checked_at
      delivery db sound kept =
    let More = ReactionRefusal room message reactor key present now db in
    let Q = Untouched room message allow_frozen subject checked_at db More in
    let P = IsReaction room message reactor key present now db in
    Outcome-writable Q P room allow_frozen subject checked_at db _ (λ e u. no_access e u)
      λ w.
        Outcome-or_raise Q P (find_message room message db) (message_not_found message) _
          (λ n. no_message n)
          λ row found.
            Outcome-raise_if Q P (is_some row.deleted_at) (message_deleted message) _
              (λ d. dead row found d)
              λ live.
                Outcome-after (IsFull room message reactor key present now db.reactions)
                  (Toggled room message reactor key present now db) Q P
                  (toggle room message reactor key present now db.reactions) _
                  (toggle-Outcome room message reactor key present now db.reactions)
                  (λ e h. more e (inl h))
                  λ (rows, changed) h.
                    Outcome-weaken Late Q
                      (Reacted l room message reactor key present now delivery db sound found
                        (kept row found) rows changed)
                      P
                      (finish_reaction l room message reactor key present now delivery row rows
                        changed db)
                      (λ e k. more e (inr k))
                      (λ r k. (
                        k.0,
                        subst₂ (IsToggled room message reactor key present now db.reactions)
                            (sym k.1) (sym k.2) h,
                      ))
                      (finish_reaction-Outcome l room message reactor key present now delivery db
                        sound found (kept row found) rows changed h.untouched)
