-- ===== src/Store/Examples/Messages.antt =====
-- The theorems on messages, reactions, pins and members at concrete inputs.
use samsarix_chat_engine.Base.{
  ◌==◌, if◌then◌else◌, true, false, ◌≡◌, refl, sym, ap, none, some, [], ◌∷◌,
}
use samsarix_chat_engine.Base.Sql.{fetch, exists, count}
use samsarix_chat_engine.Store.Tables.{Text, Stamp, MessageRow, ReactionSummary, message_from_row}
use samsarix_chat_engine.Store.Outcomes.{Outcome}
use samsarix_chat_engine.Store.Examples.{limits, store, store-IsSound, root, liked, is_ok}
use samsarix_chat_engine.Store.Members.{
  MemberModerationUpdate, set_member_moderation, enforce_member_write,
}
use samsarix_chat_engine.Store.Retention.{trim_messages, delete_batch}
use samsarix_chat_engine.Store.Outbox.{insert_webhook}
use samsarix_chat_engine.Store.Members.Enforcement.{
  Unmoderated, IsModerated, set_member_moderation-Outcome,
}
use samsarix_chat_engine.Store.Messages.{
  Draft, CreateStamps, create_message, Edit, EditStamps, update_message, delete_message,
  require_writable, find_message, post, check_parent, insert_message, announce,
}
use samsarix_chat_engine.Store.Messages.Guards.{Unwritable, IsWritable, require_writable-Outcome}
use samsarix_chat_engine.Store.Messages.Steps.{Untouched, Late}
use samsarix_chat_engine.Store.Messages.Sound.{Unposted, IsCreated, create_message-Outcome}
use samsarix_chat_engine.Store.Messages.Edits.{Unedited, IsEdited, update_message-Outcome}
use samsarix_chat_engine.Store.Messages.Erasure.{Undeleted, IsDeleted, delete_message-Outcome}
use samsarix_chat_engine.Store.Reactions.{with_key, summaries, set_message_reaction}
use samsarix_chat_engine.Store.Reactions.Summary.{Rising, summaries_lem}
use samsarix_chat_engine.Store.Reactions.Sound.{
  ReactionRefusal, IsReaction, set_message_reaction-Outcome,
}
use samsarix_chat_engine.Store.Pins.{set_message_pin}
use samsarix_chat_engine.Store.Pins.Sound.{PinOutcome, set_message_pin-Outcome}

abbrev draft : Draft
draft = record {
  sender = 20;
  content = 98;
  metadata = [];
  attachments = [];
  mentioned_subjects = [];
  client_message_id = some 41;
  parent_message_id = some 10;
  allow_frozen = false;
  member_subject = some 30;
  author_subject = some 30;
}

abbrev stamps : CreateStamps
stamps = record {
  checked_at = 300;
  created = record { uid = 13; at = 301 };
  trim_audit = record { uid = 70; at = 302 };
  delivery = 52;
}

abbrev edit : Edit
edit = record {
  actor = 20;
  content = 97;
  metadata = none;
  mentioned_subjects = some (30 ∷ []);
  is_admin = false;
  member_subject = some 30;
}

abbrev edit_stamps : EditStamps
edit_stamps = record {
  checked_at = 300;
  changed_at = 301;
  audit = record { uid = 71; at = 302 };
  delivery = 53;
}

create_message_example :
    Outcome
      (Unposted limits 1 draft stamps store)
      (IsCreated limits 1 draft stamps store)
      (create_message limits 1 draft stamps store)
create_message_example = create_message-Outcome limits 1 draft stamps store store-IsSound

update_message_example :
    Outcome
      (Unedited 1 10 edit edit_stamps store)
      (IsEdited 1 10 edit edit_stamps store)
      (update_message limits 1 10 edit edit_stamps store)
update_message_example = update_message-Outcome limits 1 10 edit edit_stamps store store-IsSound

delete_message_example :
    Outcome
      (Undeleted 1 10 20 false (some 30) edit_stamps store)
      (IsDeleted 1 10 20 false (some 30) edit_stamps store)
      (delete_message limits 1 10 20 false (some 30) edit_stamps store)
delete_message_example =
    delete_message-Outcome limits 1 10 20 false (some 30) edit_stamps store store-IsSound

-- The root carries the summary of its one reaction.
root-summary :
    (row : MessageRow)
    → find_message 1 10 store ≡ some row
    → row.reactions ≡ summaries 10 store.reactions
unfolding summaries
root-summary row e = let q : root ≡ row = cc e in ap (λ (m : MessageRow). m.reactions) (sym q)

set_message_reaction_example :
    Outcome
      (Untouched 1 10 false (some 30) 300 store (ReactionRefusal 1 10 30 61 true 301 store))
      (IsReaction 1 10 30 61 true 301 store)
      (set_message_reaction limits 1 10 30 61 true false (some 30) 301 300 54 store)
set_message_reaction_example =
    set_message_reaction-Outcome limits 1 10 30 61 true false (some 30) 301 300 54 store
      store-IsSound root-summary

set_message_pin_example :
    Outcome (Untouched 1 11 false (some 30) 300 store Late) (PinOutcome 1 11 true 20 301 store) (
      set_message_pin limits 1 11 20 20 true false
        (some 30)
        301
        300
        (record { uid = 72; at = 301 })
        55
        store)
set_message_pin_example =
    set_message_pin-Outcome limits 1 11 20 20 true false (some 30) 301 300
      (record { uid = 72; at = 301 }) 55 store store-IsSound

require_writable_example :
    Outcome
      (Unwritable 1 false (some 31) 300 store)
      (λ _. IsWritable 1 false (some 31) 300 store)
      (require_writable 1 false (some 31) 300 store)
require_writable_example = require_writable-Outcome 1 false (some 31) 300 store

abbrev ban : MemberModerationUpdate
ban = record { muted_for_seconds = some 0; banned_for_seconds = some 60 }

abbrev stamp : Stamp
stamp = record { uid = 73; at = 300 }

set_member_moderation_example :
    Outcome
      (Unmoderated limits 1 31 ban 20 300 stamp 56 store)
      (λ r. IsModerated 1 31 ban 300 store r.0 r.1)
      (set_member_moderation limits 1 31 ban 20 300 stamp 56 store)
set_member_moderation_example = set_member_moderation-Outcome limits 1 31 ban 20 300 stamp 56 store

summaries_example :
    ((k : Text)
      → fetch (λ (s : ReactionSummary). s.key == k) (summaries 10 (liked ∷ [])) ≡ (
          if exists (with_key 10 k) (liked ∷ [])
          then some (record { key = k; total = count (with_key 10 k) (liked ∷ []) })
          else none))
    × Rising (summaries 10 (liked ∷ []))
summaries_example = summaries_lem 10 (liked ∷ [])

-- The runs of the examples are not refused.
create_runs : is_ok (create_message limits 1 draft stamps store) ≡ true
unfolding create_message require_writable enforce_member_write post check_parent insert_message
    trim_messages delete_batch announce message_from_row insert_webhook
create_runs = refl
