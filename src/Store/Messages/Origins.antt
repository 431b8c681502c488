-- ===== src/Store/Messages/Origins.antt =====
-- Where the rows come from that a create leaves: the new row, with the columns of its draft, and rows
-- that were there before.
use samsarix_chat_engine.Base.{
  ◌≢◌, List, All, All-append, ◌==◌, true, false, ◌≡◌, ◌⊎◌, refl, ap, none, some, [], ◌∷◌, ◌++◌,
  arith, inl, inr,
}
use samsarix_chat_engine.Base.Sql.{fetch, exists}
use samsarix_chat_engine.Store.Tables.{Text, Stamp, MessageRow, Database}
use samsarix_chat_engine.Base.Keys.{Unique, IsListed, All-IsListed}
use samsarix_chat_engine.Store.Cascade.{message_key, clear_parent}
use samsarix_chat_engine.Store.Messages.{Draft, new_message}

-- The table that a create has the trim look at.
abbrev pub with_new : Text → Draft → Stamp → Database → Database
with_new room d s db = record db { messages = db.messages ++ new_message room d s ∷ [] }

-- The content of a new message: what the draft and the stamps of the call give, and nothing else yet.
-- Those are its columns but its thread, which the trim may have dissolved.
pub record IsDrafted (room : Text) (d : Draft) (s : Stamp) (m : MessageRow) : Type 0 where
  pub id : m.id ≡ s.uid
  pub placed : m.room_id ≡ room
  pub sender : m.sender ≡ d.sender
  pub author : m.author_subject ≡ d.author_subject
  pub content : m.content ≡ d.content
  pub created_at : m.created_at ≡ s.at
  pub client : m.client_message_id ≡ d.client_message_id
  pub thread : (m.parent_message_id ≡ d.parent_message_id) ⊎ (m.parent_message_id ≡ none)
  pub metadata : m.metadata ≡ d.metadata
  pub attachments : m.attachments ≡ d.attachments
  pub mentions : m.mentioned_subjects ≡ d.mentioned_subjects
  pub unreacted : m.reactions ≡ []
  pub unpinned : (m.pinned_at ≡ none) × (m.pinned_by ≡ none)
  pub unedited : m.edited_at ≡ none
  pub live : m.deleted_at ≡ none

-- A message that was there before, as it was, but that its parent may have been trimmed.
pub record IsOld (before : Database) (m : MessageRow) : Type 0 where
  pub old : MessageRow
  pub stored : fetch (λ x. x.id == m.id) before.messages ≡ some old
  pub same : m ≡ record old { parent_message_id = m.parent_message_id }
  pub thread : (m.parent_message_id ≡ old.parent_message_id) ⊎ (m.parent_message_id ≡ none)

abbrev pub Origin : Text → Draft → Stamp → Database → MessageRow → Type 0
Origin room d s before m = (m.id ≡ s.uid → IsDrafted room d s m) × (m.id ≢ s.uid → IsOld before m)

pub Origin-clear :
    (room : Text) (d : Draft) (s : Stamp) (before : Database) (m : MessageRow)
    → Origin room d s before m
    → Origin room d s before (clear_parent m)
Origin-clear room d s before m h = (
  λ e.
      let k = h.0 e in
      record {
        id = k.id;
        placed = k.placed;
        sender = k.sender;
        author = k.author;
        content = k.content;
        created_at = k.created_at;
        client = k.client;
        thread = inr refl;
        metadata = k.metadata;
        attachments = k.attachments;
        mentions = k.mentions;
        unreacted = k.unreacted;
        unpinned = k.unpinned;
        unedited = k.unedited;
        live = k.live;
      },
  λ n.
      let k = h.1 n in
      record { old = k.old; stored = k.stored; same = ap clear_parent k.same; thread = inr refl },
)

new_message-IsDrafted :
    (room : Text) (d : Draft) (s : Stamp) → IsDrafted room d s (new_message room d s)
new_message-IsDrafted room d s = record {
  id = refl;
  placed = refl;
  sender = refl;
  author = refl;
  content = refl;
  created_at = refl;
  client = refl;
  thread = inl refl;
  metadata = refl;
  attachments = refl;
  mentions = refl;
  unreacted = refl;
  unpinned = (refl, refl);
  unedited = refl;
  live = refl;
}

old_rows :
    (room : Text) (d : Draft) (s : Stamp) (before : Database) (ms : List MessageRow)
    → exists (λ m. m.id == s.uid) ms ≡ false
    → All (IsListed message_key before.messages) ms
    → All (Origin room d s before) ms
old_rows room d s before [] n h = tt
old_rows room d s before (m ∷ ms) n h = (
  (
    λ e. let wrong : (m.id == s.uid) ≡ true = ground arith in absurd (ground (arith, n, wrong)),
    λ _. record { old = m; stored = h.0; same = refl; thread = inl refl },
  ),
  old_rows room d s before ms (ground (arith, n)) h.1,
)

pub with_new-Origin :
    (room : Text) (d : Draft) (s : Stamp) (before : Database)
    → Unique message_key before.messages
    → exists (λ m. m.id == s.uid) before.messages ≡ false
    → All (Origin room d s before) (with_new room d s before).messages
with_new-Origin room d s before u n =
    All-append (Origin room d s before) before.messages (new_message room d s ∷ [])
      (old_rows room d s before before.messages n (All-IsListed message_key before.messages u))
      ((λ _. new_message-IsDrafted room d s, λ other. absurd (other refl)), tt)

pub others_of :
    (room : Text) (d : Draft) (s : Stamp) (before : Database) (ms : List MessageRow)
    → All (Origin room d s before) ms
    → All (λ x. x.id ≢ s.uid → IsOld before x) ms
others_of room d s before [] h = tt
others_of room d s before (m ∷ ms) h = (h.0.1, others_of room d s before ms h.1)

pub last_found :
    (row new : MessageRow) (ms : List MessageRow)
    → exists (λ m. m.id == new.id) ms ≡ false
    → fetch (λ m. m.id == new.id) (ms ++ new ∷ []) ≡ some row
    → new ≡ row
last_found row new [] n e = let t : (new.id == new.id) ≡ true = ground arith in cc (rw t at e)
last_found row new (m ∷ ms) n e =
    let k : (m.id == new.id) ≡ false = ground arith in
    last_found row new ms (ground (arith, n)) (rw k at e)
