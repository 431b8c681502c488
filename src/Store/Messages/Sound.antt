-- ===== src/Store/Messages/Sound.antt =====
-- Creating a message keeps the invariant of the table, and never meets a row
-- that the model `Message` refuses.
use samsarix_chat_engine.Base.{
  ◌≢◌, ◌<◌, ◌∙◌, All, length, length-append, ==_iff, ◌==◌, Bool, true, false, is_some, ◌≡◌, ◌⊎◌,
  refl, sym, ap, subst, Option, none, some, [], ◌∷◌, ◌++◌, arith, inl, inr, Bool-cases,
}
use samsarix_chat_engine.Base.Sql.{count, count-append, fetch-holds, fetch, exists, All-fetch}
use samsarix_chat_engine.Store.Tables.{
  Text, Stamp, MessageRow, Message, Database, Limits, ok, StoreError, message_not_found,
  message_deleted, thread_depth, integrity, not_retained, is_complete, message_of, EventType,
  posted,
}
use samsarix_chat_engine.Store.Outcomes.{
  AuditOnly, OutboxOnly, Outcome, Outcome-raise_if, Outcome-raise_if_last, Outcome-or_raise,
  Outcome-weaken, Outcome-after,
}
use samsarix_chat_engine.Store.Outbox.{insert_webhook}
use samsarix_chat_engine.Store.Invariant.{HasRoot, IsComplete, IsSound}
use samsarix_chat_engine.Store.Invariant.Threads.{IsSound-insert}
use samsarix_chat_engine.Store.Retention.{in_room, trim_messages, trim_passes}
use samsarix_chat_engine.Store.Retention.Caps.{
  All-trim_passes, trim_passes-idle, IsTrimmed, passes-IsTrimmed, passes-IsSound,
  trim_messages-Outcome,
}
use samsarix_chat_engine.Store.Messages.{
  find_message, Draft, CreateStamps, find_submitted, has_client_id, check_parent, new_message,
  same_submission, insert_message, post, announce, resubmit, create_message,
}
use samsarix_chat_engine.Store.Messages.Origins.{
  with_new, IsDrafted, IsOld, Origin, Origin-clear, with_new-Origin, others_of, last_found,
}
use samsarix_chat_engine.Store.Messages.Guards.{Unwritable, IsWritable, Outcome-writable}
use samsarix_chat_engine.Store.Messages.Steps.{message_from_row-IsComplete, Late, webhook-Late}

-- Why a parent is refused: it is not there, it is deleted, or it is a reply itself.
pub data BadParent (room : Text) (parent : Option Text) (db : Database) : StoreError → Type 0 where
  no_parent :
      (p : Text)
      → parent ≡ some p
      → find_message room p db ≡ none
      → BadParent room parent db (message_not_found p)
  deleted_parent :
      (p : Text) (row : MessageRow)
      → parent ≡ some p
      → find_message room p db ≡ some row
      → is_some row.deleted_at ≡ true
      → BadParent room parent db (message_deleted p)
  reply_parent :
      (p : Text) (row : MessageRow)
      → parent ≡ some p
      → find_message room p db ≡ some row
      → is_some row.parent_message_id ≡ true
      → BadParent room parent db (thread_depth p)

check_parent-Outcome :
    (room : Text) (o : Option Text) (db : Database)
    → Outcome (BadParent room o db) (λ _. HasRoot db.messages room o) (check_parent room o db)
unfolding check_parent
check_parent-Outcome room none db = tt
check_parent-Outcome room (some p) db =
    let Q = BadParent room (some p) db in
    let Root = λ (_ : Unit {0}). HasRoot db.messages room (some p) in
    Outcome-or_raise Q Root (find_message room p db) (message_not_found p) _
      (λ n. no_parent p refl n)
      λ q found.
        Outcome-raise_if Q Root (is_some q.deleted_at) (message_deleted p) _
          (λ d. deleted_parent p q refl found d)
          λ _.
            Outcome-raise_if_last Q Root (is_some q.parent_message_id) (thread_depth p)
              (λ r. reply_parent p q refl found r) (λ root. (q, found, ground arith))

abbrev Inserted : MessageRow → Database → Database → Type 0
Inserted row db db' =
    (exists (λ m. m.id == row.id) db.messages ≡ false)
    × (db' ≡ record db { messages = db.messages ++ row ∷ [] })

insert_message-Outcome :
    (row : MessageRow) (db : Database) → Outcome Late (Inserted row db) (insert_message row db)
unfolding insert_message
insert_message-Outcome row db =
    Outcome-raise_if Late _ (exists (λ m. m.id == row.id) db.messages) integrity _ (λ _. inl refl)
      λ fresh.
        Outcome-raise_if Late _
          (exists (same_submission row.room_id row.client_message_id) db.messages) integrity _
          (λ _. inl refl) (λ _. (fresh, refl))

-- Why a create is refused. The last two can only be met late: a repeated identifier or a full
-- outbox, and a new row that the trim itself has deleted.
pub data Unposted (l : Limits) (room : Text) (d : Draft) (s : CreateStamps) (db : Database)
    : StoreError → Type 0 where
  no_access :
      (e : StoreError)
      → Unwritable room d.allow_frozen d.member_subject s.checked_at db e
      → Unposted l room d s db e
  no_thread : (e : StoreError) → BadParent room d.parent_message_id db e → Unposted l room d s db e
  late : (e : StoreError) → Late e → Unposted l room d s db e
  lost :
      fetch
          (λ m. m.id == s.created.uid)
          (trim_passes l room s.created.at (with_new room d s.created db)).3.messages
        ≡ none
      → Unposted l room d s db not_retained

-- What a create of a new message leaves: a sound table within the limits, in which the new row is
-- stored and is the message that is returned, and every other row is an old one. Where the limits
-- have room for the new row and no retention period is set, all old rows are there.
pub record IsPosted (l : Limits) (room : Text) (d : Draft) (s : Stamp) (before : Database)
    (m : Message) (fresh : Bool) (db : Database) : Type 0 where
  pub said_new : fresh ≡ true
  pub sound : IsSound db.messages
  pub trimmed : IsTrimmed l room db
  pub row : MessageRow
  pub stored : fetch (λ r. r.id == s.uid) db.messages ≡ some row
  pub drafted : IsDrafted room d s row
  pub returned : m ≡ message_of row
  pub others : All (λ x. x.id ≢ s.uid → IsOld before x) db.messages
  pub untrimmed :
      l.message_retention_days ≡ none
      → count (in_room room) before.messages < l.max_stored_messages_per_room
      → length before.messages < l.max_stored_messages
      → db.messages ≡ before.messages ++ row ∷ []

abbrev Posted : Limits → Text → Draft → Stamp → Database → Message × Bool × Database → Type 0
Posted l room d s before r = IsPosted l room d s before r.0 r.1 r.2

module _ (l : Limits) (room : Text) (d : Draft) (s : CreateStamps) (db before : Database) where
  abbrev Refusals : StoreError → Type 0
  Refusals = Unposted l room d s before

  announce-Outcome :
      IsSound db.messages
      → IsTrimmed l room db
      → exists (λ m. m.id == s.created.uid) before.messages ≡ false
      → All (Origin room d s.created before) db.messages
      → db.messages
        ≡ (trim_passes l room s.created.at (with_new room d s.created before)).3.messages
      → Outcome Refusals (Posted l room d s.created before) (announce l room s db)
  unfolding announce
  announce-Outcome sound fits new_id origins left =
      let P = Posted l room d s.created before in
      Outcome-or_raise Refusals P (fetch (λ m. m.id == s.created.uid) db.messages) not_retained _
        (λ gone. lost (rw (← left) gone))
        λ row found.
          rw
            (message_from_row-IsComplete row
              (All-fetch IsComplete _ db.messages sound.complete found))
            (Outcome-after Late (OutboxOnly db) Refusals P
              (insert_webhook l s.delivery EventType.message_created room row.id row.created_at
                (posted (message_of row)) db)
              (λ db'. ok (message_of row, true, db'))
              (webhook-Late l s.delivery EventType.message_created room row.id row.created_at
                (posted (message_of row)) db)
              (λ e h. late e h)
              (λ db' frame.
                let same : db'.messages ≡ db.messages = ap (λ (t : Database). t.messages) frame in
                record {
                  said_new = refl;
                  sound = subst IsSound (sym same) sound;
                  trimmed = record { in_one = rw same fits.in_one; in_all = rw same fits.in_all };
                  row = row;
                  stored = rw same found;
                  drafted = is_drafted row found;
                  returned = refl;
                  others = rw same (others_of room d s.created before db.messages origins);
                  untrimmed = λ forever one all. same ∙ kept_all row found forever one all;
                }))
    where
      is_drafted :
          (row : MessageRow)
          → fetch (λ m. m.id == s.created.uid) db.messages ≡ some row
          → IsDrafted room d s.created row
      is_drafted row found =
          (All-fetch (Origin room d s.created before) (λ m. m.id == s.created.uid) db.messages
              origins found).0
            ((==_iff row.id s.created.uid).0
              (fetch-holds (λ (m : MessageRow). m.id == s.created.uid) db.messages found))

      kept_all :
          (row : MessageRow)
          → fetch (λ m. m.id == s.created.uid) db.messages ≡ some row
          → l.message_retention_days ≡ none
          → count (in_room room) before.messages < l.max_stored_messages_per_room
          → length before.messages < l.max_stored_messages
          → db.messages ≡ before.messages ++ row ∷ []
      kept_all row found forever one all =
          let new = new_message room d s.created in
          let grown = with_new room d s.created before in
          let idle =
            trim_passes-idle l room s.created.at grown forever
              (ground (arith, one, count-append (in_room room) before.messages (new ∷ [])))
              (omega (arith, all, length-append before.messages (new ∷ []))) in
          let are : db.messages ≡ before.messages ++ new ∷ [] = left ∙ idle in
          let is_row : new ≡ row =
            last_found row new before.messages new_id
              (subst (λ ms. fetch (λ m. m.id == s.created.uid) ms ≡ some row) are found) in
          are ∙ ap (λ x. before.messages ++ x ∷ []) is_row

module _ (l : Limits) (room : Text) (d : Draft) (s : CreateStamps) (db : Database) where
  abbrev Trimmed : Database → Database → Type 0
  Trimmed before after = AuditOnly (trim_passes l room s.created.at before).3 after

  post-Outcome :
      IsSound db.messages
      → Outcome (Unposted l room d s db) (Posted l room d s.created db) (post l room d s db)
  unfolding post
  post-Outcome sound =
      let row : MessageRow = new_message room d s.created in
      let Q = Unposted l room d s db in
      let P = Posted l room d s.created db in
      Outcome-after (BadParent room d.parent_message_id db)
        (λ _. HasRoot db.messages room d.parent_message_id) Q P
        (check_parent room d.parent_message_id db) _
        (check_parent-Outcome room d.parent_message_id db) (λ e b. no_thread e b)
        λ _ root.
          Outcome-after Late (Inserted row db) Q P (insert_message row db) _
            (insert_message-Outcome row db) (λ e h. late e h)
            λ db₁ i.
              let sound₁ : IsSound db₁.messages =
                rw i.1
                  (IsSound-insert db.messages row i.0 (unfold is_complete in refl) root sound) in
              Outcome-after (λ e. e ≡ integrity) (Trimmed db₁) Q P
                (trim_messages l room s.created.at s.trim_audit db₁) _
                (trim_messages-Outcome l room s.created.at db₁ s.trim_audit) (λ e h. late e (inl h))
                λ db₂ t.
                  let same = ap (λ (t : Database). t.messages) t in
                  let fits = passes-IsTrimmed l room s.created.at db₁ in
                  announce-Outcome l room d s db₂ db
                    (subst IsSound (sym same) (passes-IsSound l room s.created.at db₁ sound₁))
                    (record { in_one = rw same fits.in_one; in_all = rw same fits.in_all }) i.0
                    (rw same (
                      All-trim_passes (Origin room d s.created db)
                        (Origin-clear room d s.created db) l room s.created.at db₁
                        (rw i.1 (with_new-Origin room d s.created db sound.unique i.0))))
                    (rw (← i.1) same)

-- What a create returns: the caller might write, and either the draft was submitted before, the
-- stored message is returned and nothing changes, or a new message was posted.
abbrev pub IsCreated :
    Limits → Text → Draft → CreateStamps → Database → Message × Bool × Database → Type 0
IsCreated l room d s db r =
    IsWritable room d.allow_frozen d.member_subject s.checked_at db
    × (((row : MessageRow) × (find_submitted room d.client_message_id db ≡ some row)
          × (r ≡ (message_of row, false, db)))
        ⊎ ((find_submitted room d.client_message_id db ≡ none) × Posted l room d s.created db r))

find_submitted-IsComplete :
    (room : Text) (o : Option Text) (db : Database) {row : MessageRow}
    → IsSound db.messages
    → find_submitted room o db ≡ some row
    → IsComplete row
find_submitted-IsComplete room none db s e = absurd (cc)
find_submitted-IsComplete room (some c) db s e = elim (Bool-cases (c == 0)) [
  | inl t ↦ absurd (cc (rw t at e))
  | inr f ↦ All-fetch IsComplete (has_client_id room c) db.messages s.complete (rw f at e)
]

module _ (l : Limits) (room : Text) (d : Draft) (s : CreateStamps) (db : Database) where
  submit-Outcome :
      (o : Option MessageRow)
      → find_submitted room d.client_message_id db ≡ o
      → IsSound db.messages
      → IsWritable room d.allow_frozen d.member_subject s.checked_at db
      → Outcome
          (Unposted l room d s db)
          (IsCreated l room d s db)
          (elim o [ some row ↦ resubmit row db | none ↦ post l room d s db ])
  submit-Outcome none e sound w =
      Outcome-weaken (Unposted l room d s db) (Unposted l room d s db)
        (Posted l room d s.created db) (IsCreated l room d s db) (post l room d s db) (λ _ h. h)
        (λ r h. (w, inr (e, h))) (post-Outcome l room d s db sound)
  submit-Outcome (some row) e sound w =
      rw
        (message_from_row-IsComplete row
          (find_submitted-IsComplete room d.client_message_id db {row = row} sound e))
        (w, inl (row, e, refl))

  -- In a sound table a create is refused because the caller may not write in the room, because the
  -- parent is missing, deleted or a reply, or late: on a repeated identifier, on a full outbox, or
  -- because the trim deleted the new row. Otherwise either the same client identifier was
  -- submitted before, whose message is returned with nothing changed, or a new row with the sender,
  -- author, content and other columns of the draft and the identifier and time of the call is stored
  -- and returned (its parent, if it names one, may be gone by the trim), every other row is one that
  -- was there, unchanged but for a parent that the trim deleted, all of them are there where no
  -- retention period is set and the limits have room for one more, the table is still sound, and the
  -- room and the store are within their limits.
  pub create_message-Outcome :
      IsSound db.messages
      → Outcome (Unposted l room d s db) (IsCreated l room d s db) (create_message l room d s db)
  unfolding create_message
  create_message-Outcome sound =
      Outcome-writable (Unposted l room d s db) (IsCreated l room d s db) room d.allow_frozen
        d.member_subject s.checked_at db _ (λ e u. no_access e u)
        (λ w. submit-Outcome (find_submitted room d.client_message_id db) refl sound w)
