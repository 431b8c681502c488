-- ===== src/Store/Retention/Caps.antt =====
-- After the automatic trim the room and the whole store hold no more messages than the limits, and
-- the invariant of the messages stands.
use samsarix_chat_engine.Base.{
  sym, ap, ◌∙◌, subst, take, All, [], ℕ, ◌-◌, ◌≤◌, ◌==◌, ◌≡◌, refl, ◌&&◌, Option, none, some, List,
  length, length-take, arith, Bool-cases, inl, inr,
}
use samsarix_chat_engine.Base.Sql.{
  delete, All-update, All-intro, All-delete, count, select, length-select,
}
use samsarix_chat_engine.Base.Order.{among, order_by, count-among-take, length-order_by}
use samsarix_chat_engine.Store.Tables.{
  Text, Time, Stamp, MessageRow, Database, Limits, ok, integrity, AuditAction, system_retention,
}
use samsarix_chat_engine.Store.Outcomes.{Outcome, Outcome-if}
use samsarix_chat_engine.Store.Audit.Bounds.{insert_audit-Outcome}
use samsarix_chat_engine.Store.Cascade.{message_key, clear_parent, delete_messages}
use samsarix_chat_engine.Store.Cascade.Frame.{length-delete_messages, count-delete_messages}
use samsarix_chat_engine.Store.Invariant.{IsSound}
use samsarix_chat_engine.Store.Invariant.Deletion.{delete_messages-IsSound}
use samsarix_chat_engine.Store.Retention.{
  older_message, delete_batch, delete_expired, in_room, room_excess, global_excess, trim_room,
  trim_global, trim_passes, trim_messages,
}

module _ (batch : List MessageRow) (db : Database) where
  pub delete_batch-IsSound : IsSound db.messages → IsSound (delete_batch batch db).1.messages
  unfolding delete_batch
  delete_batch-IsSound s = elim (Bool-cases (length batch == 0)) [
    | inl e ↦ rw e s
    | inr e ↦ rw e (delete_messages-IsSound (among message_key batch) _ s)
  ]

  count-delete_batch-le :
      (room : Text)
      → count (in_room room) (delete_batch batch db).1.messages ≤ count (in_room room) db.messages
  unfolding delete_batch delete_messages
  count-delete_batch-le room = elim (Bool-cases (length batch == 0)) [
    | inl e ↦ rw e (omega arith)
    | inr e ↦ rw e (
        omega
          (arith, count-delete_messages (among message_key batch) db (in_room room) (λ m. refl)))
  ]

module _ (l : Limits) (db : Database) where
  length-trim_global : length (trim_global l db).1.messages ≤ l.max_stored_messages
  unfolding delete_batch delete_messages
  length-trim_global =
      let n : ℕ = length db.messages - l.max_stored_messages in
      let sorted = order_by older_message db.messages in
      elim (Bool-cases (length (global_excess l db.messages) == 0)) [
        | inl e ↦
            rw e (ground (arith, length-take n sorted, length-order_by older_message db.messages))
        | inr e ↦ rw e (
            omega (
              arith,
              length-delete_messages (among message_key (global_excess l db.messages)) db,
              count-among-take message_key older_message n db.messages,
            ))
      ]

  count-trim_room :
      (room : Text)
      → count (in_room room) (trim_room l room db).1.messages ≤ l.max_stored_messages_per_room
  unfolding delete_batch delete_messages
  count-trim_room room =
      let own : List MessageRow = select (in_room room) db.messages in
      let n : ℕ = length own - l.max_stored_messages_per_room in
      let sorted = order_by older_message own in
      elim (Bool-cases (length (room_excess l room db.messages) == 0)) [
        | inl e ↦ rw e (
            ground (
              arith,
              length-take n sorted,
              length-order_by older_message own,
              length-select (in_room room) db.messages,
            ))
        | inr e ↦ rw e (
            omega (
              arith,
              count-delete_messages (among message_key (room_excess l room db.messages)) db
                  (in_room room) (λ m. refl),
              count-among-take message_key older_message n own,
              length-select (in_room room) db.messages,
            ))
      ]

-- What holds of the store once the trim is done.
pub record IsTrimmed (l : Limits) (room : Text) (db : Database) : Type 0 where
  pub in_one : count (in_room room) db.messages ≤ l.max_stored_messages_per_room
  pub in_all : length db.messages ≤ l.max_stored_messages

module _ (l : Limits) (room : Text) (now : Time) (db : Database) where
  pub passes-IsTrimmed : IsTrimmed l room (trim_passes l room now db).3
  passes-IsTrimmed =
      let db₁ : Database = (delete_expired l.message_retention_days now db).1 in
      let db₂ : Database = (trim_room l room db₁).1 in
      record {
        in_one = omega (
          arith,
          count-trim_room l db₁ room,
          count-delete_batch-le (global_excess l db₂.messages) db₂ room,
        );
        in_all = length-trim_global l db₂;
      }

  expired-IsSound :
      (o : Option ℕ) → IsSound db.messages → IsSound (delete_expired o now db).1.messages
  expired-IsSound none s = s
  expired-IsSound (some days) s = delete_batch-IsSound _ db s

  pub passes-IsSound : IsSound db.messages → IsSound (trim_passes l room now db).3.messages
  passes-IsSound s =
      let db₁ : Database = (delete_expired l.message_retention_days now db).1 in
      let db₂ : Database = (trim_room l room db₁).1 in
      delete_batch-IsSound (global_excess l db₂.messages) db₂ (
        delete_batch-IsSound (room_excess l room db₁.messages) db₁
          (expired-IsSound l.message_retention_days s))

  -- The trim raises only on a repeated audit identifier; otherwise the messages and the
  -- deliveries are those that the passes leave.
  pub trim_messages-Outcome :
      (audited : Stamp)
      → Outcome
          (λ e. e ≡ integrity)
          (λ db'. db' ≡ record (trim_passes l room now db).3 { audit_events = db'.audit_events })
          (trim_messages l room now audited db)
  unfolding trim_messages
  trim_messages-Outcome audited =
      let t = trim_passes l room now db in
      Outcome-if _ _ (t.0 == 0 && t.1 == 0 && t.2 == 0) (ok t.3) _ (λ _. refl)
        (λ _.
          insert_audit-Outcome l audited AuditAction.retention_automatic system_retention none _
            t.3)

-- What holds of every row, whether or not it has a parent, holds of the rows that the trim leaves.
module _ (P : MessageRow → Type 0) (blind : (m : MessageRow) → P m → P (clear_parent m)) where
  All-delete_batch :
      (batch : List MessageRow) (db : Database)
      → All P db.messages
      → All P (delete_batch batch db).1.messages
  unfolding delete_batch delete_messages
  All-delete_batch batch db h = elim (Bool-cases (length batch == 0)) [
    | inl e ↦ rw e h
    | inr e ↦ rw e (
        All-update P _ clear_parent (delete (among message_key batch) db.messages)
          (All-intro _ (delete (among message_key batch) db.messages) (λ m _ k. blind m k))
          (All-delete P (among message_key batch) db.messages h))
  ]

  All-expired :
      (o : Option ℕ) (now : Time) (db : Database)
      → All P db.messages
      → All P (delete_expired o now db).1.messages
  All-expired none now db h = h
  All-expired (some days) now db h = All-delete_batch _ db h

  pub All-trim_passes :
      (l : Limits) (room : Text) (now : Time) (db : Database)
      → All P db.messages
      → All P (trim_passes l room now db).3.messages
  All-trim_passes l room now db h =
      let db₁ : Database = (delete_expired l.message_retention_days now db).1 in
      let db₂ : Database = (trim_room l room db₁).1 in
      All-delete_batch (global_excess l db₂.messages) db₂ (
        All-delete_batch (room_excess l room db₁.messages) db₁
          (All-expired l.message_retention_days now db h))

delete_batch-nil :
    (batch : List MessageRow) (db : Database) → batch ≡ [] → (delete_batch batch db).1 ≡ db
unfolding delete_batch
delete_batch-nil batch db e = rw e refl

take-none : (n : ℕ) (rows : List MessageRow) → n ≡ 0 → take n rows ≡ []
take-none n rows e = rw e refl

-- With no retention period and room for all rows the trim deletes nothing.
pub trim_passes-idle :
    (l : Limits) (room : Text) (now : Time) (db : Database)
    → l.message_retention_days ≡ none
    → count (in_room room) db.messages ≤ l.max_stored_messages_per_room
    → length db.messages ≤ l.max_stored_messages
    → (trim_passes l room now db).3.messages ≡ db.messages
trim_passes-idle l room now db forever in_one in_all =
    let db₁ : Database = (delete_expired l.message_retention_days now db).1 in
    let aged : db₁ ≡ db =
      subst (λ (o : Option ℕ). (delete_expired o now db).1 ≡ db) (sym forever) refl in
    let first : (trim_room l room db).1 ≡ db =
      delete_batch-nil (room_excess l room db.messages) db (
        take-none _ (order_by older_message (select (in_room room) db.messages))
          (omega (arith, in_one, length-select (in_room room) db.messages))) in
    let last : (trim_global l db).1 ≡ db =
      delete_batch-nil (global_excess l db.messages) db
        (take-none _ (order_by older_message db.messages) (omega (arith, in_all))) in
    let all : (trim_global l (trim_room l room db₁).1).1 ≡ db =
      ap (λ (t : Database). (trim_global l (trim_room l room t).1).1) aged
      ∙ (ap (λ (t : Database). (trim_global l t).1) first ∙ last) in
    ap (λ (t : Database). t.messages) all
