-- ===== src/Store/Invariant/Deletion.antt =====
-- The invariant of the messages under a DELETE with its cascade: a reply whose parent goes becomes
-- a message of its own, so threads stay one level deep.
use samsarix_chat_engine.Base.{
  Bool, false, ◌≡◌, refl, subst, Option, none, some, List, [], ◌∷◌, map, All, arith, Bool-cases,
  inl, inr,
}
use samsarix_chat_engine.Base.Sql.{select, fetch, delete, update, All-delete, All-update, All-intro}
use samsarix_chat_engine.Base.Order.{is_in}
use samsarix_chat_engine.Base.Keys.{Unique-delete, Unique-update}
use samsarix_chat_engine.Store.Tables.{Text, MessageRow, Database, is_complete}
use samsarix_chat_engine.Store.Cascade.{message_key, parent_in, clear_parent, delete_messages}
use samsarix_chat_engine.Store.Invariant.{in_thread, HasRoot, IsThreaded, IsComplete, IsSound}
use samsarix_chat_engine.Store.Invariant.Threads.{deleted-is_in, fetch-delete}

module _ (w : MessageRow → Bool) where
  fetch-clear :
      (room id : Text) (xs : List MessageRow) {a : MessageRow}
      → fetch (in_thread room id) xs ≡ some a
      → a.parent_message_id ≡ none
      → HasRoot (update w clear_parent xs) room (some id)
  fetch-clear room id [] e r = absurd (cc)
  fetch-clear room id (x ∷ xs) {a} e r = elim (Bool-cases (in_thread room id x)) [
    | inl t ↦
        let q : a ≡ x = cc (rw t at e) in
        elim (Bool-cases (w x)) [
          | inl y ↦ (clear_parent x, rw (y, t), refl)
          | inr n ↦ (x, rw (n, t), subst (λ (m : MessageRow). m.parent_message_id ≡ none) q r)
        ]
    | inr n ↦ let (b, found, root) = fetch-clear room id xs (rw n at e) r in (b, ground arith, root)
  ]

  HasRoot-clear :
      (xs : List MessageRow) (room : Text) (o : Option Text)
      → HasRoot xs room o
      → HasRoot (update w clear_parent xs) room o
  HasRoot-clear xs room none h = tt
  HasRoot-clear xs room (some id) (q, e, r) = fetch-clear room id xs e r

module _ (p : MessageRow → Bool) where
  abbrev after_delete : List MessageRow → List MessageRow
  after_delete rows =
      update (parent_in (map message_key (select p rows))) clear_parent (delete p rows)

  -- A parent that is not among the deleted rows is still found.
  HasRoot-delete :
      (rows : List MessageRow) (room : Text) (o : Option Text)
      → elim o [ none ↦ false | some id ↦ is_in id (map message_key (select p rows)) ] ≡ false
      → HasRoot rows room o
      → HasRoot (delete p rows) room o
  HasRoot-delete rows room none n h = tt
  HasRoot-delete rows room (some id) n (q, e, r) = elim (Bool-cases (p q)) [
    | inl y ↦ absurd (cc (deleted-is_in p room id rows e y))
    | inr k ↦ (q, fetch-delete p room id rows e k, r)
  ]

  IsThreaded-delete :
      (rows ms : List MessageRow)
      → All (IsThreaded rows) ms
      → All
          (IsThreaded (after_delete rows))
          (update (parent_in (map message_key (select p rows))) clear_parent (delete p ms))
  IsThreaded-delete rows [] h = tt
  IsThreaded-delete rows (m ∷ ms) h = elim (Bool-cases (p m)) [
    | inl gone ↦ rw gone (IsThreaded-delete rows ms h.1)
    | inr kept ↦ elim (Bool-cases (parent_in (map message_key (select p rows)) m)) [
      | inl orphan ↦ rw (kept, orphan) (tt, IsThreaded-delete rows ms h.1)
      | inr reply ↦
          rw (kept, reply)
            (
              HasRoot-clear (parent_in (map message_key (select p rows))) (delete p rows) m.room_id
                  m.parent_message_id (HasRoot-delete rows m.room_id m.parent_message_id reply h.0),
              IsThreaded-delete rows ms h.1,
            )
    ]
  ]

  -- A DELETE on the messages, with its cascade, keeps the invariant.
  pub delete_messages-IsSound :
      (db : Database) → IsSound db.messages → IsSound (delete_messages p db).messages
  unfolding delete_messages is_complete
  delete_messages-IsSound db s = record {
    unique =
        Unique-update message_key _ clear_parent _ (λ m. refl)
          (Unique-delete message_key p db.messages s.unique);
    complete =
        All-update IsComplete _ clear_parent _ (All-intro _ _ (λ m y c. c))
          (All-delete IsComplete p db.messages s.complete);
    threaded = IsThreaded-delete db.messages db.messages s.threaded;
  }
