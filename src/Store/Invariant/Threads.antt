-- ===== src/Store/Invariant/Threads.antt =====
-- The invariant of the messages under the three statements that change the table: an INSERT of a
-- checked row, an UPDATE that keeps identifiers, rooms and parents, and a DELETE with its cascade.
use samsarix_chat_engine.Base.{
  ◌==◌, Bool, true, false, ◌≡◌, sym, ap, ◌∙◌, subst, Option, none, some, List, [], ◌∷◌, ◌++◌, map,
  All, All-append, arith, Bool-cases, inl, inr,
}
use samsarix_chat_engine.Base.Sql.{select, fetch, delete, update, exists, All-update}
use samsarix_chat_engine.Base.Order.{is_in}
use samsarix_chat_engine.Base.Keys.{Unique-append, Unique-update}
use samsarix_chat_engine.Store.Tables.{Text, MessageRow}
use samsarix_chat_engine.Store.Cascade.{message_key}
use samsarix_chat_engine.Store.Invariant.{in_thread, HasRoot, IsThreaded, IsComplete, IsSound}

-- A parent stays where it is when rows are added.
fetch-extend :
    (p : MessageRow → Bool) (xs ys : List MessageRow) {a : MessageRow}
    → fetch p xs ≡ some a
    → fetch p (xs ++ ys) ≡ some a
fetch-extend p [] ys e = cc
fetch-extend p (x ∷ xs) ys e = elim (Bool-cases (p x)) [
  | inl t ↦ rw t (rw t at e)
  | inr n ↦ rw n (fetch-extend p xs ys (rw n at e))
]

HasRoot-extend :
    (xs ys : List MessageRow) (room : Text) (o : Option Text)
    → HasRoot xs room o
    → HasRoot (xs ++ ys) room o
HasRoot-extend xs ys room none h = tt
HasRoot-extend xs ys room (some p) (q, e, r) = (q, fetch-extend (in_thread room p) xs ys e, r)

All-HasRoot-extend :
    (xs ys rows : List MessageRow) → All (IsThreaded xs) rows → All (IsThreaded (xs ++ ys)) rows
All-HasRoot-extend xs ys [] h = tt
All-HasRoot-extend xs ys (m ∷ ms) h =
    (HasRoot-extend xs ys m.room_id m.parent_message_id h.0, All-HasRoot-extend xs ys ms h.1)

pub IsSound-insert :
    (rows : List MessageRow) (m : MessageRow)
    → exists (λ r. r.id == m.id) rows ≡ false
    → IsComplete m
    → IsThreaded rows m
    → IsSound rows
    → IsSound (rows ++ m ∷ [])
IsSound-insert rows m fresh c t s = record {
  unique = Unique-append message_key rows m s.unique fresh;
  complete = All-append _ rows (m ∷ []) s.complete (c, tt);
  threaded =
      All-append _ rows (m ∷ []) (All-HasRoot-extend rows (m ∷ []) rows s.threaded)
        (HasRoot-extend rows (m ∷ []) m.room_id m.parent_message_id t, tt);
}

-- An UPDATE that keeps what threads are made of.
pub record KeepsThread (f : MessageRow → MessageRow) : Type 0 where
  pub same_id : (m : MessageRow) → (f m).id ≡ m.id
  pub same_room : (m : MessageRow) → (f m).room_id ≡ m.room_id
  pub same_parent : (m : MessageRow) → (f m).parent_message_id ≡ m.parent_message_id

module _ (p : MessageRow → Bool) (f : MessageRow → MessageRow) (k : KeepsThread f) where
  stable : (room id : Text) (x : MessageRow) → in_thread room id (f x) ≡ in_thread room id x
  stable room id x = rw (k.same_id x, k.same_room x)

  fetch-update :
      (room id : Text) (xs : List MessageRow) {a : MessageRow}
      → fetch (in_thread room id) xs ≡ some a
      → (b : MessageRow) × (fetch (in_thread room id) (update p f xs) ≡ some b)
        × (b.parent_message_id ≡ a.parent_message_id)
  fetch-update room id [] e = absurd (cc)
  fetch-update room id (x ∷ xs) {a} e = elim (Bool-cases (in_thread room id x)) [
    | inl t ↦
        let q : x ≡ a = cc (rw t at e) in
        elim (Bool-cases (p x)) [
          | inl y ↦ (
            f x,
            ground (arith, stable room id x),
            k.same_parent x ∙ ap (λ (m : MessageRow). m.parent_message_id) q,
          )
          | inr n ↦ (x, rw (n, t), ap (λ (m : MessageRow). m.parent_message_id) q)
        ]
    | inr n ↦
        let (b, found, same) = fetch-update room id xs (rw n at e) in
        (b, ground (arith, stable room id x), same)
  ]

  HasRoot-update :
      (xs : List MessageRow) (room : Text) (o : Option Text)
      → HasRoot xs room o
      → HasRoot (update p f xs) room o
  HasRoot-update xs room none h = tt
  HasRoot-update xs room (some id) (q, e, r) =
      let (b, found, same) = fetch-update room id xs e in (b, found, same ∙ r)

  All-IsThreaded-update :
      (xs rows : List MessageRow)
      → All (IsThreaded xs) rows
      → All (IsThreaded (update p f xs)) (update p f rows)
  All-IsThreaded-update xs [] h = tt
  All-IsThreaded-update xs (m ∷ ms) h = elim (Bool-cases (p m)) [
    | inl y ↦
        rw (y, k.same_room m, k.same_parent m)
          (HasRoot-update xs m.room_id m.parent_message_id h.0, All-IsThreaded-update xs ms h.1)
    | inr n ↦
        rw n (HasRoot-update xs m.room_id m.parent_message_id h.0, All-IsThreaded-update xs ms h.1)
  ]

  pub IsSound-update :
      (rows : List MessageRow)
      → All (λ m. p m ≡ true → IsComplete m → IsComplete (f m)) rows
      → IsSound rows
      → IsSound (update p f rows)
  IsSound-update rows c s = record {
    unique = Unique-update message_key p f rows k.same_id s.unique;
    complete = All-update IsComplete p f rows c s.complete;
    threaded = All-IsThreaded-update rows rows s.threaded;
  }

-- A parent that a DELETE takes is among the deleted identifiers.
module _ (p : MessageRow → Bool) (room id : Text) where
  pub deleted-is_in :
      (xs : List MessageRow) {a : MessageRow}
      → fetch (in_thread room id) xs ≡ some a
      → p a ≡ true
      → is_in id (map message_key (select p xs)) ≡ true
  deleted-is_in [] e t = absurd (cc)
  deleted-is_in (x ∷ xs) {a} e t = elim (Bool-cases (in_thread room id x)) [
    | inl y ↦
        let q : x ≡ a = cc (rw y at e) in
        let px : p x ≡ true = subst (λ m. p m ≡ true) (sym q) t in ground arith
    | inr n ↦ ground (arith, deleted-is_in xs (rw n at e) t)
  ]

  pub fetch-delete :
      (xs : List MessageRow) {a : MessageRow}
      → fetch (in_thread room id) xs ≡ some a
      → p a ≡ false
      → fetch (in_thread room id) (delete p xs) ≡ some a
  fetch-delete [] e f = cc
  fetch-delete (x ∷ xs) {a} e f = elim (Bool-cases (in_thread room id x)) [
    | inl y ↦
        let q : x ≡ a = cc (rw y at e) in
        let px : p x ≡ false = subst (λ m. p m ≡ false) (sym q) f in rw (px, y) (ap some q)
    | inr n ↦ ground (arith, fetch-delete xs (rw n at e) f)
  ]
