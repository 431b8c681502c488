-- ===== src/Store/Reads/Upsert.antt =====
-- The upsert of a read state: the row of its member is replaced or added, and the rows of others stay.
use samsarix_chat_engine.Base.{
  ℕ, ◌+◌, ◌==◌, Bool, true, false, ◌&&◌, ◌≡◌, refl, none, some, List, [], ◌∷◌, ◌++◌, arith,
  Bool-cases, inl, inr, if◌then◌else◌,
}
use samsarix_chat_engine.Base.Sql.{count, exists, update, fetch}
use samsarix_chat_engine.Store.Tables.{Text, ReadStateRow}
use samsarix_chat_engine.Store.Reads.{read_by, upsert_read_state}

abbrev pub room_states : Text → List ReadStateRow → ℕ
room_states room rows = count (λ (r : ReadStateRow). r.room_id == room) rows

-- A row of that member, as the primary key finds it.
pub fetch-owner :
    (room subject : Text) (rows : List ReadStateRow) {r : ReadStateRow}
    → fetch (read_by room subject) rows ≡ some r
    → exists (read_by room subject) rows ≡ true
fetch-owner room subject [] e = cc
fetch-owner room subject (x ∷ xs) {r} e = ground (arith, fetch-owner room subject xs {r = r})

pub fetch-absent :
    (room subject : Text) (rows : List ReadStateRow)
    → fetch (read_by room subject) rows ≡ none
    → exists (read_by room subject) rows ≡ false
fetch-absent room subject [] e = refl
fetch-absent room subject (x ∷ xs) e = ground (arith, fetch-absent room subject xs)

module _ (c : ReadStateRow) where
  -- The UPDATE of the upsert: three columns of the row that is there.
  abbrev moved : ReadStateRow → ReadStateRow
  moved r = record r {
    message_id = c.message_id;
    message_created_at = c.message_created_at;
    updated_at = c.updated_at;
  }

  abbrev own : ReadStateRow → Bool
  own = read_by c.room_id c.subject

  own-moved : (r : ReadStateRow) → own r ≡ true → moved r ≡ c
  own-moved r h =
      let room : r.room_id ≡ c.room_id = ground arith in
      let subject : r.subject ≡ c.subject = ground arith in
      λ i. record c { room_id = room i; subject = subject i }

  fetch-moved :
      (rows : List ReadStateRow)
      → exists own rows ≡ true
      → fetch own (update own moved rows) ≡ some c
  fetch-moved [] h = cc
  fetch-moved (x ∷ xs) h = elim (Bool-cases (own x)) [
    | inl t ↦ rw (t, own-moved x t, t) refl
    | inr f ↦ rw (f, f) (fetch-moved xs (ground arith))
  ]

  fetch-added :
      (rows : List ReadStateRow) → exists own rows ≡ false → fetch own (rows ++ c ∷ []) ≡ some c
  fetch-added [] h = ground arith
  fetch-added (x ∷ xs) h = ground (arith, fetch-added xs)

  pub fetch-upsert_read_state :
      (rows : List ReadStateRow) → fetch own (upsert_read_state c rows) ≡ some c
  fetch-upsert_read_state rows = elim (Bool-cases (exists own rows)) [
    | inl t ↦ rw t (fetch-moved rows t)
    | inr f ↦ rw f (fetch-added rows f)
  ]

  module _ (room subject : Text) (other : (c.room_id == room && c.subject == subject) ≡ false) where
    other-moved :
        (rows : List ReadStateRow)
        → fetch (read_by room subject) (update own moved rows) ≡ fetch (read_by room subject) rows
    other-moved [] = refl
    other-moved (x ∷ xs) = ground (arith, other-moved xs)

    other-added :
        (rows : List ReadStateRow)
        → fetch (read_by room subject) (rows ++ c ∷ []) ≡ fetch (read_by room subject) rows
    other-added [] = ground arith
    other-added (x ∷ xs) = ground (arith, other-added xs)

    pub other-upsert_read_state :
        (rows : List ReadStateRow)
        → fetch (read_by room subject) (upsert_read_state c rows)
          ≡ fetch (read_by room subject) rows
    other-upsert_read_state rows = elim (Bool-cases (exists own rows)) [
      | inl t ↦ rw t (other-moved rows)
      | inr f ↦ rw f (other-added rows)
    ]

  room_states-moved :
      (room : Text) (rows : List ReadStateRow)
      → room_states room (update own moved rows) ≡ room_states room rows
  room_states-moved room [] = refl
  room_states-moved room (x ∷ xs) = ground (arith, room_states-moved room xs)

  room_states-added :
      (room : Text) (rows : List ReadStateRow)
      → room_states room (rows ++ c ∷ [])
        ≡ room_states room rows + (if c.room_id == room then 1 else 0)
  room_states-added room [] = ground arith
  room_states-added room (x ∷ xs) = ground (arith, room_states-added room xs)

  -- A cursor that was there is replaced, and a new one is one more.
  pub room_states-upsert :
      (rows : List ReadStateRow)
      → room_states c.room_id (upsert_read_state c rows)
        ≡ room_states c.room_id rows + (if exists own rows then 0 else 1)
  room_states-upsert rows = elim (Bool-cases (exists own rows)) [
    | inl t ↦ rw t (omega (arith, room_states-moved c.room_id rows))
    | inr f ↦ rw f (ground (arith, room_states-added c.room_id rows))
  ]
