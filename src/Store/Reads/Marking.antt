-- ===== src/Store/Reads/Marking.antt =====
-- What a mark leaves of the read states: the subject's cursor at the furthest point, every other
-- cursor as it was, and no more cursors in the room than its limit allows.
use samsarix_chat_engine.Base.{
  subst, ◌≤◌, max, ◌==◌, leb, Bool, true, false, not, ◌&&◌, is_some, ◌≡◌, refl, sym, ap, Option,
  none, some, arith, Bool-cases, Option-cases, inl, inr, if◌then◌else◌,
}
use samsarix_chat_engine.Base.Sql.{exists}
use samsarix_chat_engine.Store.Tables.{
  Text, Time, MessageRow, ReadStateRow, Database, Limits, ok, StoreError, room_not_found,
  message_not_found, read_state_capacity,
}
use samsarix_chat_engine.Store.Outcomes.{Outcome, Outcome-bind, Outcome-raise_if, Outcome-or_raise}
use samsarix_chat_engine.Store.Messages.{find_message}
use samsarix_chat_engine.Store.Reads.{
  find_read_state, read_state, candidate, is_ahead, advances, upsert_read_state, check_receipt,
  stored_receipt, receipt_at, ReadStateMutation, mark_target, store_mark, mark_read,
}
use samsarix_chat_engine.Store.Reads.Furthest.{furthest, IsFurthest, furthest-IsFurthest}
use samsarix_chat_engine.Store.Reads.Upsert.{
  room_states, fetch-owner, fetch-absent, fetch-upsert_read_state, other-upsert_read_state,
  room_states-upsert,
}

-- Why a mark is refused: no room, no such message in it, or no cursor left for a new subject.
pub data MarkRefusal (l : Limits) (room subject : Text) (message : Option Text) (db : Database)
    : StoreError → Type 0 where
  no_room :
      exists (λ r. r.id == room) db.rooms ≡ false
      → MarkRefusal l room subject message db (room_not_found room)
  no_message :
      (k : Text)
      → message ≡ some k
      → find_message room k db ≡ none
      → MarkRefusal l room subject message db (message_not_found k)
  no_cursor_left :
      find_read_state room subject db ≡ none
      → l.max_read_states_per_room ≤ room_states room db.read_states
      → MarkRefusal l room subject message db (read_state_capacity room)

-- What a mark that returns has done.
pub record IsMarked (l : Limits) (room subject : Text) (message : Option Text) (now : Time)
    (db : Database) (r : ReadStateMutation) (db' : Database) : Type 0 where
  pub target : Option MessageRow
  pub targeted : mark_target room message db ≡ ok target
  pub stored :
      find_read_state room subject db'
      ≡ some (furthest (candidate room subject target now) (find_read_state room subject db))
  pub furthest_point :
      (new : ReadStateRow)
      → find_read_state room subject db' ≡ some new
      → IsFurthest target now (find_read_state room subject db) new r.changed
  pub others :
      (room' subject' : Text)
      → (room == room' && subject == subject') ≡ false
      → find_read_state room' subject' db' ≡ find_read_state room' subject' db
  pub only : db' ≡ record db { read_states = db'.read_states }
  pub reported :
      r.changed ≡ advances (candidate room subject target now) (find_read_state room subject db)
  pub state : r.state ≡ read_state room subject db'
  pub receipt : r.receipt ≡ stored_receipt subject (find_read_state room subject db')
  pub within :
      room_states room db'.read_states
      ≤ max (room_states room db.read_states) l.max_read_states_per_room

stored_receipt-checked :
    (subject : Text) (o : Option ReadStateRow)
    → check_receipt (stored_receipt subject o) ≡ ok (stored_receipt subject o)
stored_receipt-checked subject none = refl
stored_receipt-checked subject (some r) = elim (Option-cases r.message_id) [
  | inl e ↦ rw e refl
  | inr e ↦ rw (e.1) refl
]

module _ (room subject : Text) (target : Option MessageRow) (now : Time) (db : Database) where
  abbrev mark : ReadStateRow
  mark = candidate room subject target now

  abbrev after : Option ReadStateRow → Database
  after existing =
      if advances mark existing
      then record db { read_states = upsert_read_state mark db.read_states }
      else db

  read_back :
      (existing : Option ReadStateRow)
      → find_read_state room subject db ≡ existing
      → find_read_state room subject (after existing) ≡ some (furthest mark existing)
  read_back none e = fetch-upsert_read_state mark db.read_states
  read_back (some r) e = elim (Bool-cases (is_ahead mark r)) [
    | inl t ↦ rw t (fetch-upsert_read_state mark db.read_states)
    | inr f ↦ rw f e
  ]

  read_others :
      (existing : Option ReadStateRow) (room' subject' : Text)
      → (room == room' && subject == subject') ≡ false
      → find_read_state room' subject' (after existing) ≡ find_read_state room' subject' db
  read_others existing room' subject' other = elim (Bool-cases (advances mark existing)) [
    | inl t ↦ rw t (other-upsert_read_state mark room' subject' other db.read_states)
    | inr f ↦ rw f refl
  ]

  after-only :
      (existing : Option ReadStateRow)
      → after existing ≡ record db { read_states = (after existing).read_states }
  after-only existing = elim (Bool-cases (advances mark existing)) [
    | inl t ↦ rw t refl
    | inr f ↦ rw f refl
  ]

  marked_at :
      (existing : Option ReadStateRow)
      → receipt_at (advances mark existing) mark existing
        ≡ (furthest mark existing).message_created_at
  marked_at none = refl
  marked_at (some r) = elim (Bool-cases (is_ahead mark r)) [ inl t ↦ rw t refl | inr f ↦ rw f refl ]

  after-within :
      (l : Limits) (existing : Option ReadStateRow)
      → find_read_state room subject db ≡ existing
      → (not (is_some existing) && leb l.max_read_states_per_room (room_states room db.read_states))
        ≡ false
      → room_states room (after existing).read_states
        ≤ max (room_states room db.read_states) l.max_read_states_per_room
  after-within l none e free =
      ground
        (arith, room_states-upsert mark db.read_states, fetch-absent room subject db.read_states e)
  after-within l (some r) e free =
      let there = fetch-owner room subject db.read_states e in
      elim (Bool-cases (is_ahead mark r)) [
        | inl t ↦ rw t (ground (arith, room_states-upsert mark db.read_states))
        | inr f ↦ rw f (omega arith)
      ]

  -- The answer of a mark: the stored row, the state and the receipt that it gives.
  store_mark-eq :
      (existing : Option ReadStateRow)
      → find_read_state room subject db ≡ existing
      → store_mark room subject mark existing db
        ≡ ok (
          record {
            state = read_state room subject (after existing);
            receipt = stored_receipt subject (some (furthest mark existing));
            changed = advances mark existing;
          },
          after existing,
        )
  unfolding store_mark
  store_mark-eq existing e =
      rw
        (
          read_back existing e,
          marked_at existing,
          stored_receipt-checked subject (some (furthest mark existing)),
        )
        refl

not-some {ℓ} : {A : Type ℓ} (o : Option A) (b : Bool) → (not (is_some o) && b) ≡ true → o ≡ none
not-some none b h = refl
not-some (some a) b h = cc

module _ (l : Limits) (room subject : Text) (message : Option Text) (now : Time)
    (db : Database) where
  abbrev Refused : StoreError → Type 0
  Refused = MarkRefusal l room subject message db

  mark_target-Outcome :
      Outcome Refused
        (λ target. mark_target room message db ≡ ok target)
        (mark_target room message db)
  mark_target-Outcome = mark_target-named message (λ k e. no_message k e)
    where
      mark_target-named :
          (m : Option Text)
          → ((k : Text)
              → m ≡ some k
              → find_message room k db ≡ none
              → Refused (message_not_found k))
          → Outcome Refused (λ target. mark_target room m db ≡ ok target) (mark_target room m db)
      mark_target-named none why = refl
      mark_target-named (some k) why =
          Outcome-or_raise Refused (λ target. mark_target room (some k) db ≡ ok target)
            (find_message room k db) (message_not_found k) (λ m. ok (some m)) (why k refl)
            (λ m e. rw e refl)

  -- A mark is refused only where the room is not there, where the named message is not there, or where
  -- the room has no cursor left for a new subject. Otherwise the subject's cursor is, by time and then by
  -- identifier, neither before where it was nor before the marked message (the latest one if none was
  -- named): it moved forward to that message, or stays; no other
  -- cursor and no other table changes, the answer and its receipt are those of the stored row, and
  -- the cursors of the room stay within the limit unless they were past it already.
  pub mark_read-Outcome :
      Outcome Refused
        (λ r. IsMarked l room subject message now db r.0 r.1)
        (mark_read l room subject message now db)
  unfolding mark_read
  mark_read-Outcome =
      let Done =
        λ (r : ReadStateMutation × Database). IsMarked l room subject message now db r.0 r.1 in
      let existing = find_read_state room subject db in
      let full =
        not (is_some existing)
        && leb l.max_read_states_per_room (room_states room db.read_states) in
      Outcome-raise_if Refused Done (not (exists (λ r. r.id == room) db.rooms))
        (room_not_found room) _ (λ e. no_room (ground arith))
        λ _.
          Outcome-bind Refused (λ target. mark_target room message db ≡ ok target) Done
            (mark_target room message db) _ mark_target-Outcome
            λ target t.
              Outcome-raise_if Refused Done full (read_state_capacity room) _
                (λ e. no_cursor_left (not-some existing _ e) (ground arith))
                λ free. rw (store_mark-eq room subject target now db existing refl) (record {
                  target = target;
                  targeted = t;
                  stored = read_back room subject target now db existing refl;
                  furthest_point = λ new e.
                      let s : furthest (candidate room subject target now) existing ≡ new =
                        cc (e, read_back room subject target now db existing refl) in
                      subst
                        (λ (x : ReadStateRow).
                          IsFurthest target now existing x
                            (advances (candidate room subject target now) existing))
                        s (furthest-IsFurthest room subject target now existing);
                  others = read_others room subject target now db existing;
                  only = after-only room subject target now db existing;
                  reported = refl;
                  state = refl;
                  receipt =
                      ap (stored_receipt subject)
                        (sym (read_back room subject target now db existing refl));
                  within = after-within room subject target now db l existing refl free;
                })
