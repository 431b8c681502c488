-- ===== src/Store/Reads/Unread.antt =====
-- Marking a room read up to its latest message leaves nothing unread.
use samsarix_chat_engine.Base.{
  true, false, ◌&&◌, ◌≡◌, refl, ap, ◌∙◌, subst, Option, none, some, List, [], ◌∷◌, All, arith,
  Bool-cases, inl, inr,
}
use samsarix_chat_engine.Base.Sql.{count}
use samsarix_chat_engine.Base.Sorted.{IsFirst, head-IsFirst, lexicographic_desc}
use samsarix_chat_engine.Store.Tables.{Text, Time, MessageRow, ReadStateRow, Database, Limits}
use samsarix_chat_engine.Store.Outcomes.{Outcome, Outcome-weaken}
use samsarix_chat_engine.Store.Results.{ok-injective}
use samsarix_chat_engine.Store.Cascade.{message_key}
use samsarix_chat_engine.Store.Retention.{in_room}
use samsarix_chat_engine.Store.Paging.{newer_message}
use samsarix_chat_engine.Store.Reads.{
  is_foreign, is_past, candidate, is_ahead, find_read_state, read_state, mark_read,
}
use samsarix_chat_engine.Store.Reads.Furthest.{furthest}
use samsarix_chat_engine.Store.Reads.Marking.{MarkRefusal, IsMarked, mark_read-Outcome}

module _ (room subject : Text) (now : Time) where
  -- The cursor of a mark is at the marked message or past it.
  nothing_past :
      (t : MessageRow) (existing : Option ReadStateRow) (m : MessageRow)
      → newer_message m t ≡ false
      → is_past (furthest (candidate room subject (some t) now) existing) m ≡ false
  nothing_past t none m h = ground arith
  nothing_past t (some r) m h =
      elim (Bool-cases (is_ahead (candidate room subject (some t) now) r)) [
        | inl e ↦ rw e (ground arith)
        | inr e ↦ rw e (ground arith)
      ]

  count-past :
      (f : ReadStateRow) (rows : List MessageRow)
      → All (λ m. in_room room m ≡ true → is_past f m ≡ false) rows
      → count (λ m. is_foreign room subject m && is_past f m) rows ≡ 0
  count-past f [] h = refl
  count-past f (m ∷ ms) h = ground (arith, count-past f ms h.1, h.0)

  All-past :
      (target : Option MessageRow) (existing : Option ReadStateRow) (rows : List MessageRow)
      → IsFirst newer_message (in_room room) rows target
      → All
          (λ m.
            in_room room m ≡ true
            → is_past (furthest (candidate room subject target now) existing) m ≡ false)
          rows
  All-past none existing rows h = outside rows h
    where
      outside :
          (ms : List MessageRow)
          → All (λ m. in_room room m ≡ false) ms
          → All
              (λ m.
                in_room room m ≡ true
                → is_past (furthest (candidate room subject none now) existing) m ≡ false)
              ms
      outside [] h = tt
      outside (m ∷ ms) h = ((λ t. absurd (cc (t, h.0))), outside ms h.1)
  All-past (some t) existing rows h = inside rows h.1
    where
      inside :
          (ms : List MessageRow)
          → All (λ m. in_room room m ≡ true → newer_message m t ≡ false) ms
          → All
              (λ m.
                in_room room m ≡ true
                → is_past (furthest (candidate room subject (some t) now) existing) m ≡ false)
              ms
      inside [] h = tt
      inside (m ∷ ms) h = ((λ e. nothing_past t existing m (h.0 e)), inside ms h.1)

-- A subject that marks the latest state of a room, where that is not refused, has no unread message.
pub mark_read-latest :
    (l : Limits) (room subject : Text) (now : Time) (db : Database)
    → Outcome
        (MarkRefusal l room subject none db)
        (λ r. r.0.state.unread_count ≡ 0)
        (mark_read l room subject none now db)
mark_read-latest l room subject now db =
    Outcome-weaken (MarkRefusal l room subject none db) (MarkRefusal l room subject none db)
      (λ r. IsMarked l room subject none now db r.0 r.1) (λ r. r.0.state.unread_count ≡ 0)
      (mark_read l room subject none now db) (λ _ h. h)
      (λ r h.
        let first : IsFirst newer_message (in_room room) db.messages h.target =
          subst (IsFirst newer_message (in_room room) db.messages) (ok-injective h.targeted) (
            head-IsFirst newer_message (in_room room) db.messages
              (lexicographic_desc (λ m. m.created_at) message_key)) in
        let existing = find_read_state room subject db in
        let same : r.1.messages ≡ db.messages = ap (λ (t : Database). t.messages) h.only in
        let read : (read_state room subject r.1).unread_count ≡ 0 =
          rw (h.stored, same)
            (count-past room subject now (furthest (candidate room subject h.target now) existing)
              db.messages (All-past room subject now h.target existing db.messages first)) in
        ap (λ s. s.unread_count) h.state ∙ read)
      (mark_read-Outcome l room subject none now db)
