-- ===== src/Store/Paging/Histories.antt =====
-- Following the cursors of each listing of messages reads the whole listing, once and in order.
use samsarix_chat_engine.Base.{
  ℕ, suc, ◌+◌, ◌≤◌, ◌==◌, Bool, true, false, ◌&&◌, is_some, holds, ◌≡◌, refl, ap, ◌∙◌, subst,
  Option, none, some, List, [], ◌∷◌, ◌++◌, length, take, map, All, arith,
}
use samsarix_chat_engine.Base.Sql.{select, fetch, exists, All-select, select-holds}
use samsarix_chat_engine.Base.Order.{order_by, All-order_by, All-take}
use samsarix_chat_engine.Base.Keys.{Unique, IsListed, All-IsListed}
use samsarix_chat_engine.Base.Sorted.{Sorted, lexicographic_desc, Sorted-order_by}
use samsarix_chat_engine.Base.Pages.{
  IsKeyed, select-order_by, select-select, select-after, Unique-select, Unique-order_by,
  fetch-narrow, All-middle, All-rest,
}
use samsarix_chat_engine.Store.Tables.{
  Text, MessageRow, Database, Result, ok, ◌>>=◌, invalid_cursor, message_of,
}
use samsarix_chat_engine.Store.Cascade.{message_key}
use samsarix_chat_engine.Store.Invariant.{IsComplete, IsSound}
use samsarix_chat_engine.Store.Retention.{in_room}
use samsarix_chat_engine.Store.Messages.{at_id, find_message}
use samsarix_chat_engine.Store.Messages.Steps.{message_from_row-IsComplete}
use samsarix_chat_engine.Store.Paging.{
  Page, paginate, read_page, find_cursor, messages_from_rows, message_page, newer_message,
  pinned_time, list_messages, later_pin, pinned_in, list_pinned_messages, reply_to, list_replies,
}
use samsarix_chat_engine.Store.Paging.Walk.{
  first_page, paginate-take, IsPaged, shown, walk, walk-all, turned, All-turned,
}

module _ {ℓ} {A : Type ℓ} (key : A → Text) (before : A → A → Bool) (p : A → Bool) (limit : ℕ)
    (chronological : Bool) (rows : List A) where
  -- The rows of a listing in the order of its query.
  abbrev pub history : List A
  history = order_by before (select p rows)

  no_cursor : (xs : List A) → select (λ x. p x && true) xs ≡ select p xs
  no_cursor [] = refl
  no_cursor (x ∷ xs) = ground (arith, no_cursor xs)

  pub read_page-first :
      read_page key before p limit chronological none rows
      ≡ first_page key limit chronological history
  read_page-first =
      ap (λ s. paginate key limit chronological (take (limit + 1) (order_by before s)))
        (no_cursor rows)
      ∙ paginate-take key limit chronological history

  pub read_page-next :
      IsKeyed key before
      → Unique key rows
      → (seen : List A) (c : A) (bs : List A) → history ≡ seen ++ c ∷ bs
      → read_page key before p limit chronological (some c) rows
        ≡ first_page key limit chronological bs
  read_page-next k u seen c bs e =
      let s = subst (Sorted before) e (Sorted-order_by before k.order (select p rows)) in
      let v =
        subst (Unique key) e
          (Unique-order_by key before (select p rows) (Unique-select key p rows u)) in
      let left : order_by before (select (λ x. p x && before c x) rows) ≡ bs =
        ap (order_by before) (select-select p (before c) rows)
        ∙ select-order_by before k.order (before c) (select p rows)
        ∙ ap (select (before c)) e
        ∙ select-after key before k seen c bs s v in
      ap (λ r. paginate key limit chronological (take (limit + 1) r)) left
      ∙ paginate-take key limit chronological bs

pub messages_from_rows-IsComplete :
    (rows : List MessageRow)
    → All IsComplete rows
    → messages_from_rows rows ≡ ok (map message_of rows)
messages_from_rows-IsComplete [] h = refl
messages_from_rows-IsComplete (r ∷ rs) h =
    rw (message_from_row-IsComplete r h.0, messages_from_rows-IsComplete rs h.1)

-- The part that the listings of messages share, once their checks have passed.
abbrev query :
    (MessageRow → MessageRow → Bool)
    → (MessageRow → Bool)
    → ℕ
    → Bool
    → (Text → Option MessageRow)
    → List MessageRow
    → Option Text
    → Result Page
query before p limit chronological find rows cursor = do
  c ← find_cursor message_key cursor find invalid_cursor
  message_page (read_page message_key before p limit chronological c rows)

-- An identifier that is not "".
abbrev pub IsNamed : MessageRow → Type 0
IsNamed m = (m.id == 0) ≡ false

module _ (before : MessageRow → MessageRow → Bool) (p : MessageRow → Bool) (limit : ℕ)
    (chronological : Bool) (find : Text → Option MessageRow) (rows : List MessageRow)
    (k : IsKeyed message_key before) (sound : IsSound rows) (named : All IsNamed rows)
    (finds : (c : MessageRow) → IsListed message_key rows c → p c ≡ true → find c.id ≡ some c) where
  listing : List MessageRow
  listing = order_by before (select p rows)

  All-listing : (P : MessageRow → Type 0) → All P rows → All P (order_by before (select p rows))
  All-listing P h = All-order_by P before (select p rows) (All-select P p rows h)

  show_page :
      (bs : List MessageRow)
      → All IsComplete bs
      → message_page (first_page message_key limit chronological bs)
        ≡ ok (
            shown message_key message_of chronological limit rows
              (query before p limit chronological find rows)
              bs)
  show_page bs h =
      let page : List MessageRow = turned chronological (take limit bs) in
      rw
        (messages_from_rows-IsComplete page
          (All-turned IsComplete chronological (take limit bs) (All-take IsComplete limit bs h)))
        refl

  -- What holds of the rows holds of the cursor's row.
  at_cursor :
      (P : MessageRow → Type 0) (seen : List MessageRow) (c : MessageRow) (bs : List MessageRow)
      → order_by before (select p rows) ≡ seen ++ c ∷ bs
      → All P (order_by before (select p rows))
      → P c
  at_cursor P seen c bs e h = All-middle P seen c bs (subst (All P) e h)

  query-IsPaged :
      IsPaged message_key message_of chronological limit
        (order_by before (select p rows))
        (query before p limit chronological find rows)
  query-IsPaged = record {
    first =
        ap message_page (read_page-first message_key before p limit chronological rows)
        ∙ show_page (order_by before (select p rows)) (All-listing IsComplete sound.complete);
    next = λ seen c bs e.
        let listed : IsListed message_key rows c =
          at_cursor (IsListed message_key rows) seen c bs e (
            All-listing (IsListed message_key rows) (All-IsListed message_key rows sound.unique)) in
        let named_c : IsNamed c = at_cursor IsNamed seen c bs e (All-listing IsNamed named) in
        let in_p : p c ≡ true =
          at_cursor (λ m. p m ≡ true) seen c bs e
            (All-order_by (λ m. p m ≡ true) before (select p rows) (select-holds p rows)) in
        let rest : All IsComplete (c ∷ bs) =
          All-rest IsComplete seen (c ∷ bs)
            (subst (All IsComplete) e (All-listing IsComplete sound.complete)) in
        rw (named_c, finds c listed in_p)
          (ap message_page (
              read_page-next message_key before p limit chronological rows k sound.unique seen c bs
                e)
            ∙ show_page bs rest.1);
  }

  pub query-walk :
      1 ≤ limit
      → walk
          (query before p limit chronological find rows)
          chronological
          (suc (length (order_by before (select p rows))))
          none
        ≡ some (map message_of (order_by before (select p rows)))
  query-walk positive =
      walk-all message_key message_of chronological limit (order_by before (select p rows))
        (query before p limit chronological find rows) positive query-IsPaged

newer_message-IsKeyed : IsKeyed message_key newer_message
newer_message-IsKeyed = record {
  order = lexicographic_desc (λ m. m.created_at) message_key;
  separates = λ a b h k. ground arith;
}

later_pin-IsKeyed : IsKeyed message_key later_pin
later_pin-IsKeyed = record {
  order = lexicographic_desc pinned_time message_key;
  separates = λ a b h k. ground arith;
}

module _ (room : Text) (limit : ℕ) (db : Database) where
  -- The messages of a room in the order of `list_messages`, newest first.
  abbrev pub newest_first : List MessageRow
  newest_first = order_by newer_message (select (in_room room) db.messages)

  -- In a sound table with no empty identifier, a client that starts without a cursor and follows
  -- `next_before` with any positive page size gets every message of the room, once each and newest
  -- first when the pages are turned back; it needs no more pages than messages, plus one.
  pub list_messages-walk :
      IsSound db.messages
      → All IsNamed db.messages
      → exists (λ r. r.id == room) db.rooms ≡ true
      → 1 ≤ limit
      → walk (λ before. list_messages room limit before db) true (suc (length newest_first)) none
        ≡ some (map message_of newest_first)
  unfolding list_messages
  list_messages-walk sound named known positive = rw known (
      query-walk newer_message (in_room room) limit true (λ k. find_message room k db) db.messages
        newer_message-IsKeyed sound named
        (λ c listed own.
          fetch-narrow message_key (at_id room c.id) c db.messages (λ x t. ground arith)
            (ground arith) listed)
        positive)

  abbrev pub latest_pins : List MessageRow
  latest_pins = order_by later_pin (select (pinned_in room) db.messages)

  -- In a sound table with no empty identifier, a client that follows `next_before` from the first
  -- page, with any positive page size, gets every pinned message of the room, once each and latest
  -- pin first; it needs no more pages than pinned messages, plus one.
  pub list_pinned_messages-walk :
      IsSound db.messages
      → All IsNamed db.messages
      → exists (λ r. r.id == room) db.rooms ≡ true
      → 1 ≤ limit
      → walk
          (λ before. list_pinned_messages room limit before db)
          false
          (suc (length latest_pins))
          none
        ≡ some (map message_of latest_pins)
  unfolding list_pinned_messages
  list_pinned_messages-walk sound named known positive = rw known (
      query-walk later_pin (pinned_in room) limit false
        (λ k. fetch (λ m. m.room_id == room && m.id == k && is_some m.pinned_at) db.messages)
        db.messages later_pin-IsKeyed sound named
        (λ c listed own.
          fetch-narrow message_key (λ m. m.room_id == room && m.id == c.id && is_some m.pinned_at) c
            db.messages (λ x t. ground arith) (ground arith) listed)
        positive)

  abbrev pub newest_replies : Text → List MessageRow
  newest_replies parent = order_by newer_message (select (reply_to room parent) db.messages)

  -- In a sound table with no empty identifier, a client that follows `next_before` from the first
  -- page, with any positive page size, gets every reply to a stored message of the room that is no
  -- reply itself, once each and newest first when the pages are turned back.
  pub list_replies-walk :
      (parent : MessageRow)
      → IsSound db.messages
      → All IsNamed db.messages
      → exists (λ r. r.id == room) db.rooms ≡ true
      → find_message room parent.id db ≡ some parent
      → parent.parent_message_id ≡ none
      → 1 ≤ limit
      → walk
          (λ before. list_replies room parent.id limit before db)
          true
          (suc (length (newest_replies parent.id)))
          none
        ≡ some (map message_of (newest_replies parent.id))
  unfolding list_replies
  list_replies-walk parent sound named known stored root positive =
      rw (known, stored, root)
        (query-walk newer_message (reply_to room parent.id) limit true
          (λ k.
            fetch (λ m. m.room_id == room && holds m.parent_message_id parent.id && m.id == k)
              db.messages)
          db.messages newer_message-IsKeyed sound named
          (λ c listed own.
            fetch-narrow message_key
              (λ m. m.room_id == room && holds m.parent_message_id parent.id && m.id == c.id) c
              db.messages (λ x t. ground arith) (ground arith) listed)
          positive)
