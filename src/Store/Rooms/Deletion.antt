-- ===== src/Store/Rooms/Deletion.antt =====
-- Deleting a room: who may be deleted, and that nothing of the room is left but erased deliveries.
use samsarix_chat_engine.Base.{
  Bool, false, ◌&&◌, List, ℕ, ◌==◌, true, false, not, is_some, ◌≡◌, refl, ◌∙◌, none, some, map, All,
}
use samsarix_chat_engine.Base.Sql.{select, count, exists, delete, exists-delete_self, exists-update}
use samsarix_chat_engine.Store.Tables.{
  MessageRow, Text, Room, ReactionRow, MemberModeration, ReadStateRow, DeliveryRow, Database,
  StoreError, integrity, room_not_found, room_not_archived,
}
use samsarix_chat_engine.Store.Outbox.Erasure.{IsErased}
use samsarix_chat_engine.Store.Cascade.{
  message_key, parent_in, clear_parent, delete_messages, delete_room_row,
}
use samsarix_chat_engine.Store.Invariant.{IsSound}
use samsarix_chat_engine.Store.Retention.{in_room}
use samsarix_chat_engine.Store.Rooms.{find_room}

-- Nothing of the room is left: no row of it, of its messages, reactions, controls and read states.
pub record IsVoid (room : Text) (db : Database) : Type 0 where
  pub rooms : exists (λ r. r.id == room) db.rooms ≡ false
  pub messages : exists (in_room room) db.messages ≡ false
  pub reactions : exists (λ (r : ReactionRow). r.room_id == room) db.reactions ≡ false
  pub controls : exists (λ (c : MemberModeration). c.room_id == room) db.controls ≡ false
  pub read_states : exists (λ (s : ReadStateRow). s.room_id == room) db.read_states ≡ false

-- Neither of the room nor to a message of it.
abbrev pub is_elsewhere : Text → List MessageRow → ReactionRow → Bool
is_elsewhere room rows r =
    not (r.room_id == room) && not (exists (λ m. m.room_id == room && m.id == r.message_id) rows)

-- The rows of the other rooms are as they were; of the reactions those in other rooms, to messages of
-- other rooms.
pub record OthersKept (room : Text) (db db' : Database) : Type 0 where
  pub kept_rooms :
      select (λ r. not (r.id == room)) db'.rooms ≡ select (λ r. not (r.id == room)) db.rooms
  pub kept_messages :
      IsSound db.messages
      → select (λ m. not (m.room_id == room)) db'.messages
        ≡ select (λ m. not (m.room_id == room)) db.messages
  pub kept_reactions :
      select (is_elsewhere room db.messages) db'.reactions
      ≡ select (is_elsewhere room db.messages) db.reactions
  pub kept_controls :
      select (λ (c : MemberModeration). not (c.room_id == room)) db'.controls
      ≡ select (λ (c : MemberModeration). not (c.room_id == room)) db.controls
  pub kept_states :
      select (λ (s : ReadStateRow). not (s.room_id == room)) db'.read_states
      ≡ select (λ (s : ReadStateRow). not (s.room_id == room)) db.read_states
  pub kept_deliveries :
      select (λ (d : DeliveryRow). not (d.room_id == room)) db'.deliveries
      ≡ select (λ (d : DeliveryRow). not (d.room_id == room)) db.deliveries

module _ (room : Text) (db : Database) where
  pub delete_room_row-IsVoid : IsVoid room (delete_room_row room db)
  unfolding delete_room_row delete_messages
  delete_room_row-IsVoid =
      let mine = in_room room in
      let gone = map message_key (select mine db.messages) in
      record {
        rooms = exists-delete_self (λ r. r.id == room) db.rooms;
        messages =
            exists-update mine (parent_in gone) clear_parent (delete mine db.messages) (λ m. refl)
            ∙ exists-delete_self mine db.messages;
        reactions = exists-delete_self (λ (r : ReactionRow). r.room_id == room) _;
        controls = exists-delete_self (λ (c : MemberModeration). c.room_id == room) db.controls;
        read_states = exists-delete_self (λ (s : ReadStateRow). s.room_id == room) db.read_states;
      }

-- Why a room is not deleted.
pub data Undeletable (room : Text) (db : Database) : StoreError → Type 0 where
  no_room : find_room room db ≡ none → Undeletable room db (room_not_found room)
  active :
      (r : Room)
      → find_room room db ≡ some r
      → is_some r.archived_at ≡ false
      → Undeletable room db (room_not_archived room)
  clash : Undeletable room db integrity

-- What a deletion that returns has done, and its count.
pub record IsRemoved (room : Text) (db : Database) (n : ℕ) (db' : Database) : Type 0 where
  pub was : Room
  pub found : find_room room db ≡ some was
  pub archived : is_some was.archived_at ≡ true
  pub counted : n ≡ count (in_room room) db.messages
  pub void : IsVoid room db'
  pub kept : OthersKept room db db'
  pub erased : All (λ d. (d.room_id == room) ≡ true → IsErased d) db'.deliveries
  pub sound : IsSound db.messages → IsSound db'.messages
