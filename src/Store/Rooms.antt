-- ===== src/Store/Rooms.antt =====
-- Rooms of samsarix_chat_engine/store.py: `create_room`, `get_room`, `list_rooms`,
-- `set_room_state`, `delete_room` and the audit of `prepare_export`.
pub mod Creation
pub mod States
pub mod Deletion
use samsarix_chat_engine.Base.{
  ℕ, ◌==◌, leb, ltb, Bool, true, false, not, ◌&&◌, ◌||◌, is_some, bool_eq, Option, none, some, List,
  [], ◌∷◌, ◌++◌, length, take, if◌then◌else◌,
}
use samsarix_chat_engine.Base.Sql.{count, exists, update, fetch}
use samsarix_chat_engine.Base.Order.{order_by}
use samsarix_chat_engine.Store.Tables.{
  Text, Time, Stamp, Room, AuditAction, Actor, Details, Database, Limits, Result, ok, ◌>>=◌, ◌>>◌,
  raise_if, or_raise, room_not_found, room_already_exists, room_capacity, room_not_archived, named,
  deleted_messages,
}
use samsarix_chat_engine.Store.Audit.{insert_audit}
use samsarix_chat_engine.Store.Outbox.{scrub_room_webhooks}
use samsarix_chat_engine.Store.Cascade.{delete_room_row}

abbrev pub room_key : Room → Text
room_key r = r.id

-- SELECT … FROM rooms WHERE id = ?
abbrev pub find_room : Text → Database → Option Room
find_room room db = fetch (λ r. r.id == room) db.rooms

abbrev pub get_room : Text → Database → Option Room
get_room = find_room

-- ORDER BY created_at, id
abbrev pub earlier_room : Room → Room → Bool
earlier_room a b = ltb a.created_at b.created_at || a.created_at == b.created_at && ltb a.id b.id

unfoldable pub list_rooms : ℕ → Database → List Room
list_rooms limit db = take limit (order_by earlier_room db.rooms)

pub record RoomCreate : Type 0 where
  pub name : Text
  pub description : Text
  pub id : Option Text

-- `payload.id or uuid.uuid4().hex`
abbrev pub chosen_id : RoomCreate → Text → Text
chosen_id p uid = elim p.id [ none ↦ uid | some k ↦ if k == 0 then uid else k ]

abbrev pub new_room : Text → RoomCreate → Time → Room
new_room room p created_at = record {
  id = room;
  name = p.name;
  description = p.description;
  created_at = created_at;
  archived_at = none;
  frozen_at = none;
}

-- `created` is the identifier to fall back on and the time of creation, `audited` those of the
-- audit event.
unfoldable pub create_room :
    Limits → RoomCreate → Text → Stamp → Stamp → Database → Result (Room × Database)
create_room l p actor created audited db = do
  let room = chosen_id p created.uid
  raise_if (leb l.max_rooms (length db.rooms)) room_capacity
  raise_if (exists (λ r. r.id == room) db.rooms) (room_already_exists room)
  let row = new_room room p created.at
  let grown = record db { rooms = db.rooms ++ row ∷ [] }
  db' ←
      insert_audit l audited AuditAction.room_created (named actor) (some room) Details.empty grown
  ok (row, db')

-- What is set: `archived_at` or `frozen_at`.
pub data Switch : Type 0 where
  archive freeze : Switch

abbrev pub state_of : Switch → Room → Option Time
state_of archive r = r.archived_at
state_of freeze r = r.frozen_at

abbrev pub with_state : Switch → Option Time → Room → Room
with_state archive t r = record r { archived_at = t }
with_state freeze t r = record r { frozen_at = t }

abbrev pub switch_action : Switch → Bool → AuditAction
switch_action archive true = AuditAction.room_archived
switch_action archive false = AuditAction.room_unarchived
switch_action freeze true = AuditAction.room_frozen
switch_action freeze false = AuditAction.room_unfrozen

-- `wanted is not None and (row[...] is not None) != wanted`
abbrev pub is_change : Switch → Option Bool → Room → Bool
is_change w none r = false
is_change w (some b) r = not (bool_eq (is_some (state_of w r)) b)

abbrev pub wanted_on : Option Bool → Bool
wanted_on none = false
wanted_on (some b) = b

-- One of the two blocks of `_set_room_state_sync`, given the row read at the start.
unfoldable pub set_state :
    Limits → Switch → Option Bool → Room → Text → Time → Stamp → Database → Result Database
set_state l w wanted row actor at audited db =
    if is_change w wanted row
    then (let on = wanted_on wanted in
        let written = record db {
          rooms =
              update (λ r. r.id == row.id) (with_state w (if on then some at else none)) db.rooms;
        } in
        insert_audit l audited (switch_action w on) (named actor) (some row.id) Details.empty
          written)
    else ok db

pub record StateStamps : Type 0 where
  pub archived_at : Time
  pub archive_audit : Stamp
  pub frozen_at : Time
  pub freeze_audit : Stamp

-- The names of the changed states.
pub record Changes : Type 0 where
  pub archived : Bool
  pub frozen : Bool

unfoldable pub set_room_state :
    Limits
    → Text
    → Option Bool
    → Option Bool
    → Text
    → StateStamps
    → Database
    → Result (Option Room × Changes × Database)
unfolding set_state
set_room_state l room archived frozen actor s db = do
  row ← or_raise (find_room room db) (room_not_found room)
  db₁ ← set_state l archive archived row actor s.archived_at s.archive_audit db
  db₂ ← set_state l freeze frozen row actor s.frozen_at s.freeze_audit db₁
  let changes : Changes = record {
    archived = is_change archive archived row;
    frozen = is_change freeze frozen row;
  }
  let now_row = if changes.archived || changes.frozen then find_room room db₂ else some row
  ok (now_row, changes, db₂)

unfoldable pub delete_room : Limits → Text → Text → Stamp → Database → Result (ℕ × Database)
delete_room l room actor audited db = do
  row ← or_raise (find_room room db) (room_not_found room)
  raise_if (not (is_some row.archived_at)) (room_not_archived room)
  let message_count = count (λ m. m.room_id == room) db.messages
  db₁ ←
      insert_audit l audited AuditAction.room_deleted (named actor) (some room)
        (deleted_messages message_count) db
  ok (message_count, delete_room_row room (scrub_room_webhooks room db₁))

-- `_record_export_requested_sync`
unfoldable pub record_export_requested : Limits → Text → Text → Stamp → Database → Result Database
record_export_requested l room actor audited db = do
  raise_if (not (exists (λ r. r.id == room) db.rooms)) (room_not_found room)
  insert_audit l audited AuditAction.room_export_requested (named actor) (some room) Details.empty
      db
