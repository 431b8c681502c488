-- ===== src/Store/Rooms/Creation.antt =====
-- Creating a room: within the limit, under a new identifier, and without touching other rooms.
use samsarix_chat_engine.Base.{
  ◌≤◌, ◌==◌, leb, true, false, ◌≡◌, refl, sym, ap, subst, none, some, [], ◌∷◌, ◌++◌, length,
  length-append, arith,
}
use samsarix_chat_engine.Base.Sql.{exists, fetch-append, fetch-append_other}
use samsarix_chat_engine.Base.Keys.{Unique, Unique-append}
use samsarix_chat_engine.Store.Tables.{
  Text, Stamp, Room, Database, Limits, StoreError, ok, integrity, room_capacity,
  room_already_exists, AuditAction, Details, named,
}
use samsarix_chat_engine.Store.Outcomes.{Outcome, Outcome-raise_if, Outcome-after}
use samsarix_chat_engine.Store.Audit.{insert_audit}
use samsarix_chat_engine.Store.Audit.Bounds.{insert_audit-Outcome}
use samsarix_chat_engine.Store.Rooms.{
  room_key, find_room, RoomCreate, chosen_id, new_room, create_room,
}

module _ (l : Limits) (p : RoomCreate) (actor : Text) (created audited : Stamp)
    (db : Database) where
  abbrev id : Text
  id = chosen_id p created.uid

  -- Why a room is not created: there are as many as may be, or the identifier is taken, or the
  -- identifier of the audit event is.
  pub data Uncreated : StoreError → Type 0 where
    full : l.max_rooms ≤ length db.rooms → Uncreated room_capacity
    taken : exists (λ r. r.id == id) db.rooms ≡ true → Uncreated (room_already_exists id)
    clash : Uncreated integrity

  -- The room that is returned has the asked columns, is found under its identifier beside the others, and
  -- the rooms stay within the limit.
  pub record IsOpened (room : Room) (db' : Database) : Type 0 where
    pub asked : room ≡ record {
      id = room.id;
      name = p.name;
      description = p.description;
      created_at = created.at;
      archived_at = none;
      frozen_at = none;
    }
    pub given : (k : Text) → p.id ≡ some k → (k == 0) ≡ false → room.id ≡ k
    pub generated : p.id ≡ none → room.id ≡ created.uid
    pub empty : p.id ≡ some 0 → room.id ≡ created.uid
    pub only : db' ≡ record db { rooms = db.rooms ++ room ∷ []; audit_events = db'.audit_events }
    pub within : length db'.rooms ≤ l.max_rooms
    pub found : find_room id db' ≡ some room
    pub others : (k : Text) → (id == k) ≡ false → find_room k db' ≡ find_room k db
    pub unique : Unique room_key db.rooms → Unique room_key db'.rooms

  opened :
      (db' : Database)
      → leb l.max_rooms (length db.rooms) ≡ false
      → exists (λ r. r.id == id) db.rooms ≡ false
      → db' ≡ record db {
        rooms = db.rooms ++ new_room id p created.at ∷ [];
        audit_events = db'.audit_events;
      }
      → IsOpened (new_room id p created.at) db'
  opened db' free fresh e =
      let row : Room = new_room id p created.at in
      let rooms : db'.rooms ≡ db.rooms ++ row ∷ [] = ap (λ (t : Database). t.rooms) e in
      record {
        asked = refl;
        given = λ k e nonempty. rw (e, nonempty) refl;
        generated = λ e. rw e refl;
        empty = λ e. rw e refl;
        only = e;
        within = rw rooms (ground (arith, length-append db.rooms (row ∷ [])));
        found = rw rooms (ground (arith, fetch-append (λ r. r.id == id) db.rooms (row ∷ [])));
        others = λ k other. rw rooms (fetch-append_other (λ r. r.id == k) db.rooms row other);
        unique = λ u. rw rooms (Unique-append room_key db.rooms row u fresh);
      }

  -- A room is not created where the rooms are at the limit, its identifier is taken, or, late, an
  -- identifier is repeated. Otherwise the asked room is returned and found, under the given
  -- identifier, or the generated one where none or an empty one is given, neither archived nor
  -- frozen; the other rooms and tables stay as they were, and the rooms stay within the limit.
  pub create_room-Outcome :
      Outcome Uncreated (λ r. IsOpened r.0 r.1) (create_room l p actor created audited db)
  unfolding create_room
  create_room-Outcome =
      let P = λ (r : Room × Database). IsOpened r.0 r.1 in
      let row : Room = new_room id p created.at in
      let grown : Database = record db { rooms = db.rooms ++ row ∷ [] } in
      Outcome-raise_if Uncreated P (leb l.max_rooms (length db.rooms)) room_capacity _
        (λ f. full (ground arith))
        λ free.
          Outcome-raise_if Uncreated P (exists (λ r. r.id == id) db.rooms) (room_already_exists id)
            _ (λ t. taken t)
            λ fresh.
              Outcome-after {B = Room × Database} (λ e. e ≡ integrity)
                (λ db'. db' ≡ record grown { audit_events = db'.audit_events }) Uncreated P
                (insert_audit l audited AuditAction.room_created (named actor) (some id)
                  Details.empty grown)
                (λ db'. ok (row, db'))
                (insert_audit-Outcome l audited AuditAction.room_created (named actor) (some id)
                  Details.empty grown)
                (λ e h. subst Uncreated (sym h) clash) λ db' e. opened db' free fresh e
