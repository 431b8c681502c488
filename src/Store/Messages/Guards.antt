-- ===== src/Store/Messages/Guards.antt =====
-- Who may write: the room and member checks that stand before every write to a message.
use samsarix_chat_engine.Base.{
  Bool, true, false, not, ◌&&◌, is_some, ◌≡◌, refl, Option, none, some, arith,
}
use samsarix_chat_engine.Store.Tables.{
  Text, Time, Room, MemberModeration, Database, Result, StoreError, raise_if, room_not_found,
  room_archived, room_frozen, member_banned, member_muted, ◌>>◌,
}
use samsarix_chat_engine.Store.Outcomes.{
  Outcome, Outcome-raise_if, Outcome-or_raise, Outcome-weaken, Outcome-raise_if_last, Outcome-after,
}
use samsarix_chat_engine.Store.Rooms.{find_room}
use samsarix_chat_engine.Store.Members.{
  is_active, find_control, enforce_control, enforce_member_write,
}
use samsarix_chat_engine.Store.Messages.{require_writable, require_deletable}

-- The member has no ban and no mute in force at `now`.
abbrev pub IsFree : Option MemberModeration → Time → Type 0
IsFree none now = Unit
IsFree (some c) now = (is_active c.banned_until now ≡ false) × (is_active c.muted_until now ≡ false)

abbrev pub MayWrite : Text → Option Text → Time → Database → Type 0
MayWrite room none now db = Unit
MayWrite room (some subject) now db = IsFree (find_control room subject db) now

pub record IsWritable (room : Text) (allowed : Bool) (subject : Option Text) (now : Time)
    (db : Database) : Type 0 where
  pub row : Room
  pub found : find_room room db ≡ some row
  pub not_archived : is_some row.archived_at ≡ false
  pub not_frozen : (is_some row.frozen_at && not allowed) ≡ false
  pub member : MayWrite room subject now db

-- Why the member may not write: a ban in force, or else a mute.
pub data Barred (room : Text) (subject : Option Text) (now : Time) (db : Database)
    : StoreError → Type 0 where
  banned :
      (s : Text) (c : MemberModeration)
      → subject ≡ some s
      → find_control room s db ≡ some c
      → is_active c.banned_until now ≡ true
      → Barred room subject now db (member_banned s)
  muted :
      (s : Text) (c : MemberModeration)
      → subject ≡ some s
      → find_control room s db ≡ some c
      → is_active c.banned_until now ≡ false
      → is_active c.muted_until now ≡ true
      → Barred room subject now db (member_muted s)

-- Why a caller may not write in the room.
pub data Unwritable (room : Text) (allowed : Bool) (subject : Option Text) (now : Time)
    (db : Database) : StoreError → Type 0 where
  no_room : find_room room db ≡ none → Unwritable room allowed subject now db (room_not_found room)
  archived :
      (r : Room)
      → find_room room db ≡ some r
      → is_some r.archived_at ≡ true
      → Unwritable room allowed subject now db (room_archived room)
  frozen :
      (r : Room)
      → find_room room db ≡ some r
      → is_some r.archived_at ≡ false
      → (is_some r.frozen_at && not allowed) ≡ true
      → Unwritable room allowed subject now db (room_frozen room)
  barred :
      (e : StoreError) (r : Room)
      → find_room room db ≡ some r
      → is_some r.archived_at ≡ false
      → (is_some r.frozen_at && not allowed) ≡ false
      → Barred room subject now db e
      → Unwritable room allowed subject now db e

enforce_control-Outcome :
    (room subject : Text) (now : Time) (db : Database) (o : Option MemberModeration)
    → find_control room subject db ≡ o
    → Outcome
        (Barred room (some subject) now db)
        (λ _. IsFree o now)
        (enforce_control o subject now)
enforce_control-Outcome room subject now db none found = tt
enforce_control-Outcome room subject now db (some c) found =
    let Q = Barred room (some subject) now db in
    let Free = λ (_ : Unit {0}). IsFree (some c) now in
    Outcome-raise_if Q Free (is_active c.banned_until now) (member_banned subject)
      (raise_if (is_active c.muted_until now) (member_muted subject))
      (λ b. banned subject c refl found b)
      (λ b.
        Outcome-raise_if_last Q Free (is_active c.muted_until now) (member_muted subject)
          (λ m. muted subject c refl found b m) (λ m. (b, m)))

enforce_member_write-Outcome :
    (room : Text) (subject : Option Text) (now : Time) (db : Database)
    → Outcome
        (Barred room subject now db)
        (λ _. MayWrite room subject now db)
        (enforce_member_write room subject now db)
unfolding enforce_member_write
enforce_member_write-Outcome room none now db = tt
enforce_member_write-Outcome room (some subject) now db =
    enforce_control-Outcome room subject now db (find_control room subject db) refl

-- The checks pass exactly for who may write, and otherwise name the first thing that stands in the way:
-- no such room; else an archived one; else a frozen one that the caller may not write to; else a ban in
-- force; else a mute.
pub require_writable-Outcome :
    (room : Text) (allowed : Bool) (subject : Option Text) (now : Time) (db : Database)
    → Outcome
        (Unwritable room allowed subject now db)
        (λ _. IsWritable room allowed subject now db)
        (require_writable room allowed subject now db)
unfolding require_writable
require_writable-Outcome room allowed subject now db =
    let Q = Unwritable room allowed subject now db in
    let P = λ (_ : Unit {0}). IsWritable room allowed subject now db in
    Outcome-or_raise Q P (find_room room db) (room_not_found room) _ (λ n. no_room n)
      λ r found.
        Outcome-raise_if Q P (is_some r.archived_at) (room_archived room) _
          (λ a. archived r found a)
          λ a.
            Outcome-raise_if Q P (is_some r.frozen_at && not allowed) (room_frozen room) _
              (λ f. frozen r found a f)
              λ f.
                Outcome-weaken (Barred room subject now db) Q (λ _. MayWrite room subject now db) P
                  (enforce_member_write room subject now db) (λ e b. barred e r found a f b)
                  (λ _ m. record {
                    row = r;
                    found = found;
                    not_archived = a;
                    not_frozen = f;
                    member = m;
                  })
                  (enforce_member_write-Outcome room subject now db)

-- The checks of a deletion: an administrator passes the states of the room.
pub record IsDeletable (room : Text) (is_admin : Bool) (subject : Option Text) (now : Time)
    (db : Database) : Type 0 where
  pub row : Room
  pub found : find_room room db ≡ some row
  pub not_archived : (not is_admin && is_some row.archived_at) ≡ false
  pub not_frozen : (not is_admin && is_some row.frozen_at) ≡ false
  pub member : MayWrite room subject now db

-- Why a caller may not delete in the room.
pub data Undeletable (room : Text) (is_admin : Bool) (subject : Option Text) (now : Time)
    (db : Database) : StoreError → Type 0 where
  missing_room :
      find_room room db ≡ none → Undeletable room is_admin subject now db (room_not_found room)
  closed :
      (r : Room)
      → find_room room db ≡ some r
      → is_admin ≡ false
      → is_some r.archived_at ≡ true
      → Undeletable room is_admin subject now db (room_archived room)
  held :
      (r : Room)
      → find_room room db ≡ some r
      → is_admin ≡ false
      → is_some r.archived_at ≡ false
      → is_some r.frozen_at ≡ true
      → Undeletable room is_admin subject now db (room_frozen room)
  restricted :
      (e : StoreError) (r : Room)
      → find_room room db ≡ some r
      → (not is_admin && is_some r.archived_at) ≡ false
      → (not is_admin && is_some r.frozen_at) ≡ false
      → Barred room subject now db e
      → Undeletable room is_admin subject now db e

pub require_deletable-Outcome :
    (room : Text) (is_admin : Bool) (subject : Option Text) (now : Time) (db : Database)
    → Outcome
        (Undeletable room is_admin subject now db)
        (λ _. IsDeletable room is_admin subject now db)
        (require_deletable room is_admin subject now db)
unfolding require_deletable
require_deletable-Outcome room is_admin subject now db =
    let Q = Undeletable room is_admin subject now db in
    let P = λ (_ : Unit {0}). IsDeletable room is_admin subject now db in
    Outcome-or_raise Q P (find_room room db) (room_not_found room) _ (λ n. missing_room n)
      λ r found.
        Outcome-raise_if Q P (not is_admin && is_some r.archived_at) (room_archived room) _
          (λ a. closed r found (ground arith) (ground arith))
          λ a.
            Outcome-raise_if Q P (not is_admin && is_some r.frozen_at) (room_frozen room) _
              (λ f. held r found (ground arith) (ground arith) (ground arith))
              λ f.
                Outcome-weaken (Barred room subject now db) Q (λ _. MayWrite room subject now db) P
                  (enforce_member_write room subject now db) (λ e b. restricted e r found a f b)
                  (λ _ m. record {
                    row = r;
                    found = found;
                    not_archived = a;
                    not_frozen = f;
                    member = m;
                  })
                  (enforce_member_write-Outcome room subject now db)

-- A write that starts with the checks.
module _ {ℓ} {B : Type ℓ} (Q : StoreError → Type 0) (P : B → Type 0) where
  pub Outcome-writable :
      (room : Text) (allowed : Bool) (subject : Option Text) (now : Time) (db : Database)
      (m : Result B)
      → ((e : StoreError) → Unwritable room allowed subject now db e → Q e)
      → (IsWritable room allowed subject now db → Outcome Q P m)
      → Outcome Q P (require_writable room allowed subject now db >> m)
  Outcome-writable room allowed subject now db m q k =
      Outcome-after (Unwritable room allowed subject now db)
        (λ _. IsWritable room allowed subject now db) Q P
        (require_writable room allowed subject now db) (λ _. m)
        (require_writable-Outcome room allowed subject now db) q (λ _ w. k w)
