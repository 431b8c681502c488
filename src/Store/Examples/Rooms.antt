-- ===== src/Store/Examples/Rooms.antt =====
-- The theorems on rooms and read states at concrete inputs.
use samsarix_chat_engine.Base.{true, false, ◌≡◌, none, some, [], ◌∷◌}
use samsarix_chat_engine.Store.Tables.{Stamp, Database}
use samsarix_chat_engine.Store.Outcomes.{Outcome}
use samsarix_chat_engine.Store.Examples.{limits, store, attic}
use samsarix_chat_engine.Store.Rooms.{RoomCreate, create_room, StateStamps, set_room_state}
use samsarix_chat_engine.Store.Rooms.Creation.{Uncreated, IsOpened, create_room-Outcome}
use samsarix_chat_engine.Store.Rooms.States.{Unset, IsStateSet, set_room_state-Outcome}
use samsarix_chat_engine.Store.Reads.{mark_read}
use samsarix_chat_engine.Store.Reads.Marking.{MarkRefusal, IsMarked, mark_read-Outcome}
use samsarix_chat_engine.Store.Reads.Unread.{mark_read-latest}

abbrev asked : RoomCreate
asked = record { name = 8; description = 0; id = none }

abbrev created : Stamp
created = record { uid = 3; at = 300 }

abbrev audited : Stamp
audited = record { uid = 80; at = 301 }

create_room_example :
    Outcome
      (Uncreated limits asked 20 created audited store)
      (λ r. IsOpened limits asked 20 created audited store r.0 r.1)
      (create_room limits asked 20 created audited store)
create_room_example = create_room-Outcome limits asked 20 created audited store

abbrev at_300 : StateStamps
at_300 = record {
  archived_at = 300;
  archive_audit = record { uid = 81; at = 301 };
  frozen_at = 302;
  freeze_audit = record { uid = 82; at = 303 };
}

set_room_state_example :
    Outcome
      (Unset 1 store)
      (λ r. IsStateSet 1 (some true) (some false) at_300 store r.0 r.1 r.2)
      (set_room_state limits 1 (some true) (some false) 20 at_300 store)
set_room_state_example = set_room_state-Outcome limits 1 (some true) (some false) 20 at_300 store

abbrev with_attic : Database
with_attic = record store { rooms = attic ∷ [] }

mark_read_example :
    Outcome
      (MarkRefusal limits 1 30 (some 11) store)
      (λ r. IsMarked limits 1 30 (some 11) 300 store r.0 r.1)
      (mark_read limits 1 30 (some 11) 300 store)
mark_read_example = mark_read-Outcome limits 1 30 (some 11) 300 store

mark_read_latest_example :
    Outcome
      (MarkRefusal limits 1 30 none store)
      (λ r. r.0.state.unread_count ≡ 0)
      (mark_read limits 1 30 none 300 store)
mark_read_latest_example = mark_read-latest limits 1 30 300 store
