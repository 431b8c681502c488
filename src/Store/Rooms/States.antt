-- ===== src/Store/Rooms/States.antt =====
-- Archiving and freezing a room: the state is as wanted, kept where nothing is asked or nothing
-- changes, and no other room is touched.
use samsarix_chat_engine.Base.{
  ◌==◌, Bool, true, false, ◌||◌, ◌≡◌, ◌⊎◌, refl, sym, ap, ◌∙◌, subst, Option, none, some, arith,
  Bool-cases, inl, inr, ==_iff, if◌then◌else◌,
}
use samsarix_chat_engine.Base.Sql.{update, fetch-update_self, fetch-update_other, fetch-holds}
use samsarix_chat_engine.Store.Tables.{
  Text, Time, Stamp, Room, Database, Limits, StoreError, ok, integrity, room_not_found, Details,
  named,
}
use samsarix_chat_engine.Store.Outcomes.{
  Outcome, Outcome-if, Outcome-or_raise, Outcome-after, Outcome-weaken,
}
use samsarix_chat_engine.Store.Audit.{insert_audit}
use samsarix_chat_engine.Store.Audit.Bounds.{insert_audit-Outcome}
use samsarix_chat_engine.Store.Rooms.{
  find_room, Switch, archive, freeze, state_of, with_state, switch_action, is_change, wanted_on,
  set_state, StateStamps, Changes, set_room_state,
}

-- The room after one switch, given the row that was read at the start.
abbrev pub switched : Switch → Option Bool → Room → Time → Room → Room
switched w wanted row at r =
    if is_change w wanted row
    then with_state w (if wanted_on wanted then some at else none) r
    else r

-- A switch of the room leads from one database to the other.
pub record IsSwitched (w : Switch) (wanted : Option Bool) (row : Room) (at : Time)
    (db db' : Database) : Type 0 where
  pub own :
      {r : Room}
      → find_room row.id db ≡ some r
      → find_room row.id db' ≡ some (switched w wanted row at r)
  pub others : (k : Text) → (row.id == k) ≡ false → find_room k db' ≡ find_room k db
  pub only : db' ≡ record db { rooms = db'.rooms; audit_events = db'.audit_events }
  pub idle : is_change w wanted row ≡ false → db' ≡ db

with_state-id : (w : Switch) (t : Option Time) (r : Room) → (with_state w t r).id ≡ r.id
with_state-id archive t r = refl
with_state-id freeze t r = refl

module _ (l : Limits) (w : Switch) (wanted : Option Bool) (row : Room) (actor : Text) (at : Time)
    (audited : Stamp) (db : Database) where
  abbrev on : Option Time
  on = if wanted_on wanted then some at else none

  abbrev written : Database
  written = record db { rooms = update (λ r. r.id == row.id) (with_state w on) db.rooms }

  written-IsSwitched :
      (db' : Database)
      → is_change w wanted row ≡ true
      → db' ≡ record written { audit_events = db'.audit_events }
      → IsSwitched w wanted row at db db'
  written-IsSwitched db' change e =
      let rooms : db'.rooms ≡ written.rooms = ap (λ (t : Database). t.rooms) e in
      record {
        own = λ {r} found.
            rw (rooms, change)
              (fetch-update_self (λ (x : Room). x.id == row.id) (with_state w on)
                (λ x. ap (λ (k : Text). k == row.id) (with_state-id w on x)) db.rooms found);
        others = λ k other. rw rooms (
            fetch-update_other (λ (x : Room). x.id == row.id) (λ (x : Room). x.id == k)
              (with_state w on) db.rooms (λ x t. ground (arith, with_state-id w on x)));
        only = e ∙ ap (λ rs. record db { rooms = rs; audit_events = db'.audit_events }) (sym rooms);
        idle = λ t. cc;
      }

  set_state-Outcome :
      Outcome
        (λ e. e ≡ integrity)
        (IsSwitched w wanted row at db)
        (set_state l w wanted row actor at audited db)
  unfolding set_state
  set_state-Outcome =
      let b = wanted_on wanted in
      Outcome-if (λ e. e ≡ integrity) (IsSwitched w wanted row at db) (is_change w wanted row)
        (insert_audit l audited (switch_action w b) (named actor) (some row.id) Details.empty
          written)
        (ok db)
        (λ change.
          Outcome-weaken (λ e. e ≡ integrity) (λ e. e ≡ integrity)
            (λ db'. db' ≡ record written { audit_events = db'.audit_events })
            (IsSwitched w wanted row at db)
            (insert_audit l audited (switch_action w b) (named actor) (some row.id) Details.empty
              written)
            (λ _ h. h) (λ db' e. written-IsSwitched db' change e)
            (insert_audit-Outcome l audited (switch_action w b) (named actor) (some row.id)
              Details.empty written))
        (λ stay. record {
          own = λ found. rw stay found;
          others = λ k other. refl;
          only = refl;
          idle = λ _. refl;
        })

-- One state of a room before and after, by what was asked of it, with whether it changed: not asked,
-- asked to be on, asked to be off.
abbrev pub StateSet : Option Bool → Time → Option Time → Option Time → Bool → Type 0
StateSet none at old new changed = (new ≡ old) × (changed ≡ false)
StateSet (some true) at none new changed = (new ≡ some at) × (changed ≡ true)
StateSet (some true) at (some t) new changed = (new ≡ some t) × (changed ≡ false)
StateSet (some false) at none new changed = (new ≡ none) × (changed ≡ false)
StateSet (some false) at (some t) new changed = (new ≡ none) × (changed ≡ true)

-- What a change of state that returns has done: the row that was read, after both switches, is what
-- is stored and returned; the changes are those of the two states; nothing else was written to.
pub record IsStateSet (room : Text) (archived frozen : Option Bool) (s : StateStamps)
    (db : Database) (answer : Option Room) (changes : Changes) (db' : Database) : Type 0 where
  pub row : Room
  pub found : find_room room db ≡ some row
  pub new : Room
  pub stored : find_room room db' ≡ some new
  pub returned : answer ≡ some new
  pub archived_set :
      StateSet archived s.archived_at row.archived_at new.archived_at changes.archived
  pub frozen_set : StateSet frozen s.frozen_at row.frozen_at new.frozen_at changes.frozen
  pub rest : new ≡ record row { archived_at = new.archived_at; frozen_at = new.frozen_at }
  pub others : (k : Text) → (room == k) ≡ false → find_room k db' ≡ find_room k db
  pub only : db' ≡ record db { rooms = db'.rooms; audit_events = db'.audit_events }
  pub idle : (changes.archived || changes.frozen) ≡ false → db' ≡ db

set_lem :
    (w : Switch) (wanted : Option Bool) (row : Room) (at : Time) (o : Option Time)
    → state_of w row ≡ o
    → StateSet wanted at
        (state_of w row)
        (if is_change w wanted row
          then (if wanted_on wanted then some at else none)
          else state_of w row)
        (is_change w wanted row)
set_lem w none row at o e = (refl, refl)
set_lem w (some true) row at none e = rw e (refl, refl)
set_lem w (some true) row at (some t) e = rw e (refl, refl)
set_lem w (some false) row at none e = rw e (refl, refl)
set_lem w (some false) row at (some t) e = rw e (refl, refl)

module _ (archived frozen : Option Bool) (row : Room) (at_a at_f : Time) where
  abbrev both : Room
  both = switched freeze frozen row at_f (switched archive archived row at_a row)

  abbrev set_to : Switch → Option Bool → Time → Option Time
  set_to w wanted at =
      if is_change w wanted row
      then (if wanted_on wanted then some at else none)
      else state_of w row

  both-eq : both ≡ record row {
    archived_at = set_to archive archived at_a;
    frozen_at = set_to freeze frozen at_f;
  }
  both-eq = elim (Bool-cases (is_change archive archived row)) [
    | inl a ↦ elim (Bool-cases (is_change freeze frozen row)) [
      | inl f ↦ rw (a, f) refl
      | inr f ↦ rw (a, f) refl
    ]
    | inr a ↦ elim (Bool-cases (is_change freeze frozen row)) [
      | inl f ↦ rw (a, f) refl
      | inr f ↦ rw (a, f) refl
    ]
  ]

  archived_lem :
      StateSet archived at_a row.archived_at both.archived_at (is_change archive archived row)
  archived_lem =
      subst
        (λ (r : Room).
          StateSet archived at_a row.archived_at r.archived_at (is_change archive archived row))
        (sym both-eq) (set_lem archive archived row at_a row.archived_at refl)

  frozen_lem : StateSet frozen at_f row.frozen_at both.frozen_at (is_change freeze frozen row)
  frozen_lem =
      subst
        (λ (r : Room). StateSet frozen at_f row.frozen_at r.frozen_at (is_change freeze frozen row))
        (sym both-eq) (set_lem freeze frozen row at_f row.frozen_at refl)

  rest_lem : both ≡ record row { archived_at = both.archived_at; frozen_at = both.frozen_at }
  rest_lem =
      subst (λ (r : Room). r ≡ record row { archived_at = r.archived_at; frozen_at = r.frozen_at })
        (sym both-eq) refl

abbrev pub Unset : Text → Database → StoreError → Type 0
Unset room db e = ((find_room room db ≡ none) × (e ≡ room_not_found room)) ⊎ (e ≡ integrity)

module _ (l : Limits) (room : Text) (archived frozen : Option Bool) (actor : Text) (s : StateStamps)
    (db : Database) where
  abbrev changes_of : Room → Changes
  changes_of row = record {
    archived = is_change archive archived row;
    frozen = is_change freeze frozen row;
  }

  both-IsStateSet :
      (row : Room) (db₁ db₂ : Database)
      → find_room room db ≡ some row
      → IsSwitched archive archived row s.archived_at db db₁
      → IsSwitched freeze frozen row s.frozen_at db₁ db₂
      → IsStateSet room archived frozen s db
          (if is_change archive archived row || is_change freeze frozen row
            then find_room room db₂
            else some row)
          (changes_of row)
          db₂
  both-IsStateSet row db₁ db₂ found a f =
      let same : row.id ≡ room =
        (==_iff row.id room).0 (fetch-holds (λ (r : Room). r.id == room) db.rooms found) in
      let after =
        switched freeze frozen row s.frozen_at (switched archive archived row s.archived_at row) in
      let at_row : find_room row.id db ≡ some row =
        subst (λ k. find_room k db ≡ some row) (sym same) found in
      let now : find_room room db₂ ≡ some after =
        subst (λ k. find_room k db₂ ≡ some after) same (f.own (a.own at_row)) in
      let any = is_change archive archived row || is_change freeze frozen row in
      let idle : any ≡ false → db₂ ≡ db = λ e. f.idle (ground arith) ∙ a.idle (ground arith) in
      let returned : (if any then find_room room db₂ else some row) ≡ find_room room db₂ =
        elim (Bool-cases any) [
          | inl t ↦ rw t refl
          | inr e ↦ rw e (sym (ap (find_room room) (idle e) ∙ found))
        ] in
      record {
        row = row;
        found = found;
        new = after;
        stored = now;
        returned = returned ∙ now;
        archived_set = archived_lem archived frozen row s.archived_at s.frozen_at;
        frozen_set = frozen_lem archived frozen row s.archived_at s.frozen_at;
        rest = rest_lem archived frozen row s.archived_at s.frozen_at;
        others = λ k other.
            let apart : (row.id == k) ≡ false = subst (λ j. (j == k) ≡ false) (sym same) other in
            f.others k apart ∙ a.others k apart;
        only =
            f.only
            ∙ ap (λ (t : Database). record t { rooms = db₂.rooms; audit_events = db₂.audit_events })
                a.only;
        idle = idle;
      }

  -- A change of state is refused only where the room is not there or, late, the identifier of an
  -- audit event is repeated. Otherwise the stored and returned room is the one that was read, with
  -- each asked state that differs set to its time or cleared, and every state that is not asked or
  -- is as asked already (its time included) kept; the reported changes are exactly those, other
  -- rooms and tables stay as they were, and where nothing changes nothing is written, not even
  -- an audit event.
  pub set_room_state-Outcome :
      Outcome
        (Unset room db)
        (λ r. IsStateSet room archived frozen s db r.0 r.1 r.2)
        (set_room_state l room archived frozen actor s db)
  unfolding set_room_state
  set_room_state-Outcome =
      let Q = Unset room db in
      let P = λ (r : Option Room × Changes × Database).
        IsStateSet room archived frozen s db r.0 r.1 r.2 in
      Outcome-or_raise Q P (find_room room db) (room_not_found room) _ (λ n. inl (n, refl))
        λ row found.
          Outcome-after {B = Option Room × Changes × Database} (λ e. e ≡ integrity)
            (IsSwitched archive archived row s.archived_at db) Q P
            (set_state l archive archived row actor s.archived_at s.archive_audit db) _
            (set_state-Outcome l archive archived row actor s.archived_at s.archive_audit db)
            (λ e h. inr h)
            λ db₁ a.
              Outcome-after {B = Option Room × Changes × Database} (λ e. e ≡ integrity)
                (IsSwitched freeze frozen row s.frozen_at db₁) Q P
                (set_state l freeze frozen row actor s.frozen_at s.freeze_audit db₁) _
                (set_state-Outcome l freeze frozen row actor s.frozen_at s.freeze_audit db₁)
                (λ e h. inr h) λ db₂ f. both-IsStateSet row db₁ db₂ found a f
