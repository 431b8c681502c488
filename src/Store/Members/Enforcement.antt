-- ===== src/Store/Members/Enforcement.antt =====
-- What a moderation update does to the writes of its member, at any later instant, and to others.
use samsarix_chat_engine.Base.{
  ℕ, Option, ◌+◌, ◌*◌, ◌<◌, ◌==◌, Bool, true, false, not, ◌&&◌, is_some, ◌≡◌, ◌⊎◌, refl, ap, ◌∙◌,
  none, some, List, [], ◌∷◌, ◌++◌, arith, Bool-cases, inl, inr, if◌then◌else◌,
}
use samsarix_chat_engine.Base.Sql.{fetch, exists, update, delete}
use samsarix_chat_engine.Store.Tables.{
  Text, Time, Stamp, MemberModeration, Database, Limits, Result, ok, err, ◌>>=◌, room_not_found,
  integrity, webhook_capacity, member_banned, member_muted, StoreError, EventType, EventBody,
  AuditAction, named, Details,
}
use samsarix_chat_engine.Store.Outcomes.{
  AuditOnly, OutboxOnly, Outcome, Outcome-after, Outcome-raise_if,
}
use samsarix_chat_engine.Store.Audit.{insert_audit}
use samsarix_chat_engine.Store.Audit.Bounds.{insert_audit-Outcome}
use samsarix_chat_engine.Store.Outbox.{insert_webhook}
use samsarix_chat_engine.Store.Outbox.Capacity.{insert_webhook-Outcome}
use samsarix_chat_engine.Store.Members.{
  of_member, find_control, is_active, enforce_control, enforce_member_write, MemberModerationUpdate,
  old_muted, old_banned, new_limit, moderation_after, store_control, set_member_moderation,
}

module _ (c : MemberModeration) where
  abbrev own : MemberModeration → Bool
  own = of_member c.room_id c.subject

  fetch-replaced :
      (rows : List MemberModeration)
      → exists own rows ≡ true
      → fetch own (update own (λ _. c) rows) ≡ some c
  fetch-replaced [] h = cc
  fetch-replaced (x ∷ xs) h = ground (arith, fetch-replaced xs)

  fetch-added :
      (rows : List MemberModeration) → exists own rows ≡ false → fetch own (rows ++ c ∷ []) ≡ some c
  fetch-added [] h = ground arith
  fetch-added (x ∷ xs) h = ground (arith, fetch-added xs)

  fetch-deleted : (rows : List MemberModeration) → fetch own (delete own rows) ≡ none
  fetch-deleted [] = refl
  fetch-deleted (x ∷ xs) = ground (arith, fetch-deleted xs)

  -- What is stored of the limits: the row, or nothing if it holds no limit.
  pub fetch-store_control :
      (rows : List MemberModeration)
      → fetch own (store_control c rows)
        ≡ (if not (is_some c.muted_until) && not (is_some c.banned_until) then none else some c)
  fetch-store_control rows =
      elim (Bool-cases (not (is_some c.muted_until) && not (is_some c.banned_until))) [
        | inl e ↦ rw e (fetch-deleted rows)
        | inr e ↦ elim (Bool-cases (exists own rows)) [
          | inl old ↦ rw (e, old) (fetch-replaced rows old)
          | inr new ↦ rw (e, new) (fetch-added rows new)
        ]
      ]

  -- Another member's row.
  module _ (room subject : Text)
      (other : own (record c { room_id = room; subject = subject }) ≡ false) where
    other-update :
        (rows : List MemberModeration)
        → fetch (of_member room subject) (update own (λ _. c) rows)
          ≡ fetch (of_member room subject) rows
    other-update [] = refl
    other-update (x ∷ xs) = ground (arith, other-update xs)

    other-append :
        (rows : List MemberModeration)
        → fetch (of_member room subject) (rows ++ c ∷ []) ≡ fetch (of_member room subject) rows
    other-append [] = ground arith
    other-append (x ∷ xs) = ground (arith, other-append xs)

    other-delete :
        (rows : List MemberModeration)
        → fetch (of_member room subject) (delete own rows) ≡ fetch (of_member room subject) rows
    other-delete [] = refl
    other-delete (x ∷ xs) = ground (arith, other-delete xs)

    pub other-store_control :
        (rows : List MemberModeration)
        → fetch (of_member room subject) (store_control c rows)
          ≡ fetch (of_member room subject) rows
    other-store_control rows =
        elim (Bool-cases (not (is_some c.muted_until) && not (is_some c.banned_until))) [
          | inl e ↦ rw e (other-delete rows)
          | inr e ↦ elim (Bool-cases (exists own rows)) [
            | inl old ↦ rw (e, old) (other-update rows)
            | inr new ↦ rw (e, new) (other-append rows)
          ]
        ]

-- A limit after an update, by the duration that was asked for: none keeps what it was, zero clears it,
-- and a positive number of seconds runs from the time of the update.
abbrev pub LimitSet : Option ℕ → Time → Option Time → Option Time → Type 0
LimitSet none now old new = new ≡ old
LimitSet (some s) now old new = (s ≡ 0 → new ≡ none) × (0 < s → new ≡ some (now + s * 1000000))

-- A limit of the stored control, if there is one.
abbrev pub limit_in : (MemberModeration → Option Time) → Option MemberModeration → Option Time
limit_in f none = none
limit_in f (some c) = f c

-- The limit has not run out.
abbrev pub Runs : Option Time → Time → Type 0
Runs none at = ⊥
Runs (some t) at = at < t

-- What a write is answered: banned, else muted, else allowed.
pub record IsDecided (c : MemberModeration) (subject : Text) (at : Time)
    (answer : Result (Unit {0})) : Type 0 where
  pub when_banned : Runs c.banned_until at → answer ≡ err (member_banned subject)
  pub when_muted :
      (Runs c.banned_until at → ⊥) → Runs c.muted_until at → answer ≡ err (member_muted subject)
  pub when_free : (Runs c.banned_until at → ⊥) → (Runs c.muted_until at → ⊥) → answer ≡ ok tt

is_active-Runs : (o : Option Time) (at : Time) → Runs o at → is_active o at ≡ true
is_active-Runs none at h = absurd h
is_active-Runs (some t) at h = ground arith

idle-Runs : (o : Option Time) (at : Time) → (Runs o at → ⊥) → is_active o at ≡ false
idle-Runs none at h = refl
idle-Runs (some t) at h = ground arith

new_limit-LimitSet :
    (o : Option ℕ) (now : Time) (old : Option Time) → LimitSet o now old (new_limit o old now)
new_limit-LimitSet none now old = refl
new_limit-LimitSet (some s) now old = ((λ e. ground arith), (λ h. ground arith))

old_muted-eq :
    (o : Option MemberModeration)
    → limit_in (λ (c : MemberModeration). c.muted_until) o ≡ old_muted o
old_muted-eq none = refl
old_muted-eq (some c) = refl

old_banned-eq :
    (o : Option MemberModeration)
    → limit_in (λ (c : MemberModeration). c.banned_until) o ≡ old_banned o
old_banned-eq none = refl
old_banned-eq (some c) = refl

enforce-stored :
    (c : MemberModeration) (subject : Text) (at : Time)
    → IsDecided c subject at (
        enforce_control
          (if not (is_some c.muted_until) && not (is_some c.banned_until) then none else some c)
          subject
          at)
enforce-stored c subject at = record {
  when_banned = λ b. ground (arith, is_active-Runs c.banned_until at b);
  when_muted =
      λ b m. ground (arith, idle-Runs c.banned_until at b, is_active-Runs c.muted_until at m);
  when_free = λ b m. ground (arith, idle-Runs c.banned_until at b, idle-Runs c.muted_until at m);
}

-- What an update returns, and the writes that follow it.
pub record IsModerated (room subject : Text) (p : MemberModerationUpdate) (now : Time)
    (db : Database) (c : MemberModeration) (db' : Database) : Type 0 where
  pub names_room : c.room_id ≡ room
  pub names_subject : c.subject ≡ subject
  pub muted :
      LimitSet p.muted_for_seconds now
        (limit_in (λ (x : MemberModeration). x.muted_until) (find_control room subject db))
        c.muted_until
  pub banned :
      LimitSet p.banned_for_seconds now
        (limit_in (λ (x : MemberModeration). x.banned_until) (find_control room subject db))
        c.banned_until
  pub updated : c.updated_at ≡ now
  pub decides :
      (at : Time) → IsDecided c subject at (enforce_member_write room (some subject) at db')
  pub others :
      (room' subject' : Text)
      → (room == room' && subject == subject') ≡ false
      → find_control room' subject' db' ≡ find_control room' subject' db

module _ (l : Limits) (room subject : Text) (p : MemberModerationUpdate) (actor : Text) (now : Time)
    (audited : Stamp) (delivery : Text) (db : Database) where
  abbrev after : MemberModeration
  after = moderation_after room subject p now db

  abbrev written : Database
  written = record db { controls = store_control after db.controls }

  abbrev audit : Result Database
  audit =
      insert_audit l audited AuditAction.member_moderation_updated (named actor) (some room)
        (Details.moderated subject after.muted_until after.banned_until) written

  abbrev report : Database → Result Database
  report db₁ =
      insert_webhook l delivery EventType.member_moderation_updated room subject now
        (EventBody.moderated actor after) db₁

  -- Why an update is refused: no such room, or, late, a repeated identifier or a full outbox.
  abbrev pub Unmoderated : StoreError → Type 0
  Unmoderated e =
      ((exists (λ r. r.id == room) db.rooms ≡ false) × (e ≡ room_not_found room))
      ⊎ ((e ≡ webhook_capacity) ⊎ (e ≡ integrity))

  reported-IsModerated :
      (db₁ db₂ : Database)
      → AuditOnly written db₁
      → OutboxOnly db₁ db₂
      → IsModerated room subject p now db after db₂
  unfolding enforce_member_write
  reported-IsModerated db₁ db₂ a o =
      let same : db₂.controls ≡ store_control after db.controls =
        ap (λ (t : Database). t.controls) o ∙ ap (λ (t : Database). t.controls) a in
      let old = find_control room subject db in
      record {
        names_room = refl;
        names_subject = refl;
        muted = rw (old_muted-eq old) (new_limit-LimitSet p.muted_for_seconds now (old_muted old));
        banned =
            rw (old_banned-eq old) (new_limit-LimitSet p.banned_for_seconds now (old_banned old));
        updated = refl;
        decides = λ at.
            rw (same, fetch-store_control after db.controls) (enforce-stored after subject at);
        others = λ room' subject' other.
            rw same (other-store_control after room' subject' (ground arith) db.controls);
      }

  -- An update is refused where the room is not there, or late: on a repeated identifier or a full
  -- outbox. Otherwise it returns the limits that its durations ask for: a missing duration keeps the
  -- old limit, zero clears it, and seconds run from the time of the update. They decide
  -- every later write of the member in the room: banned, else muted, else allowed, at any instant. No
  -- other member's control changes.
  pub set_member_moderation-Outcome :
      Outcome Unmoderated
        (λ r. IsModerated room subject p now db r.0 r.1)
        (set_member_moderation l room subject p actor now audited delivery db)
  unfolding set_member_moderation
  set_member_moderation-Outcome =
      let P = λ (r : MemberModeration × Database). IsModerated room subject p now db r.0 r.1 in
      Outcome-raise_if Unmoderated P (not (exists (λ r. r.id == room) db.rooms))
        (room_not_found room) _ (λ e. inl (ground arith, refl))
        λ _.
          Outcome-after (λ e. e ≡ integrity) (AuditOnly written) Unmoderated P audit
            (λ db₁. report db₁ >>= λ db₂. ok (after, db₂))
            (insert_audit-Outcome l audited AuditAction.member_moderation_updated (named actor)
              (some room) (Details.moderated subject after.muted_until after.banned_until) written)
            (λ e h. inr (inr h))
            λ db₁ a.
              Outcome-after {B = MemberModeration × Database}
                (λ e. (e ≡ webhook_capacity) ⊎ (e ≡ integrity)) (OutboxOnly db₁) Unmoderated P
                (report db₁) (λ db₂. ok (after, db₂))
                (insert_webhook-Outcome l delivery EventType.member_moderation_updated room subject
                  now (EventBody.moderated actor after) db₁)
                (λ e h. inr h) λ db₂ o. reported-IsModerated db₁ db₂ a o
