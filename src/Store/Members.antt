-- ===== src/Store/Members.antt =====
-- Mutes and bans of samsarix_chat_engine/store.py: `_set_member_moderation_sync`,
-- `get_member_moderation` and `_enforce_member_write_sync`.
pub mod Enforcement
use samsarix_chat_engine.Base.{
  ℕ, ◌+◌, ◌*◌, ◌==◌, ltb, Bool, true, false, not, ◌&&◌, is_some, Option, none, some, List, [], ◌∷◌,
  ◌++◌, if◌then◌else◌,
}
use samsarix_chat_engine.Base.Sql.{exists, update, fetch, delete}
use samsarix_chat_engine.Store.Tables.{
  Text, Time, Stamp, MemberModeration, AuditAction, EventType, EventBody, Details, Database, Limits,
  Result, ok, ◌>>=◌, ◌>>◌, raise_if, room_not_found, member_muted, member_banned, named,
}
use samsarix_chat_engine.Store.Audit.{insert_audit}
use samsarix_chat_engine.Store.Outbox.{insert_webhook}

-- WHERE room_id = ? AND subject = ?
abbrev pub of_member : Text → Text → MemberModeration → Bool
of_member room subject c = c.room_id == room && c.subject == subject

abbrev pub find_control : Text → Text → Database → Option MemberModeration
find_control room subject db = fetch (of_member room subject) db.controls

abbrev pub get_member_moderation : Text → Text → Database → Option MemberModeration
get_member_moderation = find_control

-- `until is not None and until > now`
abbrev pub is_active : Option Time → Time → Bool
is_active none now = false
is_active (some t) now = ltb now t

abbrev pub enforce_control : Option MemberModeration → Text → Time → Result (Unit {0})
enforce_control none subject now = ok tt
enforce_control (some c) subject now =
    raise_if (is_active c.banned_until now) (member_banned subject)
    >> raise_if (is_active c.muted_until now) (member_muted subject)

-- No subject, or one with no control, passes.
unfoldable pub enforce_member_write : Text → Option Text → Time → Database → Result (Unit {0})
enforce_member_write room none now db = ok tt
enforce_member_write room (some subject) now db =
    enforce_control (find_control room subject db) subject now

pub record MemberModerationUpdate : Type 0 where
  pub muted_for_seconds : Option ℕ
  pub banned_for_seconds : Option ℕ

abbrev pub second : Time
second = 1000000

-- No duration keeps the old limit, and a duration of zero clears it.
abbrev pub new_limit : Option ℕ → Option Time → Time → Option Time
new_limit none old now = old
new_limit (some s) old now = if s == 0 then none else some (now + s * second)

abbrev pub old_muted : Option MemberModeration → Option Time
old_muted none = none
old_muted (some c) = c.muted_until

abbrev pub old_banned : Option MemberModeration → Option Time
old_banned none = none
old_banned (some c) = c.banned_until

abbrev pub moderation_after :
    Text → Text → MemberModerationUpdate → Time → Database → MemberModeration
moderation_after room subject p now db = record {
  room_id = room;
  subject = subject;
  muted_until = new_limit p.muted_for_seconds (old_muted (find_control room subject db)) now;
  banned_until = new_limit p.banned_for_seconds (old_banned (find_control room subject db)) now;
  updated_at = now;
}

-- INSERT … ON CONFLICT(room_id, subject) DO UPDATE
abbrev pub upsert_control : MemberModeration → List MemberModeration → List MemberModeration
upsert_control c rows =
    if exists (of_member c.room_id c.subject) rows
    then update (of_member c.room_id c.subject) (λ _. c) rows
    else rows ++ c ∷ []

abbrev pub store_control : MemberModeration → List MemberModeration → List MemberModeration
store_control c rows =
    if not (is_some c.muted_until) && not (is_some c.banned_until)
    then delete (of_member c.room_id c.subject) rows
    else upsert_control c rows

unfoldable pub set_member_moderation :
    Limits
    → Text
    → Text
    → MemberModerationUpdate
    → Text
    → Time
    → Stamp
    → Text
    → Database
    → Result (MemberModeration × Database)
set_member_moderation l room subject p actor now audited delivery db = do
  raise_if (not (exists (λ r. r.id == room) db.rooms)) (room_not_found room)
  let c = moderation_after room subject p now db
  let written = record db { controls = store_control c db.controls }
  db₁ ←
      insert_audit l audited AuditAction.member_moderation_updated (named actor) (some room)
        (Details.moderated subject c.muted_until c.banned_until) written
  db₂ ←
      insert_webhook l delivery EventType.member_moderation_updated room subject now
        (EventBody.moderated actor c) db₁
  ok (c, db₂)
