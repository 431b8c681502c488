-- ===== src/EventLog/Instances.antt =====
-- The leases of instances: claims, heartbeats, releases and the recovery after a gap. Each takes the
-- UUID that gen_random_uuid() may draw.
use samsarix_chat_engine.Base.{
  ℕ, ◌+◌, ◌==◌, leb, Bool, not, ◌&&◌, ◌||◌, holds, Option, none, some, List, [], ◌∷◌, ◌++◌,
  if◌then◌else◌,
}
use samsarix_chat_engine.Base.Sql.{exists, fetch, update}
use samsarix_chat_engine.Base.Raises.{Raises, returns, ◌>>=◌, ◌>>◌, raise_if, or_raise}
use samsarix_chat_engine.Store.Tables.{Text, Time}
use samsarix_chat_engine.EventLog.{
  Cursor, EventLog, LogError, lease_missing, lease_taken, no_gap, bad_value, current_head,
  has_lease, seconds, ranges,
}

abbrev pub of_instance : Text → Cursor → Bool
of_instance i c = c.instance_id == i

abbrev pub of_generation : Text → Text → Cursor → Bool
of_generation i g c = c.instance_id == i && c.generation == g

abbrev pub lease_until : Time → ℕ → Cursor → Cursor
lease_until now lease_seconds c = record c { lease_expires_at = now + seconds lease_seconds }

abbrev pub set_cursors : List Cursor → EventLog → EventLog
set_cursors cs log = record log { cursors = cs }

abbrev pub new_cursor : Text → Text → Time → ℕ → EventLog → Cursor
new_cursor i fresh now lease_seconds log = record {
  instance_id = i;
  generation = fresh;
  last_sequence = current_head log;
  lease_expires_at = now + seconds lease_seconds;
}

-- A generation and the cursor that it starts from.
pub record InstanceRegistration : Type 0 where
  pub generation : Text
  pub last_sequence : ℕ

abbrev pub check_lease : ℕ → Raises LogError (Unit {0})
check_lease lease_seconds = raise_if (not (ranges 1 300 lease_seconds)) bad_value

abbrev pub registered : Cursor → EventLog → Raises LogError (InstanceRegistration × EventLog)
registered c log =
    returns (record { generation = c.generation; last_sequence = c.last_sequence }, log)

-- ON CONFLICT: a lease that ran out gets a new generation, the cursor stays.
abbrev pub renewed_on_conflict : Text → Time → ℕ → Cursor → Cursor
renewed_on_conflict fresh now lease_seconds c = record c {
  generation = if has_lease now c then c.generation else fresh;
  lease_expires_at = now + seconds lease_seconds;
}

abbrev pub register_as : Text → Text → Time → ℕ → EventLog → Option Cursor → ℕ × EventLog
register_as i fresh now lease_seconds log none =
    let c = new_cursor i fresh now lease_seconds log in
    (c.last_sequence, set_cursors (log.cursors ++ c ∷ []) log)
register_as i fresh now lease_seconds log (some c) = (
  c.last_sequence,
  set_cursors (update (of_instance i) (renewed_on_conflict fresh now lease_seconds) log.cursors)
      log,
)

unfoldable pub register_instance :
    Text → Text → Time → ℕ → EventLog → Raises LogError (ℕ × EventLog)
register_instance i fresh now lease_seconds log = do
  check_lease lease_seconds
  returns (register_as i fresh now lease_seconds log (fetch (of_instance i) log.cursors))

abbrev pub moved_to : Text → Time → ℕ → Cursor → Cursor
moved_to fresh now lease_seconds c = record c {
  generation = fresh;
  lease_expires_at = now + seconds lease_seconds;
}

abbrev pub claim :
    Text
    → Option Text
    → Text
    → Time
    → ℕ
    → EventLog
    → Option Cursor
    → Raises LogError (InstanceRegistration × EventLog)
claim i generation fresh now lease_seconds log none =
    let c = new_cursor i fresh now lease_seconds log in
    registered c (set_cursors (log.cursors ++ c ∷ []) log)
claim i generation fresh now lease_seconds log (some c) =
    if has_lease now c
    then (do
      raise_if (not (holds generation c.generation)) lease_taken
      registered c (
          set_cursors
            (update (of_generation i c.generation) (lease_until now lease_seconds) log.cursors)
            log))
    else registered (moved_to fresh now lease_seconds c)
        (set_cursors (update (of_instance i) (moved_to fresh now lease_seconds) log.cursors) log)

unfoldable pub claim_instance :
    Text
    → Option Text
    → Text
    → Time
    → ℕ
    → EventLog
    → Raises LogError (InstanceRegistration × EventLog)
claim_instance i generation fresh now lease_seconds log = do
  check_lease lease_seconds
  claim i generation fresh now lease_seconds log (fetch (of_instance i) log.cursors)

abbrev pub is_held : Text → Text → Time → Cursor → Bool
is_held i g now c = of_generation i g c && has_lease now c

-- Whether a row was changed, and the log.
unfoldable pub release_instance : Text → Text → Time → EventLog → Bool × EventLog
release_instance i g now log = (
  exists (is_held i g now) log.cursors,
  set_cursors (update (is_held i g now) (λ c. record c { lease_expires_at = now }) log.cursors) log,
)

unfoldable pub heartbeat_claimed_instance :
    Text → Text → Time → ℕ → EventLog → Raises LogError EventLog
heartbeat_claimed_instance i g now lease_seconds log = do
  check_lease lease_seconds
  raise_if (not (exists (is_held i g now) log.cursors)) lease_missing
  returns (set_cursors (update (is_held i g now) (lease_until now lease_seconds) log.cursors) log)

abbrev pub is_running : Text → Time → Cursor → Bool
is_running i now c = of_instance i c && has_lease now c

unfoldable pub heartbeat_instance : Text → Time → ℕ → EventLog → Raises LogError EventLog
heartbeat_instance i now lease_seconds log = do
  check_lease lease_seconds
  raise_if (not (exists (is_running i now) log.cursors)) lease_missing
  returns (set_cursors (update (is_running i now) (lease_until now lease_seconds) log.cursors) log)

-- A new generation at the head
abbrev pub restarted : Text → Time → ℕ → EventLog → Cursor → Cursor
restarted fresh now lease_seconds log c = record c {
  generation = fresh;
  last_sequence = current_head log;
  lease_expires_at = now + seconds lease_seconds;
}

abbrev pub restart :
    (Cursor → Bool)
    → Text
    → Time
    → ℕ
    → Cursor
    → EventLog
    → Raises LogError (InstanceRegistration × EventLog)
restart chosen fresh now lease_seconds c log =
    registered (restarted fresh now lease_seconds log c)
      (set_cursors (update chosen (restarted fresh now lease_seconds log) log.cursors) log)

unfoldable pub recover_instance_after_gap :
    Text → Text → Time → ℕ → EventLog → Raises LogError (InstanceRegistration × EventLog)
recover_instance_after_gap i fresh now lease_seconds log = do
  check_lease lease_seconds
  c ← or_raise (fetch (of_instance i) log.cursors) lease_missing
  raise_if (leb log.pruned_through c.last_sequence) no_gap
  restart (of_instance i) fresh now lease_seconds c log

unfoldable pub recover_claimed_instance_after_gap :
    Text → Text → Text → Time → ℕ → EventLog → Raises LogError (InstanceRegistration × EventLog)
recover_claimed_instance_after_gap i g fresh now lease_seconds log = do
  check_lease lease_seconds
  c ← or_raise (fetch (of_generation i g) log.cursors) lease_missing
  raise_if (leb log.pruned_through c.last_sequence) no_gap
  restart (of_generation i g) fresh now lease_seconds c log

abbrev pub of_either : Text → Text → Text → Cursor → Bool
of_either i g r c = c.instance_id == i && (c.generation == g || c.generation == r)

-- A retry that finds its own recovery generation only renews the lease.
unfoldable pub resynchronize_claimed_instance :
    Text → Text → Text → Time → ℕ → EventLog → Raises LogError (InstanceRegistration × EventLog)
resynchronize_claimed_instance i g recovery now lease_seconds log = do
  check_lease lease_seconds
  raise_if (g == recovery) bad_value
  c ← or_raise (fetch (of_either i g recovery) log.cursors) lease_missing
  if c.generation == recovery
      then registered c (
          set_cursors
            (update (of_generation i recovery) (lease_until now lease_seconds) log.cursors) log)
      else restart (of_generation i g) recovery now lease_seconds c log
