-- ===== src/EventLog.antt =====
-- samsarix_chat_engine/postgres.py: the log of realtime events, its retention and the cursors of the
-- instances that read it. A transaction is one step, and `now` is its clock_timestamp().
pub mod Instances
pub mod Reading
pub mod Relay
pub mod Retention
pub mod Cursors
pub mod Held
pub mod Ascending
pub mod Sound
pub mod Begins
pub mod History
pub mod Delivery
pub mod Standing
pub mod Acknowledging
pub mod Relayed
pub mod Progress
mod Examples
use samsarix_chat_engine.Base.{
  ℕ, ◌+◌, ◌*◌, ◌==◌, leb, ltb, max, Bool, true, false, not, ◌&&◌, ◌||◌, Option, none, some, List,
  [], ◌∷◌, ◌++◌, drop, take, if◌then◌else◌,
}
use samsarix_chat_engine.Base.Sql.{select, delete, head?}
use samsarix_chat_engine.Base.Order.{order_by, among}
use samsarix_chat_engine.Base.Raises.{Raises, raises, returns, ◌>>=◌, ◌>>◌, raise_if}
use samsarix_chat_engine.Store.Tables.{Text, Time}

-- A row of samsarix_realtime_events.
pub record Event : Type 0 where
  pub sequence : ℕ
  pub room_id : Text
  pub event_type : Text
  pub payload : Text
  pub created_at : Time

-- A row of samsarix_instance_cursors; generations are UUIDs.
pub record Cursor : Type 0 where
  pub instance_id : Text
  pub generation : Text
  pub last_sequence : ℕ
  pub lease_expires_at : Time

-- The two tables, the identity column and the single row of samsarix_realtime_retention.
pub record EventLog : Type 0 where
  pub events : List Event
  pub next_sequence : ℕ
  pub pruned_through : ℕ
  pub cursors : List Cursor

-- InstanceLeaseError by its cause, EventLogGapError, EventLogLagError, ValueError.
pub data LogError : Type 0 where
  lease_missing lease_taken no_gap past_head not_an_event : LogError
  gap lag_count lag_age : LogError
  bad_value : LogError

abbrev pub sequence_of : Event → ℕ
sequence_of e = e.sequence

-- COALESCE(MAX(sequence), 0)
abbrev pub max_sequence : List Event → ℕ
max_sequence [] = 0
max_sequence (e ∷ es) = max e.sequence (max_sequence es)

-- GREATEST(MAX(sequence), pruned_through_sequence)
abbrev pub current_head : EventLog → ℕ
current_head log = max (max_sequence log.events) log.pruned_through

-- `event_retention_floor`
abbrev pub event_retention_floor : EventLog → ℕ
event_retention_floor log = log.pruned_through

-- `append_event`, which holds the sequence lock until its transaction commits.
abbrev pub new_event : Text → Text → Text → Time → EventLog → Event
new_event room kind payload now log = record {
  sequence = log.next_sequence;
  room_id = room;
  event_type = kind;
  payload = payload;
  created_at = now;
}

unfoldable pub append_event : Text → Text → Text → Time → EventLog → ℕ × EventLog
append_event room kind payload now log = (
  log.next_sequence,
  record log {
    events = log.events ++ new_event room kind payload now log ∷ [];
    next_sequence = log.next_sequence + 1;
  },
)

abbrev pub has_lease : Time → Cursor → Bool
has_lease now c = ltb now c.lease_expires_at

-- MIN(last_sequence)
abbrev pub lower : Option ℕ → ℕ → ℕ
lower none n = n
lower (some m) n = if leb n m then n else m

abbrev pub min_sequence : List Cursor → Option ℕ
min_sequence [] = none
min_sequence (c ∷ cs) = some (lower (min_sequence cs) c.last_sequence)

abbrev pub or_head : EventLog → Option ℕ → ℕ
or_head log none = current_head log
or_head log (some n) = n

-- Up to here every active instance has read.
abbrev pub safe_through : Time → EventLog → ℕ
safe_through now log = or_head log (min_sequence (select (has_lease now) log.cursors))

abbrev pub earlier : Event → Event → Bool
earlier a b = ltb a.sequence b.sequence

abbrev pub later : Event → Event → Bool
later a b = ltb b.sequence a.sequence

-- The newest event past the first `max_events`
abbrev pub count_cutoff : ℕ → List Event → Option Event
count_cutoff max_events events = head? (drop max_events (order_by later events))

abbrev pub is_over : Option Event → Event → Bool
is_over none e = false
is_over (some c) e = leb e.sequence c.sequence

abbrev pub seconds : ℕ → ℕ
seconds n = n * 1000000

abbrev pub is_prunable : Time → ℕ → ℕ → EventLog → Event → Bool
is_prunable now max_events max_age_seconds log e =
    leb e.sequence (safe_through now log)
    && (ltb (e.created_at + seconds max_age_seconds) now
        || is_over (count_cutoff max_events log.events) e)

abbrev pub last_sequence : ℕ → List Event → ℕ
last_sequence n [] = n
last_sequence n (e ∷ es) = last_sequence e.sequence es

abbrev pub prune_chosen : List Event → EventLog → EventLog
prune_chosen [] log = log
prune_chosen (e ∷ es) log = record log {
  events = delete (among sequence_of (e ∷ es)) log.events;
  pruned_through = max log.pruned_through (last_sequence e.sequence es);
}

abbrev pub pruned : Time → ℕ → ℕ → ℕ → (Event → Bool) → EventLog → List Event
pruned now max_events max_age_seconds limit locked log = take limit (
    order_by earlier
      (select (λ e. is_prunable now max_events max_age_seconds log e && not (locked e)) log.events))

-- `lo <= n <= hi`
abbrev pub ranges : ℕ → ℕ → ℕ → Bool
ranges lo hi n = leb lo n && leb n hi

-- `prune_events`; `locked` are the rows that SKIP LOCKED passes over.
unfoldable pub prune_events :
    Time → ℕ → ℕ → ℕ → (Event → Bool) → EventLog → Raises LogError EventLog
prune_events now max_events max_age_seconds limit locked log = do
  raise_if (not (ranges 1 10000000 max_events)) bad_value
  raise_if (not (ranges 60 31536000 max_age_seconds)) bad_value
  raise_if (not (ranges 1 10000 limit)) bad_value
  returns (prune_chosen (pruned now max_events max_age_seconds limit locked log) log)
