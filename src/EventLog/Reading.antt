-- ===== src/EventLog/Reading.antt =====
-- Reading the log past a cursor, and moving the cursor: `read_events` and `acknowledge_events`.
use samsarix_chat_engine.Base.{
  ℕ, ◌+◌, ◌==◌, leb, ltb, Bool, true, false, not, ◌&&◌, is_some, Option, none, some, List, drop,
  take, if◌then◌else◌,
}
use samsarix_chat_engine.Base.Sql.{select, exists, fetch, update, head?}
use samsarix_chat_engine.Base.Order.{order_by}
use samsarix_chat_engine.Base.Raises.{Raises, returns, ◌>>=◌, ◌>>◌, raise_if, or_raise}
use samsarix_chat_engine.Store.Tables.{Text, Time}
use samsarix_chat_engine.EventLog.{
  Event, Cursor, EventLog, LogError, lease_missing, gap, lag_count, lag_age, bad_value, past_head,
  not_an_event, current_head, has_lease, earlier, seconds, ranges,
}
use samsarix_chat_engine.EventLog.Instances.{of_instance, set_cursors}

-- `%s::UUID IS NULL OR generation = %s::UUID`
abbrev pub fits_generation : Option Text → Cursor → Bool
fits_generation none c = true
fits_generation (some g) c = c.generation == g

abbrev pub is_reader : Text → Option Text → Time → Cursor → Bool
is_reader i generation now c = of_instance i c && has_lease now c && fits_generation generation c

abbrev pub comes_after : ℕ → Event → Bool
comes_after n e = ltb n e.sequence

abbrev pub past : ℕ → List Event → List Event
past n events = order_by earlier (select (comes_after n) events)

abbrev pub lags_count : Option ℕ → ℕ → List Event → Bool
lags_count none n events = false
lags_count (some most) n events = is_some (head? (drop most (past n events)))

abbrev pub is_stale : ℕ → Time → Option Event → Bool
is_stale max_age now none = false
is_stale max_age now (some e) = ltb (e.created_at + seconds max_age) now

abbrev pub lags_age : Option ℕ → Time → ℕ → List Event → Bool
lags_age none now n events = false
lags_age (some max_age) now n events = is_stale max_age now (head? (past n events))

abbrev pub fits_range : ℕ → Option ℕ → Bool
fits_range hi none = true
fits_range hi (some n) = ranges 1 hi n

-- `_validate_lag_limits`
abbrev pub validate_lag_limits : Option ℕ → Option ℕ → Raises LogError (Unit {0})
validate_lag_limits max_pending max_age =
    raise_if (not (fits_range 100000 max_pending && fits_range 3600 max_age)) bad_value

unfoldable pub read_events :
    Text → Option Text → ℕ → Option ℕ → Option ℕ → Time → EventLog → Raises LogError (List Event)
read_events i generation limit max_pending max_age now log = do
  raise_if (not (ranges 1 1000 limit)) bad_value
  validate_lag_limits max_pending max_age
  c ← or_raise (fetch (is_reader i generation now) log.cursors) lease_missing
  raise_if (ltb c.last_sequence log.pruned_through) gap
  raise_if (lags_count max_pending c.last_sequence log.events) lag_count
  raise_if (lags_age max_age now c.last_sequence log.events) lag_age
  returns (take limit (past c.last_sequence log.events))

abbrev pub owned_by : Text → Option Text → Cursor → Bool
owned_by i generation c = of_instance i c && fits_generation generation c

abbrev pub advance : Text → Option Text → ℕ → EventLog → Raises LogError (ℕ × EventLog)
advance i generation through log = do
  raise_if (ltb (current_head log) through) past_head
  raise_if (not (exists (λ (e : Event). e.sequence == through) log.events)) not_an_event
  returns (
    through,
    set_cursors
        (update (owned_by i generation) (λ c. record c { last_sequence = through }) log.cursors)
        log,
  )

-- A cursor never moves back.
unfoldable pub acknowledge_events :
    Text → Option Text → ℕ → Time → EventLog → Raises LogError (ℕ × EventLog)
acknowledge_events i generation through now log = do
  c ← or_raise (fetch (is_reader i generation now) log.cursors) lease_missing
  if leb through c.last_sequence
      then returns (c.last_sequence, log)
      else advance i generation through log
