-- ===== src/RateLimiter.antt =====
-- The in-memory limiter of samsarix_chat_engine/app.py: `MessageRateLimiter`, a sliding window of
-- accepted calls for each key. Its lock is never contended, since nothing is awaited under it.
pub mod Log
pub mod Windows
pub mod Entries
pub mod Capacity
pub mod Tracking
pub mod Refinement
mod Examples
use samsarix_chat_engine.Base.{
  ℕ, ◌+◌, ◌-◌, ◌==◌, leb, ltb, Bool, true, false, Option, none, some, List, [], ◌∷◌, ◌++◌, length,
  drop, if◌then◌else◌,
}
use samsarix_chat_engine.Base.Sql.{exists, update, delete}
use samsarix_chat_engine.Store.Tables.{Text, Time}

-- An entry of `_events`: a key and its deque, oldest first.
pub record Window : Type 0 where
  pub key : Text
  pub events : List Time

-- `_events`, in the order in which the keys were inserted.
pub record Limiter : Type 0 where
  pub limit : ℕ
  pub window : Time
  pub max_keys : ℕ
  pub windows : List Window

-- `event <= now - window_seconds`
abbrev pub has_left : Time → Time → Time → Bool
has_left window now event = leb (event + window) now

abbrev pub is_of : Text → Window → Bool
is_of key w = w.key == key

-- `self._events[key]` of a defaultdict
abbrev pub touch : Text → List Window → List Window
touch key ws = if exists (is_of key) ws then ws else ws ++ record { key = key; events = [] } ∷ []

abbrev pub events_of : Text → List Window → List Time
events_of key [] = []
events_of key (w ∷ ws) = if is_of key w then w.events else events_of key ws

-- `while events and events[0] <= cutoff: events.popleft()`
abbrev pub pop_past : Time → Time → List Time → List Time
pop_past window now [] = []
pop_past window now (e ∷ es) =
    let rest = pop_past window now es in if has_left window now e then rest else e ∷ es

abbrev pub expire : Time → Time → Window → Window
expire window now w = record w { events = pop_past window now w.events }

abbrev pub append_time : Time → Window → Window
append_time now w = record w { events = w.events ++ now ∷ [] }

abbrev pub last? : List Time → Option Time
last? [] = none
last? (e ∷ []) = some e
last? (e ∷ f ∷ es) = last? (f ∷ es)

-- `not events or events[-1] <= cutoff`
abbrev pub is_inactive : Time → Time → Window → Bool
is_inactive window now w = elim (last? w.events) [ none ↦ true | some e ↦ has_left window now e ]

-- Then the oldest keys go while there are more than `max_keys`.
abbrev pub discard_inactive : ℕ → Time → Time → List Window → List Window
discard_inactive max_keys window now ws =
    let active = delete (is_inactive window now) ws in drop (length active - max_keys) active

abbrev pub admit : Limiter → Text → Time → List Window → List Window
admit l key now ws =
    let recorded = update (is_of key) (append_time now) ws in
    if ltb l.max_keys (length recorded)
    then discard_inactive l.max_keys l.window now recorded
    else recorded

-- `now` is what `time.monotonic()` returns.
unfoldable pub allow : Text → Time → Limiter → Bool × Limiter
allow key now l =
    let ws = update (is_of key) (expire l.window now) (touch key l.windows) in
    if leb l.limit (length (events_of key ws))
    then (false, record l { windows = ws })
    else (true, record l { windows = admit l key now ws })
