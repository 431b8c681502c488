-- ===== src/EventLog/Delivery.antt =====
-- What a relay dispatches and acknowledges: from where its generation began up to its cursor, every
-- event that was appended, once and in order.
use samsarix_chat_engine.Base.{
  ℕ, ◌≤◌, ◌≡◌, sym, ap, ◌∙◌, Option, some, List, ◌++◌, drop, take, take-append-drop, arith,
}
use samsarix_chat_engine.Base.Sql.{select, fetch}
use samsarix_chat_engine.Base.Raises.{returns, Ends, Ends-raise_if, Ends-or_raise, Ends-returned}
use samsarix_chat_engine.Store.Tables.{Text, Time}
use samsarix_chat_engine.EventLog.{Event, Cursor, EventLog}
use samsarix_chat_engine.EventLog.Reading.{comes_after, past, is_reader, read_events}
use samsarix_chat_engine.EventLog.Relay.{Relay, World, Reachable}
use samsarix_chat_engine.EventLog.Ascending.{past-Ascending, select_past-twice}
use samsarix_chat_engine.EventLog.History.{Complete, Reachable-Complete}

-- What a read returns: a first part of all events past the cursor of the row that it reads by.
pub record IsPrefix (i : Text) (generation : Option Text) (now : Time) (log : EventLog)
    (history events : List Event) : Type 0 where
  pub reader : Cursor
  pub found : fetch (is_reader i generation now) log.cursors ≡ some reader
  pub left_over : List Event
  pub exact : events ++ left_over ≡ select (comes_after reader.last_sequence) history

read_past :
    (n limit : ℕ) (log : EventLog) (history : List Event)
    → Complete log history
    → log.pruned_through ≤ n
    → take limit (past n log.events) ++ drop limit (past n log.events)
      ≡ select (comes_after n) history
read_past n limit log history c k =
    take-append-drop limit (past n log.events)
    ∙ past-Ascending n 0 log.events c.sound.ascending
    ∙ sym (select_past-twice log.pruned_through n log.events k)
    ∙ ap (select (comes_after n)) c.same
    ∙ select_past-twice log.pruned_through n history k

pub read_events-prefix :
    (i : Text) (generation : Option Text) (limit : ℕ) (max_pending max_age : Option ℕ) (now : Time)
    (log : EventLog) (history : List Event)
    → Complete log history
    → Ends
        (IsPrefix i generation now log history)
        (read_events i generation limit max_pending max_age now log)
unfolding read_events
read_events-prefix i generation limit max_pending max_age now log history c =
    Ends-raise_if _ _ _ _ λ _. Ends-raise_if _ _ _ _ λ _. Ends-or_raise _ _ _ _ λ row found.
      Ends-raise_if _ _ _ _ λ no_gap. Ends-raise_if _ _ _ _ λ _. Ends-raise_if _ _ _ _ λ _. record {
        reader = row;
        found = found;
        left_over = drop limit (past row.last_sequence log.events);
        exact = read_past row.last_sequence limit log history c (ground arith);
      }

-- In every reachable world: the events that `read_events` returns, followed by some others, are exactly
-- all events ever appended past the cursor of the row that the read is made by. So a read that does not
-- raise skips nothing, and what retention took away before the cursor came to it raises instead.
pub read_events-IsPrefix :
    {events : List Event} (r : Relay) (w : World) (i : Text) (generation : Option Text) (limit : ℕ)
    (max_pending max_age : Option ℕ) (now : Time)
    → Reachable r w
    → read_events i generation limit max_pending max_age now w.log ≡ returns events
    → IsPrefix i generation now w.log w.history events
read_events-IsPrefix r w i generation limit max_pending max_age now reachable q =
    Ends-returned (IsPrefix i generation now w.log w.history) _
      (read_events-prefix i generation limit max_pending max_age now w.log w.history
        (Reachable-Complete r w reachable))
      q
