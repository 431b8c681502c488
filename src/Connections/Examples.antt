-- ===== src/Connections/Examples.antt =====
-- A manager through a registration, a queued event, its send and a detachment in the middle of it.
use samsarix_chat_engine.Base.{◌≤◌, true, false, ◌≡◌, refl, none, some, [], ◌∷◌}
use samsarix_chat_engine.Connections.{
  ManagerLimits, ConnectionManager, initial, Registration, register, detach_connection, Broadcast,
  offer, broadcast, begin_send, finish_send,
}
use samsarix_chat_engine.Connections.Budget.{IsBudgeted}
use samsarix_chat_engine.Connections.Steps.{
  Reachable, made, stepped, registers, detaches, broadcasts, begins, finishes, start_of_round,
}
use samsarix_chat_engine.Store.Tables.{Text}
use samsarix_chat_engine.Base.Sql.{count}
use samsarix_chat_engine.Connections.Rooms.{is_of_room}
use samsarix_chat_engine.Connections.Index.{IsIndexed}
use samsarix_chat_engine.Connections.Runs.{
  Reachable-IsBudgeted, Reachable-total, Reachable-IsIndexed,
}

abbrev limits : ManagerLimits
limits = record {
  max_connections = 2;
  max_per_room = 1;
  max_pending_events = 2;
  max_pending_bytes = 100;
  max_total_pending_bytes = 150;
}

abbrev newcomer : Registration
newcomer = record {
  socket = 7;
  room_id = 1;
  username = 20;
  subject = some 30;
  permissions = [];
  connection_id = none;
  broadcast_ready = false;
  after_sequence = none;
}

abbrev news : Broadcast
news = record {
  exclude = none;
  exclude_connection_id = none;
  event_sequence = none;
  required_permission = none;
  buffered = some (record { payload = 5; size = 60 });
}

abbrev joined : ConnectionManager
joined = (register limits newcomer true initial).1

abbrev queued : ConnectionManager
queued = (broadcast limits 99 news (7 ∷ []) (start_of_round joined)).manager

abbrev sent : ConnectionManager
sent = (begin_send 7 0 queued).1

abbrev left : ConnectionManager
left = (detach_connection 7 sent).1

abbrev finished : ConnectionManager
finished = finish_send 0 left

reach_left : Reachable limits 99 left
reach_left =
    stepped
      (stepped
        (stepped (stepped made (registers initial newcomer true)) (broadcasts joined news (7 ∷ [])))
        (begins queued 7 0))
      (detaches sent 7)

budget_example :
    IsBudgeted limits left × ((room : Text) → count (is_of_room room) left.metadata ≤ 1)
budget_example = Reachable-IsBudgeted limits 99 reach_left

-- The detached connection is still charged for what it sends, until the send has ended.
left_total : left.total ≡ 60
unfolding register broadcast offer begin_send detach_connection
left_total = refl

total_example : finished.total ≡ 0
unfolding register broadcast offer begin_send detach_connection finish_send
total_example = Reachable-total limits 99 (stepped reach_left (finishes left 0)) refl (refl, tt)

index_example : IsIndexed left
index_example = Reachable-IsIndexed limits 99 reach_left
