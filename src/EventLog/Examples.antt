-- ===== src/EventLog/Examples.antt =====
-- A relay that starts on an empty log and relays two events, and a prune behind it.
use samsarix_chat_engine.Base.{ℕ, ◌<◌, ◌≡◌, refl, false, none, some, [], ◌∷◌}
use samsarix_chat_engine.Base.Raises.{raises, returns, ◌>>=◌, raise_if, or_raise}
use samsarix_chat_engine.EventLog.{Event, Cursor, EventLog, gap, append_event, prune_events}
use samsarix_chat_engine.EventLog.Instances.{claim_instance}
use samsarix_chat_engine.EventLog.Reading.{read_events, acknowledge_events}
use samsarix_chat_engine.EventLog.Relay.{
  Relay, World, Reachable, read_batch, acknowledge_batch, initially, and_then, starts, reads,
  acknowledges, appends,
}
use samsarix_chat_engine.EventLog.Held.{Holds}
use samsarix_chat_engine.EventLog.History.{Complete, Reachable-Complete}
use samsarix_chat_engine.EventLog.Delivery.{IsPrefix, read_events-IsPrefix}
use samsarix_chat_engine.EventLog.Retention.{Spares, retention-Spares}
use samsarix_chat_engine.EventLog.Progress.{acknowledge_events-read_events}
use samsarix_chat_engine.EventLog.Relayed.{IsRelayed, Reachable-IsRelayed}

abbrev relay : Relay
relay = record {
  instance_id = 1;
  generation = 7;
  batch_size = 1;
  max_pending_events = 100;
  max_event_age_seconds = 60;
}

abbrev first_event : Event
first_event = record { sequence = 1; room_id = 5; event_type = 8; payload = 9; created_at = 2000 }

abbrev second_event : Event
second_event = record { sequence = 2; room_id = 5; event_type = 8; payload = 4; created_at = 3000 }

abbrev row : ℕ → Cursor
row n = record { instance_id = 1; generation = 7; last_sequence = n; lease_expires_at = 30001000 }

abbrev halfway : World
halfway = record {
  log = record {
    events = first_event ∷ second_event ∷ [];
    next_sequence = 3;
    pruned_through = 0;
    cursors = row 1 ∷ [];
  };
  history = first_event ∷ second_event ∷ [];
  began = some 0;
  sent = [];
  delivered = first_event ∷ [];
}

halfway-Reachable : Reachable relay halfway
unfolding claim_instance append_event read_batch read_events acknowledge_batch acknowledge_events
    ◌>>=◌ raise_if or_raise
halfway-Reachable =
    and_then
      (and_then
        (and_then
          (and_then (and_then initially (starts none 1000 30 refl refl)) (appends 5 8 9 2000))
          (appends 5 8 4 3000))
        (reads 4000 1 refl))
      (acknowledges 5000 first_event [] refl refl)

halfway-Holds : Holds 1 7 halfway.log.cursors 1
halfway-Holds = (row 1, refl, refl, refl)

Reachable-IsRelayed_example : IsRelayed halfway 1
Reachable-IsRelayed_example = Reachable-IsRelayed relay halfway 1 halfway-Reachable halfway-Holds

Reachable-Complete_example : Complete halfway.log halfway.history
Reachable-Complete_example = Reachable-Complete relay halfway halfway-Reachable

reads_second :
    read_events 1 (some 7) 10 (some 100) (some 60) 6000 halfway.log ≡ returns (second_event ∷ [])
unfolding read_events ◌>>=◌ raise_if or_raise
reads_second = refl

read_events-IsPrefix_example :
    IsPrefix 1 (some 7) 6000 halfway.log halfway.history (second_event ∷ [])
read_events-IsPrefix_example =
    read_events-IsPrefix relay halfway 1 (some 7) 10 (some 100) (some 60) 6000 halfway-Reachable
      reads_second

-- Eighty seconds later the first event is pruned, the second is not: the relay has not read it.
abbrev aged_log : EventLog
aged_log = record halfway.log { cursors = record (row 1) { lease_expires_at = 90000000 } ∷ [] }

abbrev aged_pruned : EventLog
aged_pruned = record aged_log { events = second_event ∷ []; pruned_through = 1 }

prunes_first : prune_events 80000000 1000 60 100 (λ e. false) aged_log ≡ returns aged_pruned
unfolding prune_events ◌>>=◌ raise_if
prunes_first = refl

retention-Spares_example : Spares 80000000 aged_log aged_pruned
retention-Spares_example =
    retention-Spares 80000000 1000 60 100 (λ e. false) aged_log aged_pruned prunes_first

-- A relay that had not read the first event is told of the gap.
left_behind :
    read_events 1 none 10 none none 80000000
      (record aged_pruned { cursors = record (row 0) { lease_expires_at = 90000000 } ∷ [] })
    ≡ raises gap
unfolding read_events ◌>>=◌ raise_if or_raise
left_behind = refl

-- The relay acknowledges the second event a second later.
acknowledge_events-read_events_example :
    (1 < 2)
    × (acknowledge_events 1 (some 7) 2 7000 halfway.log
        ≡ returns (2, record halfway.log { cursors = row 2 ∷ [] }))
acknowledge_events-read_events_example =
    acknowledge_events-read_events relay halfway 1 (some 7) 10 (some 100) (some 60) 6000 7000
      (row 1) halfway-Reachable reads_second refl
