-- ===== src/EventLog/Relay.antt =====
-- One instance that relays the log (`PostgresRealtimeRelay`), among any other transactions: the world
-- that its reads and acknowledgements make, and the steps of all.
use samsarix_chat_engine.Base.{ℕ, ◌≡◌, ◌≢◌, Bool, Option, none, some, List, [], ◌∷◌, ◌++◌, take}
use samsarix_chat_engine.Base.Raises.{Raises, returns}
use samsarix_chat_engine.Store.Tables.{Text, Time}
use samsarix_chat_engine.EventLog.{
  Event, EventLog, LogError, append_event, new_event, prune_events, last_sequence,
}
use samsarix_chat_engine.EventLog.Instances.{
  InstanceRegistration, register_instance, claim_instance, release_instance,
  heartbeat_claimed_instance, heartbeat_instance, recover_instance_after_gap,
  recover_claimed_instance_after_gap, resynchronize_claimed_instance,
}
use samsarix_chat_engine.EventLog.Reading.{read_events, acknowledge_events}

-- The configuration of a relay, and the generation under which it claims.
pub record Relay : Type 0 where
  pub instance_id : Text
  pub generation : Text
  pub batch_size : ℕ
  pub max_pending_events : ℕ
  pub max_event_age_seconds : ℕ

-- The log with all events that were ever appended; where the generation of the relay began; what it
-- has dispatched of its batch, and what it has dispatched and acknowledged since.
pub record World : Type 0 where
  pub log : EventLog
  pub history : List Event
  pub began : Option ℕ
  pub sent : List Event
  pub delivered : List Event

abbrev pub with_log : EventLog → World → World
with_log log w = record w { log = log }

-- The read of `process_once`, of which the first `count` events are dispatched before one fails.
unfoldable pub read_batch : Relay → Time → EventLog → Raises LogError (List Event)
read_batch r now log =
    read_events r.instance_id (some r.generation) r.batch_size (some r.max_pending_events)
      (some r.max_event_age_seconds) now log

-- `finally: if dispatched_sequence is not None: acknowledge_events(…)`
unfoldable pub acknowledge_batch :
    Relay → Event → List Event → Time → EventLog → Raises LogError (ℕ × EventLog)
acknowledge_batch r e es now log =
    acknowledge_events r.instance_id (some r.generation) (last_sequence e.sequence es) now log

abbrev pub appended : Text → Text → Text → Time → World → World
appended room kind payload now w = record w {
  log = (append_event room kind payload now w.log).1;
  history = w.history ++ new_event room kind payload now w.log ∷ [];
}

-- Other transactions draw other UUIDs than the generation of the relay, and acknowledge for other
-- instances.
pub data RelayStep (r : Relay) (w : World) : World → Type 0 where
  starts :
      (generation : Option Text) (now : Time) (lease : ℕ) {reg : InstanceRegistration}
      {log : EventLog}
      → claim_instance r.instance_id generation r.generation now lease w.log ≡ returns (reg, log)
      → reg.generation ≡ r.generation
      → RelayStep r w
          (record w { log = log; began = some reg.last_sequence; sent = []; delivered = [] })
  resumes :
      (g : Text) (now : Time) (lease : ℕ) {reg : InstanceRegistration} {log : EventLog}
      → resynchronize_claimed_instance r.instance_id g r.generation now lease w.log
        ≡ returns (reg, log)
      → RelayStep r w
          (record w { log = log; began = some reg.last_sequence; sent = []; delivered = [] })
  reads :
      (now : Time) (count : ℕ) {events : List Event}
      → read_batch r now w.log ≡ returns events
      → RelayStep r w (record w { sent = take count events })
  acknowledges :
      (now : Time) (e : Event) (es : List Event) {n : ℕ} {log : EventLog}
      → w.sent ≡ e ∷ es
      → acknowledge_batch r e es now w.log ≡ returns (n, log)
      → RelayStep r w (record w { log = log; sent = []; delivered = w.delivered ++ w.sent })
  abandons : RelayStep r w (record w { sent = [] })
  appends :
      (room kind payload : Text) (now : Time) → RelayStep r w (appended room kind payload now w)
  prunes :
      (now : Time) (max_events max_age limit : ℕ) (locked : Event → Bool) {log : EventLog}
      → prune_events now max_events max_age limit locked w.log ≡ returns log
      → RelayStep r w (with_log log w)
  registers :
      (i fresh : Text) (now : Time) (lease : ℕ) {n : ℕ} {log : EventLog}
      → fresh ≢ r.generation
      → register_instance i fresh now lease w.log ≡ returns (n, log)
      → RelayStep r w (with_log log w)
  claims :
      (i : Text) (generation : Option Text) (fresh : Text) (now : Time) (lease : ℕ)
      {reg : InstanceRegistration} {log : EventLog}
      → fresh ≢ r.generation
      → claim_instance i generation fresh now lease w.log ≡ returns (reg, log)
      → RelayStep r w (with_log log w)
  releases :
      (i g : Text) (now : Time) → RelayStep r w (with_log (release_instance i g now w.log).1 w)
  beats :
      (i g : Text) (now : Time) (lease : ℕ) {log : EventLog}
      → heartbeat_claimed_instance i g now lease w.log ≡ returns log
      → RelayStep r w (with_log log w)
  beats_any :
      (i : Text) (now : Time) (lease : ℕ) {log : EventLog}
      → heartbeat_instance i now lease w.log ≡ returns log
      → RelayStep r w (with_log log w)
  recovers :
      (i fresh : Text) (now : Time) (lease : ℕ) {reg : InstanceRegistration} {log : EventLog}
      → fresh ≢ r.generation
      → recover_instance_after_gap i fresh now lease w.log ≡ returns (reg, log)
      → RelayStep r w (with_log log w)
  recovers_claimed :
      (i g fresh : Text) (now : Time) (lease : ℕ) {reg : InstanceRegistration} {log : EventLog}
      → fresh ≢ r.generation
      → recover_claimed_instance_after_gap i g fresh now lease w.log ≡ returns (reg, log)
      → RelayStep r w (with_log log w)
  resynchronizes :
      (i g recovery : Text) (now : Time) (lease : ℕ) {reg : InstanceRegistration} {log : EventLog}
      → recovery ≢ r.generation
      → resynchronize_claimed_instance i g recovery now lease w.log ≡ returns (reg, log)
      → RelayStep r w (with_log log w)
  acknowledges_other :
      (i : Text) (generation : Option Text) (through : ℕ) (now : Time) {n : ℕ} {log : EventLog}
      → i ≢ r.instance_id
      → acknowledge_events i generation through now w.log ≡ returns (n, log)
      → RelayStep r w (with_log log w)

abbrev pub empty_world : World
empty_world = record {
  log = record { events = []; next_sequence = 1; pruned_through = 0; cursors = [] };
  history = [];
  began = none;
  sent = [];
  delivered = [];
}

pub data Reachable (r : Relay) : World → Type 0 where
  initially : Reachable r empty_world
  and_then : {w v : World} → Reachable r w → RelayStep r w v → Reachable r v
