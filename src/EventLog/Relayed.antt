-- ===== src/EventLog/Relayed.antt =====
-- What a relay has dispatched and acknowledged after any steps of the system.
use samsarix_chat_engine.Base.{ℕ, ◌≡◌, ◌≢◌, Option, none, some, ◌++◌}
use samsarix_chat_engine.Base.Sql.{select}
use samsarix_chat_engine.Base.Raises.{returns, Ends-returned}
use samsarix_chat_engine.Store.Tables.{Text, Time}
use samsarix_chat_engine.EventLog.{EventLog}
use samsarix_chat_engine.EventLog.Reading.{comes_after, acknowledge_events}
use samsarix_chat_engine.EventLog.Relay.{
  Relay, World, RelayStep, Reachable, with_log, starts, resumes, reads, acknowledges, abandons,
  appends, prunes, registers, claims, releases, beats, beats_any, recovers, recovers_claimed,
  resynchronizes, acknowledges_other, initially, and_then,
}
use samsarix_chat_engine.EventLog.Cursors.{
  Rewrites, register_instance-Rewrites, claim_instance-Rewrites, release_instance-Rewrites,
  heartbeat_claimed_instance-Rewrites, heartbeat_instance-Rewrites,
  recover_instance_after_gap-Rewrites, recover_claimed_instance_after_gap-Rewrites,
  resynchronize_claimed_instance-Rewrites,
}
use samsarix_chat_engine.EventLog.Held.{Holds}
use samsarix_chat_engine.EventLog.Begins.{
  Agrees, claim_instance-Agrees, resynchronize_claimed_instance-Agrees,
}
use samsarix_chat_engine.EventLog.History.{
  Complete, rewritten, RelayStep-Complete, Reachable-Complete,
}
use samsarix_chat_engine.EventLog.Standing.{
  IsDelivering, begins, rewrites, others, prunes_others, appends_to, abandons_batch, reads_batch,
}
use samsarix_chat_engine.EventLog.Acknowledging.{
  IsUnmoved, acknowledges_batch, acknowledge_events-IsUnmoved,
}

is_other : {fresh : Text} (g : Text) → fresh ≢ g → ◌≢◌ {A = Option Text} (some fresh) (some g)
is_other {fresh} g other e = let same : fresh ≡ g = cc in other same

no_other : (g : Text) → ◌≢◌ {A = Option Text} none (some g)
no_other g e = cc

other_acknowledges :
    {k : ℕ} {log : EventLog} (r : Relay) (w : World) (i : Text) (generation : Option Text)
    (through : ℕ) (now : Time)
    → i ≢ r.instance_id
    → acknowledge_events i generation through now w.log ≡ returns (k, log)
    → IsDelivering r w
    → IsDelivering r (with_log log w)
other_acknowledges {k} {log} r w i generation through now other q =
    let u : IsUnmoved r.instance_id r.generation w.log log =
      Ends-returned (λ (p : ℕ × EventLog). IsUnmoved r.instance_id r.generation w.log p.1) _
        (acknowledge_events-IsUnmoved r.instance_id r.generation i generation through now w.log
          other)
        q in
    others r w log u.later u.stays

RelayStep-IsDelivering :
    (r : Relay) (w : World) {v : World}
    → RelayStep r w v
    → Complete w.log w.history
    → Complete v.log v.history
    → IsDelivering r w
    → IsDelivering r v
RelayStep-IsDelivering r w (starts generation now lease {reg} {log} q own) c c' d =
    begins r w reg log
      (Ends-returned (Agrees r.instance_id r.generation) _
        (claim_instance-Agrees r.instance_id r.generation generation r.generation now lease w.log)
        q)
      c'.sound
RelayStep-IsDelivering r w (resumes g now lease {reg} {log} q) c c' d =
    begins r w reg log
      (Ends-returned (Agrees r.instance_id r.generation) _
        (resynchronize_claimed_instance-Agrees r.instance_id r.generation g now lease w.log) q)
      c'.sound
RelayStep-IsDelivering r w (reads now count q) c c' d = reads_batch r w now count q c d
RelayStep-IsDelivering r w (acknowledges now e es s q) c c' d =
    acknowledges_batch r w now e es s q c d
RelayStep-IsDelivering r w abandons c c' d = abandons_batch r w d
RelayStep-IsDelivering r w (appends room kind payload now) c c' d =
    appends_to r w room kind payload now c.sound d
RelayStep-IsDelivering r w (prunes now max_events max_age limit locked q) c c' d =
    prunes_others r w now max_events max_age limit locked q d
RelayStep-IsDelivering r w (registers i fresh now lease other q) c c' d =
    rewrites r w (some fresh) (is_other r.generation other)
      (rewritten _ w.log _ (register_instance-Rewrites w.log i fresh now lease) q) d
RelayStep-IsDelivering r w (claims i generation fresh now lease other q) c c' d =
    rewrites r w (some fresh) (is_other r.generation other)
      (rewritten _ w.log _ (claim_instance-Rewrites w.log i generation fresh now lease) q) d
RelayStep-IsDelivering r w (releases i g now) c c' d =
    rewrites r w none (no_other r.generation) (release_instance-Rewrites w.log i g now) d
RelayStep-IsDelivering r w (beats i g now lease q) c c' d =
    rewrites r w none (no_other r.generation)
      (Ends-returned (Rewrites none w.log) _
        (heartbeat_claimed_instance-Rewrites w.log i g now lease) q)
      d
RelayStep-IsDelivering r w (beats_any i now lease q) c c' d =
    rewrites r w none (no_other r.generation)
      (Ends-returned (Rewrites none w.log) _ (heartbeat_instance-Rewrites w.log i now lease) q) d
RelayStep-IsDelivering r w (recovers i fresh now lease other q) c c' d =
    rewrites r w (some fresh) (is_other r.generation other)
      (rewritten _ w.log _ (recover_instance_after_gap-Rewrites w.log i fresh now lease) q) d
RelayStep-IsDelivering r w (recovers_claimed i g fresh now lease other q) c c' d =
    rewrites r w (some fresh) (is_other r.generation other)
      (rewritten _ w.log _ (recover_claimed_instance_after_gap-Rewrites w.log i g fresh now lease)
        q)
      d
RelayStep-IsDelivering r w (resynchronizes i g recovery now lease other q) c c' d =
    rewrites r w (some recovery) (is_other r.generation other)
      (rewritten _ w.log _ (resynchronize_claimed_instance-Rewrites w.log i g recovery now lease) q)
      d
RelayStep-IsDelivering r w (acknowledges_other i generation through now other q) c c' d =
    other_acknowledges r w i generation through now other q d

Reachable-IsDelivering : (r : Relay) (w : World) → Reachable r w → IsDelivering r w
Reachable-IsDelivering r w initially = λ n (c, found, gen, last). cc
Reachable-IsDelivering r w (and_then before step) =
    RelayStep-IsDelivering r _ step (Reachable-Complete r _ before)
      (RelayStep-Complete r _ step (Reachable-Complete r _ before))
      (Reachable-IsDelivering r _ before)

-- Where a relay began, and what it has acknowledged since
pub record IsRelayed (w : World) (n : ℕ) : Type 0 where
  pub origin : ℕ
  pub began : w.began ≡ some origin
  pub exactly :
      w.delivered ++ select (comes_after n) w.history ≡ select (comes_after origin) w.history

-- In every reachable world in which the row of the relay has its generation, at event `n`: the events
-- that it has dispatched and acknowledged, followed by all events ever appended past `n`, are exactly
-- all events ever appended past where its generation began, in order. So up to its cursor none was
-- skipped, repeated or reordered, whatever other instances, appends and retention did between.
pub Reachable-IsRelayed :
    (r : Relay) (w : World) (n : ℕ)
    → Reachable r w
    → Holds r.instance_id r.generation w.log.cursors n
    → IsRelayed w n
Reachable-IsRelayed r w n reachable held =
    let d = Reachable-IsDelivering r w reachable n held in
    record { origin = d.origin; began = d.began; exactly = d.complete }
