-- ===== src/EventLog/History.antt =====
-- The log against all events that were ever appended: past the retention mark it has every one.
use samsarix_chat_engine.Base.{
  ℕ, ◌≤◌, ◌<◌, leb, max, Bool, ◌≡◌, refl, sym, ap, ◌∙◌, Option, none, some, List, [], ◌∷◌, ◌++◌,
  arith,
}
use samsarix_chat_engine.Base.Sql.{select}
use samsarix_chat_engine.Base.Raises.{
  Raises, returns, Ends, Ends-raise_if, Ends-or_raise, Ends-if, Ends-returned,
}
use samsarix_chat_engine.Store.Tables.{Text, Time}
use samsarix_chat_engine.EventLog.{
  Event, EventLog, LogError, append_event, new_event, last_sequence, prune_chosen, pruned,
  prune_events,
}
use samsarix_chat_engine.EventLog.Reading.{comes_after, acknowledge_events}
use samsarix_chat_engine.EventLog.Relay.{
  Relay, World, RelayStep, Reachable, acknowledge_batch, starts, resumes, reads, acknowledges,
  abandons, appends, prunes, registers, claims, releases, beats, beats_any, recovers,
  recovers_claimed, resynchronizes, acknowledges_other, initially, and_then,
}
use samsarix_chat_engine.EventLog.Cursors.{
  Rewrites, register_instance-Rewrites, claim_instance-Rewrites, release_instance-Rewrites,
  heartbeat_claimed_instance-Rewrites, heartbeat_instance-Rewrites,
  recover_instance_after_gap-Rewrites, recover_claimed_instance_after_gap-Rewrites,
  resynchronize_claimed_instance-Rewrites,
}
use samsarix_chat_engine.EventLog.Ascending.{
  Ascending, Ascending-append, last_sequence-append, select_past-delete, select_past-twice,
  select-append,
}
use samsarix_chat_engine.EventLog.Sound.{
  Sound, AreChosen, Sound-Rewrites, append_event-Sound, pruned-AreChosen, prune_chosen-Sound,
  acknowledge_events-Sound,
}

pub record Complete (log : EventLog) (history : List Event) : Type 0 where
  pub sound : Sound log
  pub ascending : Ascending 0 history
  pub newest : last_sequence 0 history < log.next_sequence
  pub same :
      select (comes_after log.pruned_through) log.events
      ≡ select (comes_after log.pruned_through) history

Complete-Rewrites :
    {log' : EventLog} (fresh : Option Text) (log : EventLog) (history : List Event)
    → Rewrites fresh log log'
    → Complete log history
    → Complete log' history
Complete-Rewrites fresh log history (Rewrites.updates q f each) c = record {
  sound = Sound-Rewrites fresh log (Rewrites.updates q f each) c.sound;
  ascending = c.ascending;
  newest = c.newest;
  same = c.same;
}
Complete-Rewrites fresh log history (Rewrites.appends new absent is_fresh at_head) c = record {
  sound = Sound-Rewrites fresh log (Rewrites.appends new absent is_fresh at_head) c.sound;
  ascending = c.ascending;
  newest = c.newest;
  same = c.same;
}

-- Of a call that returned something beside the log
pub rewritten :
    {A : Type 0} {a : A} {log' : EventLog} (fresh : Option Text) (log : EventLog)
    (m : Raises LogError (A × EventLog))
    → Ends (λ (p : A × EventLog). Rewrites fresh log p.1) m
    → m ≡ returns (a, log')
    → Rewrites fresh log log'
rewritten {A} fresh log m h e = Ends-returned (λ (p : A × EventLog). Rewrites fresh log p.1) m h e

append_event-Complete :
    (room kind payload : Text) (now : Time) (log : EventLog) (history : List Event)
    → Complete log history
    → Complete
        (append_event room kind payload now log).1
        (history ++ new_event room kind payload now log ∷ [])
append_event-Complete room kind payload now log history c = record {
  sound = append_event-Sound room kind payload now log c.sound;
  ascending = Ascending-append 0 history e c.ascending c.newest;
  newest = unfold append_event in omega (arith, last_sequence-append 0 history e);
  same =
      unfold append_event in
      select-append (comes_after log.pruned_through) log.events (e ∷ [])
      ∙ ap (λ es. es ++ select (comes_after log.pruned_through) (e ∷ [])) c.same
      ∙ sym (select-append (comes_after log.pruned_through) history (e ∷ []));
}
  where
    e : Event
    e = new_event room kind payload now log

prune_chosen-Complete :
    (chosen : List Event) (log : EventLog) (history : List Event)
    → AreChosen log chosen
    → Complete log history
    → Complete (prune_chosen chosen log) history
prune_chosen-Complete [] log history k c = c
prune_chosen-Complete (e ∷ es) log history k c =
    let m = max log.pruned_through (last_sequence e.sequence es) in
    let later : log.pruned_through ≤ m = omega arith in
    record {
      sound = prune_chosen-Sound (e ∷ es) log k c.sound;
      ascending = c.ascending;
      newest = c.newest;
      same =
          select_past-delete (e ∷ es) m 0 log.events k.rising (omega arith)
          ∙ sym (select_past-twice log.pruned_through m log.events later)
          ∙ ap (select (comes_after m)) c.same
          ∙ select_past-twice log.pruned_through m history later;
    }

prune_events-Complete :
    (now : Time) (max_events max_age limit : ℕ) (locked : Event → Bool) (log : EventLog)
    (history : List Event)
    → Complete log history
    → Ends (λ log'. Complete log' history) (prune_events now max_events max_age limit locked log)
unfolding prune_events
prune_events-Complete now max_events max_age limit locked log history c = Ends-raise_if _ _ _ _ λ _.
    Ends-raise_if _ _ _ _ λ _. Ends-raise_if _ _ _ _ λ _.
      prune_chosen-Complete (pruned now max_events max_age limit locked log) log history
        (pruned-AreChosen now max_events max_age limit locked log c.sound) c

-- What an acknowledgement leaves as it was
abbrev AreKept : EventLog → EventLog → Type 0
AreKept log log' =
    (log'.events ≡ log.events)
    × (log'.next_sequence ≡ log.next_sequence)
    × (log'.pruned_through ≡ log.pruned_through)

acknowledge_events-AreKept :
    (i : Text) (generation : Option Text) (through : ℕ) (now : Time) (log : EventLog)
    → Ends (λ (p : ℕ × EventLog). AreKept log p.1) (acknowledge_events i generation through now log)
unfolding acknowledge_events
acknowledge_events-AreKept i generation through now log = Ends-or_raise _ _ _ _ λ c e.
    Ends-if (λ (p : ℕ × EventLog). AreKept log p.1) (leb through c.last_sequence) _ _
      (λ _. (refl, refl, refl))
      (λ _. Ends-raise_if _ _ _ _ λ _. Ends-raise_if _ _ _ _ λ _. (refl, refl, refl))

acknowledge_events-Complete :
    (i : Text) (generation : Option Text) (through : ℕ) (now : Time) (log log' : EventLog) (n : ℕ)
    (history : List Event)
    → Complete log history
    → acknowledge_events i generation through now log ≡ returns (n, log')
    → Complete log' history
acknowledge_events-Complete i generation through now log log' n history c e =
    let kept =
      Ends-returned (λ (p : ℕ × EventLog). AreKept log p.1)
        (acknowledge_events i generation through now log)
        (acknowledge_events-AreKept i generation through now log) e in
    record {
      sound =
          Ends-returned (λ (p : ℕ × EventLog). Sound p.1)
            (acknowledge_events i generation through now log)
            (acknowledge_events-Sound i generation through now log c.sound) e;
      ascending = c.ascending;
      newest = omega (arith, kept.1, c.newest);
      same = cc (kept.0, kept.2, c.same);
    }

pub RelayStep-Complete :
    (r : Relay) (w : World) {v : World}
    → RelayStep r w v
    → Complete w.log w.history
    → Complete v.log v.history
unfolding acknowledge_batch
RelayStep-Complete r w (starts generation now lease q own) c =
    Complete-Rewrites (some r.generation) w.log w.history
      (rewritten _ w.log _
        (claim_instance-Rewrites w.log r.instance_id generation r.generation now lease) q)
      c
RelayStep-Complete r w (resumes g now lease q) c =
    Complete-Rewrites (some r.generation) w.log w.history
      (rewritten _ w.log _
        (resynchronize_claimed_instance-Rewrites w.log r.instance_id g r.generation now lease) q)
      c
RelayStep-Complete r w (reads now count q) c = c
RelayStep-Complete r w (acknowledges now e es {n} {log} s q) c =
    acknowledge_events-Complete r.instance_id (some r.generation) (last_sequence e.sequence es) now
      w.log log n w.history c q
RelayStep-Complete r w abandons c = c
RelayStep-Complete r w (appends room kind payload now) c =
    append_event-Complete room kind payload now w.log w.history c
RelayStep-Complete r w (prunes now max_events max_age limit locked q) c =
    Ends-returned (λ log'. Complete log' w.history) _
      (prune_events-Complete now max_events max_age limit locked w.log w.history c) q
RelayStep-Complete r w (registers i fresh now lease other q) c =
    Complete-Rewrites (some fresh) w.log w.history
      (rewritten _ w.log _ (register_instance-Rewrites w.log i fresh now lease) q) c
RelayStep-Complete r w (claims i generation fresh now lease other q) c =
    Complete-Rewrites (some fresh) w.log w.history
      (rewritten _ w.log _ (claim_instance-Rewrites w.log i generation fresh now lease) q) c
RelayStep-Complete r w (releases i g now) c =
    Complete-Rewrites none w.log w.history (release_instance-Rewrites w.log i g now) c
RelayStep-Complete r w (beats i g now lease q) c =
    Complete-Rewrites none w.log w.history
      (Ends-returned (Rewrites none w.log) _
        (heartbeat_claimed_instance-Rewrites w.log i g now lease) q)
      c
RelayStep-Complete r w (beats_any i now lease q) c =
    Complete-Rewrites none w.log w.history
      (Ends-returned (Rewrites none w.log) _ (heartbeat_instance-Rewrites w.log i now lease) q) c
RelayStep-Complete r w (recovers i fresh now lease other q) c =
    Complete-Rewrites (some fresh) w.log w.history
      (rewritten _ w.log _ (recover_instance_after_gap-Rewrites w.log i fresh now lease) q) c
RelayStep-Complete r w (recovers_claimed i g fresh now lease other q) c =
    Complete-Rewrites (some fresh) w.log w.history
      (rewritten _ w.log _ (recover_claimed_instance_after_gap-Rewrites w.log i g fresh now lease)
        q)
      c
RelayStep-Complete r w (resynchronizes i g recovery now lease other q) c =
    Complete-Rewrites (some recovery) w.log w.history
      (rewritten _ w.log _ (resynchronize_claimed_instance-Rewrites w.log i g recovery now lease) q)
      c
RelayStep-Complete r w (acknowledges_other i generation through now {n} {log} other q) c =
    acknowledge_events-Complete i generation through now w.log log n w.history c q

-- After any transactions the log has, past its retention mark, exactly the events appended, with one
-- cursor for each instance, and none at the next sequence.
pub Reachable-Complete : (r : Relay) (w : World) → Reachable r w → Complete w.log w.history
Reachable-Complete r w initially = record {
  sound = record {
    ascending = tt;
    newest = omega arith;
    kept = omega arith;
    unique = tt;
    within = tt;
  };
  ascending = tt;
  newest = omega arith;
  same = refl;
}
Reachable-Complete r w (and_then {v = u} before step) =
    RelayStep-Complete r _ step (Reachable-Complete r _ before)
