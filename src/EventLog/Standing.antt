-- ===== src/EventLog/Standing.antt =====
-- A relay that holds its generation, after the steps of others and after its own reads.
use samsarix_chat_engine.Base.{
  append_assoc, ℕ, ◌≤◌, ◌<◌, ltb, Bool, true, ◌≡◌, ◌≢◌, refl, sym, ap, ◌∙◌, subst, Option, some,
  List, [], ◌∷◌, ◌++◌, drop, take, take-append-drop, arith,
}
use samsarix_chat_engine.Base.Sql.{select, All-fetch}
use samsarix_chat_engine.Base.Raises.{returns, Ends, Ends-raise_if, Ends-returned}
use samsarix_chat_engine.Store.Tables.{Text, Time}
use samsarix_chat_engine.EventLog.{
  Event, Cursor, EventLog, append_event, new_event, prune_events, prune_chosen, pruned,
}
use samsarix_chat_engine.EventLog.Instances.{InstanceRegistration, of_instance}
use samsarix_chat_engine.EventLog.Reading.{comes_after}
use samsarix_chat_engine.EventLog.Relay.{Relay, World, with_log, appended, read_batch}
use samsarix_chat_engine.EventLog.Ascending.{select-append}
use samsarix_chat_engine.EventLog.Cursors.{Rewrites}
use samsarix_chat_engine.EventLog.Held.{Holds, Holds-Rewrites}
use samsarix_chat_engine.EventLog.Begins.{Agrees, reader-fetch}
use samsarix_chat_engine.EventLog.Sound.{Sound, IsWithin}
use samsarix_chat_engine.EventLog.History.{Complete}
use samsarix_chat_engine.EventLog.Delivery.{IsPrefix, read_events-prefix}

-- The relay stands at `n`: what it has acknowledged, and what its batch is of.
pub record Delivers (w : World) (n : ℕ) : Type 0 where
  pub origin : ℕ
  pub began : w.began ≡ some origin
  pub exists_origin : origin < w.log.next_sequence
  pub complete :
      w.delivered ++ select (comes_after n) w.history ≡ select (comes_after origin) w.history
  pub left_over : List Event
  pub pending : w.sent ++ left_over ≡ select (comes_after n) w.history

abbrev pub IsDelivering : Relay → World → Type 0
IsDelivering r w = (n : ℕ) → Holds r.instance_id r.generation w.log.cursors n → Delivers w n

Holds-lt :
    (me g : Text) (log : EventLog) (n : ℕ)
    → Sound log
    → Holds me g log.cursors n
    → n < log.next_sequence
Holds-lt me g log n s (c, found, gen, last) =
    omega (arith, All-fetch (IsWithin log) (of_instance me) log.cursors s.within found, last)

pub begins :
    (r : Relay) (w : World) (reg : InstanceRegistration) (log : EventLog)
    → Agrees r.instance_id r.generation (reg, log)
    → Sound log
    → IsDelivering r
        (record w { log = log; began = some reg.last_sequence; sent = []; delivered = [] })
begins r w reg log agrees s n held = record {
  origin = reg.last_sequence;
  began = refl;
  exists_origin = omega (arith, agrees n held, Holds-lt r.instance_id r.generation log n s held);
  complete = ap (λ k. select (comes_after k) w.history) (agrees n held);
  left_over = select (comes_after n) w.history;
  pending = refl;
}

-- Steps that only change the log, and move the cursor of the relay nowhere
pub others :
    (r : Relay) (w : World) (log : EventLog)
    → w.log.next_sequence ≤ log.next_sequence
    → ((n : ℕ)
        → Holds r.instance_id r.generation log.cursors n
        → Holds r.instance_id r.generation w.log.cursors n)
    → IsDelivering r w
    → IsDelivering r (with_log log w)
others r w log later back d n held =
    let k = d n (back n held) in
    record {
      origin = k.origin;
      began = k.began;
      exists_origin = omega (arith, k.exists_origin, later);
      complete = k.complete;
      left_over = k.left_over;
      pending = k.pending;
    }

next-Rewrites :
    {log' : EventLog} (fresh : Option Text) (log : EventLog)
    → Rewrites fresh log log'
    → log.next_sequence ≤ log'.next_sequence
next-Rewrites fresh log (Rewrites.updates q f each) = omega arith
next-Rewrites fresh log (Rewrites.appends new absent is_fresh at_head) = omega arith

pub rewrites :
    {log : EventLog} (r : Relay) (w : World) (fresh : Option Text)
    → fresh ≢ some r.generation
    → Rewrites fresh w.log log
    → IsDelivering r w
    → IsDelivering r (with_log log w)
rewrites {log} r w fresh other k =
    others r w log (next-Rewrites fresh w.log k)
      (λ n. Holds-Rewrites r.instance_id r.generation fresh w.log n other k)

abbrev AreKept : EventLog → EventLog → Type 0
AreKept log log' = (log'.cursors ≡ log.cursors) × (log'.next_sequence ≡ log.next_sequence)

prune_chosen-AreKept :
    (chosen : List Event) (log : EventLog) → AreKept log (prune_chosen chosen log)
prune_chosen-AreKept [] log = (refl, refl)
prune_chosen-AreKept (e ∷ es) log = (refl, refl)

prune_events-AreKept :
    (now : Time) (max_events max_age limit : ℕ) (locked : Event → Bool) (log : EventLog)
    → Ends (AreKept log) (prune_events now max_events max_age limit locked log)
unfolding prune_events
prune_events-AreKept now max_events max_age limit locked log = Ends-raise_if _ _ _ _ λ _.
    Ends-raise_if _ _ _ _ λ _.
      Ends-raise_if _ _ _ _
        λ _. prune_chosen-AreKept (pruned now max_events max_age limit locked log) log

pub prunes_others :
    {log : EventLog} (r : Relay) (w : World) (now : Time) (max_events max_age limit : ℕ)
    (locked : Event → Bool)
    → prune_events now max_events max_age limit locked w.log ≡ returns log
    → IsDelivering r w
    → IsDelivering r (with_log log w)
prunes_others {log} r w now max_events max_age limit locked q =
    let k =
      Ends-returned (AreKept w.log) _
        (prune_events-AreKept now max_events max_age limit locked w.log) q in
    others r w log (omega (arith, k.1))
      (λ n. subst (λ cs. Holds r.instance_id r.generation cs n) k.0)

past-append :
    (n : ℕ) (h : List Event) (e : Event)
    → n < e.sequence
    → select (comes_after n) (h ++ e ∷ []) ≡ select (comes_after n) h ++ e ∷ []
past-append n h e k =
    let t : ltb n e.sequence ≡ true = ground arith in
    select-append (comes_after n) h (e ∷ []) ∙ rw t refl

pub appends_to :
    (r : Relay) (w : World) (room kind payload : Text) (now : Time)
    → Sound w.log
    → IsDelivering r w
    → IsDelivering r (appended room kind payload now w)
unfolding append_event
appends_to r w room kind payload now s d n held =
    let k = d n held in
    let e = new_event room kind payload now w.log in
    let past_n = past-append n w.history e (Holds-lt r.instance_id r.generation w.log n s held) in
    record {
      origin = k.origin;
      began = k.began;
      exists_origin = omega (arith, k.exists_origin);
      complete =
          ap (λ es. w.delivered ++ es) past_n
          ∙ sym (append_assoc w.delivered (select (comes_after n) w.history) (e ∷ []))
          ∙ ap (λ es. es ++ e ∷ []) k.complete
          ∙ sym (past-append k.origin w.history e k.exists_origin);
      left_over = k.left_over ++ e ∷ [];
      pending =
          sym (append_assoc w.sent k.left_over (e ∷ []))
          ∙ ap (λ es. es ++ e ∷ []) k.pending
          ∙ sym past_n;
    }

pub abandons_batch :
    (r : Relay) (w : World) → IsDelivering r w → IsDelivering r (record w { sent = [] })
abandons_batch r w d n held =
    let k = d n held in
    record {
      origin = k.origin;
      began = k.began;
      exists_origin = k.exists_origin;
      complete = k.complete;
      left_over = select (comes_after n) w.history;
      pending = refl;
    }

pub reads_batch :
    {events : List Event} (r : Relay) (w : World) (now : Time) (count : ℕ)
    → read_batch r now w.log ≡ returns events
    → Complete w.log w.history
    → IsDelivering r w
    → IsDelivering r (record w { sent = take count events })
unfolding read_batch
reads_batch {events} r w now count q c d n (row, found, gen, last) =
    let k = d n (row, found, gen, last) in
    let p : IsPrefix r.instance_id (some r.generation) now w.log w.history events =
      Ends-returned (IsPrefix r.instance_id (some r.generation) now w.log w.history) _
        (read_events-prefix r.instance_id (some r.generation) r.batch_size
          (some r.max_pending_events) (some r.max_event_age_seconds) now w.log w.history c)
        q in
    let f = reader-fetch r.instance_id r.generation now w.log.cursors c.sound.unique p.found in
    let same : p.reader ≡ row = cc (f.0, found) in
    let at : p.reader.last_sequence ≡ n = ap (λ (x : Cursor). x.last_sequence) same ∙ last in
    record {
      origin = k.origin;
      began = k.began;
      exists_origin = k.exists_origin;
      complete = k.complete;
      left_over = drop count events ++ p.left_over;
      pending =
          sym (append_assoc (take count events) (drop count events) p.left_over)
          ∙ ap (λ es. es ++ p.left_over) (take-append-drop count events)
          ∙ p.exact
          ∙ ap (λ i. select (comes_after i) w.history) at;
    }
