-- ===== src/EventLog/Sound.antt =====
-- The log in order: rising sequences below the next one, one cursor for each instance, and no cursor
-- or retention mark at the next sequence or past it.
use samsarix_chat_engine.Base.{
  ℕ, ◌+◌, ◌≤◌, ◌<◌, leb, Bool, not, ◌&&◌, refl, sym, subst, inl, inr, Option, List, [], ◌∷◌, take,
  All, All-append, arith,
}
use samsarix_chat_engine.Base.Sql.{select, All-update, All-intro}
use samsarix_chat_engine.Base.Order.{among}
use samsarix_chat_engine.Base.Keys.{Unique, Unique-update, Unique-append}
use samsarix_chat_engine.Base.Raises.{Ends, Ends-raise_if, Ends-or_raise, Ends-if}
use samsarix_chat_engine.Store.Tables.{Text, Time}
use samsarix_chat_engine.EventLog.{
  Event, Cursor, EventLog, append_event, new_event, current_head, sequence_of, last_sequence,
  is_prunable, prune_chosen, pruned, prune_events,
}
use samsarix_chat_engine.EventLog.Reading.{owned_by, acknowledge_events}
use samsarix_chat_engine.EventLog.Cursors.{Rewrites, updates, appends}
use samsarix_chat_engine.EventLog.Ascending.{
  Ascending, Ascending-append, Ascending-delete, Ascending-select, Ascending-take,
  last_sequence-append, last_sequence-delete, last_sequence-select, last_sequence-take,
  max_sequence-le, order_by-Ascending,
}

abbrev pub instance_of : Cursor → Text
instance_of c = c.instance_id

abbrev pub IsWithin : EventLog → Cursor → Type 0
IsWithin log c = c.last_sequence < log.next_sequence

pub record Sound (log : EventLog) : Type 0 where
  pub ascending : Ascending 0 log.events
  pub newest : last_sequence 0 log.events < log.next_sequence
  pub kept : log.pruned_through < log.next_sequence
  pub unique : Unique instance_of log.cursors
  pub within : All (IsWithin log) log.cursors

pub current_head-lt : (log : EventLog) → Sound log → current_head log < log.next_sequence
current_head-lt log s = omega (arith, max_sequence-le 0 log.events s.ascending, s.newest, s.kept)

pub Sound-Rewrites :
    {log' : EventLog} (fresh : Option Text) (log : EventLog)
    → Rewrites fresh log log'
    → Sound log
    → Sound log'
Sound-Rewrites fresh log (updates q f each) s = record {
  ascending = s.ascending;
  newest = s.newest;
  kept = s.kept;
  unique = Unique-update instance_of q f log.cursors (λ x. (each x).0) s.unique;
  within =
      All-update (IsWithin log) q f log.cursors
        (All-intro _ log.cursors λ c t k. elim ((each c).1) [
          | inl same ↦ omega (arith, same.1, k)
          | inr new ↦ elim (new.1) [
            | inl same ↦ omega (arith, same, k)
            | inr head ↦ omega (arith, head, current_head-lt log s)
          ]
        ])
        s.within;
}
Sound-Rewrites fresh log (appends new absent is_fresh at_head) s = record {
  ascending = s.ascending;
  newest = s.newest;
  kept = s.kept;
  unique = Unique-append instance_of log.cursors new s.unique absent;
  within =
      All-append (IsWithin log) log.cursors (new ∷ []) s.within
        (omega (arith, at_head, current_head-lt log s), tt);
}

All-below :
    (m n : ℕ) (cs : List Cursor)
    → m ≤ n
    → All (λ c. c.last_sequence < m) cs
    → All (λ c. c.last_sequence < n) cs
All-below m n [] k h = tt
All-below m n (c ∷ cs) k h = (omega (arith, h.0), All-below m n cs k h.1)

pub append_event-Sound :
    (room kind payload : Text) (now : Time) (log : EventLog)
    → Sound log
    → Sound (append_event room kind payload now log).1
unfolding append_event
append_event-Sound room kind payload now log s = record {
  ascending =
      Ascending-append 0 log.events (new_event room kind payload now log) s.ascending s.newest;
  newest = omega (arith, last_sequence-append 0 log.events (new_event room kind payload now log));
  kept = omega (arith, s.kept);
  unique = s.unique;
  within = All-below log.next_sequence (log.next_sequence + 1) log.cursors (omega arith) s.within;
}

-- The rows that a prune takes rise, up to one that exists.
pub record AreChosen (log : EventLog) (chosen : List Event) : Type 0 where
  pub rising : Ascending 0 chosen
  pub up_to : last_sequence 0 chosen < log.next_sequence

pub pruned-AreChosen :
    (now : Time) (max_events max_age limit : ℕ) (locked : Event → Bool) (log : EventLog)
    → Sound log
    → AreChosen log (pruned now max_events max_age limit locked log)
pruned-AreChosen now max_events max_age limit locked log s =
    let p = λ (e : Event). is_prunable now max_events max_age log e && not (locked e) in
    let asc = Ascending-select p 0 log.events s.ascending in
    let same = order_by-Ascending 0 (select p log.events) asc in
    subst (λ es. AreChosen log (take limit es)) (sym same)
      record {
        rising = Ascending-take limit 0 (select p log.events) asc;
        up_to = omega (
          arith,
          last_sequence-take limit 0 (select p log.events) asc,
          last_sequence-select p 0 log.events s.ascending,
          s.newest,
        );
      }

pub prune_chosen-Sound :
    (chosen : List Event) (log : EventLog)
    → AreChosen log chosen
    → Sound log
    → Sound (prune_chosen chosen log)
prune_chosen-Sound [] log c s = s
prune_chosen-Sound (e ∷ es) log c s = record {
  ascending = Ascending-delete (among sequence_of (e ∷ es)) 0 log.events s.ascending;
  newest =
      omega (
        arith,
        last_sequence-delete (among sequence_of (e ∷ es)) 0 log.events s.ascending,
        s.newest,
      );
  kept = omega (arith, s.kept, c.up_to);
  unique = s.unique;
  within = s.within;
}

pub prune_events-Sound :
    (now : Time) (max_events max_age limit : ℕ) (locked : Event → Bool) (log : EventLog)
    → Sound log
    → Ends Sound (prune_events now max_events max_age limit locked log)
unfolding prune_events
prune_events-Sound now max_events max_age limit locked log s = Ends-raise_if _ _ _ _ λ _.
    Ends-raise_if _ _ _ _ λ _. Ends-raise_if _ _ _ _ λ _.
      prune_chosen-Sound (pruned now max_events max_age limit locked log) log
        (pruned-AreChosen now max_events max_age limit locked log s) s

pub acknowledge_events-Sound :
    (i : Text) (generation : Option Text) (through : ℕ) (now : Time) (log : EventLog)
    → Sound log
    → Ends (λ (p : ℕ × EventLog). Sound p.1) (acknowledge_events i generation through now log)
unfolding acknowledge_events
acknowledge_events-Sound i generation through now log s = Ends-or_raise _ _ _ _ λ c e.
    Ends-if (λ (p : ℕ × EventLog). Sound p.1) (leb through c.last_sequence) _ _ (λ _. s)
      λ _. Ends-raise_if _ _ _ _ λ h. Ends-raise_if _ _ _ _ λ _. record {
        ascending = s.ascending;
        newest = s.newest;
        kept = s.kept;
        unique =
            Unique-update instance_of (owned_by i generation)
              (λ c. record c { last_sequence = through }) log.cursors (λ x. refl) s.unique;
        within =
            All-update (IsWithin log) (owned_by i generation)
              (λ c. record c { last_sequence = through }) log.cursors
              (All-intro _ log.cursors λ c t k. ground (arith, h, current_head-lt log s)) s.within;
      }
