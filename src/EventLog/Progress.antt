-- ===== src/EventLog/Progress.antt =====
-- What was read can be acknowledged: the relay is never stuck before events that it has dispatched.
use samsarix_chat_engine.Base.{
  ℕ, ◌≤◌, ◌<◌, zero, suc, ◌==◌, leb, ltb, Bool, true, false, ◌≡◌, refl, sym, ap, ◌∙◌, subst, Option,
  some, List, [], ◌∷◌, take, arith,
}
use samsarix_chat_engine.Base.Sql.{select, fetch, update, exists, fetch-holds, All-fetch}
use samsarix_chat_engine.Base.Keys.{Unique, IsListed, All-IsListed}
use samsarix_chat_engine.Base.Raises.{
  returns, ◌>>=◌, raise_if, or_raise, Ends, Ends-raise_if, Ends-or_raise, Ends-returned,
}
use samsarix_chat_engine.Store.Tables.{Text, Time}
use samsarix_chat_engine.EventLog.{
  Event, Cursor, EventLog, last_sequence, max_sequence, current_head,
}
use samsarix_chat_engine.EventLog.Instances.{of_instance, set_cursors}
use samsarix_chat_engine.EventLog.Reading.{
  comes_after, past, is_reader, owned_by, read_events, acknowledge_events,
}
use samsarix_chat_engine.EventLog.Relay.{Relay, World, Reachable}
use samsarix_chat_engine.EventLog.Ascending.{
  Ascending, Ascending-past, Ascending-take, past-Ascending, last_sequence-ge,
}
use samsarix_chat_engine.EventLog.Sound.{instance_of}
use samsarix_chat_engine.EventLog.History.{Reachable-Complete}

abbrev has : ℕ → List Event → Bool
has k es = exists (λ (e : Event). e.sequence == k) es

has-last : (e : Event) (es : List Event) → has (last_sequence e.sequence es) (e ∷ es) ≡ true
has-last e [] = ground arith
has-last e (f ∷ fs) = ground (arith, has-last f fs)

has-take : (k n : ℕ) (es : List Event) → has k (take n es) ≡ true → has k es ≡ true
has-take k zero es h = cc
has-take k (suc n) [] h = cc
has-take k (suc n) (e ∷ es) h = ground (arith, has-take k n es)

has-select :
    (k : ℕ) (p : Event → Bool) (es : List Event) → has k (select p es) ≡ true → has k es ≡ true
has-select k p [] h = cc
has-select k p (e ∷ es) h = ground (arith, has-select k p es)

has-max : (k : ℕ) (es : List Event) → has k es ≡ true → k ≤ max_sequence es
has-max k [] h = cc
has-max k (e ∷ es) h = ground (arith, has-max k es)

-- A read returns the first events past the cursor of its row.
record IsRead (i : Text) (generation : Option Text) (limit : ℕ) (now : Time) (log : EventLog)
    (events : List Event) : Type 0 where
  reader : Cursor
  found : fetch (is_reader i generation now) log.cursors ≡ some reader
  are : events ≡ take limit (past reader.last_sequence log.events)

read_events-IsRead :
    (i : Text) (generation : Option Text) (limit : ℕ) (max_pending max_age : Option ℕ) (now : Time)
    (log : EventLog)
    → Ends
        (IsRead i generation limit now log)
        (read_events i generation limit max_pending max_age now log)
unfolding read_events
read_events-IsRead i generation limit max_pending max_age now log = Ends-raise_if _ _ _ _ λ _.
    Ends-raise_if _ _ _ _ λ _. Ends-or_raise _ _ _ _ λ row found. Ends-raise_if _ _ _ _ λ _.
      Ends-raise_if _ _ _ _
        λ _. Ends-raise_if _ _ _ _ λ _. record { reader = row; found = found; are = refl }

same_reader :
    (i : Text) (generation : Option Text) (now later : Time) (cs : List Cursor) {c d : Cursor}
    → Unique instance_of cs
    → fetch (is_reader i generation now) cs ≡ some c
    → fetch (is_reader i generation later) cs ≡ some d
    → c ≡ d
same_reader i generation now later cs {c} {d} u e f =
    let s = fetch-holds (is_reader i generation now) cs e in
    let t = fetch-holds (is_reader i generation later) cs f in
    let all = All-IsListed instance_of cs u in
    let x = All-fetch (IsListed instance_of cs) (is_reader i generation now) cs all e in
    let y = All-fetch (IsListed instance_of cs) (is_reader i generation later) cs all f in
    let same : c.instance_id ≡ d.instance_id = ground arith in
    let z = subst (λ k. fetch (of_instance k) cs ≡ some c) same x in cc

acknowledges_to :
    (i : Text) (generation : Option Text) (through : ℕ) (now : Time) (log : EventLog) (c : Cursor)
    → fetch (is_reader i generation now) log.cursors ≡ some c
    → c.last_sequence < through
    → through ≤ current_head log
    → has through log.events ≡ true
    → acknowledge_events i generation through now log
      ≡ returns (
        through,
        set_cursors
            (update (owned_by i generation) (λ x. record x { last_sequence = through }) log.cursors)
            log,
      )
unfolding acknowledge_events ◌>>=◌ or_raise raise_if
acknowledges_to i generation through now log c found past_it before there =
    let n : leb through c.last_sequence ≡ false = ground arith in
    let h : ltb (current_head log) through ≡ false = ground arith in rw (found, n, h, there) refl

-- In every reachable world, events that a read returned can be acknowledged for as long as the row of
-- the instance is leased: `acknowledge_events` through the last of them returns, and moves the cursor of
-- the row there, which is past where it stood.
pub acknowledge_events-read_events :
    {e : Event} {es : List Event} (r : Relay) (w : World) (i : Text) (generation : Option Text)
    (limit : ℕ) (max_pending max_age : Option ℕ) (now later : Time) (c : Cursor)
    → Reachable r w
    → read_events i generation limit max_pending max_age now w.log ≡ returns (e ∷ es)
    → fetch (is_reader i generation later) w.log.cursors ≡ some c
    → (c.last_sequence < last_sequence e.sequence es)
      × (acknowledge_events i generation (last_sequence e.sequence es) later w.log
          ≡ returns (
            last_sequence e.sequence es,
            set_cursors
                (update
                  (owned_by i generation)
                  (λ x. record x { last_sequence = last_sequence e.sequence es })
                  w.log.cursors)
                w.log,
          ))
acknowledge_events-read_events {e} {es} r w i generation limit max_pending max_age now later c
      reachable q leased =
    let k = Reachable-Complete r w reachable in
    let is_read : IsRead i generation limit now w.log (e ∷ es) =
      Ends-returned (IsRead i generation limit now w.log) _
        (read_events-IsRead i generation limit max_pending max_age now w.log) q in
    let same =
      same_reader i generation now later w.log.cursors k.sound.unique is_read.found leased in
    let n = c.last_sequence in
    let are : e ∷ es ≡ take limit (select (comes_after n) w.log.events) =
      is_read.are
      ∙ ap (λ (x : Cursor). take limit (past x.last_sequence w.log.events)) same
      ∙ ap (take limit) (past-Ascending n 0 w.log.events k.sound.ascending) in
    let rising : Ascending n (e ∷ es) = subst (Ascending n) (sym are) (
      Ascending-take limit n (select (comes_after n) w.log.events)
        (Ascending-past n 0 w.log.events k.sound.ascending)) in
    let through = last_sequence e.sequence es in
    let past_it : n < through = omega (arith, rising.0, last_sequence-ge e.sequence es rising.1) in
    let there : has through w.log.events ≡ true = has-select through (comes_after n) w.log.events (
      has-take through limit (select (comes_after n) w.log.events)
        (subst (λ xs. has through xs ≡ true) are (has-last e es))) in
    (
      past_it,
      acknowledges_to i generation through later w.log c leased past_it
          (omega (arith, has-max through w.log.events there)) there,
    )
