-- ===== src/EventLog/Acknowledging.antt =====
-- The acknowledgement of a batch, and that of another instance.
use samsarix_chat_engine.Base.{
  ◌⊎◌, append_assoc, ℕ, ◌≤◌, ◌<◌, leb, true, false, ◌≡◌, ◌≢◌, refl, sym, ap, ◌∙◌, subst, inl, inr,
  Option, some, List, [], ◌∷◌, ◌++◌, arith,
}
use samsarix_chat_engine.Base.Sql.{fetch-holds, select, fetch}
use samsarix_chat_engine.Base.Keys.{Unique}
use samsarix_chat_engine.Base.Raises.{
  returns, Ends, Ends-raise_if, Ends-or_raise, Ends-if, Ends-returned,
}
use samsarix_chat_engine.Store.Tables.{Text, Time}
use samsarix_chat_engine.EventLog.{Event, Cursor, EventLog, last_sequence}
use samsarix_chat_engine.EventLog.Instances.{of_instance}
use samsarix_chat_engine.EventLog.Reading.{comes_after, owned_by, advance, acknowledge_events}
use samsarix_chat_engine.EventLog.Relay.{Relay, World, acknowledge_batch}
use samsarix_chat_engine.EventLog.Ascending.{
  Ascending, Ascending-past, Ascending-first, last_sequence-ge, select_past-append,
  select_past-twice,
}
use samsarix_chat_engine.EventLog.Held.{Holds, Holds-update}
use samsarix_chat_engine.EventLog.Begins.{reader-fetch}
use samsarix_chat_engine.EventLog.Sound.{instance_of}
use samsarix_chat_engine.EventLog.History.{Complete}
use samsarix_chat_engine.EventLog.Standing.{IsDelivering}

-- A cursor that was acknowledged: the relay held the row before, and stands at the event, unless it
-- was past it.
record Moved (me g : Text) (through : ℕ) (log log' : EventLog) : Type 0 where
  pub later : log.next_sequence ≤ log'.next_sequence
  moves :
      (n' : ℕ)
      → Holds me g log'.cursors n'
      → (n : ℕ) × Holds me g log.cursors n × ((through ≤ n) ⊎ (n' ≡ through))

module _ (me g : Text) (through : ℕ) (now : Time) (log : EventLog) where
  advance-Moved :
      (c : Cursor)
      → fetch (of_instance me) log.cursors ≡ some c
      → c.generation ≡ g
      → Ends (λ (p : ℕ × EventLog). Moved me g through log p.1) (advance me (some g) through log)
  advance-Moved c found gen = Ends-raise_if _ _ _ _ λ _. Ends-raise_if _ _ _ _ λ _. record {
    later = omega arith;
    moves = λ n' held.
        let f = λ (x : Cursor). record x { last_sequence = through } in
        let (d, there, own, last) =
          Holds-update me g (owned_by me (some g)) f log.cursors n' (λ x. refl) held in
        let s : d ≡ c = cc in
        let mine = fetch-holds (of_instance me) log.cursors there in
        let its : d.generation ≡ g = ap (λ (x : Cursor). x.generation) s ∙ gen in
        let t : owned_by me (some g) d ≡ true = ground arith in
        (d.last_sequence, (d, there, its, refl), inr (sym (rw t at last)));
  }

  acknowledge_events-Moved :
      Unique instance_of log.cursors
      → Ends
          (λ (p : ℕ × EventLog). Moved me g through log p.1)
          (acknowledge_events me (some g) through now log)
  unfolding acknowledge_events
  acknowledge_events-Moved u = Ends-or_raise _ _ _ _ λ c e.
      let (found, gen) = reader-fetch me g now log.cursors u e in
      Ends-if (λ (p : ℕ × EventLog). Moved me g through log p.1) (leb through c.last_sequence) _ _
        (λ t. record {
          later = omega arith;
          moves = λ n' held.
              let (d, there, own, last) = held in
              let s : d ≡ c = cc in
              let at = ap (λ (x : Cursor). x.last_sequence) s in
              (n', held, inl (ground (arith, t, at, last)));
        })
        (λ _. advance-Moved c found gen)

-- An acknowledgement for another instance
pub record IsUnmoved (me g : Text) (log log' : EventLog) : Type 0 where
  pub later : log.next_sequence ≤ log'.next_sequence
  pub stays : (n : ℕ) → Holds me g log'.cursors n → Holds me g log.cursors n

pub acknowledge_events-IsUnmoved :
    (me g i : Text) (generation : Option Text) (through : ℕ) (now : Time) (log : EventLog)
    → i ≢ me
    → Ends
        (λ (p : ℕ × EventLog). IsUnmoved me g log p.1)
        (acknowledge_events i generation through now log)
unfolding acknowledge_events
acknowledge_events-IsUnmoved me g i generation through now log other = Ends-or_raise _ _ _ _ λ c e.
    Ends-if (λ (p : ℕ × EventLog). IsUnmoved me g log p.1) (leb through c.last_sequence) _ _
      (λ _. record { later = omega arith; stays = λ n h. h })
      (λ _. Ends-raise_if _ _ _ _ λ _. Ends-raise_if _ _ _ _ λ _. record {
        later = omega arith;
        stays = λ n held.
            let (d, there, own, last) =
              Holds-update me g (owned_by i generation) (λ x. record x { last_sequence = through })
                log.cursors n (λ x. refl) held in
            let mine = fetch-holds (of_instance me) log.cursors there in
            let f : owned_by i generation d ≡ false = ground (arith, other) in
            (d, there, rw f at own, rw f at last);
      })

pub acknowledges_batch :
    {k : ℕ} {log : EventLog} (r : Relay) (w : World) (now : Time) (e : Event) (es : List Event)
    → w.sent ≡ e ∷ es
    → acknowledge_batch r e es now w.log ≡ returns (k, log)
    → Complete w.log w.history
    → IsDelivering r w
    → IsDelivering r (record w { log = log; sent = []; delivered = w.delivered ++ w.sent })
unfolding acknowledge_batch
acknowledges_batch {k} {log} r w now e es s q c d n' held =
    let through = last_sequence e.sequence es in
    let moved : Moved r.instance_id r.generation through w.log log =
      Ends-returned (λ (p : ℕ × EventLog). Moved r.instance_id r.generation through w.log p.1) _
        (acknowledge_events-Moved r.instance_id r.generation through now w.log c.sound.unique) q in
    let (n, before, where_to) = moved.moves n' held in
    let was = d n before in
    let batch : (e ∷ es) ++ was.left_over ≡ select (comes_after n) w.history =
      subst (λ b. b ++ was.left_over ≡ select (comes_after n) w.history) s was.pending in
    let rising : Ascending n ((e ∷ es) ++ was.left_over) =
      subst (Ascending n) (sym batch) (Ascending-past n 0 w.history c.ascending) in
    let first = Ascending-first n (e ∷ es) was.left_over rising in
    let past_it : n < through = omega (arith, first.0, last_sequence-ge e.sequence es first.1) in
    let at : n' ≡ through = elim where_to [ inl l ↦ absurd (omega arith) | inr t ↦ t ] in
    let rest : select (comes_after n') w.history ≡ was.left_over =
      ap (λ i. select (comes_after i) w.history) at
      ∙ sym (select_past-twice n through w.history (omega (arith, past_it)))
      ∙ ap (select (comes_after through)) (sym batch)
      ∙ select_past-append n (e ∷ es) was.left_over rising in
    record {
      origin = was.origin;
      began = was.began;
      exists_origin = omega (arith, was.exists_origin, moved.later);
      complete =
          ap (λ b. (w.delivered ++ w.sent) ++ b) rest
          ∙ append_assoc w.delivered w.sent was.left_over
          ∙ ap (λ b. w.delivered ++ b) was.pending
          ∙ was.complete;
      left_over = was.left_over;
      pending = sym rest;
    }
