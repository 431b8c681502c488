-- ===== src/EventLog/Retention.antt =====
-- The retention of the log and the instances that still read it.
use samsarix_chat_engine.Base.{
  ℕ, ◌≤◌, max, Bool, true, not, ◌&&◌, ◌≡◌, ap, inl, inr, none, some, List, [], ◌∷◌, All, arith,
  Option-cases,
}
use samsarix_chat_engine.Base.Sql.{select, select-holds}
use samsarix_chat_engine.Base.Sorted.{All-selected}
use samsarix_chat_engine.Base.Order.{order_by, All-take, All-order_by}
use samsarix_chat_engine.Base.Raises.{returns, Ends, Ends-raise_if, Ends-returned}
use samsarix_chat_engine.Store.Tables.{Time}
use samsarix_chat_engine.EventLog.{
  Event, Cursor, EventLog, has_lease, lower, min_sequence, or_head, safe_through, earlier,
  last_sequence, is_prunable, prune_chosen, pruned, prune_events,
}

min_sequence-none : (P : Cursor → Type 0) (cs : List Cursor) → min_sequence cs ≡ none → All P cs
min_sequence-none P [] e = tt
min_sequence-none P (c ∷ cs) e = cc

min_sequence-le :
    (j k : ℕ) (cs : List Cursor)
    → min_sequence cs ≡ some k
    → j ≤ k
    → All (λ c. j ≤ c.last_sequence) cs
min_sequence-le j k [] e h = tt
min_sequence-le j k (c ∷ cs) e h = elim (Option-cases (min_sequence cs)) [
  | inl n ↦
      let s : c.last_sequence ≡ k = cc (rw n at e) in
      (omega (arith, s, h), min_sequence-none (λ x. j ≤ x.last_sequence) cs n)
  | inr (m, n) ↦
      let s : lower (some m) c.last_sequence ≡ k = cc (rw n at e) in
      (ground (arith, s, h), min_sequence-le j m cs n (ground (arith, s, h)))
]

-- Every active instance has read up to there.
safe_through-le :
    (now : Time) (log : EventLog)
    → All (λ c. has_lease now c ≡ true → safe_through now log ≤ c.last_sequence) log.cursors
safe_through-le now log =
    All-selected (has_lease now) (λ c. safe_through now log ≤ c.last_sequence) log.cursors
      (elim (Option-cases (min_sequence (select (has_lease now) log.cursors))) [
        | inl e ↦ min_sequence-none _ (select (has_lease now) log.cursors) e
        | inr (m, e) ↦
            min_sequence-le (safe_through now log) m (select (has_lease now) log.cursors) e
              (let s : safe_through now log ≡ m = ap (or_head log) e in omega (arith, s))
      ])

last_sequence-le :
    (m n : ℕ) (p : Event → Bool) (es : List Event)
    → ((e : Event) → p e ≡ true → e.sequence ≤ m)
    → All (λ e. p e ≡ true) es
    → n ≤ m
    → last_sequence n es ≤ m
last_sequence-le m n p [] le h k = k
last_sequence-le m n p (e ∷ es) le h k = last_sequence-le m e.sequence p es le h.1 (le e h.0)

-- A retention mark that an active cursor had reached, it has reached afterwards.
abbrev pub Spares : Time → EventLog → EventLog → Type 0
Spares now log log' =
    All
      (λ c.
        has_lease now c ≡ true
        → log.pruned_through ≤ c.last_sequence
        → log'.pruned_through ≤ c.last_sequence)
      log.cursors

raised_mark :
    (now : Time) (log log' : EventLog) (cs : List Cursor)
    → log'.pruned_through ≤ max log.pruned_through (safe_through now log)
    → All (λ c. has_lease now c ≡ true → safe_through now log ≤ c.last_sequence) cs
    → All
        (λ c.
          has_lease now c ≡ true
          → log.pruned_through ≤ c.last_sequence
          → log'.pruned_through ≤ c.last_sequence)
        cs
raised_mark now log log' [] k h = tt
raised_mark now log log' (c ∷ cs) k h =
    (λ a b. omega (arith, k, h.0 a, b), raised_mark now log log' cs k h.1)

prune_chosen-le :
    (p : Event → Bool) (m : ℕ) (chosen : List Event) (log : EventLog)
    → ((e : Event) → p e ≡ true → e.sequence ≤ m)
    → All (λ e. p e ≡ true) chosen
    → (prune_chosen chosen log).pruned_through ≤ max log.pruned_through m
prune_chosen-le p m [] log le h = omega arith
prune_chosen-le p m (e ∷ es) log le h =
    omega (arith, last_sequence-le m e.sequence p es le h.1 (le e h.0))

prune_events-Spares :
    (now : Time) (max_events max_age limit : ℕ) (locked : Event → Bool) (log : EventLog)
    → Ends (Spares now log) (prune_events now max_events max_age limit locked log)
unfolding prune_events
prune_events-Spares now max_events max_age limit locked log = Ends-raise_if _ _ _ _ λ _.
    Ends-raise_if _ _ _ _ λ _. Ends-raise_if _ _ _ _ λ _.
      let p = λ (e : Event). is_prunable now max_events max_age log e && not (locked e) in
      let held : All (λ e. p e ≡ true) (pruned now max_events max_age limit locked log) =
        All-take (λ e. p e ≡ true) limit (order_by earlier (select p log.events))
          (All-order_by (λ e. p e ≡ true) earlier (select p log.events)
            (select-holds p log.events)) in
      raised_mark now log (prune_chosen (pruned now max_events max_age limit locked log) log)
        log.cursors
        (prune_chosen-le p (safe_through now log) (pruned now max_events max_age limit locked log)
          log (λ e t. ground arith) held)
        (safe_through-le now log)

-- When `prune_events` returns, every cursor whose lease is active, and that had
-- reached the retention mark, has reached the raised mark as well. So retention alone never makes a
-- running instance miss an event, whatever rows are locked and whatever the limits are.
pub retention-Spares :
    (now : Time) (max_events max_age limit : ℕ) (locked : Event → Bool) (log log' : EventLog)
    → prune_events now max_events max_age limit locked log ≡ returns log'
    → Spares now log log'
retention-Spares now max_events max_age limit locked log log' q =
    Ends-returned (Spares now log) _ (prune_events-Spares now max_events max_age limit locked log) q
