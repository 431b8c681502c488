-- ===== src/Webhooks/Termination.antt =====
-- The worker: a delivery is attempted a bounded number of times.
use samsarix_chat_engine.Base.{
  ℕ, ◌+◌, ◌-◌, ◌≤◌, ◌<◌, ◌==◌, max, Bool, true, false, ◌≡◌, refl, sym, ap, ◌∙◌, subst, inl, inr,
  some, List, [], ◌∷◌, All, arith, Bool-cases, if◌then◌else◌,
}
use samsarix_chat_engine.Base.Sql.{exists, update, select, head?, All-select, select-holds}
use samsarix_chat_engine.Base.Order.{order_by, All-order_by}
use samsarix_chat_engine.Base.Keys.{Unique, Unique-update, IsListed, All-IsListed, has_key}
use samsarix_chat_engine.Base.Dicts.{sum}
use samsarix_chat_engine.Store.Tables.{Text, Time, DeliveryRow, Database}
use samsarix_chat_engine.Store.Outbox.{
  delivery_id, is_terminal, is_due, due_before, Attempt, attempted, is_open, next_webhook_delivery,
}
use samsarix_chat_engine.Webhooks.{
  AttemptResult, Turn, Step, idle, processed, raised, interrupted, failed, Platform,
  process_due_once,
}
use samsarix_chat_engine.Webhooks.Delays.{IsExact}
use samsarix_chat_engine.Webhooks.Attempts.{
  Decided, arrives, ends, waits, Recorded, Turned, process_due_once-Turned,
}

-- How many attempts are left: none for a delivery that is delivered or failed.
abbrev pub attempts_left : ℕ → DeliveryRow → ℕ
attempts_left max_attempts d = if is_terminal d then 0 else max 1 (max_attempts - d.attempt_count)

abbrev pub budget : ℕ → List DeliveryRow → ℕ
budget max_attempts rows = sum (attempts_left max_attempts) rows

-- No other transaction touches the outbox during the turn.
abbrev pub IsCalm : Turn → Type 0
IsCalm turn = (db : Database) → (turn.meanwhile db).deliveries ≡ db.deliveries

module _ (pf : Platform) (max_attempts : ℕ) where
  abbrev pub store_after : Database → Step → Database
  store_after db (processed db') = db'
  store_after db _ = db

  abbrev pub processed_count : Step → ℕ
  processed_count (processed db') = 1
  processed_count _ = 0

  -- `_run_loop` for some turns: how many of them processed a delivery. An exception is logged.
  unfoldable pub run_loop : List Turn → Database → ℕ
  run_loop [] db = 0
  run_loop (turn ∷ turns) db =
      let step = process_due_once pf max_attempts turn db in
      processed_count step + run_loop turns (store_after db step)

  attempts_left-attempted :
      (at : Time) (d : DeliveryRow) (r : AttemptResult) (a : Attempt)
      → is_terminal d ≡ false
      → Decided max_attempts at d r a
      → attempts_left max_attempts (attempted a d) < attempts_left max_attempts d
  attempts_left-attempted at d r a open_row (arrives y e f n) = rw (open_row, e) (omega arith)
  attempts_left-attempted at d r a open_row (ends why e f n) = rw (open_row, e, f) (omega arith)
  attempts_left-attempted at d r a open_row (waits delay fewer e f n lo least hi) =
      rw (open_row, e, f) (omega arith)

  -- A claimed delivery is a row of the table, pending.
  claimed_row :
      (now : Time) (rows : List DeliveryRow) {d : DeliveryRow}
      → Unique delivery_id rows
      → head? (order_by due_before (select (is_due now) rows)) ≡ some d
      → IsListed delivery_id rows d × (is_terminal d ≡ false)
  claimed_row now rows {d} u e = (
    first (IsListed delivery_id rows) (
        All-select (IsListed delivery_id rows) (is_due now) rows (All-IsListed delivery_id rows u)),
    pending (first (λ x. is_due now x ≡ true) (select-holds (is_due now) rows)),
  )
    where
      heads :
          (P : DeliveryRow → Type 0) (xs : List DeliveryRow) → head? xs ≡ some d → All P xs → P d
      heads P [] h all = cc
      heads P (x ∷ xs) h all = let q : x ≡ d = cc in subst P q all.0

      first : (P : DeliveryRow → Type 0) → All P (select (is_due now) rows) → P d
      first P all = heads P _ e (All-order_by P due_before (select (is_due now) rows) all)

      pending : is_due now d ≡ true → is_terminal d ≡ false
      pending due = ground arith

  untouched :
      (uid : Text) (a : Attempt) (rows : List DeliveryRow)
      → exists (has_key delivery_id uid) rows ≡ false
      → budget max_attempts (update (is_open uid) (attempted a) rows) ≡ budget max_attempts rows
  untouched uid a [] n = refl
  untouched uid a (d ∷ ds) n =
      let off : is_open uid d ≡ false = ground arith in
      let rest : exists (has_key delivery_id uid) ds ≡ false = ground arith in
      rw (off, untouched uid a ds rest) refl

  budget-update :
      (d : DeliveryRow) (a : Attempt) (rows : List DeliveryRow)
      → Unique delivery_id rows
      → IsListed delivery_id rows d
      → is_terminal d ≡ false
      → attempts_left max_attempts (attempted a d) < attempts_left max_attempts d
      → budget max_attempts (update (is_open d.id) (attempted a) rows) < budget max_attempts rows
  budget-update d a [] u here open_row less = cc
  budget-update d a (x ∷ xs) u here open_row less = elim (Bool-cases (x.id == d.id)) [
    | inl e ↦
        let q : x ≡ d = cc (rw e at here) in
        let taken : is_open d.id d ≡ true = ground arith in
        let absent : exists (has_key delivery_id d.id) xs ≡ false =
          subst (λ (y : DeliveryRow). exists (has_key delivery_id y.id) xs ≡ false) q u.0 in
        let rest = untouched d.id a xs absent in
        subst
          (λ (y : DeliveryRow).
            attempts_left max_attempts (if is_open d.id y then attempted a y else y)
              + budget max_attempts (update (is_open d.id) (attempted a) xs)
            < attempts_left max_attempts y + budget max_attempts xs)
          (sym q)
          (subst
            (λ (b : Bool).
              attempts_left max_attempts (if b then attempted a d else d)
                + budget max_attempts (update (is_open d.id) (attempted a) xs)
              < attempts_left max_attempts d + budget max_attempts xs)
            (sym taken) (omega (arith, less, rest)))
    | inr n ↦
        let off : is_open d.id x ≡ false = ground arith in
        let there : IsListed delivery_id xs d = rw n at here in
        subst
          (λ (b : Bool).
            attempts_left max_attempts (if b then attempted a x else x)
              + budget max_attempts (update (is_open d.id) (attempted a) xs)
            < attempts_left max_attempts x + budget max_attempts xs)
          (sym off) (omega (arith, budget-update d a xs u.1 there open_row less))
  ]

  module _ (exact : IsExact pf) where
    -- A turn that processed a delivery has spent an attempt.
    spends :
        (turn : Turn) (db db' : Database)
        → IsCalm turn
        → Unique delivery_id db.deliveries
        → Recorded pf exact max_attempts turn db db'
        → (budget max_attempts db'.deliveries < budget max_attempts db.deliveries)
          × Unique delivery_id db'.deliveries
    unfolding next_webhook_delivery
    spends turn db db' calm u r =
        let (here, open_row) = claimed_row turn.attempted_at db.deliveries u r.claimed in
        let rows : db'.deliveries
            ≡ update (is_open r.delivery.id) (attempted r.attempt) db.deliveries =
          ap (λ (x : Database). x.deliveries) r.written
          ∙ ap (update (is_open r.delivery.id) (attempted r.attempt)) (calm db) in
        let less =
          attempts_left-attempted turn.attempted_at r.delivery r.result r.attempt open_row
            r.decision in
        (
          rw rows (budget-update r.delivery r.attempt db.deliveries u here open_row less),
          rw rows (
              Unique-update delivery_id (is_open r.delivery.id) (attempted r.attempt) db.deliveries
                (λ d. refl) u),
        )

    abbrev Spent : Database → Step → Type 0
    Spent db step =
        (processed_count step + budget max_attempts (store_after db step).deliveries
          ≤ budget max_attempts db.deliveries)
        × Unique delivery_id (store_after db step).deliveries

    spent :
        (turn : Turn) (db : Database)
        → IsCalm turn
        → Unique delivery_id db.deliveries
        → (step : Step) → Turned pf exact max_attempts turn db step
        → Spent db step
    spent turn db calm u idle h = (omega arith, u)
    spent turn db calm u (processed db') h =
        let (less, u') = spends turn db db' calm u h in (omega arith, u')
    spent turn db calm u (raised e) h = absurd h
    spent turn db calm u interrupted h = (omega arith, u)
    spent turn db calm u failed h = (omega arith, u)

    -- However many turns the worker makes while nothing else touches the outbox, the turns that
    -- process a delivery are no more than the attempts that the pending deliveries have left: for
    -- each `max_attempts` less its attempts so far, and at least one. Identifiers are distinct.
    pub run_loop-le-budget :
        (turns : List Turn) (db : Database)
        → All IsCalm turns
        → Unique delivery_id db.deliveries
        → run_loop turns db ≤ budget max_attempts db.deliveries
    unfolding run_loop
    run_loop-le-budget [] db calm u = omega arith
    run_loop-le-budget (turn ∷ turns) db calm u =
        let step = process_due_once pf max_attempts turn db in
        let (less, u') =
          spent turn db calm.0 u step (process_due_once-Turned pf exact max_attempts turn db) in
        omega (arith, less, run_loop-le-budget turns (store_after db step) calm.1 u')
