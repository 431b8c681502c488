-- ===== src/Webhooks/Attempts.antt =====
-- What one call of `WebhookDispatcher.process_due_once` does, whatever it meets.
use samsarix_chat_engine.Base.{
  ℕ, ◌+◌, ◌*◌, ◌≤◌, ◌<◌, leb, max, Bool, true, false, not, ◌&&◌, ◌||◌, ◌≡◌, refl, sym, ap, subst,
  inl, inr, ◌⊎◌, Option, none, some, List, [], ◌∷◌, arith, Bool-cases, Option-cases, if◌then◌else◌,
}
use samsarix_chat_engine.Base.Sql.{exists, update}
use samsarix_chat_engine.Store.Tables.{Text, Time, DeliveryRow, Database}
use samsarix_chat_engine.Store.Outbox.{
  Attempt, attempted, is_open, next_webhook_delivery, record_webhook_attempt,
}
use samsarix_chat_engine.Webhooks.{
  AttemptResult, is_delivered, Failure, attempt_result, failed_by, Transported, returned,
  out_of_time, cancelled, broken, Turn, Step, idle, processed, raised, interrupted, failed,
  base_delay, Platform, retry_delay, is_gone, delay_after, attempt_of, settled, settle, after_send,
  after_claim, process_due_once, retry_cap,
}
use samsarix_chat_engine.Webhooks.Delays.{IsExact, retry_delay-IsJittered, retry_after-le-day}

-- What is decided of a claimed delivery: it arrived; or it is given up, at the last attempt or on 410;
-- or its next attempt is due after the scheduled delay, and no earlier than the response asks.
pub data Decided (max_attempts : ℕ) (at : Time) (d : DeliveryRow) (r : AttemptResult) (a : Attempt)
    : Type 0 where
  arrives :
      is_delivered r ≡ true
      → a.delivered ≡ true
      → a.failed ≡ false
      → a.next_attempt_at ≡ none
      → Decided max_attempts at d r a
  ends :
      (max_attempts ≤ d.attempt_count + 1) ⊎ (r.status_code ≡ some 410)
      → a.delivered ≡ false
      → a.failed ≡ true
      → a.next_attempt_at ≡ none
      → Decided max_attempts at d r a
  waits :
      (delay : ℕ)
      → d.attempt_count + 1 < max_attempts
      → a.delivered ≡ false
      → a.failed ≡ false
      → a.next_attempt_at ≡ some (at + delay)
      → base_delay (d.attempt_count + 1) * 800000 ≤ delay
      → ((asked : ℕ) → r.retry_after ≡ some asked → asked ≤ delay)
      → delay ≤ max retry_cap (base_delay (d.attempt_count + 1) * 1200000 + 1)
      → Decided max_attempts at d r a

if_split {ℓ} :
    (P : Step → Type ℓ) (b : Bool) {x y : Step}
    → (b ≡ true → P x)
    → (b ≡ false → P y)
    → P (if b then x else y)
if_split P true h k = h refl
if_split P false h k = k refl

-- A response that the transport may hand back.
abbrev pub IsModest : AttemptResult → Type 0
IsModest r = (asked : ℕ) → r.retry_after ≡ some asked → asked ≤ retry_cap

module _ (pf : Platform) (exact : IsExact pf) (max_attempts : ℕ) where
  delay_after_bounds :
      (d : DeliveryRow) (r : AttemptResult)
      → IsModest r
      → let n = d.attempt_count + 1 in
        let delay = delay_after pf r (retry_delay pf d.id n) in
        (base_delay n * 800000 ≤ delay)
        × ((asked : ℕ) → r.retry_after ≡ some asked → asked ≤ delay)
        × (delay ≤ max retry_cap (base_delay n * 1200000 + 1))
  delay_after_bounds d r modest =
      let n = d.attempt_count + 1 in
      let (lo, hi) = retry_delay-IsJittered pf d.id n exact in
      elim (Option-cases r.retry_after) [
        | inl e ↦ (rw e lo, (λ asked q. ground arith), rw e (omega arith))
        | inr (asked, e) ↦
            let small = modest asked e in
            (rw e (omega arith), (λ more q. ground arith), rw e (omega arith))
      ]

  decided :
      (at : Time) (d : DeliveryRow) (r : AttemptResult)
      → IsModest r
      → Decided max_attempts at d r (attempt_of pf max_attempts at d r)
  decided at d r modest =
      let n = d.attempt_count + 1 in
      let (lo, least, hi) = delay_after_bounds d r modest in
      elim (Bool-cases (is_delivered r)) [
        | inl e ↦ arrives e e (rw e refl) (rw e refl)
        | inr e ↦ elim (Bool-cases (leb max_attempts n)) [
          | inl l ↦ ends (inl (ground arith)) e (rw (e, l) refl) (rw (e, l) refl)
          | inr l ↦ elim (Bool-cases (is_gone pf r)) [
            | inl g ↦ ends (inr (ground arith)) e (rw (e, l, g) refl) (rw (e, l, g) refl)
            | inr g ↦
                waits (delay_after pf r (retry_delay pf d.id n)) (ground arith) e
                  (rw (e, l, g) refl) (rw (e, l, g) refl) lo least hi
          ]
        ]
      ]

  -- What is recorded is never both delivered and failed.
  fit :
      (at : Time) (d : DeliveryRow) (r : AttemptResult)
      → ((attempt_of pf max_attempts at d r).delivered
          && (attempt_of pf max_attempts at d r).failed)
        ≡ false
  fit at d r = ground arith

  abbrev pub IsResult : Transported → AttemptResult → Type 0
  IsResult (returned s) r = r ≡ attempt_result s
  IsResult out_of_time r = r ≡ failed_by Failure.timeout
  IsResult cancelled r = ⊥
  IsResult broken r = ⊥

  -- The store after a turn that processed a delivery.
  pub record Recorded (turn : Turn) (db db' : Database) : Type 0 where
    pub delivery : DeliveryRow
    pub claimed : next_webhook_delivery turn.attempted_at db ≡ some delivery
    pub attempt : Attempt
    pub result : AttemptResult
    pub sent : IsResult turn.transported result
    pub at : attempt.attempted_at ≡ turn.attempted_at
    pub status : attempt.status_code ≡ result.status_code
    pub decision : Decided max_attempts turn.attempted_at delivery result attempt
    pub written : db' ≡ record (turn.meanwhile db) {
      deliveries = update (is_open delivery.id) (attempted attempt) (turn.meanwhile db).deliveries;
    }

  abbrev pub Turned : Turn → Database → Step → Type 0
  Turned turn db idle =
      (turn.stopped ≡ true)
      ⊎ (turn.available ≡ false)
      ⊎ (next_webhook_delivery turn.attempted_at db ≡ none)
      ⊎ (turn.stopped_on_claim ≡ true)
      ⊎ (turn.stopped_on_send ≡ true)
  Turned turn db (processed db') = Recorded turn db db'
  Turned turn db (raised e) = ⊥
  Turned turn db interrupted = turn.transported ≡ cancelled
  Turned turn db failed =
      (turn.claim_fails ≡ true) ⊎ (turn.transported ≡ broken) ⊎ (turn.record_fails ≡ true)

  closed_update :
      (uid : Text) (a : Attempt) (rows : List DeliveryRow)
      → exists (is_open uid) rows ≡ false
      → update (is_open uid) (attempted a) rows ≡ rows
  closed_update uid a [] h = refl
  closed_update uid a (d ∷ ds) h =
      let n : is_open uid d ≡ false = ground arith in
      let rest : exists (is_open uid) ds ≡ false = ground arith in
      rw (n, closed_update uid a ds rest) refl

  -- A delivery that was closed or removed meanwhile is left alone, which is what the update does.
  settled_lem :
      (m : Database) (uid : Text) (a : Attempt)
      → (a.delivered && a.failed) ≡ false
      → settled pf m (record_webhook_attempt uid a m)
        ≡ processed (record m { deliveries = update (is_open uid) (attempted a) m.deliveries })
  unfolding record_webhook_attempt
  settled_lem m uid a clear = elim (Bool-cases (exists (is_open uid) m.deliveries)) [
    | inl o ↦ rw (clear, o) refl
    | inr c ↦
        rw (clear, c)
          (ap (λ ds. processed (record m { deliveries = ds }))
            (sym (closed_update uid a m.deliveries c)))
  ]

  settle-Turned :
      (turn : Turn) (db : Database) (d : DeliveryRow) (r : AttemptResult)
      → next_webhook_delivery turn.attempted_at db ≡ some d
      → IsModest r
      → IsResult turn.transported r
      → Turned turn db (settle pf max_attempts turn d r (turn.meanwhile db))
  settle-Turned turn db d r claimed modest from =
      let a = attempt_of pf max_attempts turn.attempted_at d r in
      if_split (Turned turn db) turn.stopped_on_send (λ e. inr (inr (inr (inr e))))
        λ _.
          if_split (Turned turn db) turn.record_fails (λ e. inr (inr e))
            λ _.
              subst (Turned turn db)
                (sym (settled_lem (turn.meanwhile db) d.id a (fit turn.attempted_at d r)))
                (record {
                  delivery = d;
                  claimed = claimed;
                  attempt = a;
                  result = r;
                  sent = from;
                  at = refl;
                  status = refl;
                  decision = decided turn.attempted_at d r modest;
                  written = refl;
                })

  after_send-Turned :
      (turn : Turn) (db : Database) (d : DeliveryRow)
      → next_webhook_delivery turn.attempted_at db ≡ some d
      → (t : Transported) → turn.transported ≡ t
      → Turned turn db (after_send pf max_attempts turn d t (turn.meanwhile db))
  after_send-Turned turn db d claimed (returned s) same =
      settle-Turned turn db d (attempt_result s) claimed (λ asked e. retry_after-le-day s e)
        (subst (λ t. IsResult t (attempt_result s)) (sym same) refl)
  after_send-Turned turn db d claimed out_of_time same =
      settle-Turned turn db d (failed_by Failure.timeout) claimed (λ asked e. cc)
        (subst (λ t. IsResult t (failed_by Failure.timeout)) (sym same) refl)
  after_send-Turned turn db d claimed cancelled same =
      if_split (Turned turn db) turn.stopped_on_send (λ e. inr (inr (inr (inr e)))) (λ _. same)
  after_send-Turned turn db d claimed broken same = inr (inl same)

  -- A turn raises only by cancellation, or where the storage fails on the claim or the record, or the
  -- transport fails by another exception than its timeout. It returns false only if a stop was
  -- requested, the transport is not available or nothing is due. Otherwise it records one attempt, with
  -- the status and the time of the request, on the delivery that it claimed, in the store as other
  -- transactions have left it (a delivery that was closed or removed meanwhile stays so): the delivery
  -- has arrived, or is given up at the last attempt or on 410, or is due again after the scheduled
  -- delay, up to a fifth and a microsecond, and no earlier than the response asks. SHA-256 and floating
  -- point are as `IsExact` says.
  pub process_due_once-Turned :
      (turn : Turn) (db : Database) → Turned turn db (process_due_once pf max_attempts turn db)
  unfolding process_due_once
  process_due_once-Turned turn db =
      if_split (Turned turn db) (turn.stopped || not turn.available) (λ e. stopped_early turn db e)
        λ _.
          if_split (Turned turn db) turn.claim_fails (λ e. inl e)
            λ _. claims (next_webhook_delivery turn.attempted_at db) refl
    where
      stopped_early :
          (turn : Turn) (db : Database)
          → (turn.stopped || not turn.available) ≡ true
          → Turned turn db idle
      stopped_early turn db e = elim (Bool-cases turn.stopped) [
        | inl s ↦ inl s
        | inr s ↦ inr (inl (ground arith))
      ]

      claims :
          (o : Option DeliveryRow)
          → next_webhook_delivery turn.attempted_at db ≡ o
          → Turned turn db (after_claim pf max_attempts turn o db)
      claims none e = inr (inr (inl e))
      claims (some d) e =
          if_split (Turned turn db) turn.stopped_on_claim (λ h. inr (inr (inr (inl h))))
            λ _. after_send-Turned turn db d e turn.transported refl
