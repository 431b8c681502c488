-- ===== src/Webhooks.antt =====
-- samsarix_chat_engine/webhooks.py: the dispatcher of the outbox. Instants and delays are in
-- microseconds, to which `timedelta` rounds.
pub mod Targets
pub mod Policy
pub mod Delays
pub mod Attempts
pub mod Termination
mod Examples
use samsarix_chat_engine.Base.{
  ℕ, zero, suc, ◌+◌, ◌-◌, ◌*◌, ◌/◌, ◌≤◌, ◌==◌, leb, ltb, min, max, Bool, true, false, not, ◌&&◌,
  ◌||◌, is_some, Option, none, some, List, [], ◌∷◌, length, if◌then◌else◌,
}
use samsarix_chat_engine.Store.Tables.{
  Text, Time, DeliveryRow, Database, Result, ok, err, StoreError, delivery_not_found,
}
use samsarix_chat_engine.Store.Outbox.{Attempt, next_webhook_delivery, record_webhook_attempt}

abbrev pub micros_per_second : ℕ
micros_per_second = 1000000

-- What went wrong with an attempt; its spelling is `error` of `WebhookAttemptResult`.
pub data Failure : Type 0 where
  invalid_target dns_error private_target_blocked timeout tls_error connection_error : Failure
  http_status : ℕ → Failure

pub record AttemptResult : Type 0 where
  pub status_code : Option ℕ
  pub error : Option Failure
  pub retry_after : Option ℕ

abbrev pub is_success : ℕ → Bool
is_success status = leb 200 status && ltb status 300

-- `WebhookAttemptResult.delivered`
abbrev pub is_delivered : AttemptResult → Bool
is_delivered r = elim r.status_code [ none ↦ false | some status ↦ is_success status ]

-- A Retry-After header: what `float` makes of it (a negative number, microseconds, or no finite
-- number), else what `parsedate_to_datetime` does.
pub data RetryAfter : Type 0 where
  negative infinite unreadable : RetryAfter
  seconds : ℕ → RetryAfter
  date : Time → RetryAfter

abbrev pub retry_cap : ℕ
retry_cap = 86400 * micros_per_second

-- `_retry_after_seconds`
unfoldable pub retry_after_seconds : Option RetryAfter → Time → Option ℕ
retry_after_seconds none now = none
retry_after_seconds (some RetryAfter.unreadable) now = none
retry_after_seconds (some RetryAfter.infinite) now = none
retry_after_seconds (some RetryAfter.negative) now = some 0
retry_after_seconds (some (RetryAfter.seconds n)) now = some (min n retry_cap)
retry_after_seconds (some (RetryAfter.date t)) now =
    if ltb t now then some 0 else some (min (t - now) retry_cap)

-- How one request ended: with a response, or by the exception that was caught.
pub data Sending : Type 0 where
  answered : ℕ → Option RetryAfter → Time → Sending
  target_error : Failure → Sending
  timed_out ssl_failed connection_failed : Sending

abbrev pub failed_by : Failure → AttemptResult
failed_by f = record { status_code = none; error = some f; retry_after = none }

-- `_send_budgeted_request`
unfoldable pub attempt_result : Sending → AttemptResult
unfolding retry_after_seconds
attempt_result (answered status header now) =
    if is_success status
    then record { status_code = some status; error = none; retry_after = none }
    else record {
      status_code = some status;
      error = some (Failure.http_status status);
      retry_after = retry_after_seconds header now;
    }
attempt_result (target_error f) = failed_by f
attempt_result timed_out = failed_by Failure.timeout
attempt_result ssl_failed = failed_by Failure.tls_error
attempt_result connection_failed = failed_by Failure.connection_error

-- How `self._transport.run` ended: with a result, by its own timeout, cancelled, or with another
-- exception, of the start of its thread, of the function or of the transport itself.
pub data Transported : Type 0 where
  returned : Sending → Transported
  out_of_time cancelled broken : Transported

-- What one call of `process_due_once` meets: its time, whether a stop was requested before, after the
-- claim and after the send, the transport, what other transactions did to the store meanwhile, and
-- whether the claim or the record fails with an exception of the storage.
pub record Turn : Type 0 where
  pub attempted_at : Time
  pub stopped : Bool
  pub available : Bool
  pub stopped_on_claim : Bool
  pub transported : Transported
  pub stopped_on_send : Bool
  pub meanwhile : Database → Database
  pub claim_fails : Bool
  pub record_fails : Bool

-- `False`, `True` with the new store, or an exception: of `record_webhook_attempt`, a cancellation, or
-- one of the storage or the transport.
pub data Step : Type 0 where
  idle : Step
  processed : Database → Step
  raised : StoreError → Step
  interrupted failed : Step

-- _RETRY_SCHEDULE_SECONDS
abbrev pub schedule : List ℕ
schedule = 5 ∷ 300 ∷ 1800 ∷ 7200 ∷ 18000 ∷ 36000 ∷ 50400 ∷ 72000 ∷ []

abbrev pub get_or : List ℕ → ℕ → ℕ → ℕ
get_or [] i d = d
get_or (x ∷ xs) zero d = x
get_or (x ∷ xs) (suc i) d = get_or xs i d

-- The entry of the schedule, and a retry_cap for every attempt past its end
abbrev pub base_delay : ℕ → ℕ
base_delay attempt_number =
    if leb attempt_number (length schedule)
    then get_or schedule (attempt_number - 1) 86400
    else 86400

-- Of SHA-256 the first two bytes of a digest are a parameter, of floating point the value in
-- microseconds of a quotient, and of text the spelling of a failure.
pub record Platform : Type 0 where
  pub digest : Text → ℕ → ℕ
  pub rounded : ℕ → ℕ → ℕ
  pub spelled : Failure → Text

module _ (pf : Platform) where
  open pf use {digest, rounded, spelled}

  -- `_retry_delay`: base * (1 + (digest / 65535 - 1/2) * 2/5), at least a micros_per_second
  unfoldable pub retry_delay : Text → ℕ → ℕ
  retry_delay delivery attempt_number = max micros_per_second (
      rounded
        (base_delay attempt_number
          * micros_per_second
          * (262140 + 2 * digest delivery attempt_number))
        327675)

  abbrev pub spelled? : Option Failure → Option Text
  spelled? none = none
  spelled? (some f) = some (spelled f)

  abbrev pub is_gone : AttemptResult → Bool
  is_gone r = elim r.status_code [ none ↦ false | some status ↦ status == 410 ]

  -- `not result.delivered and (attempt_number >= self.max_attempts or result.status_code == 410)`
  abbrev pub is_last : ℕ → AttemptResult → ℕ → Bool
  is_last max_attempts r attempt_number =
      not (is_delivered r) && (leb max_attempts attempt_number || is_gone r)

  abbrev pub delay_after : AttemptResult → ℕ → ℕ
  delay_after r delay = elim r.retry_after [ none ↦ delay | some asked ↦ max delay asked ]

  -- What is recorded of an attempt on a claimed delivery.
  abbrev pub attempt_of : ℕ → Time → DeliveryRow → AttemptResult → Attempt
  attempt_of max_attempts attempted_at d r =
      let n = d.attempt_count + 1 in
      let terminal = is_last max_attempts r n in
      record {
        attempted_at = attempted_at;
        status_code = r.status_code;
        error = spelled? r.error;
        next_attempt_at =
            if not (is_delivered r) && not terminal
            then some (attempted_at + delay_after r (retry_delay d.id n))
            else none;
        delivered = is_delivered r;
        failed = terminal;
      }

  -- `WebhookDeliveryNotFoundError` is logged, any other exception passes.
  abbrev pub settled : Database → Result Database → Step
  settled db (ok db') = processed db'
  settled db (err (delivery_not_found uid)) = processed db
  settled db (err e) = raised e

  abbrev pub settle : ℕ → Turn → DeliveryRow → AttemptResult → Database → Step
  settle max_attempts turn d r db =
      if turn.stopped_on_send
      then idle
      else if turn.record_fails
      then failed
      else settled db
          (record_webhook_attempt d.id (attempt_of max_attempts turn.attempted_at d r) db)

  abbrev pub after_send : ℕ → Turn → DeliveryRow → Transported → Database → Step
  after_send max_attempts turn d (returned s) db = settle max_attempts turn d (attempt_result s) db
  after_send max_attempts turn d out_of_time db =
      settle max_attempts turn d (failed_by Failure.timeout) db
  after_send max_attempts turn d cancelled db = if turn.stopped_on_send then idle else interrupted
  after_send max_attempts turn d broken db = failed

  abbrev pub after_claim : ℕ → Turn → Option DeliveryRow → Database → Step
  after_claim max_attempts turn none db = idle
  after_claim max_attempts turn (some d) db =
      if turn.stopped_on_claim
      then idle
      else after_send max_attempts turn d turn.transported (turn.meanwhile db)

  -- `_process_due_once`
  unfoldable pub process_due_once : ℕ → Turn → Database → Step
  process_due_once max_attempts turn db =
      if turn.stopped || not turn.available
      then idle
      else if turn.claim_fails
      then failed
      else after_claim max_attempts turn (next_webhook_delivery turn.attempted_at db) db
