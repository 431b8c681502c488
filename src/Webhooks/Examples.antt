-- ===== src/Webhooks/Examples.antt =====
-- A dispatcher of three attempts on a small outbox, and the theorems on it.
use samsarix_chat_engine.Base.{
  ℕ, ◌/◌, ◌≤◌, true, false, ◌≡◌, refl, Option, none, some, List, [], ◌∷◌, arith,
}
use samsarix_chat_engine.Base.Texts.{Chars, codes}
use samsarix_chat_engine.Store.Outbox.{next_webhook_delivery, record_webhook_attempt}
use samsarix_chat_engine.Store.Examples.{store}
use samsarix_chat_engine.Webhooks.{
  answered, RetryAfter, Transported, returned, out_of_time, Turn, Platform, attempt_result,
  retry_after_seconds, retry_delay, process_due_once,
}
use samsarix_chat_engine.Webhooks.Delays.{IsExact}
use samsarix_chat_engine.Webhooks.Attempts.{Turned, process_due_once-Turned}
use samsarix_chat_engine.Webhooks.Termination.{budget, run_loop, run_loop-le-budget}
use samsarix_chat_engine.Webhooks.Targets.{Url, Address, resolve_target, https}
use samsarix_chat_engine.Webhooks.Policy.{Safely, resolve_target-Safely}

abbrev floors : Platform
floors = record { digest = λ delivery n. 32768; rounded = λ n d. n / d; spelled = λ f. 0 }

floors-IsExact : IsExact floors
floors-IsExact = record {
  two_bytes = λ delivery n. omega arith;
  close_below = λ n d h. omega arith;
  close_above = λ n d h. omega arith;
}

abbrev turn : ℕ → Transported → Turn
turn at t = record {
  attempted_at = at;
  stopped = false;
  available = true;
  stopped_on_claim = false;
  transported = t;
  stopped_on_send = false;
  meanwhile = λ db. db;
  claim_fails = false;
  record_fails = false;
}

-- The server is busy, and asks for a minute.
abbrev busy : Turn
busy = turn 300 (returned (answered 503 (some (RetryAfter.seconds 60000000)) 301))

process_due_once_example :
    Turned floors floors-IsExact 3 busy store (process_due_once floors 3 busy store)
process_due_once_example = process_due_once-Turned floors floors-IsExact 3 busy store

-- Three failures are all that delivery 50 is given; a fourth turn finds nothing.
abbrev turns : List Turn
turns =
    busy
    ∷ turn 100000000 out_of_time
    ∷ turn 700000000000 out_of_time
    ∷ turn 900000000000 out_of_time
    ∷ []

spent : run_loop floors 3 turns store ≡ 3
unfolding run_loop process_due_once next_webhook_delivery record_webhook_attempt attempt_result
    retry_delay retry_after_seconds
spent = refl

run_loop_example : run_loop floors 3 turns store ≤ budget 3 store.deliveries
run_loop_example =
    run_loop-le-budget floors 3 floors-IsExact turns store
      ((λ db. refl), ((λ db. refl), ((λ db. refl), ((λ db. refl), tt)))) (refl, (refl, tt))

abbrev inner : Url
inner = record {
  scheme = https;
  netloc = codes "hook.example";
  hostname = some (codes "hook.example");
  lowered = codes "hook.example";
  ascii = some (codes "hook.example");
  port = some none;
  has_username = false;
  has_password = false;
  query = [];
  fragment = [];
  quoted_path = codes "/in";
}

-- One global address and one private one.
abbrev answers : Chars → ℕ → Option (List (Option Address))
answers host port = some (
    some (record { normal = codes "203.0.113.7"; is_global = true })
    ∷ some (record { normal = codes "10.0.0.7"; is_global = false })
    ∷ [])

resolve_target_example :
    Safely answers (λ n. []) true inner (resolve_target answers (λ n. []) true inner)
resolve_target_example = resolve_target-Safely answers (λ n. []) true inner
