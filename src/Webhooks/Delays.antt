-- ===== src/Webhooks/Delays.antt =====
-- When a failed attempt is tried again: the schedule with its jitter, and a Retry-After header.
use samsarix_chat_engine.Base.{
  ℕ, zero, suc, ◌+◌, ◌-◌, ◌*◌, ◌/◌, ◌≤◌, ◌<◌, leb, ◌≡◌, inl, inr, some, List, [], ◌∷◌, length, All,
  arith, Bool-cases,
}
use samsarix_chat_engine.Store.Tables.{Text}
use samsarix_chat_engine.Webhooks.{
  micros_per_second, retry_cap, schedule, get_or, base_delay, Platform, retry_delay, Sending,
  attempt_result,
}

-- A digest gives two bytes, and a quotient is rounded to one of the microseconds beside it.
pub record IsExact (pf : Platform) : Type 0 where
  pub two_bytes : (delivery : Text) (n : ℕ) → pf.digest delivery n < 65536
  pub close_below : (n d : ℕ) → 0 < d → n / d ≤ pf.rounded n d
  pub close_above : (n d : ℕ) → 0 < d → pf.rounded n d ≤ n / d + 1

abbrev InSchedule : ℕ → Type 0
InSchedule n = (5 ≤ n) × (n ≤ 86400)

get_or_All : (xs : List ℕ) (i d : ℕ) → All InSchedule xs → InSchedule d → InSchedule (get_or xs i d)
get_or_All [] i d h k = k
get_or_All (x ∷ xs) zero d h k = h.0
get_or_All (x ∷ xs) (suc i) d h k = get_or_All xs i d h.1 k

base_delay_bounds : (n : ℕ) → InSchedule (base_delay n)
base_delay_bounds n = elim (Bool-cases (leb n (length schedule))) [
  | inl e ↦ rw e (get_or_All schedule (n - 1) 86400 (omega arith) (omega arith))
  | inr e ↦ rw e (omega arith)
]

jittered_bounds :
    (b d : ℕ)
    → d < 65536
    → (b * 800000 ≤ b * micros_per_second * (262140 + 2 * d) / 327675)
      × (b * micros_per_second * (262140 + 2 * d) / 327675 ≤ b * 1200000)
jittered_bounds b d h =
    let e : b * d ≤ b * 65535 = grind arith in
    let m : b * micros_per_second * (262140 + 2 * d) ≡ b * 262140000000 + b * d * 2000000 =
      grind arith in
    omega (arith, e, m)

-- The delay is within a fifth of the scheduled one, up to a microsecond.
abbrev pub IsJittered : ℕ → ℕ → Type 0
IsJittered n delay = (base_delay n * 800000 ≤ delay) × (delay ≤ base_delay n * 1200000 + 1)

pub retry_delay-IsJittered :
    (pf : Platform) (delivery : Text) (n : ℕ)
    → IsExact pf
    → IsJittered n (retry_delay pf delivery n)
unfolding retry_delay
retry_delay-IsJittered pf delivery n exact =
    let b = base_delay n in
    let m = b * micros_per_second * (262140 + 2 * pf.digest delivery n) in
    let (lo, hi) = jittered_bounds b (pf.digest delivery n) (exact.two_bytes delivery n) in
    omega (
      arith,
      lo,
      hi,
      (base_delay_bounds n).0,
      exact.close_below m 327675 (omega arith),
      exact.close_above m 327675 (omega arith),
    )

pub base_delay-pos : (n : ℕ) → 5 ≤ base_delay n
base_delay-pos n = (base_delay_bounds n).0

-- A response never asks for more than a retry_cap.
pub retry_after-le-day :
    (s : Sending) {asked : ℕ} → (attempt_result s).retry_after ≡ some asked → asked ≤ retry_cap
unfolding attempt_result
retry_after-le-day s {asked} h = ground arith
