-- ===== src/RateLimiter/Examples.antt =====
-- A limiter of two calls in ten microseconds and of two keys, and the theorems on it.
use samsarix_chat_engine.Base.{ℕ, ◌≤◌, true, false, ◌≡◌, refl, List, [], ◌∷◌, length, arith}
use samsarix_chat_engine.RateLimiter.{Limiter, allow}
use samsarix_chat_engine.RateLimiter.Log.{Call, decisions, run}
use samsarix_chat_engine.RateLimiter.Refinement.{run-decisions}
use samsarix_chat_engine.RateLimiter.Capacity.{length-allow}

abbrev two : Limiter
two = record { limit = 2; window = 10; max_keys = 2; windows = [] }

abbrev call : ℕ → ℕ → Call
call key at = record { key = key; at = at }

-- The third call of key 1 comes too early, the fourth in time. Key 3 makes the limiter discard key 2,
-- whose call is past.
abbrev calls : List Call
calls = call 1 100 ∷ call 2 101 ∷ call 1 105 ∷ call 1 109 ∷ call 1 110 ∷ call 3 112 ∷ []

decided : run two calls ≡ true ∷ true ∷ true ∷ false ∷ true ∷ true ∷ []
unfolding run allow
decided = refl

run-decisions_example : run two calls ≡ decisions 2 10 [] calls
run-decisions_example = run-decisions two 100 calls refl (omega arith) (omega arith)

abbrev full : Limiter
full = record two {
  windows =
      record { key = 1; events = 100 ∷ 105 ∷ [] } ∷ record { key = 2; events = 104 ∷ [] } ∷ [];
}

length-allow_example : length (allow 3 106 full).1.windows ≤ 2
length-allow_example = length-allow 3 106 full (omega arith) (omega arith)
