-- ===== src/RateLimiter/Log.antt =====
-- What a sliding window promises, with no bound on the keys: a log of the accepted calls, in which a
-- call is accepted if fewer than `limit` accepted calls of its key are younger than the window.
use samsarix_chat_engine.Base.{
  ℕ, ◌≤◌, ◌==◌, ltb, not, Bool, List, [], ◌∷◌, ◌++◌, map, length, if◌then◌else◌,
}
use samsarix_chat_engine.Base.Sql.{select}
use samsarix_chat_engine.Base.Distinct.{distinct}
use samsarix_chat_engine.Store.Tables.{Text, Time}
use samsarix_chat_engine.RateLimiter.{Limiter, has_left, allow}

pub record Call : Type 0 where
  pub key : Text
  pub at : Time

abbrev pub is_live : Time → Time → Time → Bool
is_live window now event = not (has_left window now event)

abbrev pub times : Text → List Call → List Time
times key [] = []
times key (c ∷ cs) = let rest = times key cs in if c.key == key then c.at ∷ rest else rest

abbrev pub live_times : Time → Time → Text → List Call → List Time
live_times window now key log = select (is_live window now) (times key log)

abbrev pub accepts : ℕ → Time → List Call → Call → Bool
accepts limit window log c = ltb (length (live_times window c.at c.key log)) limit

abbrev pub logged : ℕ → Time → List Call → Call → List Call
logged limit window log c = if accepts limit window log c then log ++ c ∷ [] else log

-- The decisions on a sequence of calls, by the log and by the limiter.
unfoldable pub decisions : ℕ → Time → List Call → List Call → List Bool
decisions limit window log [] = []
decisions limit window log (c ∷ cs) =
    accepts limit window log c ∷ decisions limit window (logged limit window log c) cs

unfoldable pub run : Limiter → List Call → List Bool
run l [] = []
run l (c ∷ cs) = let (accepted, l') = allow c.key c.at l in accepted ∷ run l' cs

-- The clock does not step back.
abbrev pub IsTimed : Time → List Call → Type 0
IsTimed now [] = Unit {0}
IsTimed now (c ∷ cs) = (now ≤ c.at) × IsTimed c.at cs

-- The keys of the accepted calls that are younger than the window.
abbrev pub live_keys : Time → Time → List Call → List Text
live_keys window now log = map (λ (c : Call). c.key) (select (λ c. is_live window now c.at) log)

-- Never are more keys live than the limiter may hold.
abbrev pub Fits : ℕ → Time → ℕ → List Call → List Call → Type 0
Fits limit window max_keys log [] = Unit {0}
Fits limit window max_keys log (c ∷ cs) =
    let log' = logged limit window log c in
    (length (distinct (live_keys window c.at log')) ≤ max_keys) × Fits limit window max_keys log' cs
