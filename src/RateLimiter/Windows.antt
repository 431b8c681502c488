-- ===== src/RateLimiter/Windows.antt =====
-- What the parts of `MessageRateLimiter.allow` do to the accepted calls of each key that are younger
-- than the window.
use samsarix_chat_engine.Base.{
  ◌≤◌, true, false, ◌≡◌, refl, inl, inr, none, some, List, [], ◌∷◌, ◌++◌, All, arith, Bool-cases,
}
use samsarix_chat_engine.Base.Sql.{select, update}
use samsarix_chat_engine.Store.Tables.{Text, Time}
use samsarix_chat_engine.RateLimiter.{Window, has_left, is_of, pop_past, expire, append_time, last?}
use samsarix_chat_engine.RateLimiter.Log.{is_live}

abbrev pub key_of : Window → Text
key_of w = w.key

-- A deque is in order, and holds nothing later than `now`.
abbrev pub IsOrdered : Time → List Time → Type 0
IsOrdered now [] = Unit {0}
IsOrdered now (e ∷ es) = (e ≤ now) × All (λ f. e ≤ f) es × IsOrdered now es

IsOrdered-later :
    (now later : Time) (es : List Time) → now ≤ later → IsOrdered now es → IsOrdered later es
IsOrdered-later now later [] h o = tt
IsOrdered-later now later (e ∷ es) h o = (omega arith, o.1, IsOrdered-later now later es h o.2)

pub All-IsOrdered-later :
    (now later : Time) (ws : List Window)
    → now ≤ later
    → All (λ w. IsOrdered now w.events) ws
    → All (λ w. IsOrdered later w.events) ws
All-IsOrdered-later now later [] h o = tt
All-IsOrdered-later now later (w ∷ ws) h o =
    (IsOrdered-later now later w.events h o.0, All-IsOrdered-later now later ws h o.1)

module _ (window now : Time) where
  live_after :
      (e : Time) (es : List Time)
      → has_left window now e ≡ false
      → All (λ f. e ≤ f) es
      → select (is_live window now) es ≡ es
  live_after e [] n h = refl
  live_after e (f ∷ fs) n h = ground (arith, live_after e fs)

  -- Since the deque is in order, the loop leaves exactly what is live.
  pub pop_past-select :
      (es : List Time) → IsOrdered now es → pop_past window now es ≡ select (is_live window now) es
  pop_past-select [] o = refl
  pop_past-select (e ∷ es) o = ground (arith, pop_past-select es, live_after e es)

  pop_past-IsOrdered : (es : List Time) → IsOrdered now es → IsOrdered now (pop_past window now es)
  pop_past-IsOrdered [] o = tt
  pop_past-IsOrdered (e ∷ es) o = elim (Bool-cases (has_left window now e)) [
    | inl t ↦ rw t (pop_past-IsOrdered es o.2)
    | inr f ↦ rw f o
  ]

  pub All-IsOrdered-expire :
      (key : Text) (ws : List Window)
      → All (λ w. IsOrdered now w.events) ws
      → All (λ w. IsOrdered now w.events) (update (is_of key) (expire window now) ws)
  All-IsOrdered-expire key [] h = tt
  All-IsOrdered-expire key (w ∷ ws) h = elim (Bool-cases (is_of key w)) [
    | inl t ↦ rw t (pop_past-IsOrdered w.events h.0, All-IsOrdered-expire key ws h.1)
    | inr f ↦ rw f (h.0, All-IsOrdered-expire key ws h.1)
  ]

  -- An inactive deque holds nothing live.
  pub inactive-dead :
      (es : List Time)
      → (elim (last? es) [ none ↦ true | some e ↦ has_left window now e ]) ≡ true
      → IsOrdered now es
      → select (is_live window now) es ≡ []
  inactive-dead [] h o = refl
  inactive-dead (e ∷ []) h o = ground arith
  inactive-dead (e ∷ f ∷ es) h o = ground (arith, inactive-dead (f ∷ es), live_after e (f ∷ es))

append-IsOrdered : (now : Time) (es : List Time) → IsOrdered now es → IsOrdered now (es ++ now ∷ [])
append-IsOrdered now [] o = (omega arith, tt, tt)
append-IsOrdered now (e ∷ es) o = (o.0, above es o.1, append-IsOrdered now es o.2)
  where
    above : (fs : List _) → All (λ f. e ≤ f) fs → All (λ f. e ≤ f) (fs ++ now ∷ [])
    above [] h = (o.0, tt)
    above (f ∷ fs) h = (h.0, above fs h.1)

pub All-IsOrdered-append :
    (now : Time) (key : Text) (ws : List Window)
    → All (λ w. IsOrdered now w.events) ws
    → All (λ w. IsOrdered now w.events) (update (is_of key) (append_time now) ws)
All-IsOrdered-append now key [] h = tt
All-IsOrdered-append now key (w ∷ ws) h = elim (Bool-cases (is_of key w)) [
  | inl t ↦ rw t (append-IsOrdered now w.events h.0, All-IsOrdered-append now key ws h.1)
  | inr f ↦ rw f (h.0, All-IsOrdered-append now key ws h.1)
]
