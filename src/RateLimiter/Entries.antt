-- ===== src/RateLimiter/Entries.antt =====
-- The dictionary `_events`: which deque a key has after each part of `MessageRateLimiter.allow`.
use samsarix_chat_engine.Base.{
  ◌==◌, Bool, true, false, ◌≡◌, refl, inl, inr, List, [], ◌∷◌, ◌++◌, All, arith, Bool-cases, ==_iff,
}
use samsarix_chat_engine.Base.Sql.{select, exists, update, delete}
use samsarix_chat_engine.Base.Keys.{Unique, Unique-append, Unique-update}
use samsarix_chat_engine.Store.Tables.{Text, Time}
use samsarix_chat_engine.RateLimiter.{
  Window, is_of, touch, events_of, pop_past, expire, append_time, is_inactive,
}
use samsarix_chat_engine.RateLimiter.Log.{is_live}
use samsarix_chat_engine.RateLimiter.Windows.{key_of, IsOrdered, inactive-dead}

abbrev fresh : Text → Window
fresh key = record { key = key; events = [] }

pub events_of-missing :
    (key : Text) (ws : List Window) → exists (is_of key) ws ≡ false → events_of key ws ≡ []
events_of-missing key [] h = refl
events_of-missing key (w ∷ ws) h = ground (arith, events_of-missing key ws)

events_of-fresh :
    (key k : Text) (ws : List Window) → events_of k (ws ++ fresh key ∷ []) ≡ events_of k ws
events_of-fresh key k [] = ground arith
events_of-fresh key k (w ∷ ws) = ground (arith, events_of-fresh key k ws)

pub events_of-touch :
    (key k : Text) (ws : List Window) → events_of k (touch key ws) ≡ events_of k ws
events_of-touch key k ws = elim (Bool-cases (exists (is_of key) ws)) [
  | inl e ↦ rw e refl
  | inr e ↦ rw e (events_of-fresh key k ws)
]

exists-fresh : (key : Text) (ws : List Window) → exists (is_of key) (ws ++ fresh key ∷ []) ≡ true
exists-fresh key [] = ground arith
exists-fresh key (w ∷ ws) = ground (arith, exists-fresh key ws)

pub exists-touch : (key : Text) (ws : List Window) → exists (is_of key) (touch key ws) ≡ true
exists-touch key ws = elim (Bool-cases (exists (is_of key) ws)) [
  | inl e ↦ rw (e, e) refl
  | inr e ↦ rw e (exists-fresh key ws)
]

pub Unique-touch : (key : Text) (ws : List Window) → Unique key_of ws → Unique key_of (touch key ws)
Unique-touch key ws u = elim (Bool-cases (exists (is_of key) ws)) [
  | inl e ↦ rw e u
  | inr e ↦ rw e (Unique-append key_of ws (fresh key) u e)
]

pub All-IsOrdered-touch :
    (now : Time) (key : Text) (ws : List Window)
    → All (λ w. IsOrdered now w.events) ws
    → All (λ w. IsOrdered now w.events) (touch key ws)
All-IsOrdered-touch now key ws o = elim (Bool-cases (exists (is_of key) ws)) [
  | inl e ↦ rw e o
  | inr e ↦ rw e (grown ws o)
]
  where
    grown :
        (vs : List Window)
        → All (λ w. IsOrdered now w.events) vs
        → All (λ w. IsOrdered now w.events) (vs ++ fresh key ∷ [])
    grown [] h = (tt, tt)
    grown (v ∷ vs) h = (h.0, grown vs h.1)

-- A change of the deque of one key.
module _ (key : Text) (f : Window → Window) (same : (w : Window) → (f w).key ≡ w.key) where
  pub Unique-change :
      (ws : List Window) → Unique key_of ws → Unique key_of (update (is_of key) f ws)
  Unique-change ws u = Unique-update key_of (is_of key) f ws same u

  pub exists-change :
      (k : Text) (ws : List Window)
      → exists (is_of k) (update (is_of key) f ws) ≡ exists (is_of k) ws
  exists-change k [] = refl
  exists-change k (w ∷ ws) = ground (arith, exists-change k ws, same w)

  pub events_of-change_other :
      (k : Text) (ws : List Window)
      → (key == k) ≡ false
      → events_of k (update (is_of key) f ws) ≡ events_of k ws
  events_of-change_other k [] n = refl
  events_of-change_other k (w ∷ ws) n = ground (arith, events_of-change_other k ws n, same w)

pub events_of-expire :
    (window now : Time) (key : Text) (ws : List Window)
    → events_of key (update (is_of key) (expire window now) ws)
      ≡ pop_past window now (events_of key ws)
events_of-expire window now key [] = refl
events_of-expire window now key (w ∷ ws) = ground (arith, events_of-expire window now key ws)

pub events_of-append :
    (now : Time) (key : Text) (ws : List Window)
    → exists (is_of key) ws ≡ true
    → events_of key (update (is_of key) (append_time now) ws) ≡ events_of key ws ++ now ∷ []
events_of-append now key [] h = cc
events_of-append now key (w ∷ ws) h = ground (arith, events_of-append now key ws)

exists-delete :
    (k : Text) (p : Window → Bool) (ws : List Window)
    → exists (is_of k) ws ≡ false
    → exists (is_of k) (delete p ws) ≡ false
exists-delete k p [] h = refl
exists-delete k p (w ∷ ws) h = ground (arith, exists-delete k p ws)

-- Discarding what is inactive takes no live call from any key.
pub live-discard :
    (window now : Time) (k : Text) (ws : List Window)
    → Unique key_of ws
    → All (λ w. IsOrdered now w.events) ws
    → select (is_live window now) (events_of k (delete (is_inactive window now) ws))
      ≡ select (is_live window now) (events_of k ws)
live-discard window now k [] u o = refl
live-discard window now k (w ∷ ws) u o = elim (Bool-cases (is_inactive window now w)) [
  | inl i ↦ rw i (elim (Bool-cases (is_of k w)) [
    | inl t ↦
        let same : w.key ≡ k = (==_iff w.key k).0 t in
        let gone : exists (is_of k) ws ≡ false = rw (← same) u.0 in
        rw
          (
            t,
            events_of-missing k (delete (is_inactive window now) ws)
                (exists-delete k (is_inactive window now) ws gone),
            inactive-dead window now w.events i o.0,
          )
          refl
    | inr n ↦ rw n (live-discard window now k ws u.1 o.1)
  ])
  | inr a ↦ rw a (elim (Bool-cases (is_of k w)) [
    | inl t ↦ rw t refl
    | inr n ↦ rw n (live-discard window now k ws u.1 o.1)
  ])
]
