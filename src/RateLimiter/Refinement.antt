-- ===== src/RateLimiter/Refinement.antt =====
-- The limiter implements the log: as long as no more keys are live than it may hold, it decides every
-- call as the log does.
use samsarix_chat_engine.Base.{
  ℕ, ◌-◌, ◌≤◌, leb, ltb, Bool, true, false, ◌≡◌, refl, sym, ap, ◌∙◌, subst, inl, inr, some, List,
  [], ◌∷◌, ◌++◌, length, drop, All, arith, Bool-cases, none,
}
use samsarix_chat_engine.Base.Sql.{select, exists, update, delete, fetch, All-delete}
use samsarix_chat_engine.Base.Keys.{Unique-delete, IsListed, All-IsListed}
use samsarix_chat_engine.Base.Order.{is_in}
use samsarix_chat_engine.Base.Distinct.{distinct, is_in-distinct, length-Unique-le}
use samsarix_chat_engine.Store.Tables.{Text, Time}
use samsarix_chat_engine.RateLimiter.{
  Window, Limiter, has_left, is_of, touch, events_of, expire, append_time, last?, is_inactive,
  discard_inactive, admit, allow,
}
use samsarix_chat_engine.RateLimiter.Log.{
  Call, is_live, times, live_times, accepts, logged, decisions, run, IsTimed, live_keys, Fits,
}
use samsarix_chat_engine.RateLimiter.Windows.{key_of, IsOrdered}
use samsarix_chat_engine.RateLimiter.Entries.{exists-touch, exists-change, live-discard}
use samsarix_chat_engine.RateLimiter.Tracking.{
  Tracks, Tracks-later, expired, expired-live, expired-Tracks, recorded-Tracks,
}

exists-select {ℓ} : {A : Type ℓ} (p : A → Bool) (xs : List A) → exists p (select p xs) ≡ exists p xs
exists-select p [] = refl
exists-select p (x ∷ xs) = ground (arith, exists-select p xs)

events_of-fetch :
    (k : Text) (ws : List Window) {w : Window}
    → fetch (is_of k) ws ≡ some w
    → events_of k ws ≡ w.events
events_of-fetch k [] e = cc
events_of-fetch k (v ∷ vs) {w} e = ground (arith, events_of-fetch k vs {w = w})

drop-none {ℓ} : {A : Type ℓ} (n : ℕ) (xs : List A) → length xs ≤ n → drop (length xs - n) xs ≡ xs
drop-none n xs h = let e : length xs - n ≡ 0 = omega arith in rw e refl

module _ (window now : Time) where
  active-live :
      (es : List Time)
      → (elim (last? es) [ none ↦ true | some e ↦ has_left window now e ]) ≡ false
      → exists (is_live window now) es ≡ true
  active-live [] h = cc
  active-live (e ∷ []) h = ground arith
  active-live (e ∷ f ∷ es) h = ground (arith, active-live (f ∷ es))

  times-live_keys :
      (k : Text) (log : List Call)
      → exists (is_live window now) (times k log) ≡ true
      → is_in k (live_keys window now log) ≡ true
  times-live_keys k [] h = cc
  times-live_keys k (c ∷ cs) h = ground (arith, times-live_keys k cs)

  module _ {log : List Call} {ws : List Window} (t : Tracks window now log ws) where
    live_key :
        (w : Window)
        → IsListed key_of ws w
        → is_inactive window now w ≡ false
        → is_in w.key (distinct (live_keys window now log)) ≡ true
    live_key w here active =
        is_in-distinct w.key (live_keys window now log)
        ∙ times-live_keys w.key log (
            sym (exists-select (is_live window now) (times w.key log))
            ∙ ap (exists (is_live window now)) (sym (t.matched w.key))
            ∙ exists-select (is_live window now) (events_of w.key ws)
            ∙ ap (exists (is_live window now)) (events_of-fetch w.key ws here)
            ∙ active-live w.events active)

    live_windows :
        (vs : List Window)
        → All (IsListed key_of ws) vs
        → All
            (λ w. is_in w.key (distinct (live_keys window now log)) ≡ true)
            (delete (is_inactive window now) vs)
    live_windows [] h = tt
    live_windows (v ∷ vs) h = elim (Bool-cases (is_inactive window now v)) [
      | inl i ↦ rw i (live_windows vs h.1)
      | inr a ↦ rw a (live_key v h.0 a, live_windows vs h.1)
    ]

    -- No more windows are active than keys are live.
    length-active-le :
        length (delete (is_inactive window now) ws) ≤ length (distinct (live_keys window now log))
    length-active-le =
        length-Unique-le key_of (delete (is_inactive window now) ws)
          (distinct (live_keys window now log))
          (Unique-delete key_of (is_inactive window now) ws t.unique)
          (live_windows ws (All-IsListed key_of ws t.unique))

    discard_inactive-Tracks :
        (max_keys : ℕ)
        → length (distinct (live_keys window now log)) ≤ max_keys
        → Tracks window now log (discard_inactive max_keys window now ws)
    discard_inactive-Tracks max_keys fits =
        let whole : length (delete (is_inactive window now) ws) ≤ max_keys =
          omega (arith, length-active-le) in
        rw (drop-none max_keys (delete (is_inactive window now) ws) whole) (record {
          unique = Unique-delete key_of (is_inactive window now) ws t.unique;
          ordered = All-delete (λ w. IsOrdered now w.events) (is_inactive window now) ws t.ordered;
          matched = λ k. live-discard window now k ws t.unique t.ordered ∙ t.matched k;
        })

-- What one call decides, and the deques after it.
record Follows (l : Limiter) (log : List Call) (c : Call) (r : Bool × Limiter) : Type 0 where
  decided : r.0 ≡ accepts l.limit l.window log c
  limit_kept : r.1.limit ≡ l.limit
  window_kept : r.1.window ≡ l.window
  max_kept : r.1.max_keys ≡ l.max_keys
  tracked : Tracks l.window c.at (logged l.limit l.window log c) r.1.windows

admit-Tracks :
    (l : Limiter) (log : List Call) (now : Time) (key : Text) (ws : List Window)
    → exists (is_of key) ws ≡ true
    → Tracks l.window now log ws
    → length (distinct (live_keys l.window now (log ++ record { key = key; at = now } ∷ [])))
      ≤ l.max_keys
    → Tracks l.window now (log ++ record { key = key; at = now } ∷ []) (admit l key now ws)
admit-Tracks l log now key ws there t fits =
    let grown = recorded-Tracks l.window now key there t in
    elim (Bool-cases (ltb l.max_keys (length (update (is_of key) (append_time now) ws)))) [
      | inl e ↦ rw e (discard_inactive-Tracks l.window now grown l.max_keys fits)
      | inr e ↦ rw e grown
    ]

allow-Follows :
    (l : Limiter) (log : List Call) (now : Time) (c : Call)
    → now ≤ c.at
    → Tracks l.window now log l.windows
    → length (distinct (live_keys l.window c.at (logged l.limit l.window log c))) ≤ l.max_keys
    → Follows l log c (allow c.key c.at l)
unfolding allow
allow-Follows l log now c later t fits =
    let t' = Tracks-later l.window now c.at later t in
    let young = expired-live l.window c.at c.key t' in
    let kept = expired-Tracks l.window c.at c.key t' in
    let there : exists (is_of c.key) (expired l.window c.at c.key l.windows) ≡ true =
      exists-change c.key (expire l.window c.at) (λ w. refl) c.key (touch c.key l.windows)
      ∙ exists-touch c.key l.windows in
    elim (Bool-cases (ltb (length (live_times l.window c.at c.key log)) l.limit)) [
      | inl few ↦
          let under : leb l.limit (length (live_times l.window c.at c.key log)) ≡ false =
            ground arith in
          let fits' : length (distinct (live_keys l.window c.at (log ++ c ∷ []))) ≤ l.max_keys =
            rw few at fits in
          rw (young, under)
            (record {
              decided = rw few refl;
              limit_kept = refl;
              window_kept = refl;
              max_kept = refl;
              tracked = rw few (
                  admit-Tracks l log c.at c.key (expired l.window c.at c.key l.windows) there kept
                    fits');
            })
      | inr many ↦
          let over : leb l.limit (length (live_times l.window c.at c.key log)) ≡ true =
            ground arith in
          rw (young, over)
            (record {
              decided = rw many refl;
              limit_kept = refl;
              window_kept = refl;
              max_kept = refl;
              tracked = rw many kept;
            })
    ]

run-decisions_from :
    (l : Limiter) (limit max_keys : ℕ) (window : Time) (log : List Call) (now : Time)
    (cs : List Call)
    → l.limit ≡ limit
    → l.window ≡ window
    → l.max_keys ≡ max_keys
    → Tracks window now log l.windows
    → IsTimed now cs
    → Fits limit window max_keys log cs
    → run l cs ≡ decisions limit window log cs
unfolding run decisions
run-decisions_from l limit max_keys window log now [] el ew em t timed fits = refl
run-decisions_from l limit max_keys window log now (c ∷ cs) el ew em t timed fits =
    let fits' : length (distinct (live_keys l.window c.at (logged l.limit l.window log c)))
        ≤ l.max_keys =
      rw (el, ew, em) fits.0 in
    let seen = subst (λ w. Tracks w now log l.windows) (sym ew) t in
    let f = allow-Follows l log now c timed.0 seen fits' in
    let l' = (allow c.key c.at l).1 in
    let t' =
      subst (λ w. Tracks w c.at (logged limit w log c) l'.windows) ew
        (subst (λ n. Tracks l.window c.at (logged n l.window log c) l'.windows) el f.tracked) in
    let same : (allow c.key c.at l).0 ≡ accepts limit window log c =
      f.decided ∙ ap (λ n. accepts n l.window log c) el ∙ ap (λ w. accepts limit w log c) ew in
    let rest =
      run-decisions_from l' limit max_keys window (logged limit window log c) c.at cs
        (f.limit_kept ∙ el) (f.window_kept ∙ ew) (f.max_kept ∙ em) t' timed.1 fits.1 in
    rw (same, rest) refl

-- A limiter that has seen no call decides any sequence of calls, at times that do not step back, as
-- the log does: a call is accepted exactly when fewer than `limit` accepted calls of its key are
-- younger than the window. The condition is that the keys of the accepted calls that are younger
-- than the window are never more than `max_keys`.
pub run-decisions :
    (l : Limiter) (now : Time) (cs : List Call)
    → l.windows ≡ []
    → IsTimed now cs
    → Fits l.limit l.window l.max_keys [] cs
    → run l cs ≡ decisions l.limit l.window [] cs
run-decisions l now cs empty timed fits =
    run-decisions_from l l.limit l.max_keys l.window [] now cs refl refl refl
      (rw empty (record { unique = tt; ordered = tt; matched = λ k. refl })) timed fits
