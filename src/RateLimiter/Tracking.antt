-- ===== src/RateLimiter/Tracking.antt =====
-- The deques of the limiter hold what is live of the log, and each part of `MessageRateLimiter.allow`
-- keeps this.
use samsarix_chat_engine.Base.{
  ◌≤◌, ◌==◌, true, false, ◌≡◌, refl, sym, ap, ◌∙◌, inl, inr, List, [], ◌∷◌, ◌++◌, All, arith,
  Bool-cases, ==_iff,
}
use samsarix_chat_engine.Base.Sql.{select, exists, update}
use samsarix_chat_engine.Base.Keys.{Unique}
use samsarix_chat_engine.Store.Tables.{Text, Time}
use samsarix_chat_engine.RateLimiter.{
  Window, is_of, touch, events_of, pop_past, expire, append_time,
}
use samsarix_chat_engine.RateLimiter.Log.{Call, is_live, times, live_times}
use samsarix_chat_engine.RateLimiter.Windows.{
  key_of, IsOrdered, All-IsOrdered-later, All-IsOrdered-expire, All-IsOrdered-append,
  pop_past-select,
}
use samsarix_chat_engine.RateLimiter.Entries.{
  events_of-touch, Unique-touch, All-IsOrdered-touch, Unique-change, events_of-change_other,
  events_of-expire, events_of-append,
}

-- The deques hold what is live of the log.
pub record Tracks (window now : Time) (log : List Call) (ws : List Window) : Type 0 where
  pub unique : Unique key_of ws
  pub ordered : All (λ w. IsOrdered now w.events) ws
  pub matched :
      (k : Text) → select (is_live window now) (events_of k ws) ≡ live_times window now k log

module _ (window : Time) where
  select_live_later :
      (now later : Time) (es : List Time)
      → now ≤ later
      → select (is_live window later) (select (is_live window now) es)
        ≡ select (is_live window later) es
  select_live_later now later [] h = refl
  select_live_later now later (e ∷ es) h = ground (arith, select_live_later now later es h)

  select_live-append :
      (now : Time) (es fs : List Time)
      → select (is_live window now) (es ++ fs)
        ≡ select (is_live window now) es ++ select (is_live window now) fs
  select_live-append now [] fs = refl
  select_live-append now (e ∷ es) fs = ground (arith, select_live-append now es fs)

  pub Tracks-later :
      (now later : Time) {log : List Call} {ws : List Window}
      → now ≤ later
      → Tracks window now log ws
      → Tracks window later log ws
  Tracks-later now later {log} {ws} h t = record {
    unique = t.unique;
    ordered = All-IsOrdered-later now later ws h t.ordered;
    matched = λ k.
        sym (select_live_later now later (events_of k ws) h)
        ∙ ap (select (is_live window later)) (t.matched k)
        ∙ select_live_later now later (times k log) h;
  }

  module _ (now : Time) (key : Text) where
    abbrev pub expired : List Window → List Window
    expired ws = update (is_of key) (expire window now) (touch key ws)

    -- After the loop the deque of the key is what is live of the log.
    pub expired-live :
        {log : List Call} {ws : List Window}
        → Tracks window now log ws
        → events_of key (expired ws) ≡ live_times window now key log
    expired-live {log} {ws} t =
        events_of-expire window now key (touch key ws)
        ∙ ap (pop_past window now) (events_of-touch key key ws)
        ∙ pop_past-select window now (events_of key ws) (events-IsOrdered ws t.ordered)
        ∙ t.matched key
      where
        events-IsOrdered :
            (vs : List Window)
            → All (λ w. IsOrdered now w.events) vs
            → IsOrdered now (events_of key vs)
        events-IsOrdered [] h = tt
        events-IsOrdered (v ∷ vs) h = elim (Bool-cases (is_of key v)) [
          | inl e ↦ rw e h.0
          | inr e ↦ rw e (events-IsOrdered vs h.1)
        ]

    pub expired-Tracks :
        {log : List Call} {ws : List Window}
        → Tracks window now log ws
        → Tracks window now log (expired ws)
    expired-Tracks {log} {ws} t = record {
      unique =
          Unique-change key (expire window now) (λ w. refl) (touch key ws)
            (Unique-touch key ws t.unique);
      ordered =
          All-IsOrdered-expire window now key (touch key ws)
            (All-IsOrdered-touch now key ws t.ordered);
      matched = λ k. elim (Bool-cases (key == k)) [
        | inl e ↦
            let same : key ≡ k = (==_iff key k).0 e in
            rw (← same) (
              ap (select (is_live window now)) (expired-live t)
              ∙ select_live_later now now (times key log) (omega arith))
        | inr n ↦
            ap (select (is_live window now)) (
              events_of-change_other key (expire window now) (λ w. refl) k (touch key ws) n
              ∙ events_of-touch key k ws)
            ∙ t.matched k
      ];
    }

    times-append_other :
        (k : Text) (log : List Call)
        → (key == k) ≡ false
        → times k (log ++ record { key = key; at = now } ∷ []) ≡ times k log
    times-append_other k [] n = ground arith
    times-append_other k (c ∷ cs) n = ground (arith, times-append_other k cs n)

    times-append_self :
        (log : List Call)
        → times key (log ++ record { key = key; at = now } ∷ []) ≡ times key log ++ now ∷ []
    times-append_self [] = ground arith
    times-append_self (c ∷ cs) = ground (arith, times-append_self cs)

    pub recorded-Tracks :
        {log : List Call} {ws : List Window}
        → exists (is_of key) ws ≡ true
        → Tracks window now log ws
        → Tracks window now
            (log ++ record { key = key; at = now } ∷ [])
            (update (is_of key) (append_time now) ws)
    recorded-Tracks {log} {ws} there t = record {
      unique = Unique-change key (append_time now) (λ w. refl) ws t.unique;
      ordered = All-IsOrdered-append now key ws t.ordered;
      matched = λ k. elim (Bool-cases (key == k)) [
        | inl e ↦
            let same : key ≡ k = (==_iff key k).0 e in
            rw
              (
                ← same,
                events_of-append now key ws there,
                times-append_self log,
                select_live-append now (events_of key ws) (now ∷ []),
                select_live-append now (times key log) (now ∷ []),
                t.matched key,
              )
              refl
        | inr n ↦
            rw
              (
                events_of-change_other key (append_time now) (λ w. refl) k ws n,
                times-append_other k log n,
              )
              (t.matched k)
      ];
    }
