-- ===== src/RateLimiter/Capacity.antt =====
-- The dictionary of the limiter is bounded, however many keys call.
use samsarix_chat_engine.Base.{
  ◌-◌, ◌≤◌, ◌<◌, leb, ltb, true, ◌≡◌, ap, ◌∙◌, inl, inr, List, [], length, arith, Bool-cases,
  length-drop,
}
use samsarix_chat_engine.Base.Sql.{exists, update, delete, length-update}
use samsarix_chat_engine.Store.Tables.{Text, Time}
use samsarix_chat_engine.RateLimiter.{
  Window, Limiter, is_of, touch, events_of, pop_past, expire, append_time, is_inactive, admit,
  allow,
}
use samsarix_chat_engine.RateLimiter.Entries.{events_of-expire, events_of-missing, events_of-touch}

module _ (key : Text) (now : Time) (l : Limiter) (room : length l.windows ≤ l.max_keys) where
  length-admit : (ws : List Window) → length (admit l key now ws) ≤ l.max_keys
  length-admit ws =
      elim (Bool-cases (ltb l.max_keys (length (update (is_of key) (append_time now) ws)))) [
        | inl e ↦
            let active =
              delete (is_inactive l.window now) (update (is_of key) (append_time now) ws) in
            rw e (omega (arith, length-drop {0} (length active - l.max_keys) active))
        | inr e ↦ rw e (ground arith)
      ]

  -- With a positive limit a call that is refused is of a key that had a deque before.
  length-refused :
      0 < l.limit
      → leb l.limit
          (length (events_of key (update (is_of key) (expire l.window now) (touch key l.windows))))
        ≡ true
      → length (update (is_of key) (expire l.window now) (touch key l.windows)) ≤ l.max_keys
  length-refused pos over = elim (Bool-cases (exists (is_of key) l.windows)) [
    | inl e ↦ rw e (omega (arith, length-update {0} (is_of key) (expire l.window now) l.windows))
    | inr e ↦
        let bare : events_of key (update (is_of key) (expire l.window now) (touch key l.windows))
            ≡ [] =
          events_of-expire l.window now key (touch key l.windows)
          ∙ ap (pop_past l.window now)
              (events_of-touch key key l.windows ∙ events_of-missing key l.windows e) in
        let stuck : leb l.limit 0 ≡ true = rw bare at over in absurd (ground arith)
  ]

  -- With a positive limit, if no more than `max_keys` keys are held before a call, no more are held
  -- after it.
  pub length-allow : 0 < l.limit → length (allow key now l).1.windows ≤ l.max_keys
  unfolding allow
  length-allow pos =
      let ws = update (is_of key) (expire l.window now) (touch key l.windows) in
      elim (Bool-cases (leb l.limit (length (events_of key ws)))) [
        | inl over ↦ rw over (length-refused pos over)
        | inr under ↦ rw under (length-admit ws)
      ]
