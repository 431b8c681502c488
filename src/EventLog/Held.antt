-- ===== src/EventLog/Held.antt =====
-- The cursor of a relay that holds its generation, and what the transactions of others leave of it.
use samsarix_chat_engine.Base.{
  ℕ, Bool, ◌≡◌, ◌≢◌, refl, sym, ap, ◌∙◌, subst, inl, inr, Option, none, some, List, [], ◌∷◌, ◌++◌,
  arith, Bool-cases, Option-cases, if◌then◌else◌,
}
use samsarix_chat_engine.Base.Sql.{fetch, update}
use samsarix_chat_engine.Store.Tables.{Text}
use samsarix_chat_engine.EventLog.{Cursor, EventLog}
use samsarix_chat_engine.EventLog.Instances.{of_instance}
use samsarix_chat_engine.EventLog.Cursors.{Rewrites, updates, appends}

abbrev pub picked : (Cursor → Bool) → (Cursor → Cursor) → Option Cursor → Option Cursor
picked q f none = none
picked q f (some c) = some (if q c then f c else c)

pub fetch-update :
    (i : Text) (q : Cursor → Bool) (f : Cursor → Cursor) (cs : List Cursor)
    → ((c : Cursor) → (f c).instance_id ≡ c.instance_id)
    → fetch (of_instance i) (update q f cs) ≡ picked q f (fetch (of_instance i) cs)
fetch-update i q f [] same = refl
fetch-update i q f (c ∷ cs) same = ground (arith, same c, fetch-update i q f cs same)

module _ (me g : Text) where
  -- The relay holds its generation, at event `n`.
  abbrev pub Holds : List Cursor → ℕ → Type 0
  Holds cs n =
      (c : Cursor) × (fetch (of_instance me) cs ≡ some c)
      × (c.generation ≡ g)
      × (c.last_sequence ≡ n)

  -- The row of the relay after an update, and the one it was.
  pub Holds-update :
      (q : Cursor → Bool) (f : Cursor → Cursor) (cs : List Cursor) (n : ℕ)
      → ((c : Cursor) → (f c).instance_id ≡ c.instance_id)
      → Holds (update q f cs) n
      → (c : Cursor) × (fetch (of_instance me) cs ≡ some c)
        × ((if q c then f c else c).generation ≡ g)
        × ((if q c then f c else c).last_sequence ≡ n)
  Holds-update q f cs n same (c', found, gen, last) =
      elim (Option-cases (fetch (of_instance me) cs)) [
        | inl e ↦
            let there : picked q f none ≡ some c' =
              subst (λ o. picked q f o ≡ some c') e (sym (fetch-update me q f cs same) ∙ found) in
            absurd (cc)
        | inr (c, e) ↦
            let there : picked q f (some c) ≡ some c' =
              subst (λ o. picked q f o ≡ some c') e (sym (fetch-update me q f cs same) ∙ found) in
            let s : (if q c then f c else c) ≡ c' = cc in
            (
              c,
              e,
              ap (λ (x : Cursor). x.generation) s ∙ gen,
              ap (λ (x : Cursor). x.last_sequence) s ∙ last,
            )
      ]

  Holds-append :
      (new : Cursor) (cs : List Cursor) (n : ℕ)
      → new.generation ≢ g
      → Holds (cs ++ new ∷ []) n
      → Holds cs n
  Holds-append new [] n other (c', found, gen, last) = elim (Bool-cases (of_instance me new)) [
    | inl t ↦
        let s : new ≡ c' = cc (rw t at found) in
        absurd (other (ap (λ (x : Cursor). x.generation) s ∙ gen))
    | inr k ↦ absurd (cc (rw k at found))
  ]
  Holds-append new (c ∷ cs) n other (c', found, gen, last) = elim (Bool-cases (of_instance me c)) [
    | inl t ↦ (c', rw t (rw t at found), gen, last)
    | inr k ↦
        let (d, e, h, l) = Holds-append new cs n other (c', rw k at found, gen, last) in
        (d, rw k e, h, l)
  ]

  -- Where the relay holds its generation after a transaction of another, it did before.
  pub Holds-Rewrites :
      {log' : EventLog} (fresh : Option Text) (log : EventLog) (n : ℕ)
      → fresh ≢ some g
      → Rewrites fresh log log'
      → Holds log'.cursors n
      → Holds log.cursors n
  Holds-Rewrites fresh log n other (updates q f each) held =
      let (c, e, gen, last) = Holds-update q f log.cursors n (λ x. (each x).0) held in
      elim (Bool-cases (q c)) [
        | inr k ↦ (c, e, rw k at gen, rw k at last)
        | inl t ↦ elim ((each c).1) [
          | inl same ↦ (c, e, sym same.0 ∙ rw t at gen, sym same.1 ∙ rw t at last)
          | inr new ↦ absurd (other (new.0 ∙ ap some (rw t at gen)))
        ]
      ]
  Holds-Rewrites fresh log n other (appends new absent is_fresh at_head) held =
      Holds-append new log.cursors n (λ gen. other (is_fresh ∙ ap some gen)) held
