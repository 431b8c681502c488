-- ===== src/EventLog/Begins.antt =====
-- Where a relay begins: the cursor that its claim or its resynchronization returns is the one that the
-- table holds, and a read finds that row.
use samsarix_chat_engine.Base.{
  ℕ, ◌==◌, Bool, true, false, ◌≡◌, refl, sym, ap, ◌∙◌, subst, inl, inr, Option, none, some, List,
  [], ◌∷◌, arith, Bool-cases, if◌then◌else◌,
}
use samsarix_chat_engine.Base.Sql.{fetch, update, fetch-append, fetch-holds, All-fetch}
use samsarix_chat_engine.Base.Keys.{Unique, IsListed, All-IsListed}
use samsarix_chat_engine.Base.Raises.{Ends, Ends-raise_if, Ends-or_raise, Ends-if}
use samsarix_chat_engine.Store.Tables.{Text, Time}
use samsarix_chat_engine.EventLog.{Cursor, EventLog, has_lease}
use samsarix_chat_engine.EventLog.Instances.{
  of_instance, of_generation, lease_until, new_cursor, InstanceRegistration, moved_to, claim,
  claim_instance, restarted, of_either, resynchronize_claimed_instance,
}
use samsarix_chat_engine.EventLog.Reading.{is_reader}
use samsarix_chat_engine.EventLog.Cursors.{fetch-none}
use samsarix_chat_engine.EventLog.Held.{Holds, Holds-update}
use samsarix_chat_engine.EventLog.Sound.{instance_of}

narrower :
    (p q : Cursor → Bool) (cs : List Cursor) (c : Cursor)
    → ((x : Cursor) → p x ≡ false → q x ≡ false)
    → fetch p cs ≡ some c
    → q c ≡ true
    → fetch q cs ≡ some c
narrower p q [] c n e t = cc
narrower p q (x ∷ cs) c n e t = elim (Bool-cases (p x)) [
  | inl k ↦
      let s : x ≡ c = cc (rw k at e) in
      let u : q x ≡ true = subst (λ y. q y ≡ true) (sym s) t in rw u (ap some s)
  | inr k ↦ rw (n x k) (narrower p q cs c n (rw k at e) t)
]

pub reader-fetch :
    (me g : Text) (now : Time) (cs : List Cursor) {c : Cursor}
    → Unique instance_of cs
    → fetch (is_reader me (some g) now) cs ≡ some c
    → (fetch (of_instance me) cs ≡ some c) × (c.generation ≡ g)
reader-fetch me g now cs {c} u e =
    let listed =
      All-fetch (IsListed instance_of cs) (is_reader me (some g) now) cs
        (All-IsListed instance_of cs u) e in
    let t = fetch-holds (is_reader me (some g) now) cs e in
    let same : c.instance_id ≡ me = ground arith in
    (subst (λ k. fetch (of_instance k) cs ≡ some c) same listed, ground arith)

module _ (me g : Text) where
  -- The cursor that a call returns is where the relay stands.
  abbrev pub Agrees : InstanceRegistration × EventLog → Type 0
  Agrees p = (k : ℕ) → Holds me g p.1.cursors k → k ≡ p.0.last_sequence

  keeps_last :
      (q : Cursor → Bool) (f : Cursor → Cursor) (cs : List Cursor) (c : Cursor)
      → fetch (of_instance me) cs ≡ some c
      → ((x : Cursor) → (f x).instance_id ≡ x.instance_id)
      → ((x : Cursor) → (f x).last_sequence ≡ x.last_sequence)
      → (k : ℕ) → Holds me g (update q f cs) k
      → k ≡ c.last_sequence
  keeps_last q f cs c e same last k held =
      let (d, there, gen, n) = Holds-update me g q f cs k same held in
      let s : d ≡ c = cc in
      let t : (if q d then f d else d).last_sequence ≡ d.last_sequence = elim (Bool-cases (q d)) [
        | inl y ↦ rw y (last d)
        | inr y ↦ rw y refl
      ] in
      sym n ∙ t ∙ ap (λ (x : Cursor). x.last_sequence) s

  pub claim_instance-Agrees :
      (generation : Option Text) (fresh : Text) (now : Time) (lease : ℕ) (log : EventLog)
      → Ends Agrees (claim_instance me generation fresh now lease log)
  unfolding claim_instance
  claim_instance-Agrees generation fresh now lease log =
      Ends-raise_if _ _ _ _ λ _. chosen (fetch (of_instance me) log.cursors) refl
    where
      chosen :
          (o : Option Cursor)
          → fetch (of_instance me) log.cursors ≡ o
          → Ends Agrees (claim me generation fresh now lease log o)
      chosen none e = λ k held.
          let (c, there, gen, n) = held in
          let new = new_cursor me fresh now lease log in
          let mine : of_instance me new ≡ true = ground arith in
          let s : new ≡ c = cc (
            fetch-append (of_instance me) log.cursors (new ∷ []),
            fetch-none (of_instance me) log.cursors e,
            mine,
            there,
          ) in
          sym n ∙ ap (λ (x : Cursor). x.last_sequence) (sym s)
      chosen (some c) e =
          Ends-if Agrees (has_lease now c) _ _
            (λ _. Ends-raise_if _ _ _ _ λ _.
              keeps_last (of_generation me c.generation) (lease_until now lease) log.cursors c e
                (λ x. refl) (λ x. refl))
            (λ _.
              keeps_last (of_instance me) (moved_to fresh now lease) log.cursors c e (λ x. refl)
                (λ x. refl))

  either :
      (h : Text) (cs : List Cursor) (c d : Cursor)
      → fetch (of_either me h g) cs ≡ some c
      → fetch (of_instance me) cs ≡ some d
      → d.generation ≡ g
      → d ≡ c
  either h cs c d e there gen =
      let mine = fetch-holds (of_instance me) cs there in
      let t : of_either me h g d ≡ true = ground arith in
      let e' = narrower (of_instance me) (of_either me h g) cs d (λ x f. ground arith) there t in cc

  pub resynchronize_claimed_instance-Agrees :
      (h : Text) (now : Time) (lease : ℕ) (log : EventLog)
      → Ends Agrees (resynchronize_claimed_instance me h g now lease log)
  unfolding resynchronize_claimed_instance
  resynchronize_claimed_instance-Agrees h now lease log = Ends-raise_if _ _ _ _ λ _.
      Ends-raise_if _ _ _ _ λ _. Ends-or_raise _ _ _ _ λ c e.
        Ends-if Agrees (c.generation == g) _ _
          (λ t k held.
            let (d, there, gen, n) =
              Holds-update me g (of_generation me g) (lease_until now lease) log.cursors k
                (λ x. refl) held in
            elim (Bool-cases (of_generation me g d)) [
              | inl y ↦
                  sym (rw y at n)
                  ∙ ap (λ (x : Cursor). x.last_sequence)
                      (either h log.cursors c d e there (rw y at gen))
              | inr y ↦
                  sym (rw y at n)
                  ∙ ap (λ (x : Cursor). x.last_sequence)
                      (either h log.cursors c d e there (rw y at gen))
            ])
          (λ f k held.
            let (d, there, gen, n) =
              Holds-update me g (of_generation me h) (restarted g now lease log) log.cursors k
                (λ x. refl) held in
            elim (Bool-cases (of_generation me h d)) [
              | inl y ↦ sym (rw y at n)
              | inr y ↦
                  let was : d.generation ≡ g = rw y at gen in
                  let s =
                    ap (λ (x : Cursor). x.generation) (either h log.cursors c d e there was) in
                  absurd (ground (arith, f, s, was))
            ])
