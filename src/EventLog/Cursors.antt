-- ===== src/EventLog/Cursors.antt =====
-- How the transactions on the leases rewrite the cursors: what each writes, and what that leaves of
-- the cursor of a relay that holds its generation.
use samsarix_chat_engine.Base.{
  ℕ, ◌==◌, Bool, false, ◌≡◌, ◌⊎◌, refl, inl, inr, Option, none, some, List, [], ◌∷◌, ◌++◌,
  Bool-cases,
}
use samsarix_chat_engine.Base.Sql.{exists, fetch, update}
use samsarix_chat_engine.Base.Raises.{Ends, Ends-raise_if, Ends-or_raise, Ends-if}
use samsarix_chat_engine.Store.Tables.{Text, Time}
use samsarix_chat_engine.EventLog.{Cursor, EventLog, current_head, has_lease}
use samsarix_chat_engine.EventLog.Instances.{
  of_instance, of_generation, lease_until, set_cursors, new_cursor, InstanceRegistration,
  renewed_on_conflict, register_as, register_instance, moved_to, claim, claim_instance, is_held,
  release_instance, heartbeat_claimed_instance, is_running, heartbeat_instance, restarted, restart,
  recover_instance_after_gap, recover_claimed_instance_after_gap, resynchronize_claimed_instance,
}

-- A row keeps its generation and its event, or takes the new generation, at its event or the head.
abbrev pub Rewritten : Option Text → EventLog → Cursor → Cursor → Type 0
Rewritten fresh log c c' =
    (c'.instance_id ≡ c.instance_id)
    × (((c'.generation ≡ c.generation) × (c'.last_sequence ≡ c.last_sequence))
        ⊎ ((fresh ≡ some c'.generation)
            × ((c'.last_sequence ≡ c.last_sequence) ⊎ (c'.last_sequence ≡ current_head log))))

pub data Rewrites (fresh : Option Text) (log : EventLog) : EventLog → Type 0 where
  updates :
      (q : Cursor → Bool) (f : Cursor → Cursor)
      → ((c : Cursor) → Rewritten fresh log c (f c))
      → Rewrites fresh log (set_cursors (update q f log.cursors) log)
  appends :
      (new : Cursor)
      → exists (of_instance new.instance_id) log.cursors ≡ false
      → fresh ≡ some new.generation
      → new.last_sequence ≡ current_head log
      → Rewrites fresh log (set_cursors (log.cursors ++ new ∷ []) log)

pub fetch-none : (p : Cursor → Bool) (cs : List Cursor) → fetch p cs ≡ none → exists p cs ≡ false
fetch-none p [] e = refl
fetch-none p (c ∷ cs) e = elim (Bool-cases (p c)) [
  | inl t ↦ absurd (cc (rw t at e))
  | inr f ↦ rw f (fetch-none p cs (rw f at e))
]

module _ (log : EventLog) where
  renews :
      (fresh : Option Text) (q : Cursor → Bool) (now : Time) (lease : ℕ)
      → Rewrites fresh log (set_cursors (update q (lease_until now lease) log.cursors) log)
  renews fresh q now lease = updates q (lease_until now lease) (λ c. (refl, inl (refl, refl)))

  registers_new :
      (i fresh : Text) (now : Time) (lease : ℕ)
      → fetch (of_instance i) log.cursors ≡ none
      → Rewrites
          (some fresh)
          log
          (set_cursors (log.cursors ++ new_cursor i fresh now lease log ∷ []) log)
  registers_new i fresh now lease e =
      appends (new_cursor i fresh now lease log) (fetch-none (of_instance i) log.cursors e) refl
        refl

  pub register_instance-Rewrites :
      (i fresh : Text) (now : Time) (lease : ℕ)
      → Ends
          (λ (p : ℕ × EventLog). Rewrites (some fresh) log p.1)
          (register_instance i fresh now lease log)
  unfolding register_instance
  register_instance-Rewrites i fresh now lease =
      Ends-raise_if _ _ _ _ λ _. chosen (fetch (of_instance i) log.cursors) refl
    where
      chosen :
          (o : Option Cursor)
          → fetch (of_instance i) log.cursors ≡ o
          → Rewrites (some fresh) log (register_as i fresh now lease log o).1
      chosen none e = registers_new i fresh now lease e
      chosen (some c) e = updates (of_instance i) (renewed_on_conflict fresh now lease) λ x.
          elim (Bool-cases (has_lease now x)) [
            | inl a ↦ rw a (refl, inl (refl, refl))
            | inr a ↦ rw a (refl, inr (refl, inl refl))
          ]

  pub claim_instance-Rewrites :
      (i : Text) (generation : Option Text) (fresh : Text) (now : Time) (lease : ℕ)
      → Ends
          (λ (p : InstanceRegistration × EventLog). Rewrites (some fresh) log p.1)
          (claim_instance i generation fresh now lease log)
  unfolding claim_instance
  claim_instance-Rewrites i generation fresh now lease =
      Ends-raise_if _ _ _ _ λ _. chosen (fetch (of_instance i) log.cursors) refl
    where
      chosen :
          (o : Option Cursor)
          → fetch (of_instance i) log.cursors ≡ o
          → Ends
              (λ (p : InstanceRegistration × EventLog). Rewrites (some fresh) log p.1)
              (claim i generation fresh now lease log o)
      chosen none e = registers_new i fresh now lease e
      chosen (some c) e =
          Ends-if (λ (p : InstanceRegistration × EventLog). Rewrites _ log p.1) (has_lease now c) _
            _
            (λ _.
              Ends-raise_if _ _ _ _
                λ _. renews (some fresh) (of_generation i c.generation) now lease)
            (λ _.
              updates (of_instance i) (moved_to fresh now lease)
                (λ x. (refl, inr (refl, inl refl))))

  pub release_instance-Rewrites :
      (i h : Text) (now : Time) → Rewrites none log (release_instance i h now log).1
  unfolding release_instance
  release_instance-Rewrites i h now =
      updates (is_held i h now) (λ c. record c { lease_expires_at = now })
        (λ x. (refl, inl (refl, refl)))

  pub heartbeat_claimed_instance-Rewrites :
      (i h : Text) (now : Time) (lease : ℕ)
      → Ends (Rewrites none log) (heartbeat_claimed_instance i h now lease log)
  unfolding heartbeat_claimed_instance
  heartbeat_claimed_instance-Rewrites i h now lease =
      Ends-raise_if _ _ _ _ λ _. Ends-raise_if _ _ _ _ λ _. renews none (is_held i h now) now lease

  pub heartbeat_instance-Rewrites :
      (i : Text) (now : Time) (lease : ℕ)
      → Ends (Rewrites none log) (heartbeat_instance i now lease log)
  unfolding heartbeat_instance
  heartbeat_instance-Rewrites i now lease =
      Ends-raise_if _ _ _ _ λ _. Ends-raise_if _ _ _ _ λ _. renews none (is_running i now) now lease

  restart-Rewrites :
      (q : Cursor → Bool) (fresh : Text) (now : Time) (lease : ℕ) (c : Cursor)
      → Ends
          (λ (p : InstanceRegistration × EventLog). Rewrites (some fresh) log p.1)
          (restart q fresh now lease c log)
  restart-Rewrites q fresh now lease c =
      updates q (restarted fresh now lease log) (λ x. (refl, inr (refl, inr refl)))

  pub recover_instance_after_gap-Rewrites :
      (i fresh : Text) (now : Time) (lease : ℕ)
      → Ends
          (λ (p : InstanceRegistration × EventLog). Rewrites (some fresh) log p.1)
          (recover_instance_after_gap i fresh now lease log)
  unfolding recover_instance_after_gap
  recover_instance_after_gap-Rewrites i fresh now lease = Ends-raise_if _ _ _ _ λ _.
      Ends-or_raise _ _ _ _
        λ c e. Ends-raise_if _ _ _ _ λ _. restart-Rewrites (of_instance i) fresh now lease c

  pub recover_claimed_instance_after_gap-Rewrites :
      (i h fresh : Text) (now : Time) (lease : ℕ)
      → Ends
          (λ (p : InstanceRegistration × EventLog). Rewrites (some fresh) log p.1)
          (recover_claimed_instance_after_gap i h fresh now lease log)
  unfolding recover_claimed_instance_after_gap
  recover_claimed_instance_after_gap-Rewrites i h fresh now lease = Ends-raise_if _ _ _ _ λ _.
      Ends-or_raise _ _ _ _
        λ c e. Ends-raise_if _ _ _ _ λ _. restart-Rewrites (of_generation i h) fresh now lease c

  pub resynchronize_claimed_instance-Rewrites :
      (i h recovery : Text) (now : Time) (lease : ℕ)
      → Ends
          (λ (p : InstanceRegistration × EventLog). Rewrites (some recovery) log p.1)
          (resynchronize_claimed_instance i h recovery now lease log)
  unfolding resynchronize_claimed_instance
  resynchronize_claimed_instance-Rewrites i h recovery now lease = Ends-raise_if _ _ _ _ λ _.
      Ends-raise_if _ _ _ _ λ _. Ends-or_raise _ _ _ _ λ c e.
        Ends-if (λ (p : InstanceRegistration × EventLog). Rewrites _ log p.1)
          (c.generation == recovery) _ _
          (λ _. renews (some recovery) (of_generation i recovery) now lease)
          (λ _. restart-Rewrites (of_generation i h) recovery now lease c)
