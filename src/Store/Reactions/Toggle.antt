-- ===== src/Store/Reactions/Toggle.antt =====
-- Adding and removing a reaction: the reactor's row is there or not as asked, others stay, and a new
-- key is refused where 20 are in use.
use samsarix_chat_engine.Base.{
  ℕ, ◌<◌, leb, Bool, true, false, not, ◌&&◌, bool_eq, ◌≡◌, ◌≤◌, refl, sym, ◌∙◌, List, [], ◌∷◌, ◌++◌,
  length, arith, Bool-cases, inl, inr,
}
use samsarix_chat_engine.Base.Sql.{exists, delete, select}
use samsarix_chat_engine.Store.Tables.{Text, Time, ReactionRow, StoreError, reaction_capacity}
use samsarix_chat_engine.Store.Outcomes.{Outcome, Outcome-if}
use samsarix_chat_engine.Store.Reactions.{
  with_key, by_reactor, keys_on, max_reaction_keys, new_reaction, add_reaction, toggle,
}

module _ (room message reactor key : Text) (present : Bool) (now : Time) where
  -- The reactor's own row.
  abbrev mine : ReactionRow → Bool
  mine = by_reactor message reactor key

  deleted_mine : (rows : List ReactionRow) → exists mine (delete mine rows) ≡ false
  deleted_mine [] = refl
  deleted_mine (r ∷ rs) = ground (arith, deleted_mine rs)

  appended_mine :
      (rows : List ReactionRow)
      → exists mine (rows ++ new_reaction room message reactor key now ∷ []) ≡ true
  appended_mine [] = ground arith
  appended_mine (r ∷ rs) = ground (arith, appended_mine rs)

  others-delete :
      (rows : List ReactionRow)
      → select (λ r. not (mine r)) (delete mine rows) ≡ select (λ r. not (mine r)) rows
  others-delete [] = refl
  others-delete (r ∷ rs) = ground (arith, others-delete rs)

  others-append :
      (rows : List ReactionRow)
      → select (λ r. not (mine r)) (rows ++ new_reaction room message reactor key now ∷ [])
        ≡ select (λ r. not (mine r)) rows
  others-append [] = ground arith
  others-append (r ∷ rs) = ground (arith, others-append rs)

  -- The keys that a message may have.
  abbrev pub max_keys : ℕ
  max_keys = 20

  -- What a call that returns leaves of the rows.
  pub record IsToggled (rows rows' : List ReactionRow) (changed : Bool) : Type 0 where
    pub mine_now : exists mine rows' ≡ present
    pub others : select (λ r. not (mine r)) rows' ≡ select (λ r. not (mine r)) rows
    pub reported : changed ≡ not (bool_eq (exists mine rows) present)
    pub untouched : changed ≡ false → rows' ≡ rows
    pub fits :
        present ≡ true
        → exists (with_key message key) rows ≡ false
        → length (keys_on message rows) < max_keys

  -- Why a call is refused: it would add a key to a message that has 20.
  pub record IsFull (rows : List ReactionRow) (e : StoreError) : Type 0 where
    pub adding : present ≡ true
    pub new_row : exists mine rows ≡ false
    pub new_key : exists (with_key message key) rows ≡ false
    pub full : max_keys ≤ length (keys_on message rows)
    pub named : e ≡ reaction_capacity message

  mine-known :
      (rows : List ReactionRow)
      → exists mine rows ≡ true
      → exists (with_key message key) rows ≡ true
  mine-known [] h = cc
  mine-known (r ∷ rs) h = ground (arith, mine-known rs)

  -- A toggle is refused only where it would add a row of a key that the message does not have, and 20
  -- keys are in use. Otherwise a new key met fewer than 20, the reactor's row is there or not as
  -- asked, all other rows stay in their order, and the call reports exactly whether the rows changed.
  pub toggle-Outcome :
      (rows : List ReactionRow)
      → Outcome
          (IsFull rows)
          (λ r. IsToggled rows r.0 r.1)
          (toggle room message reactor key present now rows)
  unfolding toggle add_reaction
  toggle-Outcome rows =
      Outcome-if _ _ (present && not (exists mine rows)) _ _
        (λ add.
          let on : present ≡ true = ground arith in
          let fresh : exists mine rows ≡ false = ground arith in
          let full =
            not (exists (with_key message key) rows)
            && leb max_reaction_keys (length (keys_on message rows)) in
          elim (Bool-cases full) [
            | inl t ↦ rw t (record {
              adding = on;
              new_row = fresh;
              new_key = ground arith;
              full = ground arith;
              named = refl;
            })
            | inr f ↦ rw f (record {
              mine_now = appended_mine rows ∙ sym on;
              others = others-append rows;
              reported = rw (fresh, on);
              untouched = λ t. cc;
              fits = λ _ new. ground (arith, f, new);
            })
          ])
        (λ keep.
          Outcome-if _ _ (not present && exists mine rows) _ _
            (λ drop.
              let off : present ≡ false = ground arith in
              let old : exists mine rows ≡ true = ground arith in
              record {
                mine_now = deleted_mine rows ∙ sym off;
                others = others-delete rows;
                reported = rw (old, off);
                untouched = λ t. cc;
                fits = λ o _. cc;
              })
            (λ stay.
              let same : exists mine rows ≡ present = ground arith in
              record {
                mine_now = same;
                others = refl;
                reported = ground arith;
                untouched = λ _. refl;
                fits = λ o new.
                    let there : exists mine rows ≡ true = same ∙ o in
                    let known = mine-known rows there in absurd (cc (known, new));
              }))
