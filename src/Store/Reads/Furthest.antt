-- ===== src/Store/Reads/Furthest.antt =====
-- The point that a mark leaves the cursor at: of where it was and the marked message, the later one.
use samsarix_chat_engine.Base.{
  ◌<◌, ◌⊎◌, subst, Bool, true, false, ◌≡◌, refl, sym, Option, none, some, arith, Bool-cases, inl,
  inr, if◌then◌else◌,
}
use samsarix_chat_engine.Store.Tables.{Text, Time, MessageRow, ReadStateRow}
use samsarix_chat_engine.Store.Reads.{text_or_empty, candidate, is_ahead, advances}

-- The cursor that is further along, and the old one of two that are equal.
abbrev pub furthest : ReadStateRow → Option ReadStateRow → ReadStateRow
furthest c none = c
furthest c (some r) = if is_ahead c r then c else r

-- The point of a mark: the message, or the time of the call where there is none.
abbrev pub mark_time : Option MessageRow → Time → Time
mark_time none now = now
mark_time (some m) now = m.created_at

abbrev pub mark_message : Option MessageRow → Option Text
mark_message none = none
mark_message (some m) = some m.id

-- An identifier as it sorts, with a missing one before all others.
abbrev pub rank : Option Text → Text
rank none = 0
rank (some k) = k

-- One point lies before another, by time and then by identifier.
abbrev pub Before : Time → Option Text → Time → Option Text → Type 0
Before t k u j = (t < u) ⊎ ((t ≡ u) × (rank k < rank j))

-- The cursor after a mark: it is not before the marked point, nor before where it was. It moved to the
-- marked point, from a point before it, or it stays because it was there or past it.
pub record IsFurthest (target : Option MessageRow) (now : Time) (old : Option ReadStateRow)
    (new : ReadStateRow) (moved : Bool) : Type 0 where
  pub past_mark :
      Before new.message_created_at new.message_id (mark_time target now) (mark_message target) → ⊥
  pub past_old :
      (r : ReadStateRow)
      → old ≡ some r
      → Before new.message_created_at new.message_id r.message_created_at r.message_id
      → ⊥
  pub at_mark :
      moved ≡ true
      → (new.message_created_at ≡ mark_time target now) × (new.message_id ≡ mark_message target)
  pub forward :
      moved ≡ true
      → (r : ReadStateRow) → old ≡ some r
      → Before r.message_created_at r.message_id new.message_created_at new.message_id
  pub stays : moved ≡ false → old ≡ some new

rank-eq : (o : Option Text) → rank o ≡ text_or_empty o
rank-eq none = refl
rank-eq (some k) = refl

at_candidate :
    (room subject : Text) (target : Option MessageRow) (now : Time)
    → let c = candidate room subject target now in
      (c.message_created_at ≡ mark_time target now) × (c.message_id ≡ mark_message target)
at_candidate room subject none now = (refl, refl)
at_candidate room subject (some m) now = (refl, refl)

is_ahead-Before :
    (c r : ReadStateRow)
    → is_ahead c r ≡ true
    → Before r.message_created_at r.message_id c.message_created_at c.message_id
is_ahead-Before c r h = ground (arith, h, rank-eq c.message_id, rank-eq r.message_id)

not_ahead-Before :
    (c r : ReadStateRow)
    → is_ahead c r ≡ false
    → Before r.message_created_at r.message_id c.message_created_at c.message_id
    → ⊥
not_ahead-Before c r h b = ground (arith, h, b, rank-eq c.message_id, rank-eq r.message_id)

Before-irreflexive : (t : Time) (k : Option Text) → Before t k t k → ⊥
Before-irreflexive t k (inl h) = omega arith
Before-irreflexive t k (inr h) = omega (arith, h.1)

Before-asym : (t u : Time) (k j : Option Text) → Before t k u j → Before u j t k → ⊥
Before-asym t u k j b c = ground (arith, b, c)

pub furthest-IsFurthest :
    (room subject : Text) (target : Option MessageRow) (now : Time) (old : Option ReadStateRow)
    → let c = candidate room subject target now in
      IsFurthest target now old (furthest c old) (advances c old)
furthest-IsFurthest room subject target now none =
    let c = candidate room subject target now in
    let (t, k) = at_candidate room subject target now in
    record {
      past_mark =
          subst (λ (x : Time). Before c.message_created_at c.message_id x (mark_message target) → ⊥)
            t
            (subst
              (λ (x : Option Text).
                Before c.message_created_at c.message_id c.message_created_at x → ⊥)
              k (Before-irreflexive c.message_created_at c.message_id));
      past_old = λ r e. cc;
      at_mark = λ _. (t, k);
      forward = λ _ r e. cc;
      stays = λ e. cc;
    }
furthest-IsFurthest room subject target now (some r) =
    let c = candidate room subject target now in
    let (t, k) = at_candidate room subject target now in
    elim (Bool-cases (is_ahead c r)) [
      | inl h ↦ rw h (record {
        past_mark =
            subst
              (λ (x : Time). Before c.message_created_at c.message_id x (mark_message target) → ⊥) t
              (subst
                (λ (x : Option Text).
                  Before c.message_created_at c.message_id c.message_created_at x → ⊥)
                k (Before-irreflexive c.message_created_at c.message_id));
        past_old = λ x e b.
            let s : r ≡ x = cc in
            Before-asym c.message_created_at r.message_created_at c.message_id r.message_id
              (subst
                (λ (y : ReadStateRow).
                  Before c.message_created_at c.message_id y.message_created_at y.message_id)
                (sym s) b)
              (is_ahead-Before c r h);
        at_mark = λ _. (t, k);
        forward = λ _ x e.
            let s : r ≡ x = cc in
            subst
              (λ (y : ReadStateRow).
                Before y.message_created_at y.message_id c.message_created_at c.message_id)
              s (is_ahead-Before c r h);
        stays = λ e. cc;
      })
      | inr h ↦ rw h (record {
        past_mark =
            subst
              (λ (x : Time). Before r.message_created_at r.message_id x (mark_message target) → ⊥) t
              (subst
                (λ (x : Option Text).
                  Before r.message_created_at r.message_id c.message_created_at x → ⊥)
                k (not_ahead-Before c r h));
        past_old = λ x e b.
            let s : r ≡ x = cc in
            Before-irreflexive r.message_created_at r.message_id (
              subst
                (λ (y : ReadStateRow).
                  Before r.message_created_at r.message_id y.message_created_at y.message_id)
                (sym s) b);
        at_mark = λ e. cc;
        forward = λ e x q. cc;
        stays = λ _. refl;
      })
    ]
