-- ===== src/Base/Sorted.antt =====
-- What ORDER BY yields: a sorted list, whose first row no other row precedes.
use samsarix_chat_engine.Base.Tests.{Bool-cases, ◌==◌, ltb}
use samsarix_chat_engine.Base.Lists.{All}
use samsarix_chat_engine.Base.Sql.{select, head?, select-holds}
use samsarix_chat_engine.Base.Order.{insert, order_by, order_by-nil, All-insert, All-order_by}
use mathlib.Core.Option.{Option, none, some}
use Prim.Native.Nat.{ℕ}
use mathlib.Core.Path.{◌≡◌, refl, sym, subst}
use mathlib.Core.Logic.{inl, inr}
use mathlib.Core.Bool.{Bool, true, false, ◌&&◌, ◌||◌}
use mathlib.Core.List.{List, [], ◌∷◌}
use native.Mathlib.Omega.{arith}

-- A strict order by keys: `before` is irreflexive on ties and its negation is transitive.
pub record IsOrder {ℓ} {A : Type ℓ} (before : A → A → Bool) : Type ℓ where
  pub asym : (a b : A) → before a b ≡ true → before b a ≡ false
  pub neg_trans : (a b c : A) → before a b ≡ false → before b c ≡ false → before a c ≡ false

module _ {ℓ} {A : Type ℓ} (before : A → A → Bool) where
  abbrev pub NotBefore : A → A → Type 0
  NotBefore x y = before y x ≡ false

  abbrev pub Sorted : List A → Type ℓ
  Sorted [] = Unit
  Sorted (x ∷ xs) = All (NotBefore x) xs × Sorted xs

  module _ (o : IsOrder before) where
    NotBefore-trans :
        (x y : A) (ys : List A) → NotBefore x y → All (NotBefore y) ys → All (NotBefore x) ys
    NotBefore-trans x y [] h k = tt
    NotBefore-trans x y (z ∷ zs) h k = (o.neg_trans z y x k.0 h, NotBefore-trans x y zs h k.1)

    Sorted-insert : (x : A) (xs : List A) → Sorted xs → Sorted (insert before x xs)
    Sorted-insert x [] s = (tt, tt)
    Sorted-insert x (y ∷ ys) s = elim (Bool-cases (before y x)) [
      | inl e ↦
          rw e (All-insert (NotBefore y) before x ys (o.asym y x e) s.0, Sorted-insert x ys s.1)
      | inr e ↦ rw e ((e, NotBefore-trans x y ys e s.0), s)
    ]

    pub Sorted-order_by : (xs : List A) → Sorted (order_by before xs)
    Sorted-order_by [] = tt
    Sorted-order_by (x ∷ xs) = Sorted-insert x (order_by before xs) (Sorted-order_by xs)

module _ {ℓ κ} {A : Type ℓ} (P : A → Type κ) (before : A → A → Bool) where
  All-insert_inv : (x : A) (xs : List A) → All P (insert before x xs) → P x × All P xs
  All-insert_inv x [] h = h
  All-insert_inv x (y ∷ ys) h = elim (Bool-cases (before y x)) [
    | inl e ↦
        let k : P y × All P (insert before x ys) = rw e at h in
        let (p, q) = All-insert_inv x ys k.1 in (p, (k.0, q))
    | inr e ↦ rw e at h
  ]

  -- What holds of the ordered rows holds of the rows.
  pub All-order_by_inv : (xs : List A) → All P (order_by before xs) → All P xs
  All-order_by_inv [] h = tt
  All-order_by_inv (x ∷ xs) h =
      let (p, q) = All-insert_inv x (order_by before xs) h in (p, All-order_by_inv xs q)

module _ {ℓ} {A : Type ℓ} (before : A → A → Bool) (o : IsOrder before) where
  pub irrefl : (x : A) → before x x ≡ false
  irrefl x = elim (Bool-cases (before x x)) [ inl e ↦ o.asym x x e | inr e ↦ e ]

  -- The first row of an ordering is preceded by none.
  pub order_by-cons-least :
      (xs : List A) (x : A) {rest : List A}
      → order_by before xs ≡ x ∷ rest
      → All (NotBefore before x) xs
  order_by-cons-least xs x {rest} e =
      let s : Sorted before (x ∷ rest) = subst (Sorted before) e (Sorted-order_by before o xs) in
      let t : All (NotBefore before x) (x ∷ rest) = (irrefl x, s.0) in
      All-order_by_inv (NotBefore before x) before xs (subst (All (NotBefore before x)) (sym e) t)

module _ {ℓ} {A : Type ℓ} (p : A → Bool) where
  unselected : (rows : List A) → select p rows ≡ [] → All (λ x. p x ≡ false) rows
  unselected [] h = tt
  unselected (x ∷ xs) h = elim (Bool-cases (p x)) [
    | inl e ↦ absurd (cc (rw e at h))
    | inr e ↦ (e, unselected xs (rw e at h))
  ]

  pub All-selected {κ} :
      (P : A → Type κ) (rows : List A) → All P (select p rows) → All (λ x. p x ≡ true → P x) rows
  All-selected P [] h = tt
  All-selected P (x ∷ xs) h = elim (Bool-cases (p x)) [
    | inl e ↦ let k : P x × All P (select p xs) = rw e at h in (λ _. k.0, All-selected P xs k.1)
    | inr e ↦ ((λ f. cc), All-selected P xs (rw e at h))
  ]

module _ {ℓ} {A : Type ℓ} (before : A → A → Bool) (p : A → Bool) (rows : List A) where
  -- The first of the rows that meet the condition; none if no row does.
  abbrev pub IsFirst : Option A → Type 0
  IsFirst none = All (λ x. p x ≡ false) rows
  IsFirst (some n) = (p n ≡ true) × All (λ x. p x ≡ true → before x n ≡ false) rows

  IsFirst-head :
      IsOrder before
      → (sorted : List A) → order_by before (select p rows) ≡ sorted
      → IsFirst (head? sorted)
  IsFirst-head o [] e = unselected p rows (order_by-nil before (select p rows) e)
  IsFirst-head o (n ∷ ns) e =
      let holding : All (λ x. p x ≡ true) (n ∷ ns) =
        subst (All (λ x. p x ≡ true)) e
          (All-order_by (λ x. p x ≡ true) before (select p rows) (select-holds p rows)) in
      (
        holding.0,
        All-selected p (NotBefore before n) rows (order_by-cons-least before o (select p rows) n e),
      )

  pub head-IsFirst : IsOrder before → IsFirst (head? (order_by before (select p rows)))
  head-IsFirst o = IsFirst-head o (order_by before (select p rows)) refl

-- An order by two numbers, ascending.
pub lexicographic {ℓ} :
    {A : Type ℓ} (f g : A → ℕ)
    → IsOrder {A = A} (λ a b. ltb (f a) (f b) || f a == f b && ltb (g a) (g b))
lexicographic f g = record { asym = λ a b h. ground arith; neg_trans = λ a b c h k. ground arith }

-- And the descending one.
pub lexicographic_desc {ℓ} :
    {A : Type ℓ} (f g : A → ℕ)
    → IsOrder {A = A} (λ a b. ltb (f b) (f a) || f a == f b && ltb (g b) (g a))
lexicographic_desc f g = record {
  asym = λ a b h. ground arith;
  neg_trans = λ a b c h k. ground arith;
}

-- An order by three numbers.
pub lexicographic_three {ℓ} :
    {A : Type ℓ} (e f g : A → ℕ)
    → IsOrder {A = A}
        (λ a b. ltb (e a) (e b) || e a == e b && (ltb (f a) (f b) || f a == f b && ltb (g a) (g b)))
lexicographic_three e f g = record {
  asym = λ a b h. ground arith;
  neg_trans = λ a b c h k. ground arith;
}
