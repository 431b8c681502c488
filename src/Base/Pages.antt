-- ===== src/Base/Pages.antt =====
-- Reading a sorted table in pages: a WHERE clause commutes with ORDER BY, and the rows after a
-- cursor are the rest of the ordering.
use samsarix_chat_engine.Base.Tests.{◌==◌, Bool-cases}
use samsarix_chat_engine.Base.Lists.{All}
use samsarix_chat_engine.Base.Sql.{select, exists, fetch, All-select}
use samsarix_chat_engine.Base.Order.{insert, order_by}
use samsarix_chat_engine.Base.Sorted.{IsOrder, NotBefore, Sorted, Sorted-order_by, irrefl}
use samsarix_chat_engine.Base.Keys.{Unique, IsListed, has_key}
use Prim.Native.Nat.{ℕ}
use mathlib.Core.Path.{◌≡◌, refl, sym, ap, ◌∙◌}
use mathlib.Core.Logic.{inl, inr}
use mathlib.Core.Bool.{Bool, true, false, ◌&&◌}
use mathlib.Core.Option.{some}
use mathlib.Core.List.{List, [], ◌∷◌, ◌++◌}
use native.Mathlib.Omega.{arith}

module _ {ℓ} {A : Type ℓ} (before : A → A → Bool) (o : IsOrder before) where
  -- What precedes nothing in a sorted list is inserted in front of it.
  insert-front : (x : A) (xs : List A) → All (NotBefore before x) xs → insert before x xs ≡ x ∷ xs
  insert-front x [] h = refl
  insert-front x (y ∷ ys) h = rw h.0

  below :
      (x y : A) (ys : List A)
      → before y x ≡ false
      → All (NotBefore before y) ys
      → All (NotBefore before x) ys
  below x y [] e h = tt
  below x y (z ∷ zs) e h = (o.neg_trans z y x h.0 e, below x y zs e h.1)

  select-insert_in :
      (q : A → Bool) (x : A) (xs : List A)
      → q x ≡ true
      → Sorted before xs
      → select q (insert before x xs) ≡ insert before x (select q xs)
  select-insert_in q x [] e s = rw e
  select-insert_in q x (y ∷ ys) e s = elim (Bool-cases (before y x)) [
    | inl t ↦ elim (Bool-cases (q y)) [
      | inl k ↦ rw (t, k, t) (ap (λ r. y ∷ r) (select-insert_in q x ys e s.1))
      | inr k ↦ rw (t, k) (select-insert_in q x ys e s.1)
    ]
    | inr t ↦
        rw (t, e)
          (sym (
            insert-front x (select q (y ∷ ys))
              (All-select (NotBefore before x) q (y ∷ ys) (t, below x y ys t s.0))))
  ]

  select-insert_out :
      (q : A → Bool) (x : A) (xs : List A)
      → q x ≡ false
      → select q (insert before x xs) ≡ select q xs
  select-insert_out q x [] e = rw e
  select-insert_out q x (y ∷ ys) e = elim (Bool-cases (before y x)) [
    | inl t ↦ elim (Bool-cases (q y)) [
      | inl k ↦ rw (t, k) (ap (λ r. y ∷ r) (select-insert_out q x ys e))
      | inr k ↦ rw (t, k) (select-insert_out q x ys e)
    ]
    | inr t ↦ rw (t, e)
  ]

  -- SELECT … WHERE q ORDER BY is what q selects of the ordering.
  pub select-order_by :
      (q : A → Bool) (xs : List A) → order_by before (select q xs) ≡ select q (order_by before xs)
  select-order_by q [] = refl
  select-order_by q (x ∷ xs) = elim (Bool-cases (q x)) [
    | inl e ↦
        rw (e, select-order_by q xs)
          (sym (select-insert_in q x (order_by before xs) e (Sorted-order_by before o xs)))
    | inr e ↦ rw (e, select-order_by q xs) (sym (select-insert_out q x (order_by before xs) e))
  ]

pub select-select {ℓ} :
    {A : Type ℓ} (p q : A → Bool) (xs : List A)
    → select (λ x. p x && q x) xs ≡ select q (select p xs)
select-select p q [] = refl
select-select p q (x ∷ xs) = ground (arith, select-select p q xs)

module _ {ℓ} {A : Type ℓ} (q : A → Bool) where
  select-none : (xs : List A) → All (λ x. q x ≡ false) xs → select q xs ≡ []
  select-none [] h = refl
  select-none (x ∷ xs) h = rw h.0 (select-none xs h.1)

  select-All : (xs : List A) → All (λ x. q x ≡ true) xs → select q xs ≡ xs
  select-All [] h = refl
  select-All (x ∷ xs) h = rw h.0 (ap (λ r. x ∷ r) (select-All xs h.1))

  select-append : (xs ys : List A) → select q (xs ++ ys) ≡ select q xs ++ select q ys
  select-append [] ys = refl
  select-append (x ∷ xs) ys = ground (arith, select-append xs ys)

-- A table whose order separates rows with different keys.
pub record IsKeyed {ℓ} {A : Type ℓ} (key : A → ℕ) (before : A → A → Bool) : Type ℓ where
  pub order : IsOrder before
  pub separates : (a b : A) → before a b ≡ false → before b a ≡ false → (key a == key b) ≡ true

module _ {ℓ} {A : Type ℓ} (key : A → ℕ) (before : A → A → Bool) (k : IsKeyed key before) where
  none_before :
      (c : A) (xs ys : List A) → Sorted before (xs ++ c ∷ ys) → All (λ x. before c x ≡ false) xs
  none_before c [] ys s = tt
  none_before c (x ∷ xs) ys s = (cut xs s.0, none_before c xs ys s.1)
    where
      cut : (zs : List A) → All (NotBefore before x) (zs ++ c ∷ ys) → before c x ≡ false
      cut [] h = h.0
      cut (z ∷ zs) h = cut zs h.1

  later :
      (c : A) (ys : List A)
      → exists (has_key key (key c)) ys ≡ false
      → All (NotBefore before c) ys
      → All (λ y. before c y ≡ true) ys
  later c [] u s = tt
  later c (y ∷ ys) u s = elim (Bool-cases (before c y)) [
    | inl t ↦ (t, later c ys (ground arith) s.1)
    | inr f ↦ let same : (key y == key c) ≡ true = k.separates y c s.0 f in absurd (cc (same, u))
  ]

  rest-Sorted : (xs ys : List A) → Sorted before (xs ++ ys) → Sorted before ys
  rest-Sorted [] ys s = s
  rest-Sorted (x ∷ xs) ys s = rest-Sorted xs ys s.1

  rest-Unique : (xs ys : List A) → Unique key (xs ++ ys) → Unique key ys
  rest-Unique [] ys u = u
  rest-Unique (x ∷ xs) ys u = rest-Unique xs ys u.1

  -- The rows after the cursor.
  pub select-after :
      (xs : List A) (c : A) (ys : List A)
      → Sorted before (xs ++ c ∷ ys)
      → Unique key (xs ++ c ∷ ys)
      → select (before c) (xs ++ c ∷ ys) ≡ ys
  select-after xs c ys s u =
      let own = rest-Sorted xs (c ∷ ys) s in
      let fresh = rest-Unique xs (c ∷ ys) u in
      select-append (before c) xs (c ∷ ys)
      ∙ rw (
        select-none (before c) xs (none_before c xs ys s),
        irrefl before k.order c,
        select-All (before c) ys (later c ys fresh.0 own.0),
      )

module _ {ℓ} {A : Type ℓ} (key : A → ℕ) where
  exists-select :
      (p q : A → Bool) (xs : List A) → exists p xs ≡ false → exists p (select q xs) ≡ false
  exists-select p q [] h = refl
  exists-select p q (x ∷ xs) h = ground (arith, exists-select p q xs)

  pub Unique-select : (q : A → Bool) (xs : List A) → Unique key xs → Unique key (select q xs)
  Unique-select q [] u = tt
  Unique-select q (x ∷ xs) u = elim (Bool-cases (q x)) [
    | inl e ↦ rw e (exists-select (has_key key (key x)) q xs u.0, Unique-select q xs u.1)
    | inr e ↦ rw e (Unique-select q xs u.1)
  ]

  exists-insert :
      (p : A → Bool) (before : A → A → Bool) (x : A) (xs : List A)
      → exists p (insert before x xs) ≡ exists p (x ∷ xs)
  exists-insert p before x [] = refl
  exists-insert p before x (y ∷ ys) = ground (arith, exists-insert p before x ys)

  Unique-insert :
      (before : A → A → Bool) (x : A) (xs : List A)
      → exists (has_key key (key x)) xs ≡ false
      → Unique key xs
      → Unique key (insert before x xs)
  Unique-insert before x [] e u = (refl, tt)
  Unique-insert before x (y ∷ ys) e u = elim (Bool-cases (before y x)) [
    | inl t ↦ rw t (
      exists-insert (has_key key (key y)) before x ys ∙ ground arith,
      Unique-insert before x ys (ground arith) u.1,
    )
    | inr t ↦ rw t (e, u)
  ]

  exists-order_by :
      (p : A → Bool) (before : A → A → Bool) (xs : List A)
      → exists p (order_by before xs) ≡ exists p xs
  exists-order_by p before [] = refl
  exists-order_by p before (x ∷ xs) =
      ground (arith, exists-insert p before x (order_by before xs), exists-order_by p before xs)

  pub Unique-order_by :
      (before : A → A → Bool) (xs : List A) → Unique key xs → Unique key (order_by before xs)
  Unique-order_by before [] u = tt
  Unique-order_by before (x ∷ xs) u =
      Unique-insert before x (order_by before xs)
        (exists-order_by (has_key key (key x)) before xs ∙ u.0) (Unique-order_by before xs u.1)

  -- A condition that names the key of a listed row, and holds of it, finds it.
  pub fetch-narrow :
      (r : A → Bool) (c : A) (xs : List A)
      → ((x : A) → r x ≡ true → has_key key (key c) x ≡ true)
      → r c ≡ true
      → IsListed key xs c
      → fetch r xs ≡ some c
  fetch-narrow r c [] k h e = cc
  fetch-narrow r c (x ∷ xs) k h e = elim (Bool-cases (has_key key (key c) x)) [
    | inl t ↦ let q : x ≡ c = cc (rw t at e) in rw q (rw h refl)
    | inr f ↦ elim (Bool-cases (r x)) [
      | inl t ↦ absurd (cc (k x t, f))
      | inr n ↦ rw n (fetch-narrow r c xs k h (rw f at e))
    ]
  ]

pub All-middle {ℓ κ} :
    {A : Type ℓ} (P : A → Type κ) (xs : List A) (c : A) (ys : List A) → All P (xs ++ c ∷ ys) → P c
All-middle P [] c ys h = h.0
All-middle P (x ∷ xs) c ys h = All-middle P xs c ys h.1

pub All-rest {ℓ κ} : {A : Type ℓ} (P : A → Type κ) (xs ys : List A) → All P (xs ++ ys) → All P ys
All-rest P [] ys h = h
All-rest P (x ∷ xs) ys h = All-rest P xs ys h.1
