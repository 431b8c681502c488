-- ===== src/Base/Sql.antt =====
-- SQL statements on a table, read as functions on its list of rows in the order of insertion:
-- SELECT … WHERE, COUNT(*), DELETE, UPDATE and the first row of a query.
use samsarix_chat_engine.Base.Tests.{if◌then◌else◌, Bool-cases}
use samsarix_chat_engine.Base.Lists.{length, All}
use Prim.Native.Nat.{ℕ, suc, ◌+◌, ◌≤◌}
use mathlib.Core.Path.{◌≡◌, refl, ap, subst}
use mathlib.Core.Logic.{inl, inr}
use mathlib.Core.Bool.{Bool, true, false, not, ◌||◌}
use mathlib.Core.Option.{Option, none, some}
use mathlib.Core.List.{List, [], ◌∷◌, ◌++◌}
use native.Mathlib.Omega.{arith}

module _ {ℓ} {A : Type ℓ} where
  -- SELECT … WHERE
  abbrev pub select : (A → Bool) → List A → List A
  select p [] = []
  select p (x ∷ xs) = let rest = select p xs in if p x then x ∷ rest else rest

  -- SELECT COUNT(*) … WHERE
  abbrev pub count : (A → Bool) → List A → ℕ
  count p [] = 0
  count p (x ∷ xs) = (if p x then 1 else 0) + count p xs

  -- fetchone(), where the WHERE clause holds of one row at most
  abbrev pub fetch : (A → Bool) → List A → Option A
  fetch p [] = none
  fetch p (x ∷ xs) = if p x then some x else fetch p xs

  -- fetchone() of any row
  abbrev pub head? : List A → Option A
  head? [] = none
  head? (x ∷ xs) = some x

  -- DELETE … WHERE
  abbrev pub delete : (A → Bool) → List A → List A
  delete p [] = []
  delete p (x ∷ xs) = let rest = delete p xs in if p x then rest else x ∷ rest

  -- UPDATE … SET … WHERE
  abbrev pub update : (A → Bool) → (A → A) → List A → List A
  update p f [] = []
  update p f (x ∷ xs) = (if p x then f x else x) ∷ update p f xs

  -- EXISTS
  abbrev pub exists : (A → Bool) → List A → Bool
  exists p [] = false
  exists p (x ∷ xs) = p x || exists p xs

  pub length-delete : (p : A → Bool) (xs : List A) → length (delete p xs) + count p xs ≡ length xs
  length-delete p [] = omega arith
  length-delete p (x ∷ xs) = ground (arith, length-delete p xs)

  pub length-update : (p : A → Bool) (f : A → A) (xs : List A) → length (update p f xs) ≡ length xs
  length-update p f [] = refl
  length-update p f (x ∷ xs) = ap suc (length-update p f xs)

  pub length-select : (p : A → Bool) (xs : List A) → length (select p xs) ≡ count p xs
  length-select p [] = refl
  length-select p (x ∷ xs) = ground (arith, length-select p xs)

  pub count-append : (p : A → Bool) (xs ys : List A) → count p (xs ++ ys) ≡ count p xs + count p ys
  count-append p [] ys = omega arith
  count-append p (x ∷ xs) ys = omega (arith, count-append p xs ys)

  pub count-le-length : (p : A → Bool) (xs : List A) → count p xs ≤ length xs
  count-le-length p [] = omega arith
  count-le-length p (x ∷ xs) = ground (arith, count-le-length p xs)

  pub count-All : (p : A → Bool) (xs : List A) → All (λ x. p x ≡ true) xs → count p xs ≡ length xs
  count-All p [] h = refl
  count-All p (x ∷ xs) h = ground (arith, count-All p xs h.1)

  pub count-select-le : (p q : A → Bool) (xs : List A) → count p (select q xs) ≤ count p xs
  count-select-le p q [] = omega arith
  count-select-le p q (x ∷ xs) = ground (arith, count-select-le p q xs)

  pub count-delete :
      (p q : A → Bool) (xs : List A) → count q (delete p xs) + count p (select q xs) ≡ count q xs
  count-delete p q [] = omega arith
  count-delete p q (x ∷ xs) = ground (arith, count-delete p q xs)

  pub count-delete-le : (p q : A → Bool) (xs : List A) → count q (delete p xs) ≤ count q xs
  count-delete-le p q xs = omega (arith, count-delete p q xs)

  pub count-update :
      (p q : A → Bool) (f : A → A) (xs : List A)
      → ((x : A) → q (f x) ≡ q x)
      → count q (update p f xs) ≡ count q xs
  count-update p q f [] same = refl
  count-update p q f (x ∷ xs) same = ground (arith, count-update p q f xs same, same x)

  pub select-holds : (p : A → Bool) (xs : List A) → All (λ x. p x ≡ true) (select p xs)
  select-holds p [] = tt
  select-holds p (x ∷ xs) = elim (Bool-cases (p x)) [
    | inl e ↦ rw e (e, select-holds p xs)
    | inr e ↦ rw e (select-holds p xs)
  ]

  pub count-none : (p : A → Bool) (xs : List A) → exists p xs ≡ false → count p xs ≡ 0
  count-none p [] h = refl
  count-none p (x ∷ xs) h = ground (arith, count-none p xs)

  pub fetch-append :
      (p : A → Bool) (xs ys : List A)
      → fetch p (xs ++ ys) ≡ (if exists p xs then fetch p xs else fetch p ys)
  fetch-append p [] ys = refl
  fetch-append p (x ∷ xs) ys = ground (arith, fetch-append p xs ys)

module _ {ℓ κ} {A : Type ℓ} (P : A → Type κ) where
  pub All-delete : (p : A → Bool) (xs : List A) → All P xs → All P (delete p xs)
  All-delete p [] h = h
  All-delete p (x ∷ xs) h = elim (Bool-cases (p x)) [
    | inl e ↦ rw e (All-delete p xs h.1)
    | inr e ↦ rw e (h.0, All-delete p xs h.1)
  ]

  pub All-update :
      (p : A → Bool) (f : A → A) (xs : List A)
      → All (λ a. p a ≡ true → P a → P (f a)) xs
      → All P xs
      → All P (update p f xs)
  All-update p f [] k h = h
  All-update p f (x ∷ xs) k h = elim (Bool-cases (p x)) [
    | inl e ↦ rw e (k.0 e h.0, All-update p f xs k.1 h.1)
    | inr e ↦ rw e (h.0, All-update p f xs k.1 h.1)
  ]

  -- What holds of everything holds of the rows.
  pub All-intro : (xs : List A) → ((a : A) → P a) → All P xs
  All-intro [] k = tt
  All-intro (x ∷ xs) k = (k x, All-intro xs k)

  pub All-select : (p : A → Bool) (xs : List A) → All P xs → All P (select p xs)
  All-select p [] h = h
  All-select p (x ∷ xs) h = elim (Bool-cases (p x)) [
    | inl e ↦ rw e (h.0, All-select p xs h.1)
    | inr e ↦ rw e (All-select p xs h.1)
  ]

  pub All-fetch : (p : A → Bool) (xs : List A) {a : A} → All P xs → fetch p xs ≡ some a → P a
  All-fetch p [] h e = cc
  All-fetch p (x ∷ xs) {a} h e = elim (Bool-cases (p x)) [
    | inl t ↦ let q : x ≡ a = cc (rw t at e) in subst P q h.0
    | inr f ↦ All-fetch p xs h.1 (rw f at e)
  ]

-- A selected row meets the condition.
pub fetch-holds {ℓ} :
    {A : Type ℓ} (p : A → Bool) (xs : List A) {a : A} → fetch p xs ≡ some a → p a ≡ true
fetch-holds p [] e = cc
fetch-holds p (x ∷ xs) {a} e = elim (Bool-cases (p x)) [
  | inl t ↦ let q : x ≡ a = cc (rw t at e) in subst (λ y. p y ≡ true) q t
  | inr f ↦ fetch-holds p xs (rw f at e)
]

module _ {ℓ} {A : Type ℓ} (p : A → Bool) (f : A → A) (same : (x : A) → p (f x) ≡ p x) where
  -- The row that an UPDATE wrote, read back by the same condition.
  pub fetch-update_self :
      (xs : List A) {a : A} → fetch p xs ≡ some a → fetch p (update p f xs) ≡ some (f a)
  fetch-update_self [] e = cc
  fetch-update_self (x ∷ xs) {a} e = elim (Bool-cases (p x)) [
    | inl t ↦ let q : x ≡ a = cc (rw t at e) in rw (t, same x, t) (ap (λ y. some (f y)) q)
    | inr n ↦ rw (n, n) (fetch-update_self xs (rw n at e))
  ]

-- A row of another condition, which the UPDATE does not change, is read as before.
pub fetch-update_other {ℓ} :
    {A : Type ℓ} (p q : A → Bool) (f : A → A) (xs : List A)
    → ((x : A) → p x ≡ true → (q x ≡ false) × (q (f x) ≡ false))
    → fetch q (update p f xs) ≡ fetch q xs
fetch-update_other p q f [] apart = refl
fetch-update_other p q f (x ∷ xs) apart = ground (arith, apart x, fetch-update_other p q f xs apart)

-- A row that does not meet the condition is not found when it is added.
pub fetch-append_other {ℓ} :
    {A : Type ℓ} (p : A → Bool) (xs : List A) (x : A)
    → p x ≡ false
    → fetch p (xs ++ x ∷ []) ≡ fetch p xs
fetch-append_other p [] x h = rw h refl
fetch-append_other p (y ∷ ys) x h = ground (arith, fetch-append_other p ys x h)

-- No row meets a condition that was deleted.
pub exists-delete_self {ℓ} :
    {A : Type ℓ} (p : A → Bool) (xs : List A) → exists p (delete p xs) ≡ false
exists-delete_self p [] = refl
exists-delete_self p (x ∷ xs) = ground (arith, exists-delete_self p xs)

pub exists-delete {ℓ} :
    {A : Type ℓ} (p q : A → Bool) (xs : List A)
    → exists p xs ≡ false
    → exists p (delete q xs) ≡ false
exists-delete p q [] h = refl
exists-delete p q (x ∷ xs) h = ground (arith, exists-delete p q xs)

-- What is not deleted stays.
pub select-delete {ℓ} :
    {A : Type ℓ} (p : A → Bool) (xs : List A)
    → select (λ x. not (p x)) (delete p xs) ≡ select (λ x. not (p x)) xs
select-delete p [] = refl
select-delete p (x ∷ xs) = ground (arith, select-delete p xs)

pub exists-update {ℓ} :
    {A : Type ℓ} (p q : A → Bool) (f : A → A) (xs : List A)
    → ((x : A) → p (f x) ≡ p x)
    → exists p (update q f xs) ≡ exists p xs
exists-update p q f [] same = refl
exists-update p q f (x ∷ xs) same = ground (arith, exists-update p q f xs same, same x)
