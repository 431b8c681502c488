-- ===== src/Base/Keys.antt =====
-- Tables with a primary key: no two rows have one key, so a key stands for its row.
use samsarix_chat_engine.Base.Tests.{◌==◌, Bool-cases, ==_iff}
use samsarix_chat_engine.Base.Lists.{All}
use samsarix_chat_engine.Base.Sql.{fetch, delete, update, exists}
use samsarix_chat_engine.Base.Order.{among}
use Prim.Native.Nat.{ℕ}
use mathlib.Core.Path.{◌≡◌, refl, ap, sym, subst}
use mathlib.Core.Logic.{inl, inr}
use mathlib.Core.Bool.{Bool, true, false, ◌||◌}
use mathlib.Core.Option.{some}
use mathlib.Core.List.{List, [], ◌∷◌, ◌++◌}
use native.Mathlib.Omega.{arith}

module _ {ℓ} {A : Type ℓ} (key : A → ℕ) where
  -- `id = ?`
  abbrev pub has_key : ℕ → A → Bool
  has_key k x = key x == k

  abbrev pub Unique : List A → Type 0
  Unique [] = Unit
  Unique (x ∷ xs) = (exists (has_key (key x)) xs ≡ false) × Unique xs

  -- The row is the one that its key finds.
  abbrev pub IsListed : List A → A → Type ℓ
  IsListed xs x = fetch (has_key (key x)) xs ≡ some x

  exists-delete :
      (k : ℕ) (p : A → Bool) (xs : List A)
      → exists (has_key k) xs ≡ false
      → exists (has_key k) (delete p xs) ≡ false
  exists-delete k p [] h = refl
  exists-delete k p (x ∷ xs) h = ground (arith, exists-delete k p xs)

  pub Unique-delete : (p : A → Bool) (xs : List A) → Unique xs → Unique (delete p xs)
  Unique-delete p [] u = tt
  Unique-delete p (x ∷ xs) u = elim (Bool-cases (p x)) [
    | inl e ↦ rw e (Unique-delete p xs u.1)
    | inr e ↦ rw e (exists-delete (key x) p xs u.0, Unique-delete p xs u.1)
  ]

  exists-append :
      (p : A → Bool) (xs ys : List A) → exists p (xs ++ ys) ≡ (exists p xs || exists p ys)
  exists-append p [] ys = refl
  exists-append p (x ∷ xs) ys = ground (arith, exists-append p xs ys)

  pub Unique-append :
      (xs : List A) (x : A)
      → Unique xs
      → exists (has_key (key x)) xs ≡ false
      → Unique (xs ++ x ∷ [])
  Unique-append [] x u e = (refl, tt)
  Unique-append (y ∷ ys) x u e = (
    ground (arith, exists-append (has_key (key y)) ys (x ∷ [])),
    Unique-append ys x u.1 (ground arith),
  )

  exists-update :
      (k : ℕ) (p : A → Bool) (f : A → A) (xs : List A)
      → ((x : A) → key (f x) ≡ key x)
      → exists (has_key k) (update p f xs) ≡ exists (has_key k) xs
  exists-update k p f [] same = refl
  exists-update k p f (x ∷ xs) same = ground (arith, exists-update k p f xs same, same x)

  pub Unique-update :
      (p : A → Bool) (f : A → A) (xs : List A)
      → ((x : A) → key (f x) ≡ key x)
      → Unique xs
      → Unique (update p f xs)
  Unique-update p f [] same u = tt
  Unique-update p f (x ∷ xs) same u = (
    ground
        (arith, exists-update (key (f x)) p f xs same, exists-update (key x) p f xs same, same x),
    Unique-update p f xs same u.1,
  )

  -- Rows of a table whose keys are not among those of `xs`, seen from a longer table.
  IsListed-cons :
      (x : A) (xs ys : List A)
      → exists (has_key (key x)) xs ≡ false
      → exists (has_key (key x)) ys ≡ false
      → All (IsListed xs) ys
      → All (IsListed (x ∷ xs)) ys
  IsListed-cons x xs [] e g h = tt
  IsListed-cons x xs (y ∷ ys) e g h = (ground arith, IsListed-cons x xs ys e (ground arith) h.1)

  pub All-IsListed : (xs : List A) → Unique xs → All (IsListed xs) xs
  All-IsListed [] u = tt
  All-IsListed (x ∷ xs) u = (ground arith, IsListed-cons x xs xs u.0 u.0 (All-IsListed xs u.1))

  -- A row whose key is among those of chosen rows is one of them: what holds of all of them
  -- holds of it.
  pub among-All {κ} :
      (P : A → Type κ) (xs chosen : List A) (r : A)
      → All P chosen
      → All (IsListed xs) chosen
      → IsListed xs r
      → among key chosen r ≡ true
      → P r
  among-All P xs [] r ps ls lr e = cc
  among-All P xs (c ∷ cs) r ps ls lr e = elim (Bool-cases (key c == key r)) [
    | inl same ↦
        let k : key c ≡ key r = (==_iff (key c) (key r)).0 same in
        let q : c ≡ r = cc (ls.0, lr, ap (λ (j : ℕ). fetch (has_key j) xs) k) in subst P q ps.0
    | inr other ↦ among-All P xs cs r ps.1 ls.1 lr (ground arith)
  ]

  absent {κ} :
      (P : A → Type κ) (k : ℕ) (xs : List A)
      → exists (has_key k) xs ≡ false
      → All (λ x. has_key k x ≡ true → P x) xs
  absent P k [] h = tt
  absent P k (x ∷ xs) h = (
    λ t. let wrong : true ≡ false = ground arith in absurd (cc wrong),
    absent P k xs (ground arith),
  )

  -- What holds of a fetched row holds of every row with its key.
  pub All-key {κ} :
      (P : A → Type κ) (xs : List A) (a : A)
      → Unique xs
      → IsListed xs a
      → P a
      → All (λ x. has_key (key a) x ≡ true → P x) xs
  All-key P [] a u e h = tt
  All-key P (x ∷ xs) a u e h = elim (Bool-cases (has_key (key a) x)) [
    | inl same ↦
        let q : x ≡ a = cc (rw same at e) in
        let k : key x ≡ key a = ap key q in
        let none_left : exists (has_key (key a)) xs ≡ false = rw k at u.0 in
        (λ _. subst P (sym q) h, absent P (key a) xs none_left)
    | inr other ↦ ((λ t. cc), All-key P xs a u.1 (rw other at e) h)
  ]
