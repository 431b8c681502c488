-- ===== src/Base/Distinct.antt =====
-- DISTINCT, and what the number of distinct keys bounds.
use samsarix_chat_engine.Base.Tests.{◌==◌, if◌then◌else◌, Bool-cases, ==_iff}
use samsarix_chat_engine.Base.Lists.{length, All}
use samsarix_chat_engine.Base.Sql.{delete, exists}
use samsarix_chat_engine.Base.Order.{is_in}
use samsarix_chat_engine.Base.Keys.{has_key, Unique}
use Prim.Native.Nat.{ℕ, ◌≤◌, ◌<◌}
use mathlib.Core.Path.{◌≡◌, refl}
use mathlib.Core.Logic.{inl, inr}
use mathlib.Core.Bool.{Bool, true, false}
use mathlib.Core.List.{List, [], ◌∷◌}
use native.Mathlib.Omega.{arith}

-- Each key once, in the order of the last occurrences
abbrev pub distinct : List ℕ → List ℕ
distinct [] = []
distinct (k ∷ ks) = let rest = distinct ks in if is_in k ks then rest else k ∷ rest

pub is_in-distinct : (k : ℕ) (ks : List ℕ) → is_in k (distinct ks) ≡ is_in k ks
is_in-distinct k [] = refl
is_in-distinct k (j ∷ js) = elim (Bool-cases (j == k)) [
  | inl e ↦ let same : j ≡ k = (==_iff j k).0 e in ground (arith, is_in-distinct k js)
  | inr n ↦ ground (arith, is_in-distinct k js)
]

length-delete-le : (p : ℕ → Bool) (ks : List ℕ) → length (delete p ks) ≤ length ks
length-delete-le p [] = omega arith
length-delete-le p (j ∷ js) = ground (arith, length-delete-le p js)

length-delete-lt :
    (k : ℕ) (ks : List ℕ) → is_in k ks ≡ true → length (delete (λ j. j == k) ks) < length ks
length-delete-lt k [] h = cc
length-delete-lt k (j ∷ js) h =
    ground (arith, length-delete-lt k js, length-delete-le (λ i. i == k) js)

is_in-delete :
    (k i : ℕ) (ks : List ℕ)
    → (i == k) ≡ false
    → is_in i ks ≡ true
    → is_in i (delete (λ j. j == k) ks) ≡ true
is_in-delete k i [] n h = h
is_in-delete k i (j ∷ js) n h = ground (arith, is_in-delete k i js)

module _ {ℓ} {A : Type ℓ} (key : A → ℕ) where
  others_in :
      (k : ℕ) (xs : List A) (ks : List ℕ)
      → exists (has_key key k) xs ≡ false
      → All (λ x. is_in (key x) ks ≡ true) xs
      → All (λ x. is_in (key x) (delete (λ j. j == k) ks) ≡ true) xs
  others_in k [] ks n h = tt
  others_in k (x ∷ xs) ks n h =
      (is_in-delete k (key x) ks (ground arith) h.0, others_in k xs ks (ground arith) h.1)

  -- Rows with a primary key among `ks` are no more than `ks` has keys.
  pub length-Unique-le :
      (xs : List A) (ks : List ℕ)
      → Unique key xs
      → All (λ x. is_in (key x) ks ≡ true) xs
      → length xs ≤ length ks
  length-Unique-le [] ks u h = omega arith
  length-Unique-le (x ∷ xs) ks u h = omega (
    arith,
    length-Unique-le xs (delete (λ j. j == key x) ks) u.1 (others_in (key x) xs ks u.0 h.1),
    length-delete-lt (key x) ks h.0,
  )
