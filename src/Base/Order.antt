-- ===== src/Base/Order.antt =====
-- ORDER BY and LIMIT: a stable insertion sort by a Boolean order, and the first rows of it.
use samsarix_chat_engine.Base.Tests.{if◌then◌else◌, ◌==◌, Bool-cases}
use samsarix_chat_engine.Base.Lists.{
  length, All, take, drop, take-append-drop, length-take, length-drop,
}
use samsarix_chat_engine.Base.Sql.{count, count-append, count-All}
use mathlib.Core.Logic.{inl, inr}
use Prim.Native.Nat.{ℕ, zero, suc, ◌+◌, ◌-◌, ◌≤◌, min}
use mathlib.Core.Path.{◌≡◌, refl, ap}
use mathlib.Core.Bool.{Bool, true, false, ◌||◌}
use mathlib.Core.List.{List, [], ◌∷◌, map}
use native.Mathlib.Omega.{arith}

module _ {ℓ} {A : Type ℓ} where
  abbrev pub insert : (A → A → Bool) → A → List A → List A
  insert before x [] = x ∷ []
  insert before x (y ∷ ys) =
      let rest = insert before x ys in if before y x then y ∷ rest else x ∷ y ∷ ys

  -- ORDER BY
  abbrev pub order_by : (A → A → Bool) → List A → List A
  order_by before [] = []
  order_by before (x ∷ xs) = insert before x (order_by before xs)

  pub count-insert :
      (p : A → Bool) (before : A → A → Bool) (x : A) (xs : List A)
      → count p (insert before x xs) ≡ (if p x then 1 else 0) + count p xs
  count-insert p before x [] = refl
  count-insert p before x (y ∷ ys) = ground (arith, count-insert p before x ys)

  pub count-order_by :
      (p : A → Bool) (before : A → A → Bool) (xs : List A)
      → count p (order_by before xs) ≡ count p xs
  count-order_by p before [] = refl
  count-order_by p before (x ∷ xs) =
      omega (arith, count-insert p before x (order_by before xs), count-order_by p before xs)

  pub length-insert :
      (before : A → A → Bool) (x : A) (xs : List A) → length (insert before x xs) ≡ suc (length xs)
  length-insert before x [] = refl
  length-insert before x (y ∷ ys) = ground (arith, length-insert before x ys)

  pub length-order_by :
      (before : A → A → Bool) (xs : List A) → length (order_by before xs) ≡ length xs
  length-order_by before [] = refl
  length-order_by before (x ∷ xs) =
      omega (arith, length-insert before x (order_by before xs), length-order_by before xs)

module _ {ℓ} {A : Type ℓ} where
  pub order_by-nil : (before : A → A → Bool) (xs : List A) → order_by before xs ≡ [] → xs ≡ []
  order_by-nil before [] e = refl
  order_by-nil before (x ∷ xs) e =
      absurd (omega (arith, ap length e, length-insert before x (order_by before xs)))

-- `id IN (SELECT id …)`, for the identifiers of some selected rows
abbrev pub is_in : ℕ → List ℕ → Bool
is_in k [] = false
is_in k (j ∷ js) = j == k || is_in k js

module _ {ℓ} {A : Type ℓ} (key : A → ℕ) where
  abbrev pub among : List A → A → Bool
  among chosen x = is_in (key x) (map key chosen)

  among-cons :
      (c : A) (chosen xs : List A)
      → All (λ x. among chosen x ≡ true) xs
      → All (λ x. among (c ∷ chosen) x ≡ true) xs
  among-cons c chosen [] h = tt
  among-cons c chosen (x ∷ xs) h = (ground arith, among-cons c chosen xs h.1)

  All-among : (chosen : List A) → All (λ x. among chosen x ≡ true) chosen
  All-among [] = tt
  All-among (c ∷ cs) = (ground arith, among-cons c cs cs (All-among cs))

  -- The rows past the first `n` of any ordering of a table are at least as many of its rows.
  pub count-among-drop :
      (before : A → A → Bool) (n : ℕ) (xs : List A)
      → length xs - n ≤ count (among (drop n (order_by before xs))) xs
  count-among-drop before n xs =
      let chosen : List A = drop n (order_by before xs) in
      omega (
        arith,
        count-order_by (among chosen) before xs,
        ap (count (among chosen)) (take-append-drop n (order_by before xs)),
        count-append (among chosen) (take n (order_by before xs)) chosen,
        count-All (among chosen) chosen (All-among chosen),
        length-drop n (order_by before xs),
        length-order_by before xs,
      )

  -- The first `n` rows of any ordering of a table are at least `n` of its rows.
  pub count-among-take :
      (before : A → A → Bool) (n : ℕ) (xs : List A)
      → min n (length xs) ≤ count (among (take n (order_by before xs))) xs
  count-among-take before n xs =
      let chosen : List A = take n (order_by before xs) in
      omega (
        arith,
        count-order_by (among chosen) before xs,
        ap (count (among chosen)) (take-append-drop n (order_by before xs)),
        count-append (among chosen) chosen (drop n (order_by before xs)),
        count-All (among chosen) chosen (All-among chosen),
        length-take n (order_by before xs),
        length-order_by before xs,
      )

module _ {ℓ κ} {A : Type ℓ} (P : A → Type κ) where
  pub All-insert :
      (before : A → A → Bool) (x : A) (xs : List A) → P x → All P xs → All P (insert before x xs)
  All-insert before x [] p h = (p, tt)
  All-insert before x (y ∷ ys) p h = elim (Bool-cases (before y x)) [
    | inl e ↦ rw e (h.0, All-insert before x ys p h.1)
    | inr e ↦ rw e (p, h)
  ]

  pub All-order_by : (before : A → A → Bool) (xs : List A) → All P xs → All P (order_by before xs)
  All-order_by before [] h = tt
  All-order_by before (x ∷ xs) h =
      All-insert before x (order_by before xs) h.0 (All-order_by before xs h.1)

  pub All-take : (n : ℕ) (xs : List A) → All P xs → All P (take n xs)
  All-take zero xs h = tt
  All-take (suc n) [] h = tt
  All-take (suc n) (x ∷ xs) h = (h.0, All-take n xs h.1)

  pub All-drop : (n : ℕ) (xs : List A) → All P xs → All P (drop n xs)
  All-drop zero xs h = h
  All-drop (suc n) [] h = tt
  All-drop (suc n) (x ∷ xs) h = All-drop n xs h.1
