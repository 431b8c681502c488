-- ===== src/Base/Dicts.antt =====
-- Dictionaries as lists of entries, of which the first match counts: what `d.pop(k)` and an update of
-- `d[k]` do to a sum over the entries, to their number and to what holds of all of them.
use samsarix_chat_engine.Base.Tests.{if◌then◌else◌, Bool-cases}
use samsarix_chat_engine.Base.Lists.{length, All}
use samsarix_chat_engine.Base.Sql.{fetch}
use Prim.Native.Nat.{ℕ, ◌+◌}
use mathlib.Core.Path.{◌≡◌, refl, sym, subst}
use mathlib.Core.Logic.{inl, inr}
use mathlib.Core.Bool.{Bool}
use mathlib.Core.Option.{some}
use mathlib.Core.List.{List, [], ◌∷◌, ◌++◌}
use native.Mathlib.Omega.{arith}

module _ {ℓ} {A : Type ℓ} where
  -- d.pop(k, None)
  abbrev pub pop : (A → Bool) → List A → List A
  pop p [] = []
  pop p (x ∷ xs) = let rest = pop p xs in if p x then xs else x ∷ rest

  -- d[k] = f(d[k])
  abbrev pub amend : (A → Bool) → (A → A) → List A → List A
  amend p f [] = []
  amend p f (x ∷ xs) = let rest = amend p f xs in if p x then f x ∷ xs else x ∷ rest

  abbrev pub sum : (A → ℕ) → List A → ℕ
  sum w [] = 0
  sum w (x ∷ xs) = w x + sum w xs

  pub sum-append : (w : A → ℕ) (xs ys : List A) → sum w (xs ++ ys) ≡ sum w xs + sum w ys
  sum-append w [] ys = omega arith
  sum-append w (x ∷ xs) ys = omega (arith, sum-append w xs ys)

  module _ (p : A → Bool) where
    pub sum-pop :
        (w : A → ℕ) (xs : List A) (c : A) → fetch p xs ≡ some c → sum w (pop p xs) + w c ≡ sum w xs
    sum-pop w [] c e = cc
    sum-pop w (x ∷ xs) c e = elim (Bool-cases (p x)) [
      | inl t ↦ let q : x ≡ c = cc (rw t at e) in rw (t, q) (omega arith)
      | inr f ↦ let k : fetch p xs ≡ some c = rw f at e in rw f (omega (arith, sum-pop w xs c k))
    ]

    pub length-pop : (xs : List A) (c : A) → fetch p xs ≡ some c → length (pop p xs) + 1 ≡ length xs
    length-pop [] c e = cc
    length-pop (x ∷ xs) c e = elim (Bool-cases (p x)) [
      | inl t ↦ rw t (omega arith)
      | inr f ↦ let k : fetch p xs ≡ some c = rw f at e in rw f (omega (arith, length-pop xs c k))
    ]

    pub length-amend : (f : A → A) (xs : List A) → length (amend p f xs) ≡ length xs
    length-amend f [] = refl
    length-amend f (x ∷ xs) = ground (arith, length-amend f xs)

    pub sum-amend :
        (w : A → ℕ) (f : A → A) (xs : List A) (c : A)
        → fetch p xs ≡ some c
        → sum w (amend p f xs) + w c ≡ sum w xs + w (f c)
    sum-amend w f [] c e = cc
    sum-amend w f (x ∷ xs) c e = elim (Bool-cases (p x)) [
      | inl t ↦ let q : x ≡ c = cc (rw t at e) in rw (t, q) (omega arith)
      | inr n ↦
          let k : fetch p xs ≡ some c = rw n at e in rw n (omega (arith, sum-amend w f xs c k))
    ]

    pub All-pop {κ} : (P : A → Type κ) (xs : List A) → All P xs → All P (pop p xs)
    All-pop P [] h = tt
    All-pop P (x ∷ xs) h = elim (Bool-cases (p x)) [
      | inl t ↦ rw t h.1
      | inr f ↦ rw f (h.0, All-pop P xs h.1)
    ]

    pub All-amend {κ} :
        (P : A → Type κ) (f : A → A) (xs : List A) (c : A)
        → fetch p xs ≡ some c
        → P (f c)
        → All P xs
        → All P (amend p f xs)
    All-amend P f [] c e k h = tt
    All-amend P f (x ∷ xs) c e k h = elim (Bool-cases (p x)) [
      | inl t ↦ let q : x ≡ c = cc (rw t at e) in rw t (subst (λ y. P (f y)) (sym q) k, h.1)
      | inr n ↦ rw n (h.0, All-amend P f xs c (rw n at e) k h.1)
    ]
