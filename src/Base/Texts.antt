-- ===== src/Base/Texts.antt =====
-- Texts whose characters are read: code points, with Python's `str.strip` and `len`, and sets of them.
use samsarix_chat_engine.Base.Tests.{◌==◌, leb, ltb, if◌then◌else◌, Bool-cases}
use samsarix_chat_engine.Base.Lists.{length, All}
use samsarix_chat_engine.Base.Sql.{exists, count}
use samsarix_chat_engine.Base.Dicts.{sum}
use samsarix_chat_engine.Base.Order.{order_by, count-order_by, length-order_by}
use Prim.Native.Nat.{ℕ, ◌+◌, ◌≤◌}
use Prim.Native.Char.{code}
use Prim.Native.String.{String}
use mathlib.Core.Path.{◌≡◌, refl, sym, ap, ◌∙◌}
use mathlib.Core.Logic.{inl, inr}
use mathlib.Core.Bool.{Bool, true, false, ◌&&◌, ◌||◌}
use mathlib.Core.List.{List, [], ◌∷◌}
use native.Mathlib.Omega.{arith}

abbrev pub Chars : Type 0
Chars = List ℕ

abbrev pub codes : String → Chars
codes String.[] = []
codes (String.◌∷◌ c s) = code c ∷ codes s

abbrev pub same : Chars → Chars → Bool
same [] [] = true
same [] (d ∷ ds) = false
same (c ∷ cs) [] = false
same (c ∷ cs) (d ∷ ds) = c == d && same cs ds

pub same_refl : (t : Chars) → same t t ≡ true
same_refl [] = refl
same_refl (c ∷ cs) = ground (arith, same_refl cs)

pub same_eq : (s t : Chars) → same s t ≡ true → s ≡ t
same_eq [] [] h = refl
same_eq [] (d ∷ ds) h = cc
same_eq (c ∷ cs) [] h = cc
same_eq (c ∷ cs) (d ∷ ds) h = ground (arith, same_eq cs ds)

-- `str.isspace`
abbrev pub is_space : ℕ → Bool
is_space c =
    leb 9 c && leb c 13
    || leb 28 c && leb c 32
    || c == 0x85
    || c == 0xa0
    || c == 0x1680
    || leb 0x2000 c && leb c 0x200a
    || c == 0x2028
    || c == 0x2029
    || c == 0x202f
    || c == 0x205f
    || c == 0x3000

module _ (space : ℕ → Bool) where
  abbrev pub lstrip : Chars → Chars
  lstrip [] = []
  lstrip (c ∷ cs) = let rest = lstrip cs in if space c then rest else c ∷ cs

  abbrev unless_blank : ℕ → Chars → Chars
  unless_blank c [] = if space c then [] else c ∷ []
  unless_blank c (d ∷ ds) = c ∷ d ∷ ds

  abbrev pub rstrip : Chars → Chars
  rstrip [] = []
  rstrip (c ∷ cs) = unless_blank c (rstrip cs)

  rstrip-unless_blank :
      (c : ℕ) (t : Chars) → rstrip t ≡ t → rstrip (unless_blank c t) ≡ unless_blank c t
  rstrip-unless_blank c [] h = elim (Bool-cases (space c)) [
    | inl e ↦ rw e refl
    | inr e ↦ rw (e, e) refl
  ]
  rstrip-unless_blank c (d ∷ ds) h = ap (unless_blank c) h

  rstrip_twice : (t : Chars) → rstrip (rstrip t) ≡ rstrip t
  rstrip_twice [] = refl
  rstrip_twice (c ∷ cs) = rstrip-unless_blank c (rstrip cs) (rstrip_twice cs)

  lstrip-unless_blank :
      (c : ℕ) (t : Chars) → space c ≡ false → lstrip (unless_blank c t) ≡ unless_blank c t
  lstrip-unless_blank c [] n = rw (n, n) refl
  lstrip-unless_blank c (d ∷ ds) n = rw n refl

  -- A text that was stripped has no blank to strip.
  stripped : (t : Chars) → rstrip (lstrip (rstrip (lstrip t))) ≡ rstrip (lstrip t)
  stripped [] = refl
  stripped (c ∷ cs) = elim (Bool-cases (space c)) [
    | inl e ↦ rw e (stripped cs)
    | inr n ↦
        rw (n, lstrip-unless_blank c (rstrip cs) n)
          (rstrip-unless_blank c (rstrip cs) (rstrip_twice cs))
  ]

-- `str.strip()`
unfoldable pub strip : Chars → Chars
strip t = rstrip is_space (lstrip is_space t)

pub strip_twice : (t : Chars) → strip (strip t) ≡ strip t
unfolding strip
strip_twice t = stripped is_space t

-- `frozenset(ts)`, as a list that has each text once; `t in ts`.
abbrev pub has : Chars → List Chars → Bool
has t ts = exists (same t) ts

abbrev pub as_set : List Chars → List Chars
as_set [] = []
as_set (t ∷ ts) = let rest = as_set ts in if has t ts then rest else t ∷ rest

-- By code points, as `sorted` compares texts.
abbrev pub lt_text : Chars → Chars → Bool
lt_text s [] = false
lt_text [] (d ∷ ds) = true
lt_text (c ∷ cs) (d ∷ ds) = ltb c d || c == d && lt_text cs ds

abbrev pub sorted : List Chars → List Chars
sorted ts = order_by lt_text ts

exists-count : {A : Type 0} (p : A → Bool) (xs : List A) → exists p xs ≡ ltb 0 (count p xs)
exists-count p [] = refl
exists-count p (x ∷ xs) = ground (arith, exists-count p xs)

-- What fails for no member of a list fails for none of it sorted.
pub exists-sorted : (p : Chars → Bool) (ts : List Chars) → exists p (sorted ts) ≡ exists p ts
exists-sorted p ts =
    exists-count p (sorted ts)
    ∙ ap (λ n. ltb 0 n) (count-order_by p lt_text ts)
    ∙ sym (exists-count p ts)

pub has-sorted : (t : Chars) (ts : List Chars) → has t (sorted ts) ≡ has t ts
has-sorted t ts = exists-sorted (same t) ts

pub has-as_set : (t : Chars) (ts : List Chars) → has t (as_set ts) ≡ has t ts
has-as_set t [] = refl
has-as_set t (s ∷ ss) = elim (Bool-cases (has s ss)) [
  | inl e ↦ rw e (elim (Bool-cases (same t s)) [
    | inl q ↦ let q' : t ≡ s = same_eq t s q in rw q (has-as_set t ss ∙ (rw q' e))
    | inr n ↦ rw n (has-as_set t ss)
  ])
  | inr n ↦ rw n (ap (λ b. same t s || b) (has-as_set t ss))
]

-- No text twice.
abbrev IsSingle : List Chars → Type 0
IsSingle ts = (t : Chars) → count (same t) ts ≤ 1

count-as_set : (ts : List Chars) → IsSingle (as_set ts)
count-as_set [] t = omega arith
count-as_set (s ∷ ss) t = elim (Bool-cases (has s ss)) [
  | inl e ↦ rw e (count-as_set ss t)
  | inr n ↦ rw n (elim (Bool-cases (same t s)) [
    | inl q ↦
        let q' : t ≡ s = same_eq t s q in
        let none_left : ltb 0 (count (same t) (as_set ss)) ≡ false =
          sym (exists-count (same t) (as_set ss)) ∙ has-as_set t ss ∙ (rw q' n) in
        rw q (ground arith)
    | inr d ↦ rw d (omega (arith, count-as_set ss t))
  ])
]

as_set-single : (ts : List Chars) → IsSingle ts → as_set ts ≡ ts
as_set-single [] h = refl
as_set-single (t ∷ ts) h =
    let absent : has t ts ≡ false = exists-count (same t) ts ∙ ground (arith, h t, same_refl t) in
    let fewer : IsSingle ts = λ u. omega (arith, h u) in rw (absent, as_set-single ts fewer) refl

count-nil : (ks : List Chars) → sum (λ k. count (same k) []) ks ≡ 0
count-nil [] = refl
count-nil (k ∷ ks) = omega (arith, count-nil ks)

count-cons :
    (t : Chars) (ts ks : List Chars)
    → sum (λ k. count (same k) (t ∷ ts)) ks
      ≡ sum (λ k. if same k t then 1 else 0) ks + sum (λ k. count (same k) ts) ks
count-cons t ts [] = refl
count-cons t ts (k ∷ ks) = omega (arith, count-cons t ts ks)

counted_once :
    (t : Chars) (ks : List Chars) → has t ks ≡ true → 1 ≤ sum (λ k. if same k t then 1 else 0) ks
counted_once t [] h = cc
counted_once t (k ∷ ks) h = elim (Bool-cases (same t k)) [
  | inl e ↦
      let q : t ≡ k = same_eq t k e in
      let self : same k t ≡ true = rw q (same_refl k) in rw self (omega arith)
  | inr n ↦ let rest : has t ks ≡ true = rw n at h in omega (arith, counted_once t ks rest)
]

length-counts-le :
    (ks ts : List Chars)
    → All (λ t. has t ks ≡ true) ts
    → length ts ≤ sum (λ k. count (same k) ts) ks
length-counts-le ks [] h = omega (arith, count-nil ks)
length-counts-le ks (t ∷ ts) h =
    omega (arith, count-cons t ts ks, counted_once t ks h.0, length-counts-le ks ts h.1)

counts-le-length : (ts ks : List Chars) → IsSingle ts → sum (λ k. count (same k) ts) ks ≤ length ks
counts-le-length ts [] h = omega arith
counts-le-length ts (k ∷ ks) h = omega (arith, h k, counts-le-length ts ks h)

-- A set of texts among `ks` is no larger than `ks`.
pub length-as_set-le :
    (ks ts : List Chars) → All (λ t. has t ks ≡ true) (as_set ts) → length (as_set ts) ≤ length ks
length-as_set-le ks ts h =
    omega
      (arith, length-counts-le ks (as_set ts) h, counts-le-length (as_set ts) ks (count-as_set ts))

pub length-sorted : (ts : List Chars) → length (sorted ts) ≡ length ts
length-sorted ts = length-order_by lt_text ts

-- A sorted set has no text twice.
pub as_set-sorted : (ts : List Chars) → as_set (sorted (as_set ts)) ≡ sorted (as_set ts)
as_set-sorted ts =
    as_set-single (sorted (as_set ts))
      λ t. omega (arith, count-order_by (same t) lt_text (as_set ts), count-as_set ts t)
