-- ===== src/Base/Raises.antt =====
-- What a call returns or raises, with the errors of a component as a parameter, and the inversion of
-- calls that returned.
use samsarix_chat_engine.Base.Tests.{if◌then◌else◌}
use mathlib.Core.Path.{◌≡◌, refl, subst}
use mathlib.Core.Bool.{Bool, true, false}
use mathlib.Core.Option.{Option, none, some}

pub data Raises (E : Type 0) (A : Type 0) : Type 0 where
  raises : E → Raises E A
  returns : A → Raises E A

module _ {E : Type 0} where
  infixl 5 ◌>>=◌
  unfoldable pub ◌>>=◌ : {B A : Type 0} → Raises E A → (A → Raises E B) → Raises E B
  raises e >>= rest = raises e
  returns a >>= rest = rest a

  infixl 5 ◌>>◌
  abbrev pub ◌>>◌ : {B : Type 0} → Raises E (Unit {0}) → Raises E B → Raises E B
  check >> rest = check >>= λ _. rest

  -- `if test: raise e`
  unfoldable pub raise_if : Bool → E → Raises E (Unit {0})
  raise_if true e = raises e
  raise_if false e = returns tt

  -- `if row is None: raise e`
  unfoldable pub or_raise : {A : Type 0} → Option A → E → Raises E A
  or_raise none e = raises e
  or_raise (some a) e = returns a

  module _ {B : Type 0} where
    pub raise_if-returns :
        (b : Bool) (e : E) (m : Raises E B) {x : B}
        → (raise_if b e >> m) ≡ returns x
        → (b ≡ false) × (m ≡ returns x)
    unfolding ◌>>=◌ raise_if
    raise_if-returns true e m h = cc
    raise_if-returns false e m h = (refl, h)

    pub or_raise-returns :
        {A : Type 0} (o : Option A) (e : E) (f : A → Raises E B) {x : B}
        → (or_raise o e >>= f) ≡ returns x
        → (a : A) × (o ≡ some a) × (f a ≡ returns x)
    unfolding ◌>>=◌ or_raise
    or_raise-returns none e f h = cc
    or_raise-returns (some a) e f h = (a, refl, h)

    pub >>=-returns :
        {A : Type 0} (m : Raises E A) (f : A → Raises E B) {x : B}
        → (m >>= f) ≡ returns x
        → (a : A) × (m ≡ returns a) × (f a ≡ returns x)
    unfolding ◌>>=◌
    >>=-returns (raises e) f h = cc
    >>=-returns (returns a) f h = (a, refl, h)

pub returns-injective :
    {E A : Type 0} {x y : A} → ◌≡◌ {A = Raises E A} (returns x) (returns y) → x ≡ y
returns-injective h = cc

-- What holds of a call if it returns, and the rules that follow its steps.
module _ {E A : Type 0} (P : A → Type 0) where
  abbrev pub Ends : Raises E A → Type 0
  Ends (raises e) = Unit {0}
  Ends (returns a) = P a

  pub Ends-raise_if :
      (b : Bool) (e : E) (m : Raises E A) → (b ≡ false → Ends m) → Ends (raise_if b e >> m)
  unfolding ◌>>=◌ raise_if
  Ends-raise_if true e m h = tt
  Ends-raise_if false e m h = h refl

  pub Ends-or_raise :
      {B : Type 0} (o : Option B) (e : E) (f : B → Raises E A)
      → ((b : B) → o ≡ some b → Ends (f b))
      → Ends (or_raise o e >>= f)
  unfolding ◌>>=◌ or_raise
  Ends-or_raise none e f h = tt
  Ends-or_raise (some b) e f h = h b refl

  pub Ends-if :
      (b : Bool) (m n : Raises E A)
      → (b ≡ true → Ends m)
      → (b ≡ false → Ends n)
      → Ends (if b then m else n)
  Ends-if true m n h k = h refl
  Ends-if false m n h k = k refl

  pub Ends-returned : (m : Raises E A) {a : A} → Ends m → m ≡ returns a → P a
  Ends-returned (raises e) h q = cc
  Ends-returned (returns b) {a} h q = let s : b ≡ a = cc in subst P s h
