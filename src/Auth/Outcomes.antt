-- ===== src/Auth/Outcomes.antt =====
-- Inversion of checks that passed.
use samsarix_chat_engine.Base.{Bool, true, false, ◌≡◌, refl, Option, none, some}
use samsarix_chat_engine.Auth.{
  Result, ok, err, AuthError, ◌>>=◌, ◌>>◌, raise_if, or_raise, rethrown,
}

module _ {ℓ} {B : Type ℓ} where
  pub raise_if-eq-ok :
      (b : Bool) (e : AuthError) (m : Result B) {x : B}
      → (raise_if b e >> m) ≡ ok x
      → (b ≡ false) × (m ≡ ok x)
  raise_if-eq-ok true e m h = cc
  raise_if-eq-ok false e m h = (refl, h)

  pub or_raise-eq-ok {κ} :
      {A : Type κ} (o : Option A) (e : AuthError) (f : A → Result B) {x : B}
      → (or_raise o e >>= f) ≡ ok x
      → (a : A) × (o ≡ some a) × (f a ≡ ok x)
  or_raise-eq-ok none e f h = cc
  or_raise-eq-ok (some a) e f h = (a, refl, h)

  pub >>=-eq-ok {κ} :
      {A : Type κ} (m : Result A) (f : A → Result B) {x : B}
      → (m >>= f) ≡ ok x
      → (a : A) × (m ≡ ok a) × (f a ≡ ok x)
  >>=-eq-ok (ok a) f h = (a, refl, h)
  >>=-eq-ok (err e) f h = cc

  pub rethrown-eq-ok : (m : Result B) {x : B} → rethrown m ≡ ok x → m ≡ ok x
  rethrown-eq-ok (ok a) h = h
  rethrown-eq-ok (err e) h = cc

  pub ok-injective : {x y : B} → ok x ≡ ok y → x ≡ y
  ok-injective h = cc

pub raise_if-passed : (b : Bool) (e : AuthError) {u : Unit {0}} → raise_if b e ≡ ok u → b ≡ false
raise_if-passed true e h = cc
raise_if-passed false e h = refl
