-- ===== src/Store/Outcomes.antt =====
-- What a transaction may end in: one predicate of the results, one of the errors, and the rules
-- that follow the steps of a `do` block.
use samsarix_chat_engine.Base.{
  Bool, true, false, ◌≡◌, refl, subst, Option, none, some, if◌then◌else◌,
}
use samsarix_chat_engine.Store.Tables.{
  Result, ok, err, StoreError, ◌>>=◌, ◌>>◌, raise_if, or_raise, Database,
}

abbrev pub Outcome {ℓ κ} : {A : Type ℓ} → (StoreError → Type κ) → (A → Type κ) → Result A → Type κ
Outcome Q P (ok a) = P a
Outcome Q P (err e) = Q e

module _ {ℓ κ μ} {A : Type ℓ} {B : Type μ} (Q : StoreError → Type κ) (P : A → Type κ)
    (R : B → Type κ) where
  pub Outcome-bind :
      (m : Result A) (f : A → Result B)
      → Outcome Q P m
      → ((a : A) → P a → Outcome Q R (f a))
      → Outcome Q R (m >>= f)
  Outcome-bind (ok a) f h k = k a h
  Outcome-bind (err e) f h k = h

module _ {ℓ κ} {B : Type ℓ} (Q : StoreError → Type κ) (R : B → Type κ) where
  pub Outcome-raise_if :
      (b : Bool) (e : StoreError) (m : Result B)
      → (b ≡ true → Q e)
      → (b ≡ false → Outcome Q R m)
      → Outcome Q R (raise_if b e >> m)
  Outcome-raise_if true e m h k = h refl
  Outcome-raise_if false e m h k = k refl

  pub Outcome-or_raise {μ} :
      {A : Type μ} (o : Option A) (e : StoreError) (f : A → Result B)
      → (o ≡ none → Q e)
      → ((a : A) → o ≡ some a → Outcome Q R (f a))
      → Outcome Q R (or_raise o e >>= f)
  Outcome-or_raise none e f h k = h refl
  Outcome-or_raise (some a) e f h k = k a refl

  pub Outcome-if :
      (b : Bool) (m n : Result B)
      → (b ≡ true → Outcome Q R m)
      → (b ≡ false → Outcome Q R n)
      → Outcome Q R (if b then m else n)
  Outcome-if true m n h k = h refl
  Outcome-if false m n h k = k refl

  pub Outcome-ok : (m : Result B) {b : B} → Outcome Q R m → m ≡ ok b → R b
  Outcome-ok (ok a) {b} h e = let q : a ≡ b = cc in subst R q h
  Outcome-ok (err x) h e = cc

module _ {ℓ κ} {A : Type ℓ} (Q Q' : StoreError → Type κ) (P P' : A → Type κ) where
  pub Outcome-weaken :
      (m : Result A)
      → ((e : StoreError) → Q e → Q' e)
      → ((a : A) → P a → P' a)
      → Outcome Q P m
      → Outcome Q' P' m
  Outcome-weaken (ok a) q p h = p a h
  Outcome-weaken (err e) q p h = q e h

module _ {κ} (Q : StoreError → Type κ) (R : Unit {0} → Type κ) where
  pub Outcome-raise_if_last :
      (b : Bool) (e : StoreError)
      → (b ≡ true → Q e)
      → (b ≡ false → R tt)
      → Outcome Q R (raise_if b e)
  Outcome-raise_if_last true e h k = h refl
  Outcome-raise_if_last false e h k = k refl

module _ {ℓ κ} {A : Type ℓ} (Q : StoreError → Type κ) (P : A → Type κ) where
  -- The result may be named: it is what the transaction returned.
  pub Outcome-named :
      (m : Result A)
      → Outcome Q P m
      → (R : A → Type κ) → ((a : A) → P a → m ≡ ok a → R a)
      → Outcome Q R m
  Outcome-named (ok a) h R k = k a h refl
  Outcome-named (err e) h R k = h

-- A step whose errors are reasons of the whole.
pub Outcome-after {ℓ κ μ} :
    {A : Type ℓ} {B : Type μ} (Q : StoreError → Type κ) (P : A → Type κ) (Q' : StoreError → Type κ)
    (R : B → Type κ) (m : Result A) (f : A → Result B)
    → Outcome Q P m
    → ((e : StoreError) → Q e → Q' e)
    → ((a : A) → P a → Outcome Q' R (f a))
    → Outcome Q' R (m >>= f)
Outcome-after Q P Q' R (ok a) f h q k = k a h
Outcome-after Q P Q' R (err e) f h q k = q e h

-- Only the audit trail, or only the outbox, was written to.
abbrev pub AuditOnly : Database → Database → Type 0
AuditOnly db db' = db' ≡ record db { audit_events = db'.audit_events }

abbrev pub OutboxOnly : Database → Database → Type 0
OutboxOnly db db' = db' ≡ record db { deliveries = db'.deliveries }
