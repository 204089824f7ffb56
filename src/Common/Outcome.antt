-- ===== src/Common/Outcome.antt =====
-- What a Go call ends in: a value, a returned error, or a run-time panic.
use mathlib.Core.Path.{◌≡◌, refl}
use mathlib.Core.Bool.{Bool, true, false}

pub data Result {ℓ κ} (E : Type ℓ) (A : Type κ) : Type (ℓ ⊔ κ) where
  panic : Result E A
  err : E → Result E A
  ok : A → Result E A

-- `fmt.Errorf("...: %w", err)`
abbrev pub wrap {ℓ κ ι} : {E : Type ℓ} {F : Type κ} {A : Type ι} → (E → F) → Result E A → Result F A
wrap f panic = panic
wrap f (err e) = err (f e)
wrap f (ok a) = ok a

infixl 5 ◌>>=◌ ◌>>◌
abbrev pub ◌>>=◌ {ℓ κ ι} :
    {E : Type ℓ} {A : Type κ} {B : Type ι} → Result E A → (A → Result E B) → Result E B
panic >>= f = panic
err e >>= f = err e
ok a >>= f = f a

-- A call in sequence that succeeded went through a first call that did.
pub >>=-eq-ok {ℓ κ ι} :
    {E : Type ℓ} {A : Type κ} {B : Type ι} (m : Result E A) (f : A → Result E B) {b : B}
    → (m >>= f) ≡ ok b
    → (a : A) × (m ≡ ok a) × (f a ≡ ok b)
>>=-eq-ok panic f h = cc
>>=-eq-ok (err e) f h = cc
>>=-eq-ok (ok a) f h = (a, refl, h)

abbrev pub ◌>>◌ {ℓ ι} : {E : Type ℓ} {B : Type ι} → Result E (Unit {0}) → Result E B → Result E B
panic >> k = panic
err e >> k = err e
ok _ >> k = k

-- `if !b { return e }`
abbrev pub guard {ℓ} : {E : Type ℓ} → Bool → E → Result E (Unit {0})
guard false e = err e
guard true e = ok tt
