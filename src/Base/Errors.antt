-- ===== src/Base/Errors.antt =====
-- Calls that raise: `err` holds the exception. A method that raises before it has written
-- anything returns only the exception.
use mathlib.Core.Path.{◌≡◌, refl}
use mathlib.Core.Logic.{◌⊎◌, ◌↔◌, inl, inr}
use mathlib.Core.Option.{Option, none, some}
use mathlib.Core.Bool.{Bool, true, false}

pub data Result {ℓ κ} (E : Type κ) (A : Type ℓ) : Type (ℓ ⊔ κ) where
  ok : A → Result E A
  err : E → Result E A

infixl 5 ◌>>=◌ ◌>>◌
abbrev pub ◌>>=◌ {ℓ κ ι} :
    {E : Type κ} {A : Type ℓ} {B : Type ι} → Result E A → (A → Result E B) → Result E B
ok a >>= f = f a
err e >>= f = err e

abbrev pub ◌>>◌ {ℓ κ} : {E : Type κ} {B : Type ℓ} → Result E (Unit {0}) → Result E B → Result E B
m >> k = m >>= λ _. k

-- `if not b: raise e`
abbrev pub guard {κ} : {E : Type κ} → Bool → E → Result E (Unit {0})
guard true e = ok tt
guard false e = err e

-- What a lookup finds, or the exception.
abbrev pub or_raise {ℓ κ} : {E : Type κ} {A : Type ℓ} → Option A → E → Result E A
or_raise none e = err e
or_raise (some a) e = ok a

pub Result-cases {ℓ κ} :
    {E : Type κ} {A : Type ℓ} (r : Result E A) → ((a : A) × (r ≡ ok a)) ⊎ ((e : E) × (r ≡ err e))
Result-cases (ok a) = inl (a, refl)
Result-cases (err e) = inr (e, refl)

-- What a block that returned has gone through.
pub bind-eq-ok {ℓ κ ι} :
    {E : Type κ} {A : Type ℓ} {B : Type ι} (m : Result E A) (f : A → Result E B) {b : B}
    → (m >>= f) ≡ ok b
    → (a : A) × (m ≡ ok a) × (f a ≡ ok b)
bind-eq-ok (ok a) f h = (a, refl, h)
bind-eq-ok (err e) f h = cc

-- Two checks pass exactly if both do.
pub ok-injective {ℓ κ} :
    {E : Type κ} → {A : Type ℓ} → {a b : A} → Path (Result E A) (ok a) (ok b) → a ≡ b
ok-injective h = cc

pub both_ok_iff {κ} :
    {E : Type κ} (m k : Result E (Unit {0}))
    → ((m >>= λ _. k) ≡ ok tt) ↔ ((m ≡ ok tt) × (k ≡ ok tt))
both_ok_iff (ok a) k = ((λ h. (refl, h)), (λ h. h.1))
both_ok_iff (err e) k = ((λ h. cc), (λ h. cc (h.0)))

pub guard_ok_iff {κ} : {E : Type κ} (b : Bool) (e : E) → (guard b e ≡ ok tt) ↔ (b ≡ true)
guard_ok_iff true e = ((λ h. refl), (λ h. refl))
guard_ok_iff false e = ((λ h. cc), (λ h. cc))
