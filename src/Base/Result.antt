-- ===== src/Base/Result.antt =====
-- Results of functions that return a value or an error, and how a run of one is read backwards.
use mathlib.Core.Path.{◌≡◌, refl}
use mathlib.Core.Logic.{◌⊎◌, inl, inr}
use mathlib.Core.Bool.{Bool, true, false}
use native.Mathlib.Omega.{arith}

pub data Result {ℓ κ} (E : Type ℓ) (A : Type κ) : Type (ℓ ⊔ κ) where
  ok : A → Result E A
  fail : E → Result E A

-- A nil error.
abbrev pub accept {ℓ} : {E : Type ℓ} → Result E (Unit {0})
accept = ok tt

-- `if bad { return error }` before the rest of a function.
abbrev pub guard {ℓ κ} : {E : Type ℓ} {A : Type κ} → Bool → E → Result E A → Result E A
guard true e k = fail e
guard false e k = k

-- `x, err := m(); if err != nil { return err }` before the rest of a function.
infixl 5 ◌>>=◌
abbrev pub ◌>>=◌ {ℓ κ η} :
    {E : Type ℓ} {A : Type κ} {B : Type η} → Result E A → (A → Result E B) → Result E B
ok a >>= f = f a
fail e >>= f = fail e

pub guard-ok {ℓ κ} :
    {E : Type ℓ} {A : Type κ} (bad : Bool) (e : E) (k : Result E A) (a : A)
    → guard bad e k ≡ ok a
    → (bad ≡ false) × (k ≡ ok a)
guard-ok true e k a h = ground (arith, h)
guard-ok false e k a h = (refl, h)

pub bind-ok {ℓ κ η} :
    {E : Type ℓ} {A : Type κ} {B : Type η} (m : Result E A) (f : A → Result E B) (b : B)
    → (m >>= f) ≡ ok b
    → (a : A) × (m ≡ ok a) × (f a ≡ ok b)
bind-ok (ok a) f b h = (a, refl, h)
bind-ok (fail e) f b h = ground (arith, h)

pub ok_injective {ℓ κ} :
    {E : Type ℓ} {A : Type κ} (a b : A) → Path (Result E A) (ok a) (ok b) → a ≡ b
ok_injective a b h = ground (arith, h)

pub Result-cases {ℓ κ} :
    {E : Type ℓ} {A : Type κ} (r : Result E A) → ((a : A) × (r ≡ ok a)) ⊎ ((e : E) × (r ≡ fail e))
Result-cases (ok a) = inl (a, refl)
Result-cases (fail e) = inr (e, refl)
