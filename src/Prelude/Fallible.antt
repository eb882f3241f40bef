-- ===== src/Prelude/Fallible.antt =====
-- What a fallible call comes to: a value, an error of the code's own type, or a panic, which
-- in Rust unwinds the task: an index or a slice out of range, a failed assertion.
use mathlib.Core.Path.{◌≡◌, refl}
use mathlib.Core.Bool.{Bool, true, false}
use mathlib.Core.Option.{Option, none, some}
use mathlib.Core.Logic.{◌⊎◌, inl, inr}

pub data Outcome {ℓ} (E : Type 0) (A : Type ℓ) : Type ℓ where
  ok : A → Outcome E A
  err : E → Outcome E A
  panic : Outcome E A

infixl 5 ◌>>=◌ ◌>>◌
abbrev pub ◌>>=◌ {ℓ κ} :
    {E : Type 0} {A : Type ℓ} {B : Type κ} → Outcome E A → (A → Outcome E B) → Outcome E B
ok a >>= f = f a
err e >>= f = err e
panic >>= f = panic

abbrev pub ◌>>◌ {ℓ} : {E : Type 0} {B : Type ℓ} → Outcome E (Unit {0}) → Outcome E B → Outcome E B
m >> k = m >>= λ _. k

-- An early return with an error, where the condition does not hold.
abbrev pub ensure : {E : Type 0} → Bool → E → Outcome E (Unit {0})
ensure true e = ok tt
ensure false e = err e

-- What succeeds in two steps succeeds in each of them.
pub >>=-eq-ok {ℓ κ} :
    {E : Type 0} {A : Type ℓ} {B : Type κ} (first : Outcome E A) (next : A → Outcome E B)
    {result : B}
    → (first >>= next) ≡ ok result
    → (v : A) × (first ≡ ok v) × (next v ≡ ok result)
>>=-eq-ok panic next e = cc
>>=-eq-ok (err x) next e = cc
>>=-eq-ok (ok v) next e = (v, refl, e)

pub >>=_assoc {ℓ κ ρ} :
    {E : Type 0} {A : Type ℓ} {B : Type κ} {C : Type ρ} (m : Outcome E A) (f : A → Outcome E B)
    (g : B → Outcome E C)
    → (m >>= f >>= g) ≡ (m >>= λ a. f a >>= g)
>>=_assoc (ok a) f g = refl
>>=_assoc (err e) f g = refl
>>=_assoc panic f g = refl

-- The value, if there is one.
abbrev pub value {ℓ} : {E : Type 0} {A : Type ℓ} → Outcome E A → Option A
value (ok a) = some a
value (err e) = none
value panic = none

pub Outcome-cases {ℓ} :
    {E : Type 0} {A : Type ℓ} (m : Outcome E A)
    → ((a : A) × (m ≡ ok a)) ⊎ (((e : E) × (m ≡ err e)) ⊎ (m ≡ panic))
Outcome-cases (ok a) = inl (a, refl)
Outcome-cases (err e) = inr (inl (e, refl))
Outcome-cases panic = inr (inr refl)

pub >>=_ext {ℓ κ} :
    {E : Type 0} {A : Type ℓ} {B : Type κ} (m : Outcome E A) (f g : A → Outcome E B)
    → ((a : A) → f a ≡ g a)
    → (m >>= f) ≡ (m >>= g)
>>=_ext (ok a) f g h = h a
>>=_ext (err e) f g h = refl
>>=_ext panic f g h = refl
