-- ===== src/Common/Result.antt =====
-- Code that may raise: the value or the exception, with the type of the exceptions a parameter.
use mathlib.Core.Path.{◌≡◌, refl}

pub data Result {ℓ κ} (E : Type ℓ) (A : Type κ) : Type (ℓ ⊔ κ) where
  ok : A → Result E A
  err : E → Result E A

infixl 5 ◌>>=◌ ◌>>◌
abbrev pub ◌>>=◌ {ℓ κ μ} :
    {E : Type ℓ} {A : Type κ} {B : Type μ} → Result E A → (A → Result E B) → Result E B
ok value >>= rest = rest value
err raised >>= rest = err raised

abbrev pub ◌>>◌ {ℓ κ μ} :
    {E : Type ℓ} {A : Type κ} {B : Type μ} → Result E A → Result E B → Result E B
first >> second = first >>= λ _. second

pub ok_injective {ℓ κ} :
    {E : Type ℓ} {A : Type κ} {a b : A} → ◌≡◌ {A = Result E A} (ok a) (ok b) → a ≡ b
ok_injective e = cc

-- What follows from the parts of a successful bind, for chains where the parts stay shut.
pub bind_ok {ℓ κ μ ν} :
    {E : Type ℓ} {A : Type κ} {B : Type μ} {Goal : Type ν} (first : Result E A)
    (rest : A → Result E B) {result : B}
    → (first >>= rest) ≡ ok result
    → ((value : A) → first ≡ ok value → rest value ≡ ok result → Goal)
    → Goal
bind_ok (ok value) rest done goal = goal value refl done
bind_ok (err raised) rest done goal = cc

-- The same as a product, with the value between the two computations.
pub >>=-eq-ok {ℓ κ μ} :
    {E : Type ℓ} {A : Type κ} {B : Type μ} (first : Result E A) (rest : A → Result E B) {result : B}
    (done : (first >>= rest) ≡ ok result)
    → (value : A) × (first ≡ ok value) × (rest value ≡ ok result)
>>=-eq-ok first rest done = bind_ok first rest done λ value ran rested. (value, ran, rested)
