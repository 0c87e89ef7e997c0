-- ===== src/Base/Result.antt =====
-- `Result<A, E>`.
use mathlib.Core.Path.{◌≡◌, refl}
use mathlib.Core.Logic.{◌⊎◌, inl, inr}

pub data Result {ℓ κ} (E : Type ℓ) (A : Type κ) : Type (ℓ ⊔ κ) where
  ok : A → Result E A
  err : E → Result E A

-- `?`
infixl 5 ◌>>=◌
abbrev pub ◌>>=◌ {ℓ κ μ} :
    {E : Type ℓ} {A : Type κ} {B : Type μ} → Result E A → (A → Result E B) → Result E B
ok a >>= f = f a
err e >>= f = err e

module _ {ℓ κ} {E : Type ℓ} {A : Type κ} where
  pub bind-ok : (r : Result E A) → (r >>= (λ a. ok a)) ≡ r
  bind-ok (ok a) = refl
  bind-ok (err e) = refl

  pub bind_assoc {μ ν} :
      {B : Type μ} {C : Type ν} (r : Result E A) (f : A → Result E B) (g : B → Result E C)
      → (r >>= (λ a. f a >>= g)) ≡ ((r >>= f) >>= g)
  bind_assoc (ok a) f g = refl
  bind_assoc (err e) f g = refl

  pub Result-cases : (r : Result E A) → ((a : A) × (r ≡ ok a)) ⊎ ((e : E) × (r ≡ err e))
  Result-cases (ok a) = inl (a, refl)
  Result-cases (err e) = inr (e, refl)
