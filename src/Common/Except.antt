-- ===== src/Common/Except.antt =====
-- Results of calls that can fail: a Go pair `(value, error)`.
use mathlib.Core.Path.{◌≡◌, refl}
use mathlib.Core.Logic.{◌⊎◌, inl, inr}

pub data Except {ℓ} (E : Type 0) (A : Type ℓ) : Type ℓ where
  ok : A → Except E A
  err : E → Except E A

module _ {ℓ} {E : Type 0} {A : Type ℓ} where
  pub ok_injective : {a b : A} → ◌≡◌ {A = Except E A} (ok a) (ok b) → a ≡ b
  ok_injective h = cc

  pub err_injective : {e f : E} → ◌≡◌ {A = Except E A} (err e) (err f) → e ≡ f
  err_injective h = cc

  pub Except-cases : (r : Except E A) → ((a : A) × (r ≡ ok a)) ⊎ ((e : E) × (r ≡ err e))
  Except-cases (ok a) = inl (a, refl)
  Except-cases (err e) = inr (e, refl)

  module _ {κ} {B : Type κ} where
    infixl 5 ◌>>=◌
    abbrev pub ◌>>=◌ : Except E A → (A → Except E B) → Except E B
    err e >>= next = err e
    ok a >>= next = next a

    -- Each step of a chain that succeeds has succeeded.
    pub >>=-eq-ok :
        (first : Except E A) (next : A → Except E B) {b : B}
        → first >>= next ≡ ok b
        → (a : A) × (first ≡ ok a) × (next a ≡ ok b)
    >>=-eq-ok (err e) next h = cc
    >>=-eq-ok (ok a) next h = (a, refl, h)
