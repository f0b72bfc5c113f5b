-- ===== src/Base/Fallible.antt =====
-- `Result<A, E>`, with the `?` operator as a bind.
use mathlib.Core.Path.{◌≡◌, refl}
use mathlib.Core.Logic.{◌⊎◌, inl, inr}
use mathlib.Core.Bool.{Bool, true, false}
use mathlib.Core.Option.{Option, none, some}

pub data Result {ℓ κ} (A : Type ℓ) (E : Type κ) : Type (ℓ ⊔ κ) where
  ok : A → Result A E
  err : E → Result A E

module _ {ℓ κ} {A : Type ℓ} {E : Type κ} where
  -- `Option::ok_or`.
  abbrev pub ok_or : Option A → E → Result A E
  ok_or none e = err e
  ok_or (some a) e = ok a

  abbrev pub is_ok : Result A E → Bool
  is_ok (ok a) = true
  is_ok (err e) = false

  pub Result-cases : (r : Result A E) → ((a : A) × (r ≡ ok a)) ⊎ ((e : E) × (r ≡ err e))
  Result-cases (ok a) = inl (a, refl)
  Result-cases (err e) = inr (e, refl)

infixl 5 ◌>>=◌
abbrev pub ◌>>=◌ {ℓ κ μ} :
    {A : Type ℓ} {B : Type κ} {E : Type μ} → Result A E → (A → Result B E) → Result B E
ok a >>= f = f a
err e >>= f = err e

module _ {ℓ κ} {A : Type ℓ} {E : Type κ} where
  pub ok_injective : {a b : A} → ◌≡◌ {A = Result A E} (ok a) (ok b) → a ≡ b
  ok_injective h = cc

  pub err_injective : {a b : E} → ◌≡◌ {A = Result A E} (err a) (err b) → a ≡ b
  err_injective h = cc

  pub ok-ne-err : {a : A} {e : E} → ok a ≡ err e → ⊥
  ok-ne-err h = cc

  pub err-ne-ok : {a : A} {e : E} → err e ≡ ok a → ⊥
  err-ne-ok h = cc

module _ {A B E : Type 0} where
  -- What a chain that succeeds went through.
  pub bind-ok :
      (r : Result A E) (f : A → Result B E) (b : B)
      → (r >>= f) ≡ ok b
      → (a : A) × (r ≡ ok a) × (f a ≡ ok b)
  bind-ok (ok a) f b h = (a, refl, h)
  bind-ok (err e) f b h = absurd (err-ne-ok h)
