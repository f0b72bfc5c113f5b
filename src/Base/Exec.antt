-- ===== src/Base/Exec.antt =====
-- Methods on a shared state that may fail. What was written before a failure stays written.
use mathlib.Core.Bool.{Bool, true, false}
use vcmp_rs.Base.Fallible.{Result, ok, err, Result-cases, err-ne-ok}
use mathlib.Core.Path.{◌≡◌}
use mathlib.Core.Logic.{inl, inr}

abbrev pub Exec : Type 0 → Type 0 → Type 0 → Type 0
Exec S A E = S → Result A E × S

module _ {S A B E : Type 0} where
  abbrev pub proceed : Result A E → (A → Exec S B E) → Exec S B E
  proceed (ok a) f s = f a s
  proceed (err e) f s = (err e, s)

  -- The `?` operator.
  infixl 5 ◌>>=◌ ◌>>◌
  abbrev pub ◌>>=◌ : Exec S A E → (A → Exec S B E) → Exec S B E
  ◌>>=◌ m f s = let (r, s') = m s in proceed r f s'

  abbrev pub ◌>>◌ : Exec S A E → Exec S B E → Exec S B E
  m >> n = m >>= λ _. n

module _ {S E : Type 0} where
  abbrev pub modify : (S → S) → Exec S (Unit {0}) E
  modify f s = (ok tt, f s)

  -- `if !test { return Err(e) }`.
  abbrev pub require : (S → Bool) → E → Exec S (Unit {0}) E
  require test e s = elim (test s) [ true ↦ (ok tt, s) | false ↦ (err e, s) ]

module _ {S A B E : Type 0} where
  -- A chain of methods that succeeds has passed through its first one.
  pub bind_ok :
      (m : Exec S A E) (k : A → Exec S B E) (s : S) (b : B)
      → ((m >>= k) s).0 ≡ ok b
      → (a : A) × ((m s).0 ≡ ok a) × ((m >>= k) s ≡ k a (m s).1)
  bind_ok m k s b h = elim (Result-cases (m s).0) [
    | inl (a, e) ↦ (a, e, rw e)
    | inr (x, e) ↦ absurd (err-ne-ok (rw e at h))
  ]
