-- ===== src/Base/Ids.antt =====
-- Sets of numbered things, as lists without an order that matters.
use Prim.Native.Nat.{ℕ}
use mathlib.Core.Path.{◌≡◌}
use mathlib.Core.Bool.{Bool, true, false, ◌||◌}
use mathlib.Core.List.{List, [], ◌∷◌}
use native.Mathlib.Omega.{arith}
use vcmp_rs.Base.Tests.{◌==◌, if◌then◌else◌}

unfoldable pub without : ℕ → List ℕ → List ℕ
without id [] = []
without id (s ∷ rest) = if s == id then without id rest else s ∷ without id rest

unfoldable pub is_among : ℕ → List ℕ → Bool
is_among id [] = false
is_among id (s ∷ rest) = s == id || is_among id rest

pub among-without :
    (s id : ℕ) (l : List ℕ)
    → is_among s (without id l) ≡ true
    → (is_among s l ≡ true) × ((id == s) ≡ false)
unfolding is_among without
among-without s id [] h = absurd (cc)
among-without s id (x ∷ l) h = let ih = among-without s id l in ground arith

pub among_still :
    (s id : ℕ) (l : List ℕ)
    → is_among s l ≡ true
    → (id == s) ≡ false
    → is_among s (without id l) ≡ true
unfolding is_among without
among_still s id [] h k = absurd (cc)
among_still s id (x ∷ l) h k = let ih = among_still s id l in ground arith
