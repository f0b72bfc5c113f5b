-- ===== src/Base/Assoc.antt =====
-- Maps with text keys (`HashMap<String, _>`, serde_json's `Map`) as association lists.
use vcmp_rs.Base.Tests.{if◌then◌else◌, Bool-cases}
use vcmp_rs.Base.Strings.{Text, text_eq, text_eq_iff}
use mathlib.Core.Path.{◌≡◌, refl, sym, ◌∙◌, ap, subst}
use mathlib.Core.Logic.{inl, inr}
use mathlib.Core.Bool.{false}
use mathlib.Core.List.{List, [], ◌∷◌}
use mathlib.Core.Option.{Option, none, some}
use native.Mathlib.Omega.{arith}

module _ {ℓ} {V : Type ℓ} where
  unfoldable pub get : Text → List (Text × V) → Option V
  get k [] = none
  get k ((j, v) ∷ m) = if text_eq j k then some v else get k m

  unfoldable pub insert : Text → V → List (Text × V) → List (Text × V)
  insert k v [] = (k, v) ∷ []
  insert k v ((j, w) ∷ m) = if text_eq j k then (k, v) ∷ m else (j, w) ∷ insert k v m

  unfoldable pub remove : Text → List (Text × V) → List (Text × V)
  remove k [] = []
  remove k ((j, w) ∷ m) = if text_eq j k then m else (j, w) ∷ remove k m

  pub get-insert :
      (k j : Text) (v : V) (m : List (Text × V))
      → get j (insert k v m) ≡ (if text_eq k j then some v else get j m)
  unfolding get insert
  get-insert k j v [] = refl
  get-insert k j v ((i, w) ∷ m) =
      ground (arith, text_eq_iff k j, text_eq_iff i k, text_eq_iff i j, get-insert k j v m)

  pub get-remove :
      (k j : Text) (m : List (Text × V)) → text_eq k j ≡ false → get j (remove k m) ≡ get j m
  unfolding get remove
  get-remove k j [] h = ground arith
  get-remove k j ((i, w) ∷ m) h =
      ground (arith, text_eq_iff k j, text_eq_iff i k, text_eq_iff i j, get-remove k j m)

  -- No key twice, as in a map.
  abbrev pub Distinct : List (Text × V) → Type ℓ
  Distinct [] = Unit
  Distinct ((k, v) ∷ m) = (get k m ≡ none) × Distinct m

  absent-remove : (k j : Text) (m : List (Text × V)) → get j m ≡ none → get j (remove k m) ≡ none
  unfolding get remove
  absent-remove k j [] h = refl
  absent-remove k j ((i, w) ∷ m) h = ground (arith, absent-remove k j m)

  pub remove-Distinct : (k : Text) (m : List (Text × V)) → Distinct m → Distinct (remove k m)
  unfolding remove
  remove-Distinct k [] d = d
  remove-Distinct k ((i, w) ∷ m) (h, d) = elim (Bool-cases (text_eq i k)) [
    | inl e ↦ subst Distinct (sym (ap (λ b. if b then m else (i, w) ∷ remove k m) e)) d
    | inr e ↦
        subst Distinct (sym (ap (λ b. if b then m else (i, w) ∷ remove k m) e))
          (absent-remove k i m h, remove-Distinct k m d)
  ]

  pub insert-Distinct :
      (k : Text) (v : V) (m : List (Text × V)) → Distinct m → Distinct (insert k v m)
  unfolding insert get
  insert-Distinct k v [] d = (refl, tt)
  insert-Distinct k v ((i, w) ∷ m) (h, d) = elim (Bool-cases (text_eq i k)) [
    | inl e ↦
        let same : i ≡ k = (text_eq_iff i k).0 e in
        subst Distinct (sym (ap (λ b. if b then (k, v) ∷ m else (i, w) ∷ insert k v m) e))
          (subst (λ j. get j m ≡ none) same h, d)
    | inr e ↦ subst Distinct (sym (ap (λ b. if b then (k, v) ∷ m else (i, w) ∷ insert k v m) e)) (
      get-insert k i v m ∙ ground (arith, text_eq_iff i k, text_eq_iff k i, h),
      insert-Distinct k v m d,
    )
  ]

  -- A key that was removed is gone.
  pub get-remove-same : (k : Text) (m : List (Text × V)) → Distinct m → get k (remove k m) ≡ none
  unfolding get remove
  get-remove-same k [] d = refl
  get-remove-same k ((i, w) ∷ m) (h, d) = ground (arith, text_eq_iff i k, h, get-remove-same k m d)
