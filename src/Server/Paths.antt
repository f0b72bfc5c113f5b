-- ===== src/Server/Paths.antt =====
-- src/server.rs: what a path pattern matches.
use vcmp_rs.Base.{
  ◌≡◌, refl, sym, ◌↔◌, inl, inr, List, [], ◌∷◌, Option, none, some, arith, Text, length, text_eq,
  text_eq_iff, text_eq_refl, ==_iff, subst, Bool-cases, ◌==◌,
}
use vcmp_rs.Base.Assoc.{insert}
use vcmp_rs.Server.Segments.{Segments, path_segments-Segments, Segments-path_segments}
use vcmp_rs.Server.{Segment, literal, param, PathPattern, path_segments, match_segments, matches}

some_injective {ℓ} : {A : Type ℓ} {a b : A} → ◌≡◌ {A = Option A} (some a) (some b) → a ≡ b
some_injective h = cc

none-ne-some {ℓ} : {A : Type ℓ} {a : A} → none ≡ some a → ⊥
none-ne-some h = cc

-- The segments agree with the pattern one by one, and the parameters are those bound on the way.
pub data Matches : List Segment → List Text → List (Text × Text) → List (Text × Text) → Type 0 where
  ends : {bound : List (Text × Text)} → Matches [] [] bound bound
  same :
      {ps : List Segment} {rest : List Text} {bound params : List (Text × Text)} (s : Text)
      → Matches ps rest bound params
      → Matches (literal s ∷ ps) (s ∷ rest) bound params
  binds :
      {ps : List Segment} {rest : List Text} {bound params : List (Text × Text)} (name s : Text)
      → Matches ps rest (insert name s bound) params
      → Matches (param name ∷ ps) (s ∷ rest) bound params

match_segments-Matches :
    (ps : List Segment) (segments : List Text) (bound params : List (Text × Text))
    → length segments ≡ length ps
    → match_segments ps segments bound ≡ some params
    → Matches ps segments bound params
unfolding match_segments
match_segments-Matches [] [] bound params n h = subst (Matches [] [] bound) (some_injective h) ends
match_segments-Matches [] (s ∷ rest) bound params n h = absurd (omega arith)
match_segments-Matches (p ∷ ps) [] bound params n h = absurd (omega arith)
match_segments-Matches (literal l ∷ ps) (s ∷ rest) bound params n h =
    elim (Bool-cases (text_eq l s)) [
      | inl e ↦
          subst (λ t. Matches (literal l ∷ ps) (t ∷ rest) bound params) ((text_eq_iff l s).0 e)
            (same l (match_segments-Matches ps rest bound params (omega arith) (rw e at h)))
      | inr e ↦ absurd (none-ne-some (rw e at h))
    ]
match_segments-Matches (param name ∷ ps) (s ∷ rest) bound params n h =
    binds name s (match_segments-Matches ps rest (insert name s bound) params (omega arith) h)

Matches-length :
    {ps : List Segment} {segments : List Text} {bound params : List (Text × Text)}
    → Matches ps segments bound params
    → length segments ≡ length ps
Matches-length ends = refl
Matches-length (same s m) = omega (arith, Matches-length m)
Matches-length (binds name s m) = omega (arith, Matches-length m)

Matches-match_segments :
    {ps : List Segment} {segments : List Text} {bound params : List (Text × Text)}
    → Matches ps segments bound params
    → match_segments ps segments bound ≡ some params
unfolding match_segments
Matches-match_segments ends = refl
Matches-match_segments (same s m) = rw (text_eq_refl s) (Matches-match_segments m)
Matches-match_segments (binds name s m) = Matches-match_segments m

matches-Matches :
    (p : PathPattern) (path : Text) (params : List (Text × Text))
    → (matches p path ≡ some params) ↔ Matches p.segments (path_segments path) [] params
unfolding matches
matches-Matches p path params = (
  λ h. elim (Bool-cases (length (path_segments path) == length p.segments)) [
    | inl e ↦ match_segments-Matches _ _ [] params ((==_iff _ _).0 e) (rw e at h)
    | inr e ↦ absurd (none-ne-some (rw e at h))
  ],
  λ m. rw ((==_iff _ _).1 (Matches-length m)) (Matches-match_segments m),
)

-- A path matches a pattern with some parameters exactly if its segments agree with the pattern's
-- one by one and bind those parameters; its segments are the pieces, without empty ones, between
-- the slashes of what stands before the first question mark.
pub matches_iff :
    (p : PathPattern) (path : Text) (params : List (Text × Text))
    → (matches p path ≡ some params)
      ↔ ((segments : List Text) × Segments path segments × Matches p.segments segments [] params)
matches_iff p path params = (
  λ h. (path_segments path, path_segments-Segments path, (matches-Matches p path params).0 h),
  λ (segments, d, m).
      (matches-Matches p path params).1
        (subst (λ s. Matches p.segments s [] params) (sym (Segments-path_segments d)) m),
)
