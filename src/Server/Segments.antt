-- ===== src/Server/Segments.antt =====
-- src/server.rs: the segments of a path, apart from how they are computed.
use vcmp_rs.Base.{
  ℕ, ◌≡◌, ◌≢◌, refl, sym, ap, ◌∙◌, subst, ◌⊎◌, inl, inr, List, [], ◌∷◌, ◌++◌, false, arith, Text,
  ==_iff, Bool-cases, ◌==◌, is_empty,
}
use vcmp_rs.Server.{split, onto_first, without_empty, first_piece, path_segments}

-- No slash and no question mark.
abbrev pub Plain : Text → Type 0
Plain [] = Unit
Plain (c ∷ s) = (c ≢ b'/') × (c ≢ b'?') × Plain s

-- The end, or a slash or a question mark.
abbrev pub Stops : Text → Type 0
Stops [] = Unit
Stops (c ∷ path) = (c ≡ b'/') ⊎ (c ≡ b'?')

-- The segments of a path, in order: what follows a question mark has none, a slash belongs to none,
-- and a segment is a piece without either that is not empty and goes on until one of them comes.
pub data Segments : Text → List Text → Type 0 where
  ends : Segments [] []
  query : (rest : Text) → Segments (b'?' ∷ rest) []
  slash :
      {path : Text} {segments : List Text}
      → Segments path segments
      → Segments (b'/' ∷ path) segments
  piece :
      {whole path : Text} {segments : List Text} (s : Text)
      → whole ≡ s ++ path
      → s ≢ []
      → Plain s
      → Stops path
      → Segments path segments
      → Segments whole (s ∷ segments)

abbrev Split : Text → Type 0
Split path = (segments : List Text) × Segments path segments

some_first : (c : ℕ) (s : Text) → (c ∷ s) ≢ []
some_first c s h = cc

-- A plain byte in front of a path begins a segment, or belongs to the first one.
grow : (c : ℕ) (path : Text) → c ≢ b'/' → c ≢ b'?' → Split path → Split (c ∷ path)
grow c path n m (segments, ends) =
    ((c ∷ []) ∷ [], piece (c ∷ []) refl (some_first c []) (n, m, tt) tt ends)
grow c path n m (segments, query rest) =
    ((c ∷ []) ∷ [], piece (c ∷ []) refl (some_first c []) (n, m, tt) (inr refl) (query rest))
grow c path n m (segments, slash d) =
    ((c ∷ []) ∷ segments, piece (c ∷ []) refl (some_first c []) (n, m, tt) (inl refl) (slash d))
grow c path n m (segments, piece {segments = rest} s e h k stops d) =
    ((c ∷ s) ∷ rest, piece (c ∷ s) (ap (λ x. c ∷ x) e) (some_first c s) (n, m, k) stops d)

segments_exist : (path : Text) → Split path
segments_exist [] = ([], ends)
segments_exist (c ∷ path) = elim (Bool-cases (c == b'?')) [
  | inl e ↦ ([], subst (λ x. Segments (x ∷ path) []) (sym ((==_iff c b'?').0 e)) (query path))
  | inr e ↦ elim (Bool-cases (c == b'/')) [
    | inl f ↦
        let (segments, d) = segments_exist path in
        (segments, subst (λ x. Segments (x ∷ path) segments) (sym ((==_iff c b'/').0 f)) (slash d))
    | inr f ↦ grow c path (ground arith) (ground arith) (segments_exist path)
  ]
]

first_piece-onto_first :
    (c : ℕ) (xs : List Text) → first_piece (onto_first c xs) ≡ c ∷ first_piece xs
unfolding first_piece
first_piece-onto_first c [] = refl
first_piece-onto_first c (x ∷ xs) = refl

-- Where a path is split after a segment.
front-piece :
    (s path : Text)
    → Plain s
    → first_piece (split b'?' (s ++ path)) ≡ s ++ first_piece (split b'?' path)
unfolding split
front-piece [] path h = refl
front-piece (c ∷ s) path (n, m, h) =
    let other : (c == b'?') ≡ false = ground arith in
    rw other
      (first_piece-onto_first c (split b'?' (s ++ path)) ∙ ap (λ x. c ∷ x) (front-piece s path h))

split-last : (s : Text) → Plain s → split b'/' (s ++ []) ≡ s ∷ []
unfolding split
split-last [] h = refl
split-last (c ∷ s) (n, m, h) =
    let other : (c == b'/') ≡ false = ground arith in rw other (ap (onto_first c) (split-last s h))

split-piece : (s path : Text) → Plain s → split b'/' (s ++ (b'/' ∷ path)) ≡ s ∷ split b'/' path
unfolding split
split-piece [] path h = refl
split-piece (c ∷ s) path (n, m, h) =
    let other : (c == b'/') ≡ false = ground arith in
    rw other (ap (onto_first c) (split-piece s path h))

keep_piece : (s : Text) (xs : List Text) → s ≢ [] → without_empty (s ∷ xs) ≡ s ∷ without_empty xs
unfolding without_empty is_empty
keep_piece [] xs h = absurd (h refl)
keep_piece (c ∷ s) xs h = refl

front : Text → Text
front path = first_piece (split b'?' path)

pieces : Text → List Text
pieces t = without_empty (split b'/' t)

front_ends : front [] ≡ []
unfolding front split first_piece
front_ends = refl

front_query : (rest : Text) → front (b'?' ∷ rest) ≡ []
unfolding front split first_piece
front_query rest = refl

front_slash : (path : Text) → front (b'/' ∷ path) ≡ b'/' ∷ front path
unfolding front split
front_slash path = first_piece-onto_first b'/' (split b'?' path)

path_segments-empty : (path : Text) → front path ≡ [] → path_segments path ≡ []
unfolding front path_segments without_empty pieces
path_segments-empty path e = ap pieces e ∙ none_there
  where
    none_there : pieces [] ≡ []
    none_there = unfold pieces split without_empty is_empty in refl

path_segments-slash : (path : Text) → path_segments (b'/' ∷ path) ≡ path_segments path
unfolding path_segments split without_empty is_empty
path_segments-slash path =
    ap (λ t. without_empty (split b'/' t)) (first_piece-onto_first b'/' (split b'?' path))

last-piece : (s : Text) → s ≢ [] → Plain s → pieces (s ++ []) ≡ s ∷ []
unfolding pieces without_empty
last-piece s n h = ap without_empty (split-last s h) ∙ keep_piece s [] n

next-piece : (s path : Text) → s ≢ [] → Plain s → pieces (s ++ (b'/' ∷ path)) ≡ s ∷ pieces path
unfolding pieces
next-piece s path n h = ap without_empty (split-piece s path h) ∙ keep_piece s (split b'/' path) n

-- A piece before the end of the part that counts.
stopped-piece :
    (s path : Text)
    → s ≢ []
    → Plain s
    → front path ≡ []
    → pieces (s ++ front path) ≡ s ∷ path_segments path
stopped-piece s path n h e =
    ap (λ t. pieces (s ++ t)) e
    ∙ last-piece s n h
    ∙ ap (λ x. s ∷ x) (sym (path_segments-empty path e))

path_segments-piece :
    (s path : Text)
    → s ≢ []
    → Plain s
    → Stops path
    → path_segments (s ++ path) ≡ s ∷ path_segments path
unfolding path_segments pieces front
path_segments-piece s path n h stops = ap pieces (front-piece s path h) ∙ go path stops
  where
    go : (path : Text) → Stops path → pieces (s ++ front path) ≡ s ∷ path_segments path
    go [] k = stopped-piece s [] n h front_ends
    go (c ∷ path) (inr k) =
        stopped-piece s (c ∷ path) n h (ap (λ x. front (x ∷ path)) k ∙ front_query path)
    go (c ∷ path) (inl k) =
        ap (λ x. pieces (s ++ front (x ∷ path))) k
        ∙ ap (λ t. pieces (s ++ t)) (front_slash path)
        ∙ next-piece s (front path) n h
        ∙ ap (λ x. s ∷ x) (sym (path_segments-slash path))
        ∙ ap (λ x. s ∷ path_segments (x ∷ path)) (sym k)

-- The segments of a path are what `path_segments` computes.
pub Segments-path_segments :
    {path : Text} {segments : List Text} → Segments path segments → path_segments path ≡ segments
Segments-path_segments ends = path_segments-empty [] front_ends
Segments-path_segments (query rest) = path_segments-empty (b'?' ∷ rest) (front_query rest)
Segments-path_segments (slash {path = path} d) = path_segments-slash path ∙ Segments-path_segments d
Segments-path_segments (piece {path = path} s e n h stops d) =
    ap path_segments e
    ∙ path_segments-piece s path n h stops
    ∙ ap (λ x. s ∷ x) (Segments-path_segments d)

pub path_segments-Segments : (path : Text) → Segments path (path_segments path)
path_segments-Segments path =
    let (segments, d) = segments_exist path in
    subst (Segments path) (sym (Segments-path_segments d)) d
