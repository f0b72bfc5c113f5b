-- ===== src/Server.antt =====
-- src/server.rs: path patterns of endpoints, and the tasks of a server's connections. The children
-- model the rest.
pub mod Segments
pub mod Paths
pub mod Endpoint
pub mod Effects
pub mod Registry
pub mod Moves
pub mod Keeping
pub mod Closing
pub mod Awaiting
pub mod Builder
pub mod Routing
pub mod Listener
pub mod Stopping
pub mod Stop
pub mod Extraction
pub mod Broadcasting
mod Examples
use vcmp_rs.Base.{
  ℕ, ◌≡◌, refl, List, [], ◌∷◌, ◌++◌, Option, none, some, Bool, true, false, not, ◌&&◌, Text, codes,
  length, is_empty, text_eq, if◌then◌else◌, ◌==◌,
}
use vcmp_rs.Base.Assoc.{insert}
use vcmp_rs.Base.Ids.{without}

pub data Segment : Type 0 where
  literal : Text → Segment
  param : Text → Segment

pub record PathPattern : Type 0 where
  pub source : Text
  pub segments : List Segment

-- A byte in front of the first piece.
abbrev pub onto_first : ℕ → List Text → List Text
onto_first c [] = (c ∷ []) ∷ []
onto_first c (s ∷ rest) = (c ∷ s) ∷ rest

-- `split` at a byte: always one piece more than there are such bytes.
pub split : ℕ → Text → List Text
split sep [] = [] ∷ []
split sep (c ∷ s) = if c == sep then [] ∷ split sep s else onto_first c (split sep s)

-- `filter(|s| !s.is_empty())`.
pub without_empty : List Text → List Text
without_empty [] = []
without_empty (s ∷ rest) = if is_empty s then without_empty rest else s ∷ without_empty rest

-- `strip_suffix('}')`.
strip_suffix : Text → Option Text
strip_suffix [] = none
strip_suffix (c ∷ []) = if c == b'}' then some [] else none
strip_suffix (c ∷ d ∷ s) = elim (strip_suffix (d ∷ s)) [ none ↦ none | some t ↦ some (c ∷ t) ]

-- `strip_prefix('{').and_then(|s| s.strip_suffix('}'))`.
braced : Text → Option Text
unfolding strip_suffix
braced [] = none
braced (c ∷ s) = if c == b'{' then strip_suffix s else none

segment_of : Text → Segment
unfolding braced
segment_of s = elim (braced s) [ some name ↦ param name | none ↦ literal s ]

segments_of : List Text → List Segment
unfolding segment_of
segments_of [] = []
segments_of (s ∷ rest) = segment_of s ∷ segments_of rest

-- `PathPattern::parse`.
pub parse_pattern : Text → PathPattern
parse_pattern pattern = record {
  source = pattern;
  segments = segments_of (without_empty (split b'/' pattern));
}

-- `path.split('?').next()`.
pub first_piece : List Text → Text
first_piece [] = []
first_piece (s ∷ rest) = s

-- The segments of a request path, without its query.
pub path_segments : Text → List Text
path_segments path = without_empty (split b'/' (first_piece (split b'?' path)))

-- The loop of `matches`, over segments of the same number. A later parameter replaces an earlier
-- one of its name.
pub match_segments : List Segment → List Text → List (Text × Text) → Option (List (Text × Text))
match_segments (literal l ∷ ps) (s ∷ rest) params =
    let on = match_segments ps rest params in if text_eq l s then on else none
match_segments (param name ∷ ps) (s ∷ rest) params = match_segments ps rest (insert name s params)
match_segments _ _ params = some params

-- `PathPattern::matches`.
pub matches : PathPattern → Text → Option (List (Text × Text))
matches p path =
    let segments = path_segments path in
    if length segments == length p.segments then match_segments p.segments segments [] else none

-- The connections that a server still runs, by the ids of their tasks.
pub record ConnectionTasks : Type 0 where
  pub accepting : Bool
  pub tasks : List ℕ

-- `ConnectionTasks::finished`: a task that ended, well or not.
unfoldable pub finished : ℕ → ConnectionTasks → ConnectionTasks
finished id c = record c { tasks = without id c.tasks }

unfoldable pub all_are : ℕ → List ℕ → Bool
all_are caller [] = true
all_are caller (t ∷ ts) = t == caller && all_are caller ts

-- `ConnectionTasks::finished_except`.
unfoldable pub finished_except : ℕ → ConnectionTasks → Bool
unfolding all_are
finished_except caller c = not c.accepting && all_are caller c.tasks

matches_params :
    matches (parse_pattern (codes "/drivers/{driver}/")) (codes "/drivers/kerong?x=1")
    ≡ some ((codes "driver", codes "kerong") ∷ [])
unfolding matches parse_pattern segments_of segment_of braced strip_suffix without_empty split
    path_segments first_piece match_segments insert text_eq is_empty
matches_params = refl
