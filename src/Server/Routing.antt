-- ===== src/Server/Routing.antt =====
-- src/server.rs: the registration of endpoints, the routing of a request to one of them, and
-- `handle_connection`. The WebSocket handshake is an outcome that the function is given.
use vcmp_rs.Base.{
  ℕ, zero, suc, ◌≡◌, refl, ap, ◌⊎◌, inl, inr, List, [], ◌∷◌, ◌++◌, Option, none, some, Bool, Text,
  if◌then◌else◌,
}
use vcmp_rs.Resources.{ResourceBudget}
use vcmp_rs.Server.{PathPattern, parse_pattern, matches}
use vcmp_rs.Server.Endpoint.{Endpoint, new_endpoint, accept}

-- `ServerInner`: its endpoints in their order of registration, and the budget they share.
pub record ServerInner : Type 0 where
  pub stopped : Bool
  pub endpoints : List Endpoint
  pub budget : ResourceBudget

-- `VcmpServer::endpoint`.
unfoldable pub endpoint : Text → ServerInner → ServerInner
unfolding new_endpoint
endpoint pattern s = record s {
  endpoints = s.endpoints ++ (new_endpoint (parse_pattern pattern) s.budget ∷ []);
}

abbrev pub pattern_of : Endpoint → PathPattern
pattern_of e = e.inner.pattern

unfoldable pub or_next :
    Option (List (Text × Text)) → Option (ℕ × List (Text × Text)) → Option (ℕ × List (Text × Text))
or_next (some params) later = some (0, params)
or_next none none = none
or_next none (some (i, params)) = some (suc i, params)

-- The `find_map` over the endpoints: the place of the one that is routed to, with its parameters.
unfoldable pub route : List Endpoint → Text → Option (ℕ × List (Text × Text))
unfolding or_next
route [] path = none
route (e ∷ es) path = or_next (matches (pattern_of e) path) (route es path)

pub data Handled : Type 0 where
  not_found handshake_failed server_stopped : Handled
  served_by : ℕ → List (Text × Text) → Handled

unfoldable pub accept_at : ℕ → List Endpoint → List Endpoint
unfolding accept
accept_at i [] = []
accept_at zero (e ∷ es) = accept e ∷ es
accept_at (suc i) (e ∷ es) = e ∷ accept_at i es

-- After the handshake: a stopped server drops the connection, any other starts a session.
unfoldable pub admit : ServerInner → ℕ → List (Text × Text) → Handled × ServerInner
unfolding accept_at
admit s i params =
    if s.stopped
    then (server_stopped, s)
    else (served_by i params, record s { endpoints = accept_at i s.endpoints })

-- `handle_connection`, for the path of the request, and whether the handshake succeeds if the
-- request is not refused with 404. The permit of the connection is not part of this state.
unfoldable pub handle_connection : Text → Bool → ServerInner → Handled × ServerInner
unfolding route admit
handle_connection path handshake s = elim (route s.endpoints path) [
  | none ↦ (not_found, s)
  | some (i, params) ↦ if handshake then admit s i params else (handshake_failed, s)
]

-- No endpoint before a place matches a path.
abbrev pub NoneBefore : ℕ → List Endpoint → Text → Type 0
NoneBefore zero es path = Unit
NoneBefore (suc i) [] path = Unit
NoneBefore (suc i) (e ∷ es) path = (matches (pattern_of e) path ≡ none) × NoneBefore i es path

-- An endpoint in a place matches a path with some parameters.
abbrev pub MatchesAt : ℕ → List Endpoint → Text → List (Text × Text) → Type 0
MatchesAt i [] path params = ⊥
MatchesAt zero (e ∷ es) path params = matches (pattern_of e) path ≡ some params
MatchesAt (suc i) (e ∷ es) path params = MatchesAt i es path params

abbrev pub Misses : List Endpoint → Text → Type 0
Misses [] path = Unit
Misses (e ∷ es) path = (matches (pattern_of e) path ≡ none) × Misses es path

-- A request is routed to the first endpoint that matches its path, with the parameters of that
-- match, and to none exactly if no endpoint matches.
pub route-First :
    (es : List Endpoint) (path : Text)
    → ((route es path ≡ none) × Misses es path)
      ⊎ ((i : ℕ) × (params : List (Text × Text)) × (route es path ≡ some (i, params))
          × MatchesAt i es path params
          × NoneBefore i es path)
unfolding route
route-First [] path = inl (refl, tt)
route-First (e ∷ es) path = go (matches (pattern_of e) path) refl (route-First es path)
  where
    go :
        (m : Option (List (Text × Text)))
        → matches (pattern_of e) path ≡ m
        → ((route es path ≡ none) × Misses es path)
          ⊎ ((i : ℕ) × (params : List (Text × Text)) × (route es path ≡ some (i, params))
              × MatchesAt i es path params
              × NoneBefore i es path)
        → ((or_next m (route es path) ≡ none) × Misses (e ∷ es) path)
          ⊎ ((i : ℕ) × (params : List (Text × Text)) × (or_next m (route es path)
                ≡ some (i, params))
              × MatchesAt i (e ∷ es) path params
              × NoneBefore i (e ∷ es) path)
    go (some params) q _ = inr (0, params, refl, q, tt)
    go none q (inl (r, k)) = inl (ap (or_next none) r, (q, k))
    go none q (inr (i, params, r, k, b)) = inr (suc i, params, ap (or_next none) r, k, (q, b))
