-- ===== src/Server/Broadcasting.antt =====
-- src/server.rs: `Endpoint::broadcast`. The result that a session's send ends with is an argument:
-- `join_all` waits for every one of them and keeps their order.
use vcmp_rs.Base.{ℕ, ◌≡◌, refl, ap, List, [], ◌∷◌, map, Result}
use vcmp_rs.Error.{VcmpError}
use vcmp_rs.Server.Endpoint.{EndpointInner}

pub record BroadcastResult (V : Type 0) : Type 0 where
  pub session : ℕ
  pub result : Result V (VcmpError V)

-- `Endpoint::sessions`.
unfoldable pub sessions : EndpointInner → List ℕ
sessions e = e.sessions

module _ {V : Type 0} where
  -- `sessions.into_iter().zip(results)`, each pair as a `BroadcastResult`.
  unfoldable pub zip_results : List ℕ → List (Result V (VcmpError V)) → List (BroadcastResult V)
  zip_results (s ∷ ss) (r ∷ rs) = record { session = s; result = r } ∷ zip_results ss rs
  zip_results _ _ = []

  unfoldable pub broadcast : (ℕ → Result V (VcmpError V)) → EndpointInner → List (BroadcastResult V)
  unfolding zip_results sessions
  broadcast send e = zip_results (sessions e) (map send (sessions e))

  zip_results-sessions :
      (send : ℕ → Result V (VcmpError V)) (ss : List ℕ)
      → map (λ (b : BroadcastResult V). b.session) (zip_results ss (map send ss)) ≡ ss
  unfolding zip_results
  zip_results-sessions send [] = refl
  zip_results-sessions send (s ∷ ss) = ap (λ l. s ∷ l) (zip_results-sessions send ss)

  -- Every session has one entry, however its send ends.
  broadcast-sessions :
      (send : ℕ → Result V (VcmpError V)) (e : EndpointInner)
      → map (λ (b : BroadcastResult V). b.session) (broadcast send e) ≡ e.sessions
  unfolding broadcast sessions
  broadcast-sessions send e = zip_results-sessions send e.sessions
