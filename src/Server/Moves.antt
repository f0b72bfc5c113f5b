-- ===== src/Server/Moves.antt =====
-- src/server.rs: the table of sessions over the moves of an endpoint.
use vcmp_rs.Base.{
  ℕ, ◌≡◌, refl, sym, ◌∙◌, ap, inl, inr, List, [], ◌∷◌, true, false, Result, ok, err, Bool-cases,
  both-ways, arith,
}
use vcmp_rs.Base.Ids.{is_among, among-without}
use vcmp_rs.Error.{VcmpError}
use vcmp_rs.Resources.{Permit, ResourceBudget, connection, reserve}
use vcmp_rs.Server.{PathPattern}
use vcmp_rs.Server.Endpoint.{
  EndpointInner, over, with_permits, close_session, start_session, begin_upgrade, pend, admit,
  Event, close_each, close_registered, Endpoint, accept, on_upgrade, Move, accepts, upgrades,
  closes, attends, session_ends, hooks_set, budget_is, move, run, new_endpoint,
}
use vcmp_rs.Server.Effects.{any_serves, all_waits, serve-Effect}
use vcmp_rs.Server.Registry.{attend_at-Effect, or_intro}

-- The table of sessions and the tasks agree: an open session is registered, a registered one is
-- served by a task, and the pending upgrades are those of the tasks.
pub record Registered (c : Endpoint) : Type 0 where
  pub reached : (s : ℕ) → is_among s c.inner.open_ ≡ true → is_among s c.inner.sessions ≡ true
  pub attended : (s : ℕ) → is_among s c.inner.sessions ≡ true → any_serves s c.tasks ≡ true
  pub pending : c.inner.pending_upgrades ≡ all_waits c.tasks

attends-Registered :
    (n : ℕ) (ev : Event) (c : Endpoint) → Registered c → Registered (move (attends n ev) c)
unfolding move
attends-Registered n ev c h =
    let (a, b, k) = attend_at-Effect n ev c.tasks c.inner in
    record {
      reached = λ s o. a s o (h.reached s);
      attended = λ s o. b s o (h.attended s);
      pending = omega (arith, k 0 (omega (arith, h.pending)));
    }

accept-Registered : (c : Endpoint) → Registered c → Registered (accept c)
unfolding accept start_session
accept-Registered c h =
    let x = serve-Effect c.inner over (start_session c.inner) refl refl (λ s. refl) (omega arith) in
    record {
      reached = λ s o. x.registered s o (h.reached s);
      attended = λ s o. elim (x.served s o) [
        | inl g ↦ ground (arith, g)
        | inr (a, b) ↦ or_intro _ _ (h.attended s a)
      ];
      pending = x.counted (all_waits c.tasks) (omega (arith, h.pending));
    }

on_upgrade-Registered : (c : Endpoint) → Registered c → Registered (on_upgrade c)
unfolding on_upgrade begin_upgrade with_permits pend admit
on_upgrade-Registered c h = go (reserve c.inner.budget connection 0)
  where
    go :
        (r : Result Permit (VcmpError (Unit {0})) × ResourceBudget)
        → Registered (admit c (pend c.inner r))
    go (ok p, b) = record {
      reached = h.reached;
      attended = h.attended;
      pending = omega (arith, h.pending);
    }
    go (err x, b) = record { reached = h.reached; attended = h.attended; pending = h.pending }

closes-open :
    (ids : List ℕ) (e : EndpointInner) (s : ℕ)
    → is_among s (close_each ids e).open_ ≡ true
    → (is_among s e.open_ ≡ true) × (is_among s ids ≡ false)
unfolding close_each close_session is_among
closes-open [] e s h = (h, refl)
closes-open (id ∷ ids) e s h =
    let (a, b) = closes-open ids (close_session id e) s h in
    let (x, y) = among-without s id e.open_ a in (x, ground (arith, b, y))

closes-sessions :
    (ids : List ℕ) (e : EndpointInner)
    → ((close_each ids e).sessions ≡ e.sessions)
      × ((close_each ids e).pending_upgrades ≡ e.pending_upgrades)
unfolding close_each close_session
closes-sessions [] e = (refl, refl)
closes-sessions (id ∷ ids) e = closes-sessions ids (close_session id e)

pub closes-Registered : (c : Endpoint) → Registered c → Registered (move closes c)
unfolding move close_registered
closes-Registered c h = closed (closes-sessions c.inner.sessions c.inner)
  where
    e : EndpointInner
    e = close_each c.inner.sessions c.inner

    closed :
        (e.sessions ≡ c.inner.sessions) × (e.pending_upgrades ≡ c.inner.pending_upgrades)
        → Registered (record c { inner = e })
    closed (q, n) = record {
      reached = λ s o. ap (is_among s) q ∙ h.reached s (closes-open c.inner.sessions c.inner s o).0;
      attended = λ s o. h.attended s (ap (is_among s) (sym q) ∙ o);
      pending = n ∙ h.pending;
    }

pub move-Registered : (m : Move) (c : Endpoint) → Registered c → Registered (move m c)
unfolding move close_session with_permits
move-Registered accepts c h = accept-Registered c h
move-Registered upgrades c h = on_upgrade-Registered c h
move-Registered closes c h = closes-Registered c h
move-Registered (attends n ev) c h = attends-Registered n ev c h
move-Registered (session_ends id) c h = record {
  reached = λ s o. h.reached s (among-without s id c.inner.open_ o).0;
  attended = h.attended;
  pending = h.pending;
}
move-Registered (hooks_set a b) c h = record {
  reached = h.reached;
  attended = h.attended;
  pending = h.pending;
}
move-Registered (budget_is b) c h = record {
  reached = h.reached;
  attended = h.attended;
  pending = h.pending;
}

runs-Registered : (ms : List Move) (c : Endpoint) → Registered c → Registered (run ms c)
unfolding run
runs-Registered [] c h = h
runs-Registered (m ∷ ms) c h = runs-Registered ms (move m c) (move-Registered m c h)

-- After any moves of a new endpoint, every open session is registered, every registered session is
-- served by a task, and the count of pending upgrades is that of the tasks that are upgrading.
pub run-Registered :
    (ms : List Move) (pattern : PathPattern) (budget : ResourceBudget)
    → Registered (run ms (new_endpoint pattern budget))
unfolding new_endpoint is_among
run-Registered ms pattern budget =
    runs-Registered ms (new_endpoint pattern budget)
      (record { reached = λ s o. absurd (cc); attended = λ s o. absurd (cc); pending = refl })

-- The closing leaves no session of the endpoint open.
pub none_open :
    (c : Endpoint) → Registered c → (s : ℕ) → is_among s (move closes c).inner.open_ ≡ false
unfolding move close_registered
none_open c h s = elim (Bool-cases (is_among s (close_each c.inner.sessions c.inner).open_)) [
  | inl o ↦
      let (a, b) = closes-open c.inner.sessions c.inner s o in absurd (both-ways (h.reached s a) b)
  | inr f ↦ f
]
