-- ===== src/Server/Keeping.antt =====
-- src/server.rs: what a move of an endpoint keeps of its closed sessions.
use vcmp_rs.Base.{
  ℕ, ◌≤◌, ◌<◌, ◌≡◌, inl, inr, List, [], ◌∷◌, Option, none, some, false, zero, suc, Bool-cases,
  both-ways, arith, pick, Result, ok, err,
}
use vcmp_rs.Base.Ids.{without, is_among, among-without}
use vcmp_rs.Error.{VcmpError}
use vcmp_rs.Resources.{Permit, ResourceBudget, connection, reserve}
use vcmp_rs.Server.Endpoint.{
  EndpointInner, Serving, upgrading, greeting, serving, parting, over, with_permits, close_session,
  forget, clean_up, drop_permit, start_session, permit_for, welcome, serve, farewell, leave,
  begin_upgrade, pend, end_upgrade, upgrade, drop_held, Event, upgraded, upgrade_failed, hook_ended,
  session_closed, aborted, attend, close_each, close_registered, Endpoint, attend_at, accept, admit,
  on_upgrade, Move, accepts, upgrades, closes, attends, session_ends, hooks_set, budget_is, move,
}

-- No number of a session is given twice, and no session that was closed is open again.
pub record Keeps (e after : EndpointInner) : Type 0 where
  pub later : e.next ≤ after.next
  pub still : (s : ℕ) → s < e.next → is_among s e.open_ ≡ false → is_among s after.open_ ≡ false

pub Keeps-refl : (e : EndpointInner) → Keeps e e
Keeps-refl e = record { later = omega arith; still = λ s h k. k }

pub Keeps-trans : (a b c : EndpointInner) → Keeps a b → Keeps b c → Keeps a c
Keeps-trans a b c h k = record {
  later = omega (arith, h.later, k.later);
  still = λ s l n. k.still s (omega (arith, h.later)) (h.still s l n);
}

without-still : (s id : ℕ) (l : List ℕ) → is_among s l ≡ false → is_among s (without id l) ≡ false
without-still s id l h = elim (Bool-cases (is_among s (without id l))) [
  | inl k ↦ absurd (both-ways (among-without s id l k).0 h)
  | inr k ↦ k
]

close_session-Keeps : (id : ℕ) (e : EndpointInner) → Keeps e (close_session id e)
unfolding close_session
close_session-Keeps id e = record {
  later = omega arith;
  still = λ s l n. without-still s id e.open_ n;
}

start_session-Keeps : (e : EndpointInner) → Keeps e (start_session e)
unfolding start_session is_among
start_session-Keeps e = record { later = omega arith; still = λ s l n. ground (arith, n) }

welcome-Keeps : (id : ℕ) (e : EndpointInner) (o : Option Permit) → Keeps e (welcome id e o).0
unfolding welcome
welcome-Keeps id e none =
    pick (Keeps e) e.on_connected (λ _. close_session-Keeps id e) (λ _. Keeps-refl e)
welcome-Keeps id e (some p) = Keeps-refl e

-- A change of the budget alone.
with_permits-Keeps :
    (b : ResourceBudget) (e after : EndpointInner) → Keeps (with_permits b e) after → Keeps e after
unfolding with_permits
with_permits-Keeps b e after h = record { later = h.later; still = h.still }

serve-Keeps : (id : ℕ) (e : EndpointInner) → Keeps e (serve id e).0
unfolding serve
serve-Keeps id e =
    with_permits-Keeps (permit_for e.on_connected e.budget).1 e _
      (welcome-Keeps id _ (permit_for e.on_connected e.budget).0)

clean_up-Keeps : (id : ℕ) (e : EndpointInner) → Keeps e (clean_up id e)
unfolding clean_up forget close_session
clean_up-Keeps id e = record { later = omega arith; still = λ s l n. without-still s id e.open_ n }

farewell-Keeps : (id : ℕ) (e : EndpointInner) (o : Option Permit) → Keeps e (farewell id e o).0
unfolding farewell
farewell-Keeps id e none = clean_up-Keeps id e
farewell-Keeps id e (some p) = Keeps-refl e

leave-Keeps : (id : ℕ) (e : EndpointInner) → Keeps e (leave id e).0
unfolding leave forget with_permits
leave-Keeps id e =
    let h =
      farewell-Keeps id (with_permits (permit_for e.on_disconnected e.budget).1 (forget id e))
        (permit_for e.on_disconnected e.budget).0 in
    record { later = h.later; still = h.still }

drop_permit-Keeps : (p : Permit) (e : EndpointInner) → Keeps e (drop_permit p e)
unfolding drop_permit with_permits
drop_permit-Keeps p e = record { later = omega arith; still = λ s l n. n }

cleaned-Keeps : (id : ℕ) (p : Permit) (e : EndpointInner) → Keeps e (clean_up id (drop_permit p e))
cleaned-Keeps id p e =
    Keeps-trans e (drop_permit p e) _ (drop_permit-Keeps p e) (clean_up-Keeps id (drop_permit p e))

given_up-Keeps : (p : Permit) (e : EndpointInner) → Keeps e (end_upgrade (some p) e)
unfolding end_upgrade drop_permit with_permits
given_up-Keeps p e = record { later = omega arith; still = λ s l n. n }

upgrade-Keeps : (e : EndpointInner) → Keeps e (upgrade e).0
unfolding upgrade end_upgrade
upgrade-Keeps e =
    let started : EndpointInner = end_upgrade none (start_session e) in
    let one = start_session-Keeps e in
    Keeps-trans e started (serve e.next started).0 (record { later = one.later; still = one.still })
      (serve-Keeps e.next started)

attend-Keeps : (ev : Event) (t : Serving) (e : EndpointInner) → Keeps e (attend ev t e).0
unfolding attend drop_held
attend-Keeps upgraded (upgrading p) e = upgrade-Keeps e
attend-Keeps upgrade_failed (upgrading p) e = given_up-Keeps p e
attend-Keeps aborted (upgrading p) e = given_up-Keeps p e
attend-Keeps hook_ended (greeting id p) e = drop_permit-Keeps p e
attend-Keeps session_closed (greeting id p) e =
    pick (λ (q : EndpointInner × Serving). Keeps e q.0) (is_among id e.open_) (λ _. Keeps-refl e)
      (λ _. drop_permit-Keeps p e)
attend-Keeps aborted (greeting id p) e = cleaned-Keeps id p e
attend-Keeps session_closed (serving id) e =
    pick (λ (q : EndpointInner × Serving). Keeps e q.0) (is_among id e.open_) (λ _. Keeps-refl e)
      (λ _. leave-Keeps id e)
attend-Keeps aborted (serving id) e = clean_up-Keeps id e
attend-Keeps hook_ended (parting id p) e = cleaned-Keeps id p e
attend-Keeps aborted (parting id p) e = cleaned-Keeps id p e
attend-Keeps aborted over e = Keeps-refl e
attend-Keeps _ t e = Keeps-refl e

attend_at-Keeps :
    (n : ℕ) (ev : Event) (ts : List Serving) (e : EndpointInner) → Keeps e (attend_at n ev ts e).0
unfolding attend_at
attend_at-Keeps n ev [] e = Keeps-refl e
attend_at-Keeps zero ev (t ∷ ts) e = attend-Keeps ev t e
attend_at-Keeps (suc n) ev (t ∷ ts) e = attend_at-Keeps n ev ts e

close_each-Keeps : (ids : List ℕ) (e : EndpointInner) → Keeps e (close_each ids e)
unfolding close_each
close_each-Keeps [] e = Keeps-refl e
close_each-Keeps (id ∷ ids) e =
    Keeps-trans e (close_session id e) _ (close_session-Keeps id e)
      (close_each-Keeps ids (close_session id e))

on_upgrade-Keeps : (c : Endpoint) → Keeps c.inner (on_upgrade c).inner
unfolding on_upgrade begin_upgrade with_permits pend admit
on_upgrade-Keeps c = go (reserve c.inner.budget connection 0)
  where
    go :
        (r : Result Permit (VcmpError (Unit {0})) × ResourceBudget)
        → Keeps c.inner (admit c (pend c.inner r)).inner
    go (ok p, b) = record { later = omega arith; still = λ s l n. n }
    go (err x, b) = record { later = omega arith; still = λ s l n. n }

-- Every move keeps them.
pub move-Keeps : (m : Move) (c : Endpoint) → Keeps c.inner (move m c).inner
unfolding move accept close_registered with_permits
move-Keeps accepts c =
    Keeps-trans c.inner (start_session c.inner) _ (start_session-Keeps c.inner)
      (serve-Keeps c.inner.next (start_session c.inner))
move-Keeps upgrades c = on_upgrade-Keeps c
move-Keeps closes c = close_each-Keeps c.inner.sessions c.inner
move-Keeps (attends n ev) c = attend_at-Keeps n ev c.tasks c.inner
move-Keeps (session_ends id) c = close_session-Keeps id c.inner
move-Keeps (hooks_set a b) c = record { later = omega arith; still = λ s l n. n }
move-Keeps (budget_is b) c = record { later = omega arith; still = λ s l n. n }
