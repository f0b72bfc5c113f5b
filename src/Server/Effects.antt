-- ===== src/Server/Effects.antt =====
-- src/server.rs: what one event of a serving task does to its endpoint.
use vcmp_rs.Base.{
  ℕ, ◌+◌, ◌-◌, ◌≡◌, refl, sym, ◌∙◌, ap, subst, ◌⊎◌, inl, inr, List, [], ◌∷◌, Option, none, some,
  Bool, true, false, ◌||◌, ◌==◌, Bool-cases, both-ways, ==_iff, arith, pick,
}
use vcmp_rs.Base.Ids.{without, is_among, among-without, among_still}
use vcmp_rs.Resources.{Permit}
use vcmp_rs.Server.Endpoint.{
  EndpointInner, Serving, upgrading, greeting, serving, parting, over, with_permits, close_session,
  forget, clean_up, drop_permit, start_session, permit_for, welcome, serve, farewell, leave,
  end_upgrade, upgrade, drop_held, Event, upgraded, upgrade_failed, hook_ended, session_closed,
  aborted, attend,
}

-- Whether a task serves a session that it will remove.
abbrev pub serves : ℕ → Serving → Bool
serves s (greeting id p) = id == s
serves s (serving id) = id == s
serves s _ = false

abbrev pub any_serves : ℕ → List Serving → Bool
any_serves s [] = false
any_serves s (t ∷ ts) = serves s t || any_serves s ts

-- Whether a task still has a pending upgrade, and how many have.
abbrev pub waits : Serving → ℕ
waits (upgrading p) = 1
waits _ = 0

abbrev pub all_waits : List Serving → ℕ
all_waits [] = 0
all_waits (t ∷ ts) = waits t + all_waits ts

-- What a turn of a task does: it keeps open sessions registered, it drops no other task's session
-- and counts its own pending upgrade.
pub record Effect (e : EndpointInner) (t : Serving) (r : EndpointInner × Serving) : Type 0 where
  pub registered :
      (s : ℕ)
      → is_among s r.0.open_ ≡ true
      → (is_among s e.open_ ≡ true → is_among s e.sessions ≡ true)
      → is_among s r.0.sessions ≡ true
  pub served :
      (s : ℕ)
      → is_among s r.0.sessions ≡ true
      → (serves s r.1 ≡ true) ⊎ ((is_among s e.sessions ≡ true) × (serves s t ≡ false))
  pub counted : (n : ℕ) → e.pending_upgrades ≡ waits t + n → r.0.pending_upgrades ≡ waits r.1 + n

-- A turn that leaves the sessions alone.
quiet :
    (e : EndpointInner) (t : Serving) (i : EndpointInner) (u : Serving)
    → ((s : ℕ) → is_among s i.open_ ≡ true → is_among s e.open_ ≡ true)
    → ((s : ℕ) → serves s u ≡ serves s t)
    → i.sessions ≡ e.sessions
    → i.pending_upgrades ≡ e.pending_upgrades
    → waits u ≡ waits t
    → Effect e t (i, u)
quiet e t i u o g q n w = record {
  registered = λ s h k. ap (is_among s) q ∙ k (o s h);
  served = λ s h. elim (Bool-cases (serves s t)) [
    | inl k ↦ inl (g s ∙ k)
    | inr k ↦ inr (ap (is_among s) (sym q) ∙ h, k)
  ];
  counted = λ m h. omega (arith, n, w);
}

not_same : (s id : ℕ) (l : List ℕ) → is_among s l ≡ true → is_among id l ≡ false → (id == s) ≡ false
not_same s id l h k = elim (Bool-cases (id == s)) [
  | inl q ↦ absurd (both-ways (subst (λ x. is_among x l ≡ true) (sym ((==_iff id s).0 q)) h) k)
  | inr q ↦ q
]

-- The drop of the guard.
cleaned :
    (e : EndpointInner) (t : Serving) (i : EndpointInner) (id : ℕ)
    → ((s : ℕ) → (id == s) ≡ false → serves s t ≡ false)
    → i.open_ ≡ e.open_
    → i.sessions ≡ e.sessions
    → i.pending_upgrades ≡ e.pending_upgrades
    → waits t ≡ 0
    → Effect e t (clean_up id i, over)
unfolding clean_up close_session forget
cleaned e t i id g o q n w = record {
  registered = λ s h k.
      let (a, b) = among-without s id i.open_ h in
      among_still s id i.sessions (ap (is_among s) q ∙ k (ap (is_among s) (sym o) ∙ a)) b;
  served = λ s h.
      let (a, b) = among-without s id i.sessions h in inr (ap (is_among s) (sym q) ∙ a, g s b);
  counted = λ m h. omega (arith, n, w);
}

leave-Effect :
    (id : ℕ) (e : EndpointInner) → is_among id e.open_ ≡ false → Effect e (serving id) (leave id e)
unfolding leave forget with_permits farewell clean_up close_session
leave-Effect id e f = go (permit_for e.on_disconnected e.budget).0
  where
    i : EndpointInner
    i = with_permits (permit_for e.on_disconnected e.budget).1 (forget id e)

    dropped :
        (s : ℕ)
        → is_among s (without id e.sessions) ≡ true
        → (is_among s e.sessions ≡ true) × ((id == s) ≡ false)
    dropped s h = among-without s id e.sessions h

    go : (o : Option Permit) → Effect e (serving id) (farewell id i o)
    go none = record {
      registered = λ s h k.
          let (a, b) = among-without s id e.open_ h in
          among_still s id (without id e.sessions) (among_still s id e.sessions (k a) b) b;
      served = λ s h. inr (dropped s (among-without s id (without id e.sessions) h).0);
      counted = λ m h. h;
    }
    go (some p) = record {
      registered = λ s h k. among_still s id e.sessions (k h) (not_same s id e.open_ h f);
      served = λ s h. inr (dropped s h);
      counted = λ m h. h;
    }

-- A session that starts: it is registered, and served by its task.
started :
    (e : EndpointInner) (t : Serving) (i : EndpointInner) (u : Serving)
    → ((s : ℕ) → is_among s i.open_ ≡ true → is_among s (e.next ∷ e.open_) ≡ true)
    → i.sessions ≡ e.next ∷ without e.next e.sessions
    → ((s : ℕ) → serves s u ≡ (e.next == s))
    → ((s : ℕ) → serves s t ≡ false)
    → i.pending_upgrades ≡ e.pending_upgrades - waits t
    → waits u ≡ 0
    → Effect e t (i, u)
unfolding is_among
started e t i u o q g f n w = record {
  registered = λ s h k.
      let still = among_still s e.next e.sessions in
      let now = o s h in ap (is_among s) q ∙ ground arith;
  served = λ s h.
      let old = among-without s e.next e.sessions in
      let now : is_among s (e.next ∷ without e.next e.sessions) ≡ true =
        ap (is_among s) (sym q) ∙ h in
      ground (arith, g s, f s);
  counted = λ m h. omega (arith, n, w);
}

pub serve-Effect :
    (e : EndpointInner) (t : Serving) (i : EndpointInner)
    → i.open_ ≡ e.next ∷ e.open_
    → i.sessions ≡ e.next ∷ without e.next e.sessions
    → ((s : ℕ) → serves s t ≡ false)
    → i.pending_upgrades ≡ e.pending_upgrades - waits t
    → Effect e t (serve e.next i)
unfolding serve welcome with_permits close_session
serve-Effect e t i o q f n = go (permit_for i.on_connected i.budget).0
  where
    j : EndpointInner
    j = with_permits (permit_for i.on_connected i.budget).1 i

    same : (s : ℕ) → is_among s i.open_ ≡ true → is_among s (e.next ∷ e.open_) ≡ true
    same s h = ap (is_among s) (sym o) ∙ h

    go : (p : Option Permit) → Effect e t (welcome e.next j p)
    go none =
        pick (λ x. Effect e t (x, serving e.next)) i.on_connected
          (λ _.
            started e t (close_session e.next j) (serving e.next)
              (λ s h. same s (among-without s e.next i.open_ h).0) q (λ s. refl) f n refl)
          (λ _. started e t j (serving e.next) same q (λ s. refl) f n refl)
    go (some p) = started e t j (greeting e.next p) same q (λ s. refl) f n refl

idle : (e : EndpointInner) (t : Serving) → Effect e t (e, t)
idle e t = quiet e t e t (λ s h. h) (λ s. refl) refl refl refl

given_up : (p : Permit) (e : EndpointInner) → Effect e (upgrading p) (end_upgrade (some p) e, over)
unfolding end_upgrade drop_permit with_permits
given_up p e = record {
  registered = λ s h k. k h;
  served = λ s h. inr (h, refl);
  counted = λ m h. omega arith;
}

pub attend-Effect : (ev : Event) (t : Serving) (e : EndpointInner) → Effect e t (attend ev t e)
unfolding attend upgrade end_upgrade start_session drop_permit with_permits drop_held
attend-Effect upgraded (upgrading p) e =
    serve-Effect e (upgrading p) (end_upgrade none (start_session e)) refl refl (λ s. refl) refl
attend-Effect upgrade_failed (upgrading p) e = given_up p e
attend-Effect aborted (upgrading p) e = given_up p e
attend-Effect hook_ended (greeting id p) e =
    quiet e (greeting id p) (drop_permit p e) (serving id) (λ s h. h) (λ s. refl) refl refl refl
attend-Effect session_closed (greeting id p) e =
    pick (Effect e (greeting id p)) (is_among id e.open_) (λ _. idle e (greeting id p))
      (λ _.
        quiet e (greeting id p) (drop_permit p e) (serving id) (λ s h. h) (λ s. refl) refl refl
          refl)
attend-Effect aborted (greeting id p) e =
    cleaned e (greeting id p) (drop_permit p e) id (λ s h. h) refl refl refl refl
attend-Effect session_closed (serving id) e =
    pick (Effect e (serving id)) (is_among id e.open_) (λ _. idle e (serving id))
      (λ f. leave-Effect id e f)
attend-Effect aborted (serving id) e = cleaned e (serving id) e id (λ s h. h) refl refl refl refl
attend-Effect hook_ended (parting id p) e =
    cleaned e (parting id p) (drop_permit p e) id (λ s h. refl) refl refl refl refl
attend-Effect aborted (parting id p) e =
    cleaned e (parting id p) (drop_permit p e) id (λ s h. refl) refl refl refl refl
attend-Effect aborted over e = idle e over
attend-Effect _ t e = idle e t
