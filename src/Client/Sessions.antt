-- ===== src/Client/Sessions.antt =====
-- src/client.rs: the sessions that are open, and the tasks whose guards close them.
use vcmp_rs.Base.{
  pick, ℕ, ◌≡◌, refl, sym, ◌∙◌, ap, ◌⊎◌, inl, inr, List, [], ◌∷◌, Option, none, some, Bool, true,
  false, ◌||◌, ◌==◌, Bool-cases, both-ways, arith,
}
use vcmp_rs.Resources.{ResourceBudget}
use vcmp_rs.Base.Ids.{is_among, among-without}
use vcmp_rs.Client.{
  Phase, connecting, hooking, serving, closing, parting, ended, Task, ClientInner, close,
}
use vcmp_rs.Client.Running.{
  at, rest, part, depart, Event, turn, set_session, under_budget, open_session, drop_held,
  drop_permit, install, close_some, accepts,
}
use vcmp_rs.Client.Reactions.{Cases, turn-cases, depart-cases, greet-cases, establish-cases}

-- The session that the guard of a task closes when the task leaves it.
abbrev pub guards : ℕ → Phase → Bool
guards s (hooking id p) = id == s
guards s (serving id) = id == s
guards s (closing id) = id == s
guards s (parting id p) = id == s
guards s _ = false

abbrev pub any_guards : ℕ → List Task → Bool
any_guards s [] = false
any_guards s (t ∷ ts) = guards s t.phase || any_guards s ts

-- A session is held by the guard of the client's task, or of one that it has replaced.
abbrev pub held : ℕ → Option Task → List Task → Bool
held s none ts = any_guards s ts
held s (some t) ts = guards s t.phase || any_guards s ts

-- What a turn of a task does to the sessions: each that is open after it is held by the task, or
-- was open and not held by it.
unfoldable pub Covers : ClientInner → Task → ClientInner × Task → Type 0
Covers c t r =
    (s : ℕ)
    → is_among s r.0.open_ ≡ true
    → (guards s r.1.phase ≡ true) ⊎ ((is_among s c.open_ ≡ true) × (guards s t.phase ≡ false))

module _ (c : ClientInner) (t : Task) where
  -- The guard as it was, and no new session.
  keeps :
      (i : ClientInner) (u : Task)
      → ((s : ℕ) → guards s u.phase ≡ guards s t.phase)
      → ((s : ℕ) → is_among s i.open_ ≡ true → is_among s c.open_ ≡ true)
      → Covers c t (i, u)
  unfolding Covers
  keeps i u g o s h = elim (Bool-cases (guards s t.phase)) [
    | inl k ↦ inl (g s ∙ k)
    | inr k ↦ inr (o s h, k)
  ]

  -- The guarded session is closed.
  leaves :
      (i : ClientInner) (u : Task)
      → ((s : ℕ)
          → is_among s i.open_ ≡ true
          → (is_among s c.open_ ≡ true) × (guards s t.phase ≡ false))
      → Covers c t (i, u)
  unfolding Covers
  leaves i u o s h = inr (o s h)

  at-guards :
      {phase : Phase} (s : ℕ) (b : Bool)
      → t.phase ≡ phase
      → guards s phase ≡ b
      → guards s t.phase ≡ b
  at-guards s b q e = ap (guards s) q ∙ e

set_none-open : (g : ℕ) (c : ClientInner) → (set_session g none c).1.open_ ≡ c.open_
unfolding set_session install close_some
set_none-open g c =
    pick {A = Bool × ClientInner} (λ r. r.1.open_ ≡ c.open_) (accepts g none c) (λ _. refl)
      (λ _. refl)

pub closes :
    (s id : ℕ) (c : ClientInner)
    → is_among s (close id c).open_ ≡ true
    → (is_among s c.open_ ≡ true) × ((id == s) ≡ false)
unfolding close
closes s id c h = among-without s id c.open_ h

depart-Covers :
    (id : ℕ) (c : ClientInner) (t : Task)
    → ((s : ℕ) → guards s t.phase ≡ (id == s))
    → Covers c t (depart id c t)
unfolding part at under_budget
depart-Covers id c t g =
    depart-cases (Covers c t) id c t
      (λ b.
        leaves c t (close id (kept b)) (rest t)
          (λ s h. let k = closes s id (kept b) h in (same s b k.0, g s ∙ k.1)))
      (λ b p. keeps c t (kept b) (at (parting id p) t) (λ s. sym (g s)) (λ s h. same s b h))
  where
    kept : ResourceBudget → ClientInner
    kept b = under_budget b (set_session t.generation none c).1

    same :
        (s : ℕ) (b : ResourceBudget) → is_among s (kept b).open_ ≡ true → is_among s c.open_ ≡ true
    same s b h = ap (is_among s) (sym (set_none-open t.generation c)) ∙ h

drop_held-open :
    (phase : Phase) (s : ℕ) (c : ClientInner)
    → is_among s (drop_held phase c).open_ ≡ true
    → (is_among s c.open_ ≡ true) × (guards s phase ≡ false)
unfolding drop_held drop_permit under_budget
drop_held-open (hooking id p) s c h = closes s id (drop_permit p c) h
drop_held-open (serving id) s c h = closes s id c h
drop_held-open (closing id) s c h = closes s id c h
drop_held-open (parting id p) s c h = closes s id (drop_permit p c) h
drop_held-open _ s c h = (h, refl)

-- A fresh session is the one its task holds.
open_session-open :
    (s : ℕ) (c : ClientInner)
    → is_among s (open_session c).open_ ≡ true
    → ((c.next == s) ≡ true) ⊎ (is_among s c.open_ ≡ true)
unfolding open_session is_among
open_session-open s c h = ground arith

pub turn-Covers : (e : Event) (c : ClientInner) (t : Task) → Covers c t (turn e c t)
unfolding Covers at part under_budget install drop_permit open_session close
turn-Covers e c t = turn-cases cases
  where
    without_guard :
        {phase : Phase} (i : ClientInner) (u : Task)
        → t.phase ≡ phase
        → ((s : ℕ) → guards s phase ≡ false)
        → ((s : ℕ) → is_among s i.open_ ≡ true → is_among s c.open_ ≡ true)
        → Covers c t (i, u)
    without_guard i u q g o = leaves c t i u (λ s h. (o s h, at-guards c t s false q (g s)))

    fresh :
        t.phase ≡ connecting
        → (s : ℕ) → is_among s (open_session c).open_ ≡ true
        → ((c.next == s) ≡ true) ⊎ ((is_among s c.open_ ≡ true) × (guards s t.phase ≡ false))
    fresh q s h = elim (open_session-open s c h) [
      | inl k ↦ inl k
      | inr o ↦ inr (o, ap (guards s) q)
    ]

    refuses :
        t.phase ≡ connecting
        → (s : ℕ) → is_among s (close c.next (open_session c)).open_ ≡ true
        → (is_among s c.open_ ≡ true) × (guards s t.phase ≡ false)
    refuses q s h =
        let (o, n) = closes s c.next (open_session c) h in
        elim (fresh q s o) [ inl k ↦ absurd (both-ways k n) | inr k ↦ k ]

    cases : Cases e c t (Covers c t)
    cases = record {
      idle = keeps c t c t (λ s. refl) (λ s h. h);
      establishes = λ z q.
          establish-cases (Covers c t) c t
            (λ _.
              leaves c t (close c.next (close c.next (open_session c))) (at ended t)
                (λ s h. refuses q s (closes s c.next (close c.next (open_session c)) h).0))
            (λ a ids.
              greet-cases (Covers c t) _ _ _ (λ b s h. fresh q s h) (λ b s h. inr (refuses q s h))
                (λ b p s h. fresh q s h));
      fails = λ q. without_guard c (rest t) q (λ s. refl) (λ s h. h);
      quits = λ z k. elim z [
        | inl q ↦ without_guard c (at ended t) q (λ s. refl) (λ s h. h)
        | inr (n, q) ↦ without_guard c (at ended t) q (λ s. refl) (λ s h. h)
      ];
      hook_over = λ id p q.
          keeps c t (drop_permit p c) (at (serving id) t) (λ s. sym (ap (guards s) q)) (λ s h. h);
      hook_stopped = λ id p q k.
          keeps c t (drop_permit p (close id c)) (at (serving id) t) (λ s. sym (ap (guards s) q))
            (λ s h. (closes s id c h).0);
      lost = λ id z q. depart-Covers id c t (λ s. ap (guards s) q);
      stops_serving = λ id q k.
          keeps c t (close id c) (at (closing id) t) (λ s. sym (ap (guards s) q))
            (λ s h. (closes s id c h).0);
      closed = λ id z q. depart-Covers id c t (λ s. ap (guards s) q);
      parted = λ id p q.
          leaves c t (close id (drop_permit p c)) (rest t)
            (λ s h. let k = closes s id (drop_permit p c) h in (k.0, ap (guards s) q ∙ k.1));
      woken = λ k q. without_guard c (at connecting t) q (λ s. refl) (λ s h. h);
      drops =
          λ k. leaves c t (drop_held t.phase c) (at ended t) (λ s h. drop_held-open t.phase s c h);
    }
