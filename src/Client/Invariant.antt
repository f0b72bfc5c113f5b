-- ===== src/Client/Invariant.antt =====
-- src/client.rs: what holds of a client between its moves: the parts of its state agree with each
-- other and with the phase of its task.
use vcmp_rs.Base.{
  pick, ℕ, ◌≡◌, refl, sym, ◌∙◌, ap, ap₂, ◌⊎◌, inl, inr, Option, none, some, Bool, true, false,
  arith, if◌then◌else◌,
}
use vcmp_rs.Resources.{ResourceBudget}
use vcmp_rs.Client.{
  Stop, no, Phase, connecting, hooking, serving, closing, parting, ended, Task, ClientInner, close,
}
use vcmp_rs.Client.Running.{
  is_some, is_told, accepts, install, set_session, open_session, at, rest, part, depart,
  under_budget, drop_permit, drop_held, close_some, Event, turn,
}
use vcmp_rs.Client.Reactions.{Cases, turn-cases, depart-cases, greet-cases, establish-cases}

-- The session that a running client shows while its task is in a phase.
abbrev pub session_at : Phase → Option ℕ
session_at (hooking id p) = some id
session_at (serving id) = some id
session_at (closing id) = some id
session_at _ = none

abbrev pub alive : Phase → Bool
alive ended = false
alive _ = true

-- What the operations and the getters of the client go by.
abbrev pub core : ClientInner → Bool × ℕ × Bool × Option ℕ × Bool
core c = (c.running, c.generation, c.stop, c.session, c.connected)

-- What a task keeps from its start, but for what it is told.
abbrev pub identity : Task → ℕ × Stop × Bool
identity t = (t.generation, t.told, t.aborted)

rest-keeps :
    (P : Task → Type 0) (t : Task)
    → ((phase : Phase) (n : ℕ) → P (record t { phase = phase; attempt = n }))
    → P (rest t)
unfolding rest at
rest-keeps P t h = pick P (is_told t.told) (λ _. h ended t.attempt) (λ _. h _ _)

-- A turn leaves alone which task it is of and what that was told.
pub turn-same : (e : Event) (c : ClientInner) (t : Task) → identity (turn e c t).1 ≡ identity t
unfolding at part
turn-same e c t = turn-cases {P = Same} cases
  where
    Same : ClientInner × Task → Type 0
    Same r = identity r.1 ≡ identity t

    rests : identity (rest t) ≡ identity t
    rests = rest-keeps (λ u. identity u ≡ identity t) t (λ ph n. refl)

    departs : (id : ℕ) → Same (depart id c t)
    departs id = depart-cases Same id c t (λ b. rests) (λ b p. refl)

    cases : Cases e c t Same
    cases = record {
      idle = refl;
      establishes = λ z q.
          establish-cases Same c t (λ _. refl)
            (λ _ ids. greet-cases Same _ _ _ (λ b. refl) (λ b. refl) (λ b p. refl));
      fails = λ q. rests;
      quits = λ z h. refl;
      hook_over = λ id p q. refl;
      hook_stopped = λ id p q h. refl;
      lost = λ id z q. departs id;
      stops_serving = λ id q h. refl;
      closed = λ id z q. departs id;
      parted = λ id p q. rests;
      woken = λ k q. refl;
      drops = λ h. refl;
    }

-- A task whose sessions the client no longer takes: it was replaced, or the client was stopped.
abbrev pub Away : ClientInner → Task → Type 0
Away c t =
    ((t.generation ≡ c.generation) → ⊥)
    ⊎ ((c.running ≡ false) × (c.session ≡ none) × (c.connected ≡ false))

refused :
    (c : ClientInner) (t : Task) (id : ℕ) → Away c t → accepts t.generation (some id) c ≡ false
unfolding accepts is_some
refused c t id (inl h) = ground arith
refused c t id (inr (r, _, _)) = ground arith

other :
    (c : ClientInner) (t : Task)
    → ((t.generation ≡ c.generation) → ⊥)
    → accepts t.generation none c ≡ true
    → ⊥
unfolding accepts is_some
other c t h q = ground arith

set_none-keeps :
    (c : ClientInner) (t : Task) → Away c t → core (set_session t.generation none c).1 ≡ core c
unfolding set_session install is_some close_some accepts
set_none-keeps c t away =
    pick {A = Bool × ClientInner} (λ r. core r.1 ≡ core c) (accepts t.generation none c)
      (λ q. taken away q) (λ q. refl)
  where
    taken : Away c t → accepts t.generation none c ≡ true → core (install none c) ≡ core c
    taken (inl h) q = absurd (other c t h q)
    taken (inr (r, s, k)) q = ap₂ (λ x y. (c.running, c.generation, c.stop, x, y)) (sym s) (sym k)

drop_held-core : (phase : Phase) (c : ClientInner) → core (drop_held phase c) ≡ core c
unfolding drop_held drop_permit under_budget close
drop_held-core (hooking id p) c = refl
drop_held-core (parting id p) c = refl
drop_held-core _ c = refl

true-ne-false : true ≡ false → ⊥
true-ne-false h = cc

-- The turns of such a task leave the client's state alone.
pub turn-Away : (e : Event) (c : ClientInner) (t : Task) → Away c t → core (turn e c t).0 ≡ core c
unfolding part close under_budget drop_permit open_session accepts
turn-Away e c t away = turn-cases {P = Keeps} cases
  where
    Keeps : ClientInner × Task → Type 0
    Keeps r = core r.0 ≡ core c

    departs : (id : ℕ) → Keeps (depart id c t)
    departs id =
        depart-cases Keeps id c t (λ b. set_none-keeps c t away) (λ b p. set_none-keeps c t away)

    cases : Cases e c t Keeps
    cases = record {
      idle = refl;
      establishes = λ z q.
          establish-cases Keeps c t (λ _. refl)
            (λ a ids. absurd (true-ne-false (sym a ∙ refused c t c.next away)));
      fails = λ q. refl;
      quits = λ z h. refl;
      hook_over = λ id p q. refl;
      hook_stopped = λ id p q h. refl;
      lost = λ id z q. departs id;
      stops_serving = λ id q h. refl;
      closed = λ id z q. departs id;
      parted = λ id p q. refl;
      woken = λ k q. refl;
      drops = λ h. drop_held-core t.phase c;
    }

-- A task that runs for the client, and the state that shows what it does.
pub record Serves (c : ClientInner) (t : Task) : Type 0 where
  pub runs : c.running ≡ true
  pub own : t.generation ≡ c.generation
  pub untold : t.told ≡ no
  pub kept : t.aborted ≡ false
  pub lives : alive t.phase ≡ true
  pub shows : c.session ≡ session_at t.phase
  pub gate : c.connected ≡ is_some (session_at t.phase)

abbrev pub core_at : ClientInner → Phase → Bool × ℕ × Bool × Option ℕ × Bool
core_at c phase = (c.running, c.generation, c.stop, session_at phase, is_some (session_at phase))

unfoldable pub Shows : ClientInner → ClientInner × Task → Type 0
Shows c r = (core r.0 ≡ core_at c r.1.phase) × (alive r.1.phase ≡ true)

-- The session and its signal are those of the phase.
core-phase : {c : ClientInner} {t : Task} → Serves c t → core c ≡ core_at c t.phase
core-phase {c} h = ap₂ (λ x y. (c.running, c.generation, c.stop, x, y)) h.shows h.gate

core-at :
    {c : ClientInner} {t : Task} {phase : Phase}
    → Serves c t
    → t.phase ≡ phase
    → core c ≡ core_at c phase
core-at {c} h q = core-phase h ∙ ap (core_at c) q

accepted :
    {c : ClientInner} {t : Task} (session : Option ℕ)
    → Serves c t
    → accepts t.generation session c ≡ true
unfolding accepts
accepted {c} {t} session h = ground (arith, h.runs, h.own)

pub told_false : {c : ClientInner} {t : Task} → Serves c t → is_told t.told ≡ true → ⊥
unfolding is_told
told_false h k = true-ne-false (sym k ∙ ap is_told h.untold)

rest-Shows :
    {c : ClientInner} {t : Task} (i : ClientInner)
    → Serves c t
    → core i ≡ core_at c connecting
    → Shows c (i, rest t)
unfolding Shows rest at is_some
rest-Shows {c} {t} i h e =
    pick (λ u. Shows c (i, u)) (is_told t.told) (λ k. absurd (told_false h k)) (λ k. (e, refl))

depart-Shows : {c : ClientInner} {t : Task} (id : ℕ) → Serves c t → Shows c (depart id c t)
unfolding Shows set_session install is_some under_budget at part close
depart-Shows {c} {t} id h =
    depart-cases (Shows c) id c t
      (λ b.
        rest-Shows (close id (under_budget b (set_session t.generation none c).1)) h (none_set b))
      (λ b p. (none_set b, refl))
  where
    choice : Bool → Bool × ClientInner
    choice a = if a then (true, install none c) else (false, c)

    none_set :
        (b : ResourceBudget)
        → core (under_budget b (set_session t.generation none c).1) ≡ core_at c connecting
    none_set b = ap (λ a. core (choice a).1) (accepted none h)

-- The turns of such a task keep the state in step with its phase.
pub turn-Shows : (e : Event) (c : ClientInner) (t : Task) → Serves c t → Shows c (turn e c t)
unfolding Shows part close under_budget drop_permit open_session install is_some at accepts
turn-Shows e c t h = turn-cases {P = Shows c} cases
  where
    cases : Cases e c t (Shows c)
    cases = record {
      idle = (core-phase h, h.lives);
      establishes = λ z q.
          establish-cases (Shows c) c t
            (λ a. absurd (true-ne-false (sym (accepted (some c.next) h) ∙ a)))
            (λ a ids.
              greet-cases (Shows c) _ _ _ (λ b. (refl, refl)) (λ b. (refl, refl))
                (λ b p. (refl, refl)));
      fails = λ q. rest-Shows c h (core-at h q);
      quits = λ z k. absurd (told_false h k);
      hook_over = λ id p q. (core-at h q, refl);
      hook_stopped = λ id p q k. absurd (told_false h k);
      lost = λ id z q. depart-Shows id h;
      stops_serving = λ id q k. absurd (told_false h k);
      closed = λ id z q. depart-Shows id h;
      parted = λ id p q. rest-Shows (close id (drop_permit p c)) h (core-at h q);
      woken = λ k q. (core-at h q, refl);
      drops = λ k. absurd (true-ne-false (sym k ∙ h.kept));
    }
