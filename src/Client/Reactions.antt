-- ===== src/Client/Reactions.antt =====
-- src/client.rs: the cases of a turn of `run`, for what is shown of every turn.
use vcmp_rs.Base.{
  ℕ, ◌≡◌, refl, sym, subst, ◌⊎◌, inl, inr, List, ◌∷◌, Option, none, some, Result, ok, err, not,
  ◌&&◌, ◌==◌, Bool, true, false, pick,
}
use vcmp_rs.Error.{VcmpError}
use vcmp_rs.Resources.{ResourceBudget, handler, reserve, Permit}
use vcmp_rs.Base.Ids.{is_among}
use vcmp_rs.Client.{
  Phase, connecting, hooking, serving, closing, parting, sleeping, ended, Task, ClientInner, close,
}
use vcmp_rs.Client.Running.{
  is_told, at, rest, part, depart, establish, drop_permit, drop_held, Event, established, failed,
  accepts, install, set_session, open_session, expect, greet, hook_permit, take_permit, enter,
  under_budget, is_quiet, close_some, hook_ended, session_closed, stopped, timer, cancelled, react,
  turn,
}

-- What a property of the outcome needs of each thing that a turn can do.
pub record Cases (e : Event) (c : ClientInner) (t : Task) (P : ClientInner × Task → Type 0)
    : Type 1 where
  pub idle : P (c, t)
  pub establishes : e ≡ established → t.phase ≡ connecting → P (establish c t)
  pub fails : t.phase ≡ connecting → P (c, rest t)
  pub quits :
      (t.phase ≡ connecting) ⊎ ((n : ℕ) × (t.phase ≡ sleeping n))
      → is_told t.told ≡ true
      → P (c, at ended t)
  pub hook_over :
      (id : ℕ) (p : Permit) → t.phase ≡ hooking id p → P (drop_permit p c, at (serving id) t)
  pub hook_stopped :
      (id : ℕ) (p : Permit)
      → t.phase ≡ hooking id p
      → is_told t.told ≡ true
      → P (drop_permit p (close id c), at (serving id) t)
  pub lost : (id : ℕ) → e ≡ session_closed → t.phase ≡ serving id → P (depart id c t)
  pub stops_serving :
      (id : ℕ) → t.phase ≡ serving id → is_told t.told ≡ true → P (close id c, at (closing id) t)
  pub closed : (id : ℕ) → e ≡ session_closed → t.phase ≡ closing id → P (depart id c t)
  pub parted : (id : ℕ) (p : Permit) → t.phase ≡ parting id p → P (part id (drop_permit p c) t)
  pub woken : (k : ℕ) → t.phase ≡ sleeping k → P (c, at connecting t)
  pub drops : t.aborted ≡ true → P (drop_held t.phase c, at ended t)

module _ {c : ClientInner} {t : Task} {P : ClientInner × Task → Type 0} where
  reacts : (e : Event) (phase : Phase) → Cases e c t P → t.phase ≡ phase → P (react e phase c t)
  unfolding react
  reacts established connecting k q = k.establishes refl q
  reacts established _ k q = k.idle
  reacts failed connecting k q = k.fails q
  reacts failed _ k q = k.idle
  reacts hook_ended (hooking id p) k q = k.hook_over id p q
  reacts hook_ended (parting id p) k q = k.parted id p q
  reacts hook_ended _ k q = k.idle
  reacts session_closed (hooking id p) k q =
      pick P (is_among id c.open_) (λ h. k.idle) (λ h. k.hook_over id p q)
  reacts session_closed (serving id) k q =
      pick P (is_among id c.open_) (λ h. k.idle) (λ h. k.lost id refl q)
  reacts session_closed (closing id) k q = k.closed id refl q
  reacts session_closed _ k q = k.idle
  reacts stopped connecting k q = pick P (is_told t.told) (λ h. k.quits (inl q) h) (λ h. k.idle)
  reacts stopped (hooking id p) k q =
      pick P (is_told t.told) (λ h. k.hook_stopped id p q h) (λ h. k.idle)
  reacts stopped (serving id) k q =
      pick P (is_told t.told) (λ h. k.stops_serving id q h) (λ h. k.idle)
  reacts stopped (sleeping n) k q =
      pick P (is_told t.told) (λ h. k.quits (inr (n, q)) h) (λ h. k.idle)
  reacts stopped _ k q = k.idle
  reacts timer (sleeping n) k q = k.woken n q
  reacts timer _ k q = k.idle
  reacts cancelled phase k q = pick P t.aborted (λ h. drops_at h phase q) (λ h. k.idle)
    where
      drops_at :
          t.aborted ≡ true → (phase : Phase) → t.phase ≡ phase → P (drop_held phase c, at ended t)
      drops_at h phase q = subst (λ ph. P (drop_held ph c, at ended t)) q (k.drops h)

  -- A property that each case gives holds of every turn.
  pub turn-cases : {e : Event} → Cases e c t P → P (turn e c t)
  unfolding turn
  turn-cases {e} k = reacts e t.phase k refl

pub pick_permit :
    {A : Type 0} (P : A → Type 0) (o : Option Permit) {x : A} {f : Permit → A}
    → P x
    → ((p : Permit) → P (f p))
    → P (elim o [ none ↦ x | some p ↦ f p ])
pick_permit P none h g = h
pick_permit P (some p) h g = g p

-- A permit for a hook changes the budget only.
pub hook_permit-keeps :
    (b : Bool) (c : ClientInner)
    → (budget : ResourceBudget) × ((hook_permit b c).1 ≡ under_budget budget c)
unfolding hook_permit under_budget take_permit
hook_permit-keeps false c = (c.budget, refl)
hook_permit-keeps true c = go (reserve c.budget handler 0)
  where
    go :
        (r : Result Permit (VcmpError (Unit {0})) × ResourceBudget)
        → (budget : ResourceBudget) × ((take_permit c r).1 ≡ under_budget budget c)
    go (ok p, b) = (b, refl)
    go (err e, b) = (b, refl)

-- The two ways out of a closed session.
pub depart-cases :
    (P : ClientInner × Task → Type 0) (id : ℕ) (c : ClientInner) (t : Task)
    → ((b : ResourceBudget) → P (part id (under_budget b (set_session t.generation none c).1) t))
    → ((b : ResourceBudget) (p : Permit)
        → P (under_budget b (set_session t.generation none c).1, at (parting id p) t))
    → P (depart id c t)
unfolding depart
depart-cases P id c t f g =
    let c1 = (set_session t.generation none c).1 in
    let asked = not (is_quiet t.told) && c1.on_disconnected in
    let (b, e) = hook_permit-keeps asked c1 in
    pick_permit P (hook_permit asked c1).0 (subst (λ i. P (part id i t)) (sym e) (f b))
      (λ p. subst (λ i. P (i, at (parting id p) t)) (sym e) (g b p))

-- The ways on from a session that was opened.
pub greet-cases :
    (P : ClientInner × Task → Type 0) (id : ℕ) (c : ClientInner) (t : Task)
    → ((b : ResourceBudget) → P (under_budget b c, at (serving id) t))
    → ((b : ResourceBudget) → P (close id (under_budget b c), at (serving id) t))
    → ((b : ResourceBudget) (p : Permit) → P (under_budget b c, at (hooking id p) t))
    → P (greet id c t)
unfolding greet
greet-cases P id c t f g h =
    let (b, e) = hook_permit-keeps c.on_connected c in
    pick_permit P (hook_permit c.on_connected c).0
      (pick (λ i. P (i, at (serving id) t)) c.on_connected
        (λ q. subst (λ i. P (close id i, at (serving id) t)) (sym e) (g b))
        (λ q. subst (λ i. P (i, at (serving id) t)) (sym e) (f b)))
      (λ p. subst (λ i. P (i, at (hooking id p) t)) (sym e) (h b p))

abbrev pub expecting_is : List ℕ → ClientInner → ClientInner
expecting_is ids c = record c { expecting = ids }

-- What becomes of a connection that was made.
pub establish-cases :
    (P : ClientInner × Task → Type 0) (c : ClientInner) (t : Task)
    → (accepts t.generation (some c.next) (open_session c) ≡ false
        → P (close c.next (close c.next (open_session c)), at ended t))
    → (accepts t.generation (some c.next) (open_session c) ≡ true
        → (ids : List ℕ)
        → P (
            greet c.next
              (expecting_is ids (install (some c.next) (open_session c)))
              (record t { attempt = 0 })))
    → P (establish c t)
unfolding establish set_session enter expect close_some
establish-cases P c t f g =
    pick (λ r. P (enter c.next t r)) (accepts t.generation (some c.next) (open_session c))
      (λ q. go (g q)) f
  where
    opened : ClientInner
    opened = install (some c.next) (open_session c)

    go :
        ((ids : List ℕ) → P (greet c.next (expecting_is ids opened) (record t { attempt = 0 })))
        → P (greet c.next (expect c.next opened) (record t { attempt = 0 }))
    go h =
        pick (λ i. P (greet c.next i (record t { attempt = 0 })))
          (opened.initial_heartbeat_timeout == 0) (λ z. h opened.expecting)
          (λ z. h (c.next ∷ opened.expecting))
