-- ===== src/Client/Lifecycle.antt =====
-- src/client.rs: the life of a client, as its callers see it.
use vcmp_rs.Base.{
  pick, ℕ, zero, suc, ◌≤◌, ◌<◌, ◌≡◌, refl, sym, ◌∙◌, ap, subst, ◌⊎◌, inl, inr, List, [], ◌∷◌, true,
  arith, length, both-ways, if◌then◌else◌,
}
use vcmp_rs.Client.{
  Phase, connecting, hooking, serving, closing, parting, sleeping, ended, Task, ClientInner,
  VcmpClient, close,
}
use vcmp_rs.Client.Running.{
  is_told, at, Event, hook_ended, session_closed, stopped, turn, turn_old, rest, part, depart,
  react, open_session, drop_permit, drop_held, Move, starts,
}
use vcmp_rs.Client.Reactions.{Cases, turn-cases, depart-cases, greet-cases, establish-cases}
use vcmp_rs.Client.Invariant.{core, turn-same, alive}
use vcmp_rs.Client.WellFormed.{WellFormed, turn_among-core}

-- A move other than `start`.
abbrev pub Lasting : Move → Type 0
Lasting starts = ⊥
Lasting _ = Unit

-- A turn of a task that a later start replaced changes neither the client's state nor its task.
pub turn_old-core :
    (n : ℕ) (e : Event) (c : VcmpClient)
    → WellFormed c
    → (core (turn_old n e c).inner ≡ core c.inner) × ((turn_old n e c).task ≡ c.task)
unfolding turn_old
turn_old-core n e c h = (turn_among-core e n c.old c.inner h.replaced, refl)

-- The weight of what a told task has left to do.
abbrev pub weight : Phase → ℕ
weight (sleeping k) = 6
weight connecting = 5
weight (hooking id p) = 4
weight (serving id) = 3
weight (closing id) = 2
weight (parting id p) = 1
weight ended = 0

-- What remains after a turn of a told task: its phase as it was, or less to do.
Falls : Task → ClientInner × Task → Type 0
Falls t r = (r.1.phase ≡ t.phase) ⊎ (weight r.1.phase < weight t.phase)

less :
    (t : Task) (next : Phase) {phase : Phase}
    → t.phase ≡ phase
    → weight next < weight phase
    → (next ≡ t.phase) ⊎ (weight next < weight t.phase)
less t next q h = inr (subst (λ k. weight next < weight k) (sym q) h)

done : (t : Task) (i : ClientInner) → Falls t (i, at ended t)
unfolding Falls at
done t i = go t.phase
  where
    go : (phase : Phase) → (ended ≡ phase) ⊎ (0 < weight phase)
    go ended = inl refl
    go _ = inr (omega arith)

told-rest : (t : Task) → is_told t.told ≡ true → rest t ≡ at ended t
unfolding rest
told-rest t w =
    pick (λ u. u ≡ at ended t) (is_told t.told) (λ _. refl) (λ k. absurd (both-ways w k))

-- A closed session leaves at most the hook to run.
depart-light :
    (id : ℕ) (c : ClientInner) (t : Task)
    → is_told t.told ≡ true
    → weight (depart id c t).1.phase < 2
unfolding part at
depart-light id c t w =
    depart-cases (λ r. weight r.1.phase < 2) id c t
      (λ b. omega (arith, ap (λ u. weight u.phase) (told-rest t w))) (λ b p. omega arith)

turn-falls : (e : Event) (c : ClientInner) (t : Task) → is_told t.told ≡ true → Falls t (turn e c t)
unfolding Falls at part
turn-falls e c t w = turn-cases cases
  where
    rests : (i : ClientInner) → Falls t (i, rest t)
    rests i = subst (λ u. Falls t (i, u)) (sym (told-rest t w)) (done t i)

    cases : Cases e c t (Falls t)
    cases = record {
      idle = inl refl;
      establishes = λ z q.
          establish-cases (Falls t) c t (λ _. done t (close c.next (close c.next (open_session c))))
            (λ a ids.
              greet-cases (Falls t) _ _ _ (λ b. less t (serving c.next) q (omega arith))
                (λ b. less t (serving c.next) q (omega arith))
                (λ b p. less t (hooking c.next p) q (omega arith)));
      fails = λ q. rests c;
      quits = λ z h. done t c;
      hook_over = λ id p q. less t (serving id) q (omega arith);
      hook_stopped = λ id p q h. less t (serving id) q (omega arith);
      lost = λ id z q. less t (depart id c t).1.phase q (omega (arith, depart-light id c t w));
      stops_serving = λ id q h. less t (closing id) q (omega arith);
      closed = λ id z q. less t (depart id c t).1.phase q (depart-light id c t w);
      parted = λ id p q. rests (close id (drop_permit p c));
      woken = λ k q. less t connecting q (omega arith);
      drops = λ h. done t (drop_held t.phase c);
    }

-- A told task always has an event that lowers what it has left to do.
falls_next :
    (c : ClientInner) (t : Task) (phase : Phase)
    → is_told t.told ≡ true
    → alive phase ≡ true
    → (e : Event) × (weight (react e phase c t).1.phase < weight phase)
unfolding react at part
falls_next c t phase w l = go phase l
  where
    goes :
        {k : ℕ} (x y : ClientInner × Task)
        → weight x.1.phase < k
        → weight (if is_told t.told then x else y).1.phase < k
    goes {k} x y h =
        pick {A = ClientInner × Task} (λ r. weight r.1.phase < k) (is_told t.told) (λ _. h)
          (λ f. absurd (both-ways w f))

    go :
        (phase : Phase)
        → alive phase ≡ true
        → (e : Event) × (weight (react e phase c t).1.phase < weight phase)
    go connecting l = (stopped, goes (c, at ended t) (c, t) (omega arith))
    go (hooking id p) l = (hook_ended, omega arith)
    go (serving id) l = (stopped, goes (close id c, at (closing id) t) (c, t) (omega arith))
    go (closing id) l = (session_closed, depart-light id c t w)
    go (parting id p) l = (hook_ended, omega (arith, ap (λ u. weight u.phase) (told-rest t w)))
    go (sleeping k) l = (stopped, goes (c, at ended t) (c, t) (omega arith))
    go ended l = absurd (both-ways l refl)

-- The turns of one task, in order.
pub turn_all : List Event → ClientInner × Task → ClientInner × Task
turn_all [] r = r
turn_all (e ∷ es) r = turn_all es (turn e r.0 r.1)

told-same :
    (e : Event) (c : ClientInner) (t : Task)
    → is_told t.told ≡ true
    → is_told (turn e c t).1.told ≡ true
told-same e c t w = ap (λ k. is_told k.1) (turn-same e c t) ∙ w

alive-cases : (phase : Phase) → (phase ≡ ended) ⊎ ((alive phase ≡ true) × (0 < weight phase))
alive-cases ended = inl refl
alive-cases _ = inr (refl, omega arith)

told-reaches :
    (n : ℕ) (c : ClientInner) (t : Task)
    → is_told t.told ≡ true
    → weight t.phase ≤ n
    → (es : List Event) × (length es ≤ n) × ((turn_all es (c, t)).1.phase ≡ ended)
unfolding turn_all turn
told-reaches zero c t w h = elim (alive-cases t.phase) [
  | inl q ↦ ([], omega arith, q)
  | inr (l, k) ↦ absurd (omega arith)
]
told-reaches (suc n) c t w h = elim (alive-cases t.phase) [
  | inl q ↦ ([], omega arith, q)
  | inr (l, k) ↦
      let (e, b) = falls_next c t t.phase w l in
      let (es, m, q) =
        told-reaches n (turn e c t).0 (turn e c t).1 (told-same e c t w) (omega arith) in
      (e ∷ es, omega arith, q)
]

-- A task that is told to stop ends: every event leaves its phase or lowers what is left to do, of
-- which there is 6 at most, and at most that many events bring it to its end.
pub told-Ends :
    (c : ClientInner) (t : Task)
    → is_told t.told ≡ true
    → ((e : Event)
        → ((turn e c t).1.phase ≡ t.phase) ⊎ (weight (turn e c t).1.phase < weight t.phase))
      × (weight t.phase ≤ 6)
      × ((es : List Event) × (length es ≤ weight t.phase) × ((turn_all es (c, t)).1.phase ≡ ended))
unfolding Falls
told-Ends c t w =
    (λ e. turn-falls e c t w, heaviest t.phase, told-reaches (weight t.phase) c t w (omega arith))
  where
    heaviest : (phase : Phase) → weight phase ≤ 6
    heaviest ended = omega arith
    heaviest _ = omega arith
