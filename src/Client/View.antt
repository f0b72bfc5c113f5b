-- ===== src/Client/View.antt =====
-- src/client.rs: a client as its callers see it, and which moves change that.
use vcmp_rs.Base.{
  ℕ, ◌≡◌, refl, sym, ◌∙◌, ap, ap₂, subst, subst₂, List, [], ◌∷◌, Option, none, some, Bool, true,
  false, All, Bool-cases, inl, inr, get_elem?,
}
use vcmp_rs.Client.{
  notify, quiet, Task, VcmpClient, start, stop, stop_and_wait, disconnect, begun, give_up,
  abort_generation, session,
}
use vcmp_rs.Client.Running.{
  Event, turn, turn_task, turn_old, Move, starts, stops, waits, gives_up, turns, turns_old, happens,
  move, run,
}
use vcmp_rs.Client.Invariant.{session_at, core, turn-Shows, Shows, turn-Away}
use vcmp_rs.Client.WellFormed.{Fits, WellFormed, turn_among-core}
use vcmp_rs.Client.Moves.{run-keeps, move-WellFormed, stop_locked-core, happen-core}
use vcmp_rs.Client.Transitions.{
  off, seeking, View, showing, view_of, view, Switches, Transition, stays, begins, halts,
  halts_waiting, core-view, turn-Transition,
}

same-view :
    (m : Move) (c d : VcmpClient)
    → (Switches m → ⊥)
    → core d.inner ≡ core c.inner
    → Transition m (view c) (view d)
same-view m c d n e = subst (λ v. Transition m (view c) v) (sym (core-view c d e)) (stays n)

module _ (e : Event) (c : VcmpClient) where
  turns-Transition :
      (t : Task)
      → c.task ≡ some t
      → WellFormed c
      → Transition
          (turns e)
          (view c)
          (view_of (turn e c.inner t).0.running (turn e c.inner t).0.session)
  unfolding Shows
  turns-Transition t q h = elim (Bool-cases c.inner.running) [
    | inl r ↦
        let serves = (subst (Fits c.inner) q h.present).1 r in
        let k = (turn-Shows e c.inner t serves).0 in
        let run_before : view c ≡ showing (session_at t.phase) = ap₂ view_of r serves.shows in
        let run_after : view_of (turn e c.inner t).0.running (turn e c.inner t).0.session
            ≡ showing (session_at (turn e c.inner t).1.phase) =
          ap₂ view_of (ap (λ x. x.0) k ∙ r) (ap (λ x. x.3) k) in
        subst₂ (Transition (turns e)) (sym run_before) (sym run_after)
          (turn-Transition e c.inner t serves)
    | inr r ↦
        let k = turn-Away e c.inner t (inr (r, (h.when_off r).0, (h.when_off r).1)) in
        subst (λ v. Transition (turns e) (view c) v)
          (sym (ap₂ view_of (ap (λ x. x.0) k) (ap (λ x. x.3) k))) (stays (λ x. x))
  ]

  turn_task-Transition : WellFormed c → Transition (turns e) (view c) (view (turn_task e c))
  unfolding turn_task
  turn_task-Transition h = go c.task refl
    where
      go :
          (o : Option Task)
          → c.task ≡ o
          → Transition (turns e) (view c) (
              view (elim o [
                | none ↦ c
                | some t ↦ record c {
                  inner = (turn e c.inner t).0;
                  task = some (turn e c.inner t).1;
                }
              ]))
      go none q = stays (λ x. x)
      go (some t) q = turns-Transition t q h

give_up-core : (n : ℕ) (c : VcmpClient) → core (give_up n c).inner ≡ core c.inner
unfolding give_up
give_up-core n c = go (get_elem? c.waiters n)
  where
    go :
        (o : Option ℕ)
        → core
            (elim o as (λ x. VcmpClient) [
              | none ↦ c
              | some g ↦ record c { task = abort_generation g c.task }
            ]).inner
          ≡ core c.inner
    go none = refl
    go (some g) = refl

stop-view : (c : VcmpClient) → view (stop c) ≡ off
unfolding stop disconnect
stop-view c = ap (λ r. view_of r (stop c).inner.session) (ap (λ x. x.0) (stop_locked-core notify c))

start-view : (c : VcmpClient) → view (start c) ≡ seeking
unfolding start begun
start-view c = ap (λ s. view_of true s) (ap (λ x. x.3) (stop_locked-core quiet c))

-- Each move of a well-formed client is a transition of the abstract client: only `start` makes it
-- seek, only a stop turns it off, only an established connection of its own task brings it online
-- and only the close of that session takes it back, and all other moves leave the view as it is.
pub move-Transition :
    (m : Move) (c : VcmpClient) → WellFormed c → Transition m (view c) (view (move m c))
unfolding move turn_old stop_and_wait
move-Transition starts c h = subst (Transition starts (view c)) (sym (start-view c)) begins
move-Transition stops c h = subst (Transition stops (view c)) (sym (stop-view c)) halts
move-Transition waits c h = subst (Transition waits (view c)) (sym (stop-view c)) halts_waiting
move-Transition (gives_up n) c h =
    same-view (gives_up n) c (give_up n c) (λ x. x) (give_up-core n c)
move-Transition (turns e) c h = turn_task-Transition e c h
move-Transition (turns_old n e) c h =
    same-view (turns_old n e) c (turn_old n e c) (λ x. x)
      (turn_among-core e n c.old c.inner h.replaced)
move-Transition (happens o) c h =
    same-view (happens o) c (move (happens o) c) (λ x. x) (happen-core o c.inner)

-- A move other than `start`.
abbrev pub Lasting : Move → Type 0
Lasting starts = ⊥
Lasting _ = Unit

off-running : (b : Bool) (s : Option ℕ) → view_of b s ≡ off → b ≡ false
off-running false s e = refl
off-running true none e = absurd (cc)
off-running true (some id) e = absurd (cc)

off-stays : {v : View} (m : Move) → Lasting m → Transition m off v → v ≡ off
off-stays m l (stays n) = refl
off-stays m l begins = absurd l
off-stays m l halts = refl
off-stays m l halts_waiting = refl

runs-off :
    (ms : List Move) (c : VcmpClient)
    → WellFormed c
    → All Lasting ms
    → view c ≡ off
    → view (run ms c) ≡ off
unfolding run
runs-off [] c h l v = v
runs-off (m ∷ ms) c h (l, ls) v =
    runs-off ms (move m c) (move-WellFormed m c h) ls
      (off-stays m l (subst (λ x. Transition m x (view (move m c))) v (move-Transition m c h)))

-- After a stop, through any moves but a start, the client does not run, has no session and signals
-- that it is not connected.
pub stop-Lasts :
    (ms : List Move) (c : VcmpClient)
    → WellFormed c
    → All Lasting ms
    → ((run ms (stop c)).inner.running ≡ false)
      × (session (run ms (stop c)) ≡ none)
      × ((run ms (stop c)).inner.connected ≡ false)
unfolding session move
stop-Lasts ms c h l =
    let d = run ms (stop c) in
    let k = run-keeps ms (stop c) (move-WellFormed stops c h) in
    let r : d.inner.running ≡ false =
      off-running d.inner.running d.inner.session
        (runs-off ms (stop c) (move-WellFormed stops c h) l (stop-view c)) in
    (r, (k.when_off r).0, (k.when_off r).1)
