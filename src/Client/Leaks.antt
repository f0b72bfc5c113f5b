-- ===== src/Client/Leaks.antt =====
-- src/client.rs: the open sessions over the moves of a client.
use vcmp_rs.Base.{
  pick, ℕ, zero, suc, ◌≡◌, refl, sym, ◌∙◌, ap, ◌⊎◌, inl, inr, List, [], ◌∷◌, Option, none, some,
  true, false, ◌==◌, both-ways, get_elem?, arith,
}
use vcmp_rs.Resources.{ResourceBudget}
use vcmp_rs.Base.Ids.{is_among}
use vcmp_rs.Client.{
  Stop, notify, quiet, Task, ClientInner, VcmpClient, start, stop, stop_and_wait, stop_locked,
  disconnect, begun, spawn, give_up, abort_generation, abort, retire, tell, close_current, build,
}
use vcmp_rs.Client.Running.{
  Event, turn, turn_task, turn_old, turn_among, under_budget, Move, starts, stops, waits, gives_up,
  turns, turns_old, happens, move, run, happen, Outside, session_ends, hooks_set, budget_is,
}
use vcmp_rs.Client.Sessions.{any_guards, held, Covers, turn-Covers, closes}

-- Every open session is held by a task.
abbrev pub Kept : VcmpClient → Type 0
Kept c = (s : ℕ) → is_among s c.inner.open_ ≡ true → held s c.task c.old ≡ true

module _ (e : Event) where
  turn_task-Kept : (c : VcmpClient) → Kept c → Kept (turn_task e c)
  unfolding turn_task Covers
  turn_task-Kept c k = go c.task refl
    where
      go :
          (o : Option Task)
          → c.task ≡ o
          → Kept (elim o as (λ x. VcmpClient) [
            | none ↦ c
            | some t ↦ record c { inner = (turn e c.inner t).0; task = some (turn e c.inner t).1 }
          ])
      go none q = k
      go (some t) q = λ s h.
          let before : is_among s c.inner.open_ ≡ true → held s (some t) c.old ≡ true =
            λ o. ap (λ x. held s x c.old) (sym q) ∙ k s o in
          elim (turn-Covers e c.inner t s h) [
            | inl g ↦ ground arith
            | inr (o, n) ↦ ground (arith, before o)
          ]

  turn_among-Covers :
      (n : ℕ) (ts : List Task) (i : ClientInner) (s : ℕ)
      → is_among s (turn_among n e ts i).0.open_ ≡ true
      → (any_guards s (turn_among n e ts i).1 ≡ true)
        ⊎ ((is_among s i.open_ ≡ true) × (any_guards s ts ≡ false))
  unfolding turn_among Covers
  turn_among-Covers n [] i s h = inr (h, refl)
  turn_among-Covers zero (t ∷ ts) i s h = let c = turn-Covers e i t s h in ground arith
  turn_among-Covers (suc n) (t ∷ ts) i s h = let c = turn_among-Covers n ts i s h in ground arith

  turn_old-Kept : (n : ℕ) (c : VcmpClient) → Kept c → Kept (turn_old n e c)
  unfolding turn_old
  turn_old-Kept n c k s h = go c.task (k s) (turn_among-Covers n c.old c.inner s h)
    where
      go :
          (o : Option Task)
          → (is_among s c.inner.open_ ≡ true → held s o c.old ≡ true)
          → (any_guards s (turn_among n e c.old c.inner).1 ≡ true)
            ⊎ ((is_among s c.inner.open_ ≡ true) × (any_guards s c.old ≡ false))
          → held s o (turn_among n e c.old c.inner).1 ≡ true
      go none k (inl g) = g
      go none k (inr (o, f)) = absurd (both-ways (k o) f)
      go (some t) k (inl g) = ground (arith, g)
      go (some t) k (inr (o, f)) = ground (arith, k o, f)

close_current-open :
    (o : Option ℕ) (c : ClientInner) (s : ℕ)
    → is_among s (close_current o c).open_ ≡ true
    → is_among s c.open_ ≡ true
unfolding close_current
close_current-open none c s h = h
close_current-open (some id) c s h = (closes s id c h).0

tell-held :
    (how : Stop) (o : Option Task) (s : ℕ) (ts : List Task) → held s (tell how o) ts ≡ held s o ts
unfolding tell
tell-held how none s ts = refl
tell-held how (some t) s ts = refl

retire-held : (o : Option Task) (s : ℕ) (ts : List Task) → any_guards s (retire o ts) ≡ held s o ts
unfolding retire abort
retire-held none s ts = refl
retire-held (some t) s ts = refl

stop_locked-Kept : (how : Stop) (c : VcmpClient) → Kept c → Kept (stop_locked how c)
unfolding stop_locked
stop_locked-Kept how c k s h =
    pick (λ o. held s o c.old ≡ true) c.inner.stop (λ _. tell-held how c.task s c.old ∙ before)
      (λ _. before)
  where
    before : held s c.task c.old ≡ true
    before = k s (close_current-open c.inner.session _ s h)

start-Kept : (c : VcmpClient) → Kept c → Kept (start c)
unfolding start begun spawn
start-Kept c k s h =
    retire-held (stop_locked quiet c).task s (stop_locked quiet c).old
    ∙ stop_locked-Kept quiet c k s h

give_up-Kept : (n : ℕ) (c : VcmpClient) → Kept c → Kept (give_up n c)
unfolding give_up abort_generation abort
give_up-Kept n c k = go (get_elem? c.waiters n)
  where
    aborted :
        (g : ℕ) (o : Option Task) (s : ℕ) → held s (abort_generation g o) c.old ≡ held s o c.old
    aborted g none s = refl
    aborted g (some t) s =
        pick (λ u. held s (some u) c.old ≡ held s (some t) c.old) (t.generation == g) (λ _. refl)
          (λ _. refl)

    go :
        (o : Option ℕ)
        → Kept (elim o as (λ x. VcmpClient) [
          | none ↦ c
          | some g ↦ record c { task = abort_generation g c.task }
        ])
    go none = k
    go (some g) = λ s h. aborted g c.task s ∙ k s h

happen-open :
    (o : Outside) (i : ClientInner) (s : ℕ)
    → is_among s (happen o i).open_ ≡ true
    → is_among s i.open_ ≡ true
unfolding happen under_budget
happen-open (session_ends id) i s h = (closes s id i h).0
happen-open (hooks_set a b) i s h = h
happen-open (budget_is b) i s h = h

move-Kept : (m : Move) (c : VcmpClient) → Kept c → Kept (move m c)
unfolding move stop stop_and_wait disconnect
move-Kept starts c k = start-Kept c k
move-Kept stops c k = stop_locked-Kept notify c k
move-Kept waits c k = stop_locked-Kept notify c k
move-Kept (gives_up n) c k = give_up-Kept n c k
move-Kept (turns e) c k = turn_task-Kept e c k
move-Kept (turns_old n e) c k = turn_old-Kept e n c k
move-Kept (happens o) c k = λ s h. k s (happen-open o c.inner s h)

runs-Kept : (ms : List Move) (c : VcmpClient) → Kept c → Kept (run ms c)
unfolding run
runs-Kept [] c k = k
runs-Kept (m ∷ ms) c k = runs-Kept ms (move m c) (move-Kept m c k)

-- No session leaks: after any moves of a new client, every session that is still open is held by
-- the guard of the client's task or of a replaced one, which closes it when it leaves it.
pub run-Kept :
    (ms : List Move) (timeout : ℕ) (budget : ResourceBudget) → Kept (run ms (build timeout budget))
unfolding build is_among
run-Kept ms timeout budget = runs-Kept ms (build timeout budget) (λ s h. absurd (cc))
