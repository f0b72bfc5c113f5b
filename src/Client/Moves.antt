-- ===== src/Client/Moves.antt =====
-- src/client.rs: the invariant of a client over its operations and its runs.
use vcmp_rs.Base.{
  pick, ℕ, zero, suc, ◌+◌, ◌<◌, ◌≡◌, refl, sym, ◌∙◌, ap, subst, List, [], ◌∷◌, Option, none, some,
  false, ◌==◌, All, arith, get_elem?, both-ways, ==_iff,
}
use vcmp_rs.Resources.{ResourceBudget}
use vcmp_rs.Client.{
  Stop, quiet, notify, Task, ClientInner, VcmpClient, close, close_current, tell, abort, retire,
  begun, spawn, stop_locked, start, stop, disconnect, awaited, stop_and_wait, abort_generation,
  give_up, build,
}
use vcmp_rs.Client.Running.{
  is_some, Outside, session_ends, hooks_set, budget_is, happen, under_budget, Move, starts, stops,
  waits, gives_up, turns, turns_old, happens, move, run,
}
use vcmp_rs.Client.Invariant.{core}
use vcmp_rs.Client.WellFormed.{
  Fits, Waits, Replaced, WellFormed, WellFormed-core, WellFormed-with, turn_task-WellFormed,
  turn_old-WellFormed, Replaced-bounds, Waits-later, Waits-stopped,
}

module _ (P : ℕ → Type 0) where
  All-get : (gs : List ℕ) (n g : ℕ) → get_elem? gs n ≡ some g → All P gs → P g
  All-get [] n g q h = absurd (cc)
  All-get (x ∷ gs) zero g q (h, hs) = let e : x ≡ g = cc in subst P e h
  All-get (x ∷ gs) (suc n) g q (h, hs) = All-get gs n g q hs

pub happen-core : (o : Outside) (i : ClientInner) → core (happen o i) ≡ core i
unfolding happen under_budget close
happen-core (session_ends id) i = refl
happen-core (hooks_set a b) i = refl
happen-core (budget_is b) i = refl

close_current-core :
    (o : Option ℕ) (i : ClientInner)
    → core (close_current o i) ≡ (i.running, i.generation, i.stop, none, i.connected)
unfolding close_current close
close_current-core none i = refl
close_current-core (some id) i = refl

abbrev Owned : ℕ → Option Task → Type 0
Owned g none = Unit
Owned g (some t) = t.generation ≡ g

Fits-Owned : (i : ClientInner) (o : Option Task) → Fits i o → Owned i.generation o
Fits-Owned i none h = tt
Fits-Owned i (some t) h = h.0

Owned-Fits :
    (i : ClientInner) (o : Option Task) → i.running ≡ false → Owned i.generation o → Fits i o
Owned-Fits i none r h = r
Owned-Fits i (some t) r h = (h, λ k. absurd (both-ways k r))

tell-Owned : (how : Stop) (g : ℕ) (o : Option Task) → Owned g o → Owned g (tell how o)
unfolding tell
tell-Owned how g none h = tt
tell-Owned how g (some t) h = h

-- A stop keeps the task that is the client's, and takes the sender and the session.
stop_locked-Owned :
    (how : Stop) (c : VcmpClient) → WellFormed c → Owned c.inner.generation (stop_locked how c).task
unfolding stop_locked
stop_locked-Owned how c h =
    let own = Fits-Owned c.inner c.task h.present in
    pick (Owned c.inner.generation) c.inner.stop (λ _. tell-Owned how c.inner.generation c.task own)
      (λ _. own)

pub stop_locked-core :
    (how : Stop) (c : VcmpClient)
    → core (stop_locked how c).inner ≡ (false, c.inner.generation, false, none, c.inner.connected)
unfolding stop_locked
stop_locked-core how c = close_current-core c.inner.session _

retire-Replaced :
    (i : ClientInner) (g : ℕ) (o : Option Task) (ts : List Task)
    → Owned g o
    → g < i.generation
    → All (Replaced i) ts
    → All (Replaced i) (retire o ts)
unfolding retire abort
retire-Replaced i g none ts e k h = h
retire-Replaced i g (some t) ts e k h = (omega (arith, e), h)

start-WellFormed : (c : VcmpClient) → WellFormed c → WellFormed (start c)
unfolding start begun spawn stop_locked is_some
start-WellFormed c h =
    let k = stop_locked-core quiet c in
    let same : (start c).inner.generation ≡ c.inner.generation + 1 = ap (λ x. x.1 + 1) k in
    let later : c.inner.generation < (start c).inner.generation = omega (arith, same) in
    record {
      sender = refl;
      when_off = λ r. absurd (both-ways refl r);
      present = (
        refl,
        λ r. record {
          runs = refl;
          own = refl;
          untold = refl;
          kept = refl;
          lives = refl;
          shows = ap (λ x. x.3) k;
          gate = refl;
        },
      );
      replaced =
          retire-Replaced (start c).inner c.inner.generation _ c.old (stop_locked-Owned quiet c h)
            later (Replaced-bounds c.inner (start c).inner c.old (omega (arith, same)) h.replaced);
      waited = Waits-later c.inner (start c).inner c.waiters later h.waited;
    }

pub stop-WellFormed : (c : VcmpClient) → WellFormed c → WellFormed (stop c)
unfolding stop disconnect stop_locked
stop-WellFormed c h =
    let k = stop_locked-core notify c in
    let same = ap (λ x. x.1) k in
    let off = ap (λ x. x.0) k in
    record {
      sender = ap (λ x. x.2) k ∙ sym off;
      when_off = λ r. (ap (λ x. x.3) k, refl);
      present =
          Owned-Fits (stop c).inner (stop c).task off
            (subst (λ g. Owned g (stop c).task) (sym same) (stop_locked-Owned notify c h));
      replaced = Replaced-bounds c.inner (stop c).inner c.old (omega (arith, same)) h.replaced;
      waited = Waits-stopped c.inner (stop c).inner c.waiters off same h.waited;
    }

awaited-Waits :
    (i : ClientInner) (o : Option Task) (gs : List ℕ)
    → i.running ≡ false
    → Owned i.generation o
    → All (Waits i) gs
    → All (Waits i) (awaited o gs)
unfolding awaited
awaited-Waits i none gs r e h = h
awaited-Waits i (some t) gs r e h = ((omega arith, λ k. absurd (both-ways k r)), h)

stop_and_wait-WellFormed : (c : VcmpClient) → WellFormed c → WellFormed (stop_and_wait c)
unfolding stop_and_wait stop disconnect
stop_and_wait-WellFormed c h =
    let k = stop-WellFormed c h in
    record {
      sender = k.sender;
      when_off = k.when_off;
      present = k.present;
      replaced = k.replaced;
      waited =
          awaited-Waits (stop c).inner (stop c).task c.waiters
            (ap (λ x. x.0) (stop_locked-core notify c))
            (Fits-Owned (stop c).inner (stop c).task k.present) k.waited;
    }

-- A waiter aborts no task that serves a running client.
abort_generation-Fits :
    (i : ClientInner) (g : ℕ) (o : Option Task)
    → Waits i g
    → Fits i o
    → Fits i (abort_generation g o)
unfolding abort_generation abort
abort_generation-Fits i g none w h = h
abort_generation-Fits i g (some t) w h =
    pick (λ u. Fits i (some u)) (t.generation == g)
      (λ q. (h.0, λ r. absurd (omega (arith, w.1 r, h.0, (==_iff t.generation g).0 q)))) (λ _. h)

give_up-WellFormed : (n : ℕ) (c : VcmpClient) → WellFormed c → WellFormed (give_up n c)
unfolding give_up
give_up-WellFormed n c h = go (get_elem? c.waiters n) refl
  where
    go :
        (o : Option ℕ)
        → get_elem? c.waiters n ≡ o
        → WellFormed (elim o [ none ↦ c | some g ↦ record c { task = abort_generation g c.task } ])
    go none q = h
    go (some g) q =
        WellFormed-with {c = c} c.inner (abort_generation g c.task) refl h.when_off
          (abort_generation-Fits c.inner g c.task (All-get (Waits c.inner) c.waiters n g q h.waited)
            h.present)
          h

-- Every move keeps the invariant.
pub move-WellFormed : (m : Move) (c : VcmpClient) → WellFormed c → WellFormed (move m c)
unfolding move
move-WellFormed starts c h = start-WellFormed c h
move-WellFormed stops c h = stop-WellFormed c h
move-WellFormed waits c h = stop_and_wait-WellFormed c h
move-WellFormed (gives_up n) c h = give_up-WellFormed n c h
move-WellFormed (turns e) c h = turn_task-WellFormed e c h
move-WellFormed (turns_old n e) c h = turn_old-WellFormed e n c h
move-WellFormed (happens o) c h =
    WellFormed-core {c = c} (happen o c.inner) (happen-core o c.inner) h

pub run-keeps : (ms : List Move) (c : VcmpClient) → WellFormed c → WellFormed (run ms c)
unfolding run
run-keeps [] c h = h
run-keeps (m ∷ ms) c h = run-keeps ms (move m c) (move-WellFormed m c h)

-- After any moves of a new client: the connected signal is on exactly while a session is
-- installed, a stopped client has none, and a running client's task is alive, has not been told to
-- stop or aborted, and serves the installed session; every other task is of an earlier generation.
pub run-WellFormed :
    (ms : List Move) (timeout : ℕ) (budget : ResourceBudget)
    → WellFormed (run ms (build timeout budget))
unfolding build
run-WellFormed ms timeout budget = run-keeps ms (build timeout budget) (record {
  sender = refl;
  when_off = λ r. (refl, refl);
  present = refl;
  replaced = tt;
  waited = tt;
})
