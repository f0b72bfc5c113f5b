-- ===== src/Server/Listener.antt =====
-- src/server.rs: `bind` with the turns of its accept loop, and `ServerHandle::stop` up to its waits.
use vcmp_rs.Base.{
  ℕ, ◌+◌, ◌≡◌, refl, List, [], ◌∷◌, Bool, true, false, not, ◌&&◌, Result, ok, err, ◌==◌,
  if◌then◌else◌, pick, arith, ◌↔◌, Bool-cases, inl, inr,
}
use vcmp_rs.Base.Ids.{is_among, among-without}
use vcmp_rs.Error.{VcmpError}
use vcmp_rs.Resources.{ResourceBudget, connection, Permit, reserve}
use vcmp_rs.Server.{ConnectionTasks, finished, all_are, finished_except}

-- The server's flag, the stop channel, the accept task with what it reports, and the budget.
-- `next` numbers the tasks.
pub record Listener : Type 0 where
  pub stopped : Bool
  pub stop : Bool
  pub looping : Bool
  pub connections : ConnectionTasks
  pub budget : ResourceBudget
  pub next : ℕ

-- `bind`, once the socket is bound.
unfoldable pub bind : ResourceBudget → Listener
bind budget = record {
  stopped = false;
  stop = false;
  looping = true;
  connections = record { accepting = true; tasks = [] };
  budget = budget;
  next = 0;
}

-- A connection that was accepted: its task is registered if the budget has a place for it.
unfoldable pub admitted_to :
    Listener → Result Permit (VcmpError (Unit {0})) × ResourceBudget → Listener
admitted_to l (ok p, b) = record l {
  connections = record c { tasks = l.next ∷ c.tasks };
  budget = b;
  next = l.next + 1;
}
  where
    open l use {connections as c}
admitted_to l (err e, b) = record l { budget = b }

-- What follows the loop, up to the wait for the tasks.
unfoldable pub leave_loop : Listener → Listener
leave_loop l = record l { looping = false; connections = record c { accepting = false } }
  where
    open l use {connections as c}

-- A task that was joined, in the loop or after it; its permit is dropped with it.
unfoldable pub join : ℕ → Listener → Listener
unfolding finished
join id l = record l { connections = finished id l.connections }

-- What the accept task waits for: the select is biased to the stop, which ends the loop.
pub data Wake : Type 0 where
  incoming : Wake
  stop_changed : Wake
  joined : ℕ → Wake

unfoldable pub wake : Wake → Listener → Listener
unfolding leave_loop admitted_to join
wake incoming l =
    if l.looping && not l.stop then admitted_to l (reserve l.budget connection 0) else l
wake stop_changed l = if l.looping && l.stop then leave_loop l else l
wake (joined id) l = if l.looping && l.stop then l else join id l

unfoldable pub wakes : List Wake → Listener → Listener
unfolding wake
wakes [] l = l
wakes (w ∷ ws) l = wakes ws (wake w l)

-- `ServerHandle::stop` up to `close_sessions`.
unfoldable pub stop_listening : Listener → Listener
stop_listening l = record l { stopped = true; stop = true }

-- Told to stop, and no task that was not there before.
abbrev pub Drains : Listener → Listener → Type 0
Drains l after =
    (after.stop ≡ true)
    × ((id : ℕ)
        → is_among id after.connections.tasks ≡ true
        → is_among id l.connections.tasks ≡ true)

wake-Drains : (w : Wake) (l : Listener) → l.stop ≡ true → Drains l (wake w l)
unfolding wake leave_loop join finished
wake-Drains incoming l h =
    pick (Drains l) (l.looping && not l.stop) (λ q. absurd (ground (arith, q, h)))
      (λ _. (h, λ id k. k))
wake-Drains stop_changed l h =
    pick (Drains l) (l.looping && l.stop) (λ _. (h, λ id k. k)) (λ _. (h, λ id k. k))
wake-Drains (joined t) l h =
    pick (Drains l) (l.looping && l.stop) (λ _. (h, λ id k. k))
      (λ _. (h, λ id k. (among-without id t l.connections.tasks k).0))

pub wakes-Drains : (ws : List Wake) (l : Listener) → l.stop ≡ true → Drains l (wakes ws l)
unfolding wakes
wakes-Drains [] l h = (h, λ id k. k)
wakes-Drains (w ∷ ws) l h =
    let (g, one) = wake-Drains w l h in
    let (f, rest) = wakes-Drains ws (wake w l) g in (f, λ id k. one id (rest id k))

pub all_are_iff :
    (caller : ℕ) (ts : List ℕ)
    → (all_are caller ts ≡ true) ↔ ((id : ℕ) → is_among id ts ≡ true → id ≡ caller)
unfolding all_are is_among
all_are_iff caller [] = (λ h id k. absurd (cc), λ h. refl)
all_are_iff caller (t ∷ ts) =
    let (f, g) = all_are_iff caller ts in
    (
      λ h id k. elim (Bool-cases (t == id)) [
        | inl q ↦ ground (arith, h, q)
        | inr q ↦ f (ground (arith, h)) id (ground (arith, k, q))
      ],
      λ h.
          let first : t ≡ caller = h t (ground arith) in
          let others = g (λ id k. h id (ground (arith, k))) in ground (arith, first, others),
    )

-- Once a server is told to stop, whatever its accept task wakes up for, no connection is added to
-- its tasks; and the wait of a caller inside a hook is over exactly when the loop has been left and
-- no task but the caller's is there.
pub stop_listening-Drains :
    (l : Listener) (ws : List Wake) (caller : ℕ)
    → ((id : ℕ)
        → is_among id (wakes ws (stop_listening l)).connections.tasks ≡ true
        → is_among id l.connections.tasks ≡ true)
      × ((finished_except caller (wakes ws (stop_listening l)).connections ≡ true) ↔ (
          ((wakes ws (stop_listening l)).connections.accepting ≡ false)
          × ((id : ℕ)
              → is_among id (wakes ws (stop_listening l)).connections.tasks ≡ true
              → id ≡ caller)))
unfolding stop_listening finished_except
stop_listening-Drains l ws caller =
    let c = (wakes ws (stop_listening l)).connections in
    let (f, g) = all_are_iff caller c.tasks in
    (
      (wakes-Drains ws (stop_listening l) refl).1,
      (
        λ h. (ground (arith, h), f (ground (arith, h))),
        λ h. let (a, b) = h in let k = g b in ground (arith, a, k),
      ),
    )
