-- ===== src/Server/Stopping.antt =====
-- src/server.rs: the waits of `ServerHandle::stop` that come after `close_sessions`, and what it
-- does past their deadline.
use vcmp_rs.Base.{
  ok, err, both-ways, subst, ℕ, ◌≡◌, refl, sym, ap, ◌∙◌, List, [], ◌∷◌, Option, none, some, Bool,
  true, false, not, ◌&&◌, if◌then◌else◌, pick, arith, map, ◌==◌, Bool-cases, inl, inr,
}
use vcmp_rs.Base.Ids.{is_among, without, among-without, among_still}
use vcmp_rs.Resources.{ResourceBudget, connection, reserve}
use vcmp_rs.Server.{finished, all_are, finished_except}
use vcmp_rs.Server.Listener.{
  Listener, bind, Wake, incoming, stop_changed, joined, wake, wakes, leave_loop, admitted_to, join,
  stop_listening, wakes-Drains, all_are_iff,
}

-- The task that calls `stop`, where that task serves a connection: a hook.
unfoldable pub caller_among : Option ℕ → Listener → Option ℕ
caller_among none l = none
caller_among (some id) l = if is_among id l.connections.tasks then some id else none

unfoldable pub has_none : List ℕ → Bool
has_none [] = true
has_none (t ∷ ts) = false

-- The accept task ends with its last connection, once it has left its loop.
unfoldable pub accept_ended : Listener → Bool
unfolding has_none
accept_ended l = not l.looping && has_none l.connections.tasks

-- `self.accept.abort()`: its set of tasks is dropped, which aborts them.
unfoldable pub abort_accept : Listener → Listener
abort_accept l = record l { looping = false; connections = record c { tasks = [] } }
  where
    open l use {connections as c}

-- Whether the wait of `stop` is over: for all connections but the caller's, or for the accept task.
unfoldable pub wait_over : Option ℕ → Listener → Bool
unfolding accept_ended finished_except
wait_over (some caller) l = finished_except caller l.connections
wait_over none l = accept_ended l

-- Past the deadline: the tasks that are aborted and not yet joined.
unfoldable pub past_deadline : Option ℕ → Listener → List ℕ × Listener
unfolding abort_accept
past_deadline (some caller) l = (without caller l.connections.tasks, l)
past_deadline none l = ([], abort_accept l)

-- The accept task reports that it accepts for as long as it is in its loop.
abbrev Agree : Listener → Type 0
Agree l = l.looping ≡ l.connections.accepting

wake-Agree : (w : Wake) (l : Listener) → Agree l → Agree (wake w l)
unfolding wake leave_loop join finished admitted_to
wake-Agree incoming l a =
    pick Agree (l.looping && not l.stop) (λ _. go (reserve l.budget connection 0)) (λ _. a)
  where
    go : (q : _) → Agree (admitted_to l q)
    go (ok p, b) = a
    go (err e, b) = a
wake-Agree stop_changed l a = pick Agree (l.looping && l.stop) (λ _. refl) (λ _. a)
wake-Agree (joined id) l a = pick Agree (l.looping && l.stop) (λ _. a) (λ _. a)

wakes-Agree : (ws : List Wake) (l : Listener) → Agree l → Agree (wakes ws l)
unfolding wakes
wakes-Agree [] l a = a
wakes-Agree (w ∷ ws) l a = wakes-Agree ws (wake w l) (wake-Agree w l a)

-- Out of its loop, and with no task but those there were, none of which has been joined since.
abbrev Joined : List ℕ → Listener → Listener → Type 0
Joined js l after =
    (after.looping ≡ false)
    × (after.connections.accepting ≡ l.connections.accepting)
    × ((id : ℕ)
        → is_among id after.connections.tasks ≡ true
        → (is_among id l.connections.tasks ≡ true) × (is_among id js ≡ false))

joins-Joined :
    (js : List ℕ) (l : Listener) → l.looping ≡ false → Joined js l (wakes (map joined js) l)
unfolding wakes wake join finished is_among
joins-Joined [] l h = (h, refl, λ id k. (k, refl))
joins-Joined (j ∷ js) l h =
    let (f, g, k) = joins-Joined js (join j l) h in
    subst (λ t. Joined (j ∷ js) l (wakes (map joined js) t)) one
      (
        f,
        g,
        λ id a.
            let (b, c) = k id a in
            let (d, e) = among-without id j l.connections.tasks b in (d, ground (arith, c, e)),
      )
  where
    one : join j l ≡ wake (joined j) l
    one =
        let out : (l.looping && l.stop) ≡ false = ground (arith, h) in
        sym (ap (λ b. if b then l else join j l) out)

-- A turn for the stop brings the accept task out of its loop.
stopped_loop :
    (l : Listener)
    → Agree l
    → l.stop ≡ true
    → ((wake stop_changed l).looping ≡ false)
      × ((wake stop_changed l).connections.accepting ≡ false)
      × ((wake stop_changed l).connections.tasks ≡ l.connections.tasks)
unfolding wake leave_loop
stopped_loop l a h =
    pick
      (λ (t : Listener).
        (t.looping ≡ false)
        × (t.connections.accepting ≡ false)
        × (t.connections.tasks ≡ l.connections.tasks))
      (l.looping && l.stop) (λ _. (refl, refl, refl))
      (λ e. let out : l.looping ≡ false = ground (arith, e, h) in (out, sym a ∙ out, refl))

no_task : (ts : List ℕ) → ((id : ℕ) → is_among id ts ≡ true → ⊥) → has_none ts ≡ true
unfolding has_none is_among
no_task [] h = refl
no_task (t ∷ ts) h = absurd (h t (ground arith))

bind-Agree : (budget : ResourceBudget) (ws : List Wake) → Agree (wakes ws (bind budget))
unfolding bind
bind-Agree budget ws = wakes-Agree ws (bind budget) refl

stops : (ws : List Wake) (l : Listener) → l.stop ≡ true → (wakes ws l).stop ≡ true
stops ws l h = (wakes-Drains ws l h).0

-- A task that is there after the joins is the caller's.
only :
    (caller id : ℕ) (l : Listener) (js ts : List ℕ)
    → ((id : ℕ) → is_among id (without caller l.connections.tasks) ≡ true → is_among id js ≡ true)
    → ts ≡ l.connections.tasks
    → (is_among id ts ≡ true) × (is_among id js ≡ false)
    → id ≡ caller
only caller id l js ts covered same (m, n) = elim (Bool-cases (caller == id)) [
  | inl e ↦ ground (arith, e)
  | inr e ↦ absurd (
      both-ways
        (covered id
          (among_still id caller l.connections.tasks (ap (λ x. is_among id x) (sym same) ∙ m) e))
        n)
]

-- An abort of the accept task leaves no connection.
aborted_none : (l : Listener) (id : ℕ) → is_among id (abort_accept l).connections.tasks ≡ true → ⊥
unfolding is_among abort_accept
aborted_none l id m = both-ways m refl

-- The caller is none of these.
abbrev pub Spares : Option ℕ → List ℕ → Type 0
Spares none ids = Unit
Spares (some caller) ids = is_among caller ids ≡ false

-- The caller's task is not among the others.
not_among : (caller : ℕ) (ts : List ℕ) → is_among caller (without caller ts) ≡ false
unfolding without is_among
not_among caller [] = refl
not_among caller (t ∷ ts) = ground (arith, not_among caller ts)

-- The waits of `stop` that have a deadline are over: however the accept task ran before and after
-- the call, once the deadline has passed, the task has taken its turn for the stop, and what was
-- aborted is joined. A hook that calls it is not aborted by it.
pub waits-End :
    (budget : ResourceBudget) (before after : List Wake) (caller : Option ℕ) (js : List ℕ)
    → ((id : ℕ)
        → is_among id
            (past_deadline caller (wakes after (stop_listening (wakes before (bind budget))))).0
          ≡ true
        → is_among id js ≡ true)
    → (wait_over caller (
          wakes
            (stop_changed ∷ map joined js)
            (past_deadline caller (wakes after (stop_listening (wakes before (bind budget))))).1)
        ≡ true)
      × Spares caller
          (past_deadline caller (wakes after (stop_listening (wakes before (bind budget))))).0
unfolding past_deadline wait_over wakes accept_ended finished_except
waits-End budget before after (some caller) js covered =
    let l : Listener = wakes after (stop_listening (wakes before (bind budget))) in
    let (f, g, k) =
      stopped_loop l (wakes-Agree after _ (unfold stop_listening in bind-Agree budget before))
        (stops after _ (unfold stop_listening in refl)) in
    let (a, b, c) = joins-Joined js (wake stop_changed l) f in
    let rest : List ℕ = (wakes (map joined js) (wake stop_changed l)).connections.tasks in
    let alone : all_are caller rest ≡ true =
      (all_are_iff caller rest).1 (λ id m. only caller id l js _ covered k (c id m)) in
    (ground (arith, alone, b, g), not_among caller l.connections.tasks)
waits-End budget before after none js covered =
    let l0 : Listener = wakes after (stop_listening (wakes before (bind budget))) in
    let l : Listener = abort_accept l0 in
    let (a, b, c) = joins-Joined js l (unfold abort_accept in refl) in
    let empty : has_none (wakes (map joined js) l).connections.tasks ≡ true =
      no_task _ (λ id m. aborted_none l0 id (c id m).0) in
    (ground (arith, a, empty), tt)
