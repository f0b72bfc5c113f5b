-- ===== src/Client/Running.antt =====
-- src/client.rs: `run`, the connection task, by the events that its awaits resolve with, and the
-- moves of a client: its operations, its tasks' turns, and what happens around it.
use vcmp_rs.Base.{
  ℕ, ◌+◌, ◌-◌, ◌^◌, List, [], ◌∷◌, Option, none, some, Bool, true, false, not, ◌&&◌, ◌||◌, Result,
  ok, err, min, ◌==◌, if◌then◌else◌, zero, suc,
}
use vcmp_rs.Error.{VcmpError}
use vcmp_rs.Resources.{ResourceBudget, handler, Permit, reserve, release}
use vcmp_rs.Base.Ids.{is_among}
use vcmp_rs.Client.{
  Stop, no, notify, quiet, Phase, connecting, hooking, serving, closing, parting, sleeping, ended,
  Task, ClientInner, VcmpClient, close, start, stop, stop_and_wait, give_up,
}

unfoldable pub is_some : Option ℕ → Bool
is_some none = false
is_some (some id) = true

-- The guard of `set_session`.
unfoldable pub accepts : ℕ → Option ℕ → ClientInner → Bool
unfolding is_some
accepts generation session c = c.generation == generation && (c.running || not (is_some session))

unfoldable pub install : Option ℕ → ClientInner → ClientInner
unfolding is_some
install session c = record c { session = session; connected = is_some session }

unfoldable pub close_some : Option ℕ → ClientInner → ClientInner
close_some none c = c
close_some (some id) c = close id c

-- `set_session`.
unfoldable pub set_session : ℕ → Option ℕ → ClientInner → Bool × ClientInner
unfolding accepts install close_some
set_session generation session c =
    if accepts generation session c
    then (true, install session c)
    else (false, close_some session c)

unfoldable pub is_told : Stop → Bool
is_told no = false
is_told notify = true
is_told quiet = true

unfoldable pub at : Phase → Task → Task
at phase t = record t { phase = phase }

-- The end of the loop's body: the task stops, or sleeps for `delay(attempt)` and counts.
unfoldable pub rest : Task → Task
unfolding is_told at
rest t =
    if is_told t.told
    then at ended t
    else record t { phase = sleeping t.attempt; attempt = min (t.attempt + 1) (2 ^ 32 - 1) }

-- The end of the arm of a connected session: its guard is dropped.
unfoldable pub part : ℕ → ClientInner → Task → ClientInner × Task
unfolding rest
part id c t = (close id c, rest t)

unfoldable pub take_permit :
    ClientInner
    → Result Permit (VcmpError (Unit {0})) × ResourceBudget
    → Option Permit × ClientInner
take_permit c (ok p, b) = (some p, record c { budget = b })
take_permit c (err e, b) = (none, record c { budget = b })

-- A permit for a hook, where one is set.
unfoldable pub hook_permit : Bool → ClientInner → Option Permit × ClientInner
unfolding take_permit
hook_permit false c = (none, c)
hook_permit true c = take_permit c (reserve c.budget handler 0)

unfoldable pub is_quiet : Stop → Bool
is_quiet quiet = true
is_quiet _ = false

-- Once the session is closed: it is taken out, and `on_disconnected` runs.
unfoldable pub depart : ℕ → ClientInner → Task → ClientInner × Task
unfolding set_session hook_permit part at is_quiet
depart id c t =
    let (_, c1) = set_session t.generation none c in
    let (permit, c2) = hook_permit (not (is_quiet t.told) && c1.on_disconnected) c1 in
    elim permit [ none ↦ part id c2 t | some p ↦ (c2, at (parting id p) t) ]

unfoldable pub expect : ℕ → ClientInner → ClientInner
expect id c =
    if c.initial_heartbeat_timeout == 0 then c else record c { expecting = id ∷ c.expecting }

-- `on_connected` runs, or the session is closed for want of a permit.
unfoldable pub greet : ℕ → ClientInner → Task → ClientInner × Task
unfolding hook_permit at
greet id c t =
    let (permit, c1) = hook_permit c.on_connected c in
    elim permit [
      | none ↦ (if c.on_connected then close id c1 else c1, at (serving id) t)
      | some p ↦ (c1, at (hooking id p) t)
    ]

unfoldable pub open_session : ClientInner → ClientInner
open_session c = record c { open_ = c.next ∷ c.open_; next = c.next + 1 }

unfoldable pub enter : ℕ → Task → Bool × ClientInner → ClientInner × Task
unfolding greet expect at
enter id t (true, c) = greet id (expect id c) (record t { attempt = 0 })
enter id t (false, c) = (close id c, at ended t)

-- The arm of a connection that was made.
unfoldable pub establish : ClientInner → Task → ClientInner × Task
unfolding open_session set_session enter
establish c t = enter c.next t (set_session t.generation (some c.next) (open_session c))

unfoldable pub under_budget : ResourceBudget → ClientInner → ClientInner
under_budget b c = record c { budget = b }

unfoldable pub drop_permit : Permit → ClientInner → ClientInner
unfolding under_budget
drop_permit p c = under_budget (release p c.budget) c

-- What a cancelled task drops.
unfoldable pub drop_held : Phase → ClientInner → ClientInner
unfolding drop_permit
drop_held (hooking id p) c = close id (drop_permit p c)
drop_held (serving id) c = close id c
drop_held (closing id) c = close id c
drop_held (parting id p) c = close id (drop_permit p c)
drop_held _ c = c

-- `stopped` is the change of the stop channel. A hook ends by itself or at its deadline.
pub data Event : Type 0 where
  established failed hook_ended session_closed stopped timer cancelled : Event

-- One event, in one phase. An event that the phase does not wait for changes nothing.
unfoldable pub react : Event → Phase → ClientInner → Task → ClientInner × Task
unfolding establish rest at drop_permit depart part drop_held is_told
react established connecting c t = establish c t
react failed connecting c t = (c, rest t)
react stopped connecting c t = if is_told t.told then (c, at ended t) else (c, t)
react hook_ended (hooking id p) c t = (drop_permit p c, at (serving id) t)
react session_closed (hooking id p) c t =
    if is_among id c.open_ then (c, t) else (drop_permit p c, at (serving id) t)
react stopped (hooking id p) c t =
    if is_told t.told then (drop_permit p (close id c), at (serving id) t) else (c, t)
react session_closed (serving id) c t = if is_among id c.open_ then (c, t) else depart id c t
react stopped (serving id) c t = if is_told t.told then (close id c, at (closing id) t) else (c, t)
react session_closed (closing id) c t = depart id c t
react hook_ended (parting id p) c t = part id (drop_permit p c) t
react timer (sleeping k) c t = (c, at connecting t)
react stopped (sleeping k) c t = if is_told t.told then (c, at ended t) else (c, t)
react cancelled phase c t = if t.aborted then (drop_held phase c, at ended t) else (c, t)
react _ _ c t = (c, t)

-- A turn of a task of `run`.
unfoldable pub turn : Event → ClientInner → Task → ClientInner × Task
unfolding react
turn e c t = react e t.phase c t

unfoldable pub turn_task : Event → VcmpClient → VcmpClient
unfolding turn
turn_task e c = elim c.task [
  | none ↦ c
  | some t ↦ let (i, t') = turn e c.inner t in record c { inner = i; task = some t' }
]

unfoldable pub turn_among : ℕ → Event → List Task → ClientInner → ClientInner × List Task
unfolding turn
turn_among n e [] i = (i, [])
turn_among zero e (t ∷ ts) i = let (i', t') = turn e i t in (i', t' ∷ ts)
turn_among (suc n) e (t ∷ ts) i = let (i', ts') = turn_among n e ts i in (i', t ∷ ts')

unfoldable pub turn_old : ℕ → Event → VcmpClient → VcmpClient
unfolding turn_among
turn_old n e c = let (i, ts) = turn_among n e c.old c.inner in record c { inner = i; old = ts }

-- A session that the peer or its own driver closes, a hook that is set, and a budget that its
-- other holders change.
pub data Outside : Type 0 where
  session_ends : ℕ → Outside
  hooks_set : Bool → Bool → Outside
  budget_is : ResourceBudget → Outside

unfoldable pub happen : Outside → ClientInner → ClientInner
unfolding under_budget
happen (session_ends id) c = close id c
happen (hooks_set connected disconnected) c = record c {
  on_connected = connected;
  on_disconnected = disconnected;
}
happen (budget_is b) c = under_budget b c

pub data Move : Type 0 where
  starts stops waits : Move
  gives_up : ℕ → Move
  turns : Event → Move
  turns_old : ℕ → Event → Move
  happens : Outside → Move

unfoldable pub move : Move → VcmpClient → VcmpClient
unfolding turn_task turn_old happen
move starts c = start c
move stops c = stop c
move waits c = stop_and_wait c
move (gives_up i) c = give_up i c
move (turns e) c = turn_task e c
move (turns_old n e) c = turn_old n e c
move (happens o) c = record c { inner = happen o c.inner }

-- The moves of a run, in order.
unfoldable pub run : List Move → VcmpClient → VcmpClient
unfolding move
run [] c = c
run (m ∷ ms) c = run ms (move m c)
