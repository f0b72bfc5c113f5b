-- ===== src/Server/Endpoint.antt =====
-- src/server.rs and src/axum.rs: an endpoint with its sessions, and the task that serves one of them, by the events
-- that its awaits resolve with. Sessions are known by number: `open_` are those that nobody has
-- closed yet, and `heartbeats` those whose heartbeat the server initiated.
use vcmp_rs.Base.{
  ℕ, ◌+◌, ◌-◌, List, [], ◌∷◌, Option, none, some, Bool, true, false, Result, ok, err, if◌then◌else◌,
  length, zero, suc,
}
use vcmp_rs.Base.Ids.{without, is_among}
use vcmp_rs.Error.{VcmpError}
use vcmp_rs.Resources.{ResourceBudget, connection, handler, Permit, reserve, release}
use vcmp_rs.Server.{PathPattern}

pub record EndpointInner : Type 0 where
  pub pattern : PathPattern
  pub sessions : List ℕ
  pub pending_upgrades : ℕ
  pub on_connected : Bool
  pub on_disconnected : Bool
  pub budget : ResourceBudget
  pub open_ : List ℕ
  pub heartbeats : List ℕ
  pub next : ℕ

-- Where `serve_session` waits, with the permit of the hook it runs; before that, the task of
-- `on_upgrade` in src/axum.rs, with the permit of its connection.
pub data Serving : Type 0 where
  upgrading : Permit → Serving
  greeting : ℕ → Permit → Serving
  serving : ℕ → Serving
  parting : ℕ → Permit → Serving
  over : Serving

unfoldable pub with_permits : ResourceBudget → EndpointInner → EndpointInner
with_permits b e = record e { budget = b }

-- `session.close()`.
unfoldable pub close_session : ℕ → EndpointInner → EndpointInner
close_session id e = record e { open_ = without id e.open_ }

-- `sessions.lock().remove(&session.id())`.
unfoldable pub forget : ℕ → EndpointInner → EndpointInner
forget id e = record e { sessions = without id e.sessions }

-- `Drop for SessionCleanup`.
unfoldable pub clean_up : ℕ → EndpointInner → EndpointInner
unfolding close_session forget
clean_up id e = forget id (close_session id e)

unfoldable pub drop_permit : Permit → EndpointInner → EndpointInner
unfolding with_permits
drop_permit p e = with_permits (release p e.budget) e

-- `start_session`: the session is registered, and its heartbeat initiated.
unfoldable pub start_session : EndpointInner → EndpointInner
start_session e = record e {
  sessions = e.next ∷ without e.next e.sessions;
  open_ = e.next ∷ e.open_;
  heartbeats = e.next ∷ e.heartbeats;
  next = e.next + 1;
}

-- A permit for a hook, where one is set.
unfoldable pub permit_for : Bool → ResourceBudget → Option Permit × ResourceBudget
permit_for false b = (none, b)
permit_for true b = taken (reserve b handler 0)
  where
    taken : Result Permit (VcmpError (Unit {0})) × ResourceBudget → Option Permit × ResourceBudget
    taken (ok p, b) = (some p, b)
    taken (err e, b) = (none, b)

-- The beginning of `serve_session`: the hook runs, or the session is closed for want of a permit.
unfoldable pub welcome : ℕ → EndpointInner → Option Permit → EndpointInner × Serving
unfolding close_session
welcome id e none = (if e.on_connected then close_session id e else e, serving id)
welcome id e (some p) = (e, greeting id p)

unfoldable pub serve : ℕ → EndpointInner → EndpointInner × Serving
unfolding permit_for welcome with_permits
serve id e =
    let (permit, b) = permit_for e.on_connected e.budget in welcome id (with_permits b e) permit

-- Past the close: the session is removed, and the hook runs.
unfoldable pub farewell : ℕ → EndpointInner → Option Permit → EndpointInner × Serving
unfolding clean_up
farewell id e none = (clean_up id e, over)
farewell id e (some p) = (e, parting id p)

unfoldable pub leave : ℕ → EndpointInner → EndpointInner × Serving
unfolding permit_for forget with_permits farewell
leave id e =
    let (permit, b) = permit_for e.on_disconnected e.budget in
    farewell id (with_permits b (forget id e)) permit

unfoldable pub pend :
    {V : Type 0}
    → EndpointInner
    → Result Permit (VcmpError V) × ResourceBudget
    → Result Permit (VcmpError V) × EndpointInner
unfolding with_permits
pend e (ok p, b) = (ok p, record e { budget = b; pending_upgrades = e.pending_upgrades + 1 })
pend e (err x, b) = (err x, with_permits b e)

-- `begin_upgrade`, which the axum adapter calls: a connection permit and one more pending upgrade.
unfoldable pub begin_upgrade :
    {V : Type 0} → EndpointInner → Result Permit (VcmpError V) × EndpointInner
unfolding pend
begin_upgrade e = pend e (reserve e.budget connection 0)

-- `Drop for PendingUpgrade`, with its permit if that was not taken.
unfoldable pub end_upgrade : Option Permit → EndpointInner → EndpointInner
unfolding drop_permit
end_upgrade none e = record e { pending_upgrades = e.pending_upgrades - 1 }
end_upgrade (some p) e = drop_permit p (record e { pending_upgrades = e.pending_upgrades - 1 })

-- The task of `on_upgrade` once the socket is there: the session is started, the pending upgrade
-- dropped without the permit, which the session has, and the session served.
unfoldable pub upgrade : EndpointInner → EndpointInner × Serving
unfolding start_session end_upgrade serve
upgrade e = serve e.next (end_upgrade none (start_session e))

-- What an aborted task drops.
unfoldable pub drop_held : Serving → EndpointInner → EndpointInner
unfolding clean_up drop_permit end_upgrade
drop_held (upgrading p) e = end_upgrade (some p) e
drop_held (greeting id p) e = clean_up id (drop_permit p e)
drop_held (serving id) e = clean_up id e
drop_held (parting id p) e = clean_up id (drop_permit p e)
drop_held over e = e

pub data Event : Type 0 where
  upgraded upgrade_failed hook_ended session_closed aborted : Event

-- One event of the task. An event that it does not wait for changes nothing.
unfoldable pub attend : Event → Serving → EndpointInner → EndpointInner × Serving
unfolding drop_permit leave clean_up drop_held upgrade end_upgrade
attend upgraded (upgrading p) e = upgrade e
attend upgrade_failed (upgrading p) e = (end_upgrade (some p) e, over)
attend hook_ended (greeting id p) e = (drop_permit p e, serving id)
attend session_closed (greeting id p) e =
    if is_among id e.open_ then (e, greeting id p) else (drop_permit p e, serving id)
attend session_closed (serving id) e = if is_among id e.open_ then (e, serving id) else leave id e
attend hook_ended (parting id p) e = (clean_up id (drop_permit p e), over)
attend aborted t e = (drop_held t e, over)
attend _ t e = (e, t)

unfoldable pub session_count : EndpointInner → ℕ
session_count e = length e.sessions

unfoldable pub close_each : List ℕ → EndpointInner → EndpointInner
unfolding close_session
close_each [] e = e
close_each (s ∷ rest) e = close_each rest (close_session s e)

-- What `close_sessions` does to an endpoint once it has waited for the upgrades: the sessions that
-- are registered are closed.
unfoldable pub close_registered : EndpointInner → EndpointInner
unfolding close_each
close_registered e = close_each e.sessions e

-- An endpoint with the tasks that it has spawned.
pub record Endpoint : Type 0 where
  pub inner : EndpointInner
  pub tasks : List Serving

unfoldable pub attend_at : ℕ → Event → List Serving → EndpointInner → EndpointInner × List Serving
unfolding attend
attend_at n ev [] e = (e, [])
attend_at zero ev (t ∷ ts) e = let (e', t') = attend ev t e in (e', t' ∷ ts)
attend_at (suc n) ev (t ∷ ts) e = let (e', ts') = attend_at n ev ts e in (e', t ∷ ts')

-- The end of `handle_connection`, for a request that was routed to the endpoint.
unfoldable pub accept : Endpoint → Endpoint
unfolding serve start_session
accept c =
    let (e, t) = serve c.inner.next (start_session c.inner) in
    record c { inner = e; tasks = t ∷ c.tasks }

unfoldable pub admit : Endpoint → Result Permit (VcmpError (Unit {0})) × EndpointInner → Endpoint
admit c (ok p, e) = record c { inner = e; tasks = upgrading p ∷ c.tasks }
admit c (err x, e) = record c { inner = e }

-- `on_upgrade` up to its response.
unfoldable pub on_upgrade : Endpoint → Endpoint
unfolding begin_upgrade admit
on_upgrade c = admit c (begin_upgrade c.inner)

pub data Move : Type 0 where
  accepts upgrades closes : Move
  attends : ℕ → Event → Move
  session_ends : ℕ → Move
  hooks_set : Bool → Bool → Move
  budget_is : ResourceBudget → Move

unfoldable pub move : Move → Endpoint → Endpoint
unfolding accept on_upgrade close_registered attend_at close_session with_permits
move accepts c = accept c
move upgrades c = on_upgrade c
move closes c = record c { inner = close_registered c.inner }
move (attends n ev) c =
    let (e, ts) = attend_at n ev c.tasks c.inner in record c { inner = e; tasks = ts }
move (session_ends id) c = record c { inner = close_session id c.inner }
move (hooks_set connected disconnected) c = record c {
  inner = record e { on_connected = connected; on_disconnected = disconnected };
}
  where
    open c use {inner as e}
move (budget_is b) c = record c { inner = with_permits b c.inner }

unfoldable pub run : List Move → Endpoint → Endpoint
unfolding move
run [] c = c
run (m ∷ ms) c = run ms (move m c)

-- `VcmpServer::endpoint`: nothing is connected yet.
unfoldable pub new_endpoint : PathPattern → ResourceBudget → Endpoint
new_endpoint pattern budget = record {
  inner = record {
    pattern = pattern;
    sessions = [];
    pending_upgrades = 0;
    on_connected = false;
    on_disconnected = false;
    budget = budget;
    open_ = [];
    heartbeats = [];
    next = 0;
  };
  tasks = [];
}
