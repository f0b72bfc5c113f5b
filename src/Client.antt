-- ===== src/Client.antt =====
-- src/client.rs: the state of a client, its operations, and the turns of its connection task. A
-- turn is what the task does between two of its awaits, as one step; a lock holds each access to
-- the state in it. Sessions are known by number: `open_` are those that nobody has closed yet.
pub mod Backoff
pub mod Builder
pub mod Connect
pub mod Headers
pub mod Running
pub mod Reactions
pub mod Invariant
pub mod WellFormed
pub mod Moves
pub mod Lifecycle
pub mod Sessions
pub mod Leaks
pub mod Transitions
pub mod View
pub mod Sending
mod Requests
mod Examples
use vcmp_rs.Base.{
  ℕ, ◌+◌, List, [], ◌∷◌, Option, none, some, Bool, true, false, ◌||◌, Result, ok_or, codes, ◌==◌,
  if◌then◌else◌, get_elem?,
}
use vcmp_rs.Base.Ids.{without, is_among}
use vcmp_rs.Error.{VcmpError, not_connected}
use vcmp_rs.Resources.{ResourceBudget, Permit}

-- `Stop`, the value of the channel that a task watches.
pub data Stop : Type 0 where
  no notify quiet : Stop

-- Where the task waits, with the session that its guard holds and the permit of the hook it runs.
-- `sleeping k` sleeps for `backoff.delay(k)`.
pub data Phase : Type 0 where
  connecting : Phase
  hooking : ℕ → Permit → Phase
  serving : ℕ → Phase
  closing : ℕ → Phase
  parting : ℕ → Permit → Phase
  sleeping : ℕ → Phase
  ended : Phase

pub record Task : Type 0 where
  pub generation : ℕ
  pub told : Stop
  pub aborted : Bool
  pub attempt : ℕ
  pub phase : Phase

-- `ClientInner` with its `ClientState`; `stop` tells whether the sender is there. `next` numbers
-- the sessions, and `expecting` are the sessions told to expect a heartbeat.
pub record ClientInner : Type 0 where
  pub running : Bool
  pub generation : ℕ
  pub stop : Bool
  pub session : Option ℕ
  pub connected : Bool
  pub on_connected : Bool
  pub on_disconnected : Bool
  pub initial_heartbeat_timeout : ℕ
  pub budget : ResourceBudget
  pub open_ : List ℕ
  pub next : ℕ
  pub expecting : List ℕ

-- A client with the task whose handle it keeps, those it has aborted, and the generations that a
-- `stop_and_wait` still waits for.
pub record VcmpClient : Type 0 where
  pub inner : ClientInner
  pub task : Option Task
  pub old : List Task
  pub waiters : List ℕ

-- `session.close()`, and the drop of `CloseOnDrop`.
unfoldable pub close : ℕ → ClientInner → ClientInner
close id c = record c { open_ = without id c.open_ }

-- `state.session.take()`, closed.
unfoldable pub close_current : Option ℕ → ClientInner → ClientInner
unfolding close
close_current none c = record c { session = none }
close_current (some id) c = record (close id c) { session = none }

unfoldable pub tell : Stop → Option Task → Option Task
tell how none = none
tell how (some t) = some (record t { told = how })

-- `stop_locked`: the sender and the session are taken.
unfoldable pub stop_locked : Stop → VcmpClient → VcmpClient
unfolding close_current tell
stop_locked how c = record c {
  inner = close_current c.inner.session (record i { running = false; stop = false });
  task = if c.inner.stop then tell how c.task else c.task;
}
  where
    open c use {inner as i}

-- `task.abort.abort()`: the task is cancelled when it next waits.
unfoldable pub abort : Task → Task
abort t = record t { aborted = true }

unfoldable pub retire : Option Task → List Task → List Task
unfolding abort
retire none old = old
retire (some t) old = abort t ∷ old

unfoldable pub begun : ClientInner → ClientInner
begun i = record i { running = true; connected = false; generation = i.generation + 1; stop = true }

unfoldable pub spawn : ℕ → Task
spawn generation = record {
  generation = generation;
  told = no;
  aborted = false;
  attempt = 0;
  phase = connecting;
}

-- `start`. A u64 generation that wrapped would need 2^64 starts.
unfoldable pub start : VcmpClient → VcmpClient
unfolding stop_locked retire begun spawn
start c =
    let s = stop_locked quiet c in
    record s {
      inner = begun s.inner;
      task = some (spawn (s.inner.generation + 1));
      old = retire s.task s.old;
    }

unfoldable pub disconnect : VcmpClient → VcmpClient
disconnect c = record c { inner = record i { connected = false } }
  where
    open c use {inner as i}

-- `stop`.
unfoldable pub stop : VcmpClient → VcmpClient
unfolding stop_locked disconnect
stop c = disconnect (stop_locked notify c)

unfoldable pub awaited : Option Task → List ℕ → List ℕ
awaited none waiters = waiters
awaited (some t) waiters = t.generation ∷ waiters

-- `stop_and_wait`, up to its wait for the task that it found.
unfoldable pub stop_and_wait : VcmpClient → VcmpClient
unfolding stop awaited
stop_and_wait c = let s = stop c in record s { waiters = awaited s.task s.waiters }

unfoldable pub abort_generation : ℕ → Option Task → Option Task
unfolding abort
abort_generation generation none = none
abort_generation generation (some t) = some (if t.generation == generation then abort t else t)

-- The deadline of a waiter: its task is aborted. A replaced task is aborted already.
unfoldable pub give_up : ℕ → VcmpClient → VcmpClient
unfolding abort_generation
give_up i c = elim (get_elem? c.waiters i) [
  | none ↦ c
  | some generation ↦ record c { task = abort_generation generation c.task }
]

unfoldable pub session : VcmpClient → Option ℕ
session c = c.inner.session

-- `is_connected`.
unfoldable pub is_connected : VcmpClient → Bool
unfolding session is_among
is_connected c = elim (session c) [ none ↦ false | some id ↦ is_among id c.inner.open_ ]

-- `current_session`, which `send`, `send_as` and `send_value` begin with.
unfoldable pub current_session : {V : Type 0} → VcmpClient → Result ℕ (VcmpError V)
unfolding session
current_session c =
    ok_or (session c) (not_connected (codes "Cannot send message: the client has no session."))

-- `ClientBuilder::build`: nothing runs yet.
unfoldable pub build : ℕ → ResourceBudget → VcmpClient
build initial_heartbeat_timeout budget = record {
  inner = record {
    running = false;
    generation = 0;
    stop = false;
    session = none;
    connected = false;
    on_connected = false;
    on_disconnected = false;
    initial_heartbeat_timeout = initial_heartbeat_timeout;
    budget = budget;
    open_ = [];
    next = 0;
    expecting = [];
  };
  task = none;
  old = [];
  waiters = [];
}
