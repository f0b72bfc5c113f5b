-- ===== src/Session.antt =====
-- src/session.rs: the state of a session, shared by all of its handles and tasks.
-- `V` stands for `serde_json::Value` and `H` for a registered handler. A duration is a number of
-- milliseconds. Each lock, atomic operation and channel is one part of the state.
pub mod Sending
pub mod Heartbeats
pub mod Receiving
pub mod Driving
pub mod Handlers
pub mod Upkeep
pub mod Turns
pub mod Beating
pub mod Reach
pub mod Weights
pub mod Admissions
pub mod Accounts
pub mod Shapes
pub mod Ending
pub mod Waiters
pub mod Waiting
pub mod Settling
pub mod Requests
pub mod Info
pub mod Queueing
pub mod Queues
pub mod Timers
pub mod Pulse
pub mod Replies
pub mod Calls
pub mod Counting
pub mod Arrivals
pub mod Unique
pub mod Forgetting
mod Examples
mod Scenarios
use vcmp_rs.Base.{
  ℕ, ◌+◌, ◌*◌, ◌%◌, ◌^◌, ◌≡◌, List, [], ◌∷◌, ◌++◌, Option, none, some, Bool, true, false, Result,
  ok, err, ◌==◌, if◌then◌else◌, Text,
}
use vcmp_rs.Error.Problem.{ProblemDetail}
use vcmp_rs.Error.{VcmpError, StdError}
use vcmp_rs.Resources.{
  ResourceLimits, ResourceSnapshot, ResourceBudget, Resource, Permit, new_budget, snapshot, reserve,
  release,
}

-- What the session uses of serde_json.
pub record Json (V : Type 0) : Type 0 where
  -- `serde_json::from_str::<Value>`, and its error where it fails.
  pub from_str : Text → Option V
  pub syntax_error : Text → StdError
  -- `Value::Object(Default::default())` and `Value::Null`.
  pub empty_object : V
  pub null : V
  -- `.get("@type").and_then(Value::as_str)`.
  pub type_of : V → Option Text
  -- `to_string` and `from_str` of a `VcmpError`, which are those of its problem detail.
  pub problem_to_string : ProblemDetail V → Option Text
  pub problem_from_str : Text → Result (ProblemDetail V) StdError

pub record SessionLimits : Type 0 where
  pub resources : ResourceLimits
  pub max_message_bytes : ℕ
  pub request_timeout : ℕ
  pub handler_timeout : ℕ
  pub write_timeout : ℕ
  pub shutdown_timeout : ℕ

-- `SessionLimits::default`.
abbrev pub default_session_limits : SessionLimits
default_session_limits = record {
  resources = record {
    connections = 1;
    queued_messages = 128;
    queued_bytes = 4 * 2 ^ 20;
    control_messages = 128;
    control_bytes = 4 * 2 ^ 20;
    pending_requests = 256;
    handler_tasks = 128;
    handler_bytes = 4 * 2 ^ 20;
  };
  max_message_bytes = 2 * 2 ^ 20;
  request_timeout = 30000;
  handler_timeout = 30000;
  write_timeout = 5000;
  shutdown_timeout = 5000;
}

pub record Arrival : Type 0 where
  pub session : ℕ
  pub frame : ℕ

-- A permit of the session's own budget and one of the shared budget.
pub record Permits : Type 0 where
  pub local : Permit
  pub global : Permit

pub record Outgoing : Type 0 where
  pub text : Text
  pub permits : Permits

-- The sending half of the channel that a waiter listens on is known by the waiter's number.
pub record PendingEntry : Type 0 where
  pub waiter : ℕ
  pub permits : Permits

-- What a waiter finds in its channel: a result, or that the sender was dropped.
pub data Answer (V : Type 0) : Type 0 where
  answered : Result (Option Text × Arrival) (VcmpError V) → Answer V
  dropped : Answer V

-- A spawned sleep: a watchdog then closes the session, an echo sends the next heartbeat.
pub data TimerKind : Type 0 where
  watchdog : TimerKind
  echo : (interval : ℕ) → TimerKind

pub record Timer : Type 0 where
  pub handle : ℕ
  pub sleep : ℕ
  pub kind : TimerKind

-- The slots hold the abort handles of spawned timers.
pub record HeartbeatState : Type 0 where
  pub awaiting : Bool
  pub watchdog_slot : Option ℕ
  pub echo_slot : Option ℕ

-- A handler that runs off the read loop.
pub record HandlerTask (V H : Type 0) : Type 0 where
  pub id : Text
  pub handler : H
  pub message : V
  pub arrival : Arrival
  pub permits : Permits

pub data Writer : Type 0 where
  idle : Writer
  writing : Permits → Writer
  stopped : Writer

pub record Session (V H : Type 0) : Type 0 where
  pub id : ℕ
  pub handlers : List (Text × H)
  pub out_queue : List Outgoing
  pub control_queue : List Outgoing
  pub limits : SessionLimits
  pub local : ResourceBudget
  pub budget : ResourceBudget
  pub pending : List (Text × PendingEntry)
  pub open_ : Bool
  pub closed : Bool
  pub close_requested : Bool
  pub heartbeat : HeartbeatState
  pub heartbeats_received : ℕ
  pub ignored_frames : ℕ
  pub frames_received : ℕ
  pub timers : List Timer
  pub next_timer : ℕ
  pub tasks : List (HandlerTask V H)
  pub answers : List (ℕ × Answer V)
  pub writer : Writer
  pub wire : List Text

-- `fetch_add(1)` on an `AtomicU64` wraps around.
abbrev pub incremented : ℕ → ℕ
incremented n = (n + 1) % 2 ^ 64

abbrev pub without_timer : ℕ → List Timer → List Timer
without_timer h [] = []
without_timer h (t ∷ ts) = if t.handle == h then without_timer h ts else t ∷ without_timer h ts

module _ {V H : Type 0} where
  -- `spawn_admitted`, once the shared budget has admitted the connection.
  unfoldable pub spawn_admitted : ℕ → List (Text × H) → SessionLimits → ResourceBudget → Session V H
  unfolding new_budget
  spawn_admitted id handlers limits budget = record {
    id = id;
    handlers = handlers;
    out_queue = [];
    control_queue = [];
    limits = limits;
    local = new_budget limits.resources;
    budget = budget;
    pending = [];
    open_ = true;
    closed = false;
    close_requested = false;
    heartbeat = record { awaiting = true; watchdog_slot = none; echo_slot = none };
    heartbeats_received = 0;
    ignored_frames = 0;
    frames_received = 0;
    timers = [];
    next_timer = 0;
    tasks = [];
    answers = [];
    writer = idle;
    wire = [];
  }

  -- `Session::resources`.
  pub resources : Session V H → ResourceSnapshot
  resources s = snapshot s.local

  abbrev pub with_local : ResourceBudget → Session V H → Session V H
  with_local b s = record s { local = b }

  abbrev pub with_budget : ResourceBudget → Session V H → Session V H
  with_budget b s = record s { budget = b }

  -- The `Drop` of a pair of permits.
  unfoldable pub release_both : Permits → Session V H → Session V H
  unfolding release
  release_both p s = record s {
    local = release p.local s.local;
    budget = release p.global s.budget;
  }

  -- The second admission. If it fails, the permit of the first is dropped.
  unfoldable pub reserve_global :
      Permit
      → Result Permit (VcmpError V) × ResourceBudget
      → Session V H
      → Result Permits (VcmpError V) × Session V H
  unfolding release
  reserve_global local (ok global, b) s =
      (ok (record { local = local; global = global }), record s { budget = b })
  reserve_global local (err e, b) s =
      (err e, record s { local = release local s.local; budget = b })

  unfoldable pub reserve_local :
      Resource
      → ℕ
      → Result Permit (VcmpError V) × ResourceBudget
      → Session V H
      → Result Permits (VcmpError V) × Session V H
  unfolding reserve_global
  reserve_local r n (ok local, b) s = reserve_global local (reserve s.budget r n) (with_local b s)
  reserve_local r n (err e, b) s = (err e, with_local b s)

  -- `Session::reserve`.
  unfoldable pub reserve_both :
      Resource → ℕ → Session V H → Result Permits (VcmpError V) × Session V H
  unfolding reserve_local reserve
  reserve_both r n s = reserve_local r n (reserve s.local r n) s

  -- `diagnose`: the count of ignored frames. (Its log line is left out.)
  unfoldable pub diagnose : Session V H → Session V H
  diagnose s = record s { ignored_frames = incremented s.ignored_frames }

  -- `Session::close`.
  unfoldable pub close : Session V H → Session V H
  close s = elim s.open_ [ true ↦ record s { open_ = false; close_requested = true } | false ↦ s ]

  -- `JoinHandle::abort` by a handle, and the spawning of a timer.
  abbrev pub abort_slot : Option ℕ → Session V H → Session V H
  abort_slot none s = s
  abort_slot (some h) s = record s { timers = without_timer h s.timers }

  abbrev pub spawn_timer : ℕ → TimerKind → Session V H → Session V H
  spawn_timer sleep kind s = record s {
    timers = record { handle = s.next_timer; sleep = sleep; kind = kind } ∷ s.timers;
    next_timer = s.next_timer + 1;
  }
