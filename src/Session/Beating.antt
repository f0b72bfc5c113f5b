-- ===== src/Session/Beating.antt =====
-- src/session.rs: the operations of the heartbeat, as an interface beside that of the other changes.
use vcmp_rs.Base.{ℕ, List, Option, none, some, Bool, true, false, ◌==◌, not, ◌||◌}
use vcmp_rs.Frame.{heartbeat}
use vcmp_rs.Session.{
  Session, Permits, HeartbeatState, Timer, TimerKind, watchdog, echo, abort_slot, without_timer,
  incremented,
}
use vcmp_rs.Session.Heartbeats.{
  set_awaiting, arm_watchdog, arm_echo, disarm_watchdog, after_write, send_heartbeat,
  expect_heartbeat, accept_heartbeat, handle_heartbeat, run_timer, fire, doubled,
}
use vcmp_rs.Session.Upkeep.{Kit, write-keeps}
use vcmp_rs.Session.Turns.{choose, diagnose-keeps}

-- The count of received frames and the heartbeat's own operations keep a property.
pub record Beats (V H : Type 0) (P : List Permits → Session V H → Type 0) : Type 0 where
  pub arrives :
      {held : List Permits} {s : Session V H} (frames : ℕ)
      → P held s
      → P held (record s { frames_received = frames })
  pub beats :
      {held : List Permits} {s : Session V H} (interval : ℕ)
      → P held s
      → P held (send_heartbeat interval s)
  pub expects :
      {held : List Permits} {s : Session V H} (timeout : ℕ)
      → P held s
      → P held (expect_heartbeat timeout s)
  pub hears :
      {held : List Permits} {s : Session V H} (interval : ℕ)
      → P held s
      → P held (handle_heartbeat interval s)
  pub fires : {held : List Permits} {s : Session V H} (t : Timer) → P held s → P held (fire t s)

-- A property that does not depend on the count of received frames.
pub record Uncounted (V H : Type 0) (P : List Permits → Session V H → Type 0) : Type 0 where
  pub counts :
      {held : List Permits} {s : Session V H} (frames : ℕ)
      → P held s
      → P held (record s { frames_received = frames })

-- A property that does not depend on the heartbeat, its timers and its count.
pub record Free (V H : Type 0) (P : List Permits → Session V H → Type 0) : Type 0 where
  pub changes :
      {held : List Permits} {s : Session V H} (h : HeartbeatState) (ts : List Timer)
      (n received : ℕ)
      → P held s
      → P held
          (record s { heartbeat = h; timers = ts; next_timer = n; heartbeats_received = received })

module _ {V H : Type 0} {P : List Permits → Session V H → Type 0} (kit : Kit V H P)
    (free : Free V H P) where
  abort_slot-keeps :
      {held : List Permits} {s : Session V H} (slot : Option ℕ)
      → P held s
      → P held (abort_slot slot s)
  abort_slot-keeps none h = h
  abort_slot-keeps {s} (some t) h = free.changes s.heartbeat _ s.next_timer s.heartbeats_received h

  arm_watchdog-keeps :
      {held : List Permits} {s : Session V H} (sleep : ℕ) → P held s → P held (arm_watchdog sleep s)
  unfolding arm_watchdog
  arm_watchdog-keeps {s} sleep h =
      abort_slot-keeps s.heartbeat.watchdog_slot (free.changes _ _ _ s.heartbeats_received h)

  after_write-keeps :
      {held : List Permits} (interval : ℕ) (sent : Bool) (s : Session V H)
      → P held s
      → P held (after_write interval (sent, s))
  unfolding after_write
  after_write-keeps interval true s h = arm_watchdog-keeps (doubled interval) h
  after_write-keeps interval false s h = kit.closes h

  pub send_heartbeat-keeps :
      {held : List Permits} {s : Session V H} (interval : ℕ)
      → P held s
      → P held (send_heartbeat interval s)
  unfolding send_heartbeat set_awaiting
  send_heartbeat-keeps {s} interval h =
      choose kit _ _ s.open_
        (after_write-keeps interval _ _ (
          write-keeps kit (heartbeat interval)
            (free.changes _ s.timers s.next_timer s.heartbeats_received h)))
        h

  pub expect_heartbeat-keeps :
      {held : List Permits} {s : Session V H} (timeout : ℕ)
      → P held s
      → P held (expect_heartbeat timeout s)
  unfolding expect_heartbeat
  expect_heartbeat-keeps {s} timeout h =
      choose kit _ _ (not s.open_ || not (s.heartbeats_received == 0)) h
        (arm_watchdog-keeps timeout h)

  arm_echo-keeps :
      {held : List Permits} {s : Session V H} (interval : ℕ)
      → P held s
      → P held (arm_echo interval s)
  unfolding arm_echo
  arm_echo-keeps {s} interval h =
      abort_slot-keeps s.heartbeat.echo_slot (free.changes _ _ _ s.heartbeats_received h)

  disarm_watchdog-keeps :
      {held : List Permits} {s : Session V H} → P held s → P held (disarm_watchdog s)
  unfolding disarm_watchdog
  disarm_watchdog-keeps {s} h =
      abort_slot-keeps s.heartbeat.watchdog_slot
        (free.changes _ s.timers s.next_timer s.heartbeats_received h)

  accept_heartbeat-keeps :
      {held : List Permits} {s : Session V H} (interval : ℕ)
      → P held s
      → P held (accept_heartbeat interval s)
  unfolding accept_heartbeat set_awaiting
  accept_heartbeat-keeps {s} interval h = arm_echo-keeps interval (
      disarm_watchdog-keeps (
        free.changes (set_awaiting false s).heartbeat s.timers s.next_timer
          (incremented s.heartbeats_received) h))

  pub handle_heartbeat-keeps :
      {held : List Permits} {s : Session V H} (interval : ℕ)
      → P held s
      → P held (handle_heartbeat interval s)
  unfolding handle_heartbeat
  handle_heartbeat-keeps {s} interval h = choose kit _ _ (interval == 0) (diagnose-keeps kit h) (
      choose kit _ _ s.heartbeat.awaiting (accept_heartbeat-keeps interval h)
        (diagnose-keeps kit h))

  pub fire-keeps :
      {held : List Permits} {s : Session V H} (t : Timer) → P held s → P held (fire t s)
  unfolding fire run_timer
  fire-keeps {held} {s} t h = go t.kind
    where
      go :
          (k : TimerKind)
          → P held (run_timer k (record s { timers = without_timer t.handle s.timers }))
      go watchdog = kit.closes (free.changes _ _ _ _ h)
      go (echo interval) = send_heartbeat-keeps interval (free.changes _ _ _ _ h)

  pub free_beats : Uncounted V H P → Beats V H P
  free_beats uncounted = record {
    arrives = uncounted.counts;
    beats = send_heartbeat-keeps;
    expects = expect_heartbeat-keeps;
    hears = handle_heartbeat-keeps;
    fires = fire-keeps;
  }
