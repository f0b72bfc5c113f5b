-- ===== src/Session/Heartbeats.antt =====
-- src/session.rs: the mutual heartbeat, its watchdogs and echoes.
use vcmp_rs.Base.{
  ℕ, ◌*◌, ◌-◌, ◌^◌, none, some, Bool, true, false, not, ◌||◌, min, if◌then◌else◌, ◌==◌,
}
use vcmp_rs.Frame.{heartbeat}
use vcmp_rs.Session.{
  Session, Timer, TimerKind, watchdog, echo, diagnose, close, abort_slot, spawn_timer,
  without_timer, incremented,
}
use vcmp_rs.Session.Sending.{write}

-- `interval.saturating_mul(2)` on a u64.
abbrev pub doubled : ℕ → ℕ
doubled n = min (n * 2) (2 ^ 64 - 1)

module _ {V H : Type 0} where
  unfoldable pub set_awaiting : Bool → Session V H → Session V H
  set_awaiting b s = record s { heartbeat = record h { awaiting = b } }
    where
      open s use {heartbeat as h}

  -- `heartbeat.watchdog.replace(watchdog)`, with the abort of the one before.
  unfoldable pub arm_watchdog : ℕ → Session V H → Session V H
  arm_watchdog sleep s = abort_slot h.watchdog_slot (record (spawn_timer sleep watchdog s) {
    heartbeat = record h { watchdog_slot = some s.next_timer };
  })
    where
      open s use {heartbeat as h}

  unfoldable pub arm_echo : ℕ → Session V H → Session V H
  arm_echo interval s = abort_slot h.echo_slot (record (spawn_timer interval (echo interval) s) {
    heartbeat = record h { echo_slot = some s.next_timer };
  })
    where
      open s use {heartbeat as h}

  -- `heartbeat.watchdog.take()`, with the abort.
  unfoldable pub disarm_watchdog : Session V H → Session V H
  disarm_watchdog s =
      abort_slot h.watchdog_slot (record s { heartbeat = record h { watchdog_slot = none } })
    where
      open s use {heartbeat as h}

  unfoldable pub after_write : ℕ → Bool × Session V H → Session V H
  after_write interval (true, s) = arm_watchdog (doubled interval) s
  after_write interval (false, s) = close s

  -- `send_heartbeat`, and `initiate_heartbeat`, whose interval is a number of milliseconds already.
  unfoldable pub send_heartbeat : ℕ → Session V H → Session V H
  unfolding after_write set_awaiting
  send_heartbeat interval s =
      if s.open_ then after_write interval (write (heartbeat interval) (set_awaiting true s)) else s

  -- `expect_heartbeat`.
  unfoldable pub expect_heartbeat : ℕ → Session V H → Session V H
  expect_heartbeat timeout s =
      if not s.open_ || not (s.heartbeats_received == 0) then s else arm_watchdog timeout s

  unfoldable pub accept_heartbeat : ℕ → Session V H → Session V H
  unfolding set_awaiting disarm_watchdog arm_echo
  accept_heartbeat interval s = arm_echo interval (
      disarm_watchdog
        (record (set_awaiting false s) { heartbeats_received = incremented s.heartbeats_received }))

  -- `handle_heartbeat`.
  unfoldable pub handle_heartbeat : ℕ → Session V H → Session V H
  unfolding accept_heartbeat
  handle_heartbeat interval s =
      if interval == 0
      then diagnose s
      else if s.heartbeat.awaiting
      then accept_heartbeat interval s
      else diagnose s

  -- A timer that was not aborted has slept its time, and runs.
  unfoldable pub run_timer : TimerKind → Session V H → Session V H
  run_timer watchdog s = close s
  run_timer (echo interval) s = send_heartbeat interval s

  unfoldable pub fire : Timer → Session V H → Session V H
  unfolding run_timer
  fire t s = run_timer t.kind (record s { timers = without_timer t.handle s.timers })
