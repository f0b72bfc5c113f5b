-- ===== src/Session/Pulse.antt =====
-- src/session.rs: the heartbeat of a session through whatever happens to it.
use vcmp_rs.Base.{
  pick, ℕ, ◌≡◌, refl, sym, ap, ◌∙◌, subst, List, [], ◌∷◌, Option, none, some, Bool, true, false,
  ◌||◌, not, ◌==◌, ◌⊎◌, inl, inr, Text, both-ways,
}
use vcmp_rs.Base.Assoc.{get, insert, remove}
use vcmp_rs.Frame.{heartbeat}
use vcmp_rs.Session.{
  Json, Session, Outgoing, PendingEntry, Timer, TimerKind, watchdog, echo, Writer, idle, writing,
  stopped, Answer, dropped, spawn_timer, without_timer, spawn_admitted, release_both, close,
  diagnose,
}
use vcmp_rs.Session.Sending.{write, take_pending, insert_pending, settle_found, settle}
use vcmp_rs.Session.Heartbeats.{
  set_awaiting, arm_watchdog, after_write, send_heartbeat, expect_heartbeat, accept_heartbeat,
  handle_heartbeat, run_timer, fire, doubled,
}
use vcmp_rs.Resources.{Resource}
use vcmp_rs.Session.{reserve_both}
use vcmp_rs.Session.Driving.{
  release_queue, release_writing, stop_writer, abort_tasks, clear_heartbeat, drain_pending,
  finish_close, shut_down,
}
use vcmp_rs.Session.Shapes.{fail_pending-shape, abort_slot-shape}
use vcmp_rs.Session.Queueing.{reserve_both-Rebudgeted}
use vcmp_rs.Session.Upkeep.{Kit, write-keeps}
use vcmp_rs.Session.Beating.{Beats}
use vcmp_rs.Session.Reach.{Reach, Reach-keeps}
use vcmp_rs.Session.Timers.{
  Rhythm, runs, Predicate, Placed, Beating, Has, Within, Slots, aborted, arm_watchdog-Beating,
  accept_heartbeat-Beating, accept_heartbeat-open_,
}

module _ {V H : Type 0} (Q : Predicate) where
  shut : (s : Session V H) → s.open_ ≡ false → Within Q s
  shut s e o = absurd (both-ways o e)

  close-Within : (s : Session V H) → Within Q (close s)
  unfolding close
  close-Within s = go s.open_ refl
    where
      closed : Bool → Session V H
      closed b = elim b [ true ↦ record s { open_ = false; close_requested = true } | false ↦ s ]

      go : (b : Bool) → s.open_ ≡ b → Within Q (closed b)
      go true e = λ o. absurd (both-ways o refl)
      go false e = shut s e

  takes-Within :
      (s : Session V H) (id : Text) (a : Answer V) → Within Q s → Within Q (take_pending id a s)
  unfolding take_pending settle_found settle release_both
  takes-Within s id a h = go (get id s.pending)
    where
      go :
          (o : Option PendingEntry)
          → Within Q (settle_found o a (record s { pending = remove id s.pending }))
      go none = h
      go (some e) = h

  inserts-Within :
      (s : Session V H) (id : Text) (x : PendingEntry)
      → Within Q s
      → Within Q (insert_pending id x s)
  unfolding insert_pending settle_found settle release_both
  inserts-Within s id x h = go (get id s.pending)
    where
      go :
          (o : Option PendingEntry)
          → Within Q (settle_found o dropped (record s { pending = insert id x s.pending }))
      go none = h
      go (some e) = h

  release_queue-Within :
      (os : List Outgoing) (s : Session V H) → Within Q s → Within Q (release_queue os s)
  unfolding release_queue release_both
  release_queue-Within [] s h = h
  release_queue-Within (o ∷ os) s h = release_queue-Within os (release_both o.permits s) h

  release_writing-Within :
      (w : Writer) (s : Session V H) → Within Q s → Within Q (release_writing w s)
  unfolding release_writing release_both
  release_writing-Within idle s h = h
  release_writing-Within (writing p) s h = h
  release_writing-Within stopped s h = h

  stop_writer-Within : (s : Session V H) → Within Q s → Within Q (stop_writer s)
  unfolding stop_writer
  stop_writer-Within s h = release_queue-Within s.out_queue _ (
      release_queue-Within s.control_queue _ (
        release_writing-Within s.writer
          (record s { writer = stopped; out_queue = []; control_queue = [] }) h))

  shut_down-Within : (s : Session V H) → Within Q (shut_down s)
  unfolding shut_down finish_close drain_pending clear_heartbeat
  shut_down-Within s =
      let t : Session V H = stop_writer (abort_tasks (close s)) in
      shut (shut_down s) (
        fail_pending-shape (λ x. x.open_ ≡ false) (λ x xs q. q) (clear_heartbeat t).pending
          (record (clear_heartbeat t) { pending = [] })
          (abort_slot-shape (λ x. x.open_ ≡ false) t.heartbeat.echo_slot _
            (abort_slot-shape (λ x. x.open_ ≡ false) t.heartbeat.watchdog_slot _ refl)))

  reserve-Within :
      (r : Resource) (n : ℕ) (s : Session V H) → Within Q s → Within Q (reserve_both r n s).1
  reserve-Within r n s h =
      let (l, b, e) = reserve_both-Rebudgeted r n s in subst (Within Q) (sym e) h

  -- What does not touch the heartbeat keeps it.
  quiet_kit : Kit V H (λ held s. Within Q s)
  quiet_kit = record {
    reserves = λ {held} {s} r n e h. subst (λ t. Within Q t.1) e (reserve-Within r n s h);
    refuses = λ {held} {s} r n e h. subst (λ t. Within Q t.1) e (reserve-Within r n s h);
    releases = λ p h. unfold release_both in h;
    queues_control = λ text p e h. h;
    queues_data = λ text p e h. h;
    closes = λ {held} {s} h. close-Within s;
    takes = λ {held} {s} id a h. takes-Within s id a h;
    inserts = λ {held} {s} id waiter p o h. inserts-Within s id _ h;
    ignores = λ ignored h. h;
    spawns = λ t o h. h;
    ends = λ before t after e h. h;
    dequeues_control = λ o rest e h. h;
    dequeues_data = λ o rest e h. h;
    writes = λ p wire e h. h;
    wrote = λ p e h. h;
    stops = λ {held} {s} h. stop_writer-Within s h;
    shuts = λ {held} {s} h. shut_down-Within s;
  }

-- Between the two locks of `send_heartbeat`.
abbrev Ready : Predicate
Ready h ts n = Slots h n × (h.awaiting ≡ true)

module _ {V H : Type 0} where
  arm_watchdog-Within :
      (sleep : ℕ) (s : Session V H)
      → (s.open_ ≡ true
          → Has Placed s
            × ((s.heartbeat.awaiting ≡ true)
                ⊎ ((s.heartbeat.awaiting ≡ false)
                    × (runs false s.heartbeat.echo_slot s.timers ≡ true))))
      → Within Beating (arm_watchdog sleep s)
  unfolding arm_watchdog
  arm_watchdog-Within sleep s h o =
      let same = aborted s.heartbeat.watchdog_slot (record (spawn_timer sleep watchdog s) {
        heartbeat = record (s.heartbeat) { watchdog_slot = some s.next_timer };
      }) in
      let (p, x) = h (sym (ap (λ t. t.open_) same) ∙ o) in arm_watchdog-Beating sleep s p x

  after_write-Within :
      (interval : ℕ) (q : Bool × Session V H)
      → Within Ready q.1
      → Within Beating (after_write interval q)
  unfolding after_write
  after_write-Within interval (true, s) h =
      arm_watchdog-Within (doubled interval) s (λ o. let (p, e) = h o in (p, inl e))
  after_write-Within interval (false, s) h = close-Within Beating s

  send_heartbeat-Within :
      (interval : ℕ) (s : Session V H)
      → Within Placed s
      → Within Beating (send_heartbeat interval s)
  unfolding send_heartbeat set_awaiting
  send_heartbeat-Within interval s h =
      pick (Within Beating) s.open_
        (λ e.
          after_write-Within interval (write (heartbeat interval) (set_awaiting true s))
            (write-keeps (quiet_kit Ready) {held = []} (heartbeat interval) (λ o. (h o, refl))))
        (λ e. shut Beating s e)

  expect_heartbeat-Within :
      (timeout : ℕ) (s : Session V H)
      → Within Beating s
      → Within Beating (expect_heartbeat timeout s)
  unfolding expect_heartbeat
  expect_heartbeat-Within timeout s h =
      pick (Within Beating) (not s.open_ || not (s.heartbeats_received == 0)) (λ e. h)
        (λ e. arm_watchdog-Within timeout s (λ o. ready (h o)))
    where
      ready :
          Has Beating s
          → Has Placed s
            × ((s.heartbeat.awaiting ≡ true)
                ⊎ ((s.heartbeat.awaiting ≡ false)
                    × (runs false s.heartbeat.echo_slot s.timers ≡ true)))
      ready (p, inl (a, b, c)) = (p, inl a)
      ready (p, inr (inl (a, b))) = (p, inl a)
      ready (p, inr (inr x)) = (p, inr x)

  handle_heartbeat-Within :
      (interval : ℕ) (s : Session V H)
      → Within Beating s
      → Within Beating (handle_heartbeat interval s)
  unfolding handle_heartbeat diagnose
  handle_heartbeat-Within interval s h =
      pick (Within Beating) (interval == 0) (λ e. h)
        (λ e. pick (Within Beating) s.heartbeat.awaiting (λ a. accepted) (λ a. h))
    where
      accepted : Within Beating (accept_heartbeat interval s)
      accepted o =
          accept_heartbeat-Beating interval s (h (sym (accept_heartbeat-open_ interval s) ∙ o)).0.1

  fire-Within : (t : Timer) (s : Session V H) → Within Beating s → Within Beating (fire t s)
  unfolding fire run_timer
  fire-Within t s h = go t.kind
    where
      left : Session V H
      left = record s { timers = without_timer t.handle s.timers }

      go : (k : TimerKind) → Within Beating (run_timer k left)
      go watchdog = close-Within Beating left
      go (echo interval) = send_heartbeat-Within interval left (λ o. (h o).0)

  pulse : Beats V H (λ held s. Within Beating s)
  pulse = record {
    arrives = λ frames h. h;
    beats = λ {held} {s} interval h. send_heartbeat-Within interval s (λ o. (h o).0);
    expects = λ {held} {s} timeout h. expect_heartbeat-Within timeout s h;
    hears = λ {held} {s} interval h. handle_heartbeat-Within interval s h;
    fires = λ {held} {s} t h. fire-Within t s h;
  }

  -- A dead peer is noticed: whatever happened to a session, while it is open its heartbeat has not
  -- begun, or it expects a heartbeat and the watchdog that will close it is running, or it expects
  -- none and the echo that will send the next one is running.
  pub Reach-Rhythm :
      (json : Json V) (s : Session V H)
      → Reach json s
      → s.open_ ≡ true
      → Rhythm s.heartbeat s.timers
  unfolding spawn_admitted
  Reach-Rhythm json s reached o =
      (Reach-keeps (quiet_kit Beating) pulse
        (λ id handlers limits budget p. ((tt, tt, tt), inl (refl, refl, refl))) reached o).1
