-- ===== src/Session/Accounts.antt =====
-- src/session.rs: the local budget of a session, beside the permits that the session holds.
use vcmp_rs.Base.{ℕ, ◌+◌, ◌≡◌, List, [], Option, none, some, true, false, arith, ap, subst, ◌∙◌}
use vcmp_rs.Resources.{Resource}
use vcmp_rs.Resources.Balance.{Balance}
use vcmp_rs.Resources.Ledger.{new-Balance}
use vcmp_rs.Session.{Json, Session, Permits, Outgoing, stopped, close, abort_slot, spawn_admitted}
use vcmp_rs.Session.Driving.{
  stop_writer, abort_tasks, clear_heartbeat, drain_pending, finish_close, shut_down,
}
use vcmp_rs.Session.Weights.{
  weigh_queue, weigh_writer, weigh_tasks, weigh_session, weigh_queue-append, weigh_tasks-mid,
  weigh-release_queue, weigh-release_writing, weigh-release_tasks, weigh-fail_pending,
}
use vcmp_rs.Session.Upkeep.{Kit}
use vcmp_rs.Session.Beating.{free_beats}
use vcmp_rs.Session.Reach.{Reach, Reach-keeps}
use vcmp_rs.Session.Admissions.{
  counts, weighs, Accounted, granted, recount, releases-Accounted, release_queue-Balance,
  release_tasks-Balance, fail_pending-Balance, release_writing-Balance, takes-Accounted,
  inserts-Accounted, reserve_both-Accounted,
}

module _ {V H : Type 0} (r : Resource) where
  -- A session whose writer has let go of its frames.
  abbrev without_frames : Session V H → Session V H
  without_frames s = record s { writer = stopped; out_queue = []; control_queue = [] }

  weigh-stop_writer :
      (w : Permits → ℕ) (s : Session V H)
      → weigh_session w (stop_writer s) ≡ weigh_session w (without_frames s)
  unfolding stop_writer
  weigh-stop_writer w s =
      weigh-release_queue w s.out_queue _
      ∙ weigh-release_queue w s.control_queue _
      ∙ weigh-release_writing w s.writer (without_frames s)

  stop_writer-Balance :
      (s : Session V H) (c v : ℕ)
      → Balance s.local
          (weigh_writer (counts r) s.writer
            + (weigh_queue (counts r) s.control_queue + (weigh_queue (counts r) s.out_queue + c)))
          (weigh_writer (weighs r) s.writer
            + (weigh_queue (weighs r) s.control_queue + (weigh_queue (weighs r) s.out_queue + v)))
          r
      → Balance (stop_writer s).local c v r
  unfolding stop_writer
  stop_writer-Balance s c v a = release_queue-Balance r s.out_queue _ _ _ (
      release_queue-Balance r s.control_queue _ _ _
        (release_writing-Balance r s.writer (without_frames s) _ _ a))

  stops-Accounted :
      (held : List Permits) (s : Session V H)
      → Accounted r held s
      → Accounted r held (stop_writer s)
  stops-Accounted held s a = stop_writer-Balance s _ _ (
      recount s.local (omega (arith, weigh-stop_writer (counts r) s))
        (omega (arith, weigh-stop_writer (weighs r) s)) a)

  abort_tasks-Accounted :
      (held : List Permits) (s : Session V H)
      → Accounted r held s
      → Accounted r held (abort_tasks s)
  unfolding abort_tasks
  abort_tasks-Accounted held s a =
      let s0 : Session V H = record s { tasks = [] } in
      release_tasks-Balance r s.tasks s0 _ _ (
        recount s.local (omega (arith, weigh-release_tasks (counts r) s.tasks s0))
          (omega (arith, weigh-release_tasks (weighs r) s.tasks s0)) a)

  drain_pending-Accounted :
      (held : List Permits) (s : Session V H)
      → Accounted r held s
      → Accounted r held (drain_pending s)
  unfolding drain_pending
  drain_pending-Accounted held s a =
      let s0 : Session V H = record s { pending = [] } in
      fail_pending-Balance r s.pending s0 _ _ (
        recount s.local (omega (arith, weigh-fail_pending (counts r) s.pending s0))
          (omega (arith, weigh-fail_pending (weighs r) s.pending s0)) a)

  abort_slot-Accounted :
      (held : List Permits) (s : Session V H) (slot : Option ℕ)
      → Accounted r held s
      → Accounted r held (abort_slot slot s)
  abort_slot-Accounted held s none a = a
  abort_slot-Accounted held s (some t) a = a

  close-Accounted :
      (held : List Permits) (s : Session V H) → Accounted r held s → Accounted r held (close s)
  unfolding close
  close-Accounted held s a =
      elim s.open_
        as (λ b.
          Accounted r held
            (elim b [ true ↦ record s { open_ = false; close_requested = true } | false ↦ s ])) [
              | true ↦ a
              | false ↦ a
            ]

  finish_close-Accounted :
      (held : List Permits) (s : Session V H)
      → Accounted r held s
      → Accounted r held (finish_close s)
  unfolding finish_close clear_heartbeat
  finish_close-Accounted held s a = drain_pending-Accounted held _ (
      abort_slot-Accounted held _ s.heartbeat.echo_slot
        (abort_slot-Accounted held _ s.heartbeat.watchdog_slot a))

  shut_down-Accounted :
      (held : List Permits) (s : Session V H) → Accounted r held s → Accounted r held (shut_down s)
  unfolding shut_down
  shut_down-Accounted held s a =
      let quiet : Session V H = abort_tasks (close s) in
      finish_close-Accounted held (stop_writer quiet) (
        stops-Accounted held quiet
          (abort_tasks-Accounted held (close s) (close-Accounted held s a)))

  accounts_kit : Kit V H (Accounted r)
  accounts_kit = record {
    reserves = λ {held} {s} k n e a.
        subst (λ t. Accounted r (granted t.0 held) t.1) e (reserve_both-Accounted r held s k n a);
    refuses = λ {held} {s} k n e a.
        subst (λ t. Accounted r (granted t.0 held) t.1) e (reserve_both-Accounted r held s k n a);
    releases = λ {held} {s} p a. releases-Accounted r held s p a;
    queues_control = λ {held} {s} text p e a.
        let o : Outgoing = record { text = text; permits = p } in
        recount s.local (omega (arith, weigh_queue-append (counts r) s.control_queue o))
          (omega (arith, weigh_queue-append (weighs r) s.control_queue o)) a;
    queues_data = λ {held} {s} text p e a.
        let o : Outgoing = record { text = text; permits = p } in
        recount s.local (omega (arith, weigh_queue-append (counts r) s.out_queue o))
          (omega (arith, weigh_queue-append (weighs r) s.out_queue o)) a;
    closes = λ {held} {s} a. close-Accounted held s a;
    takes = λ {held} {s} id x a. takes-Accounted r held s id x a;
    inserts = λ {held} {s} id waiter p o a. inserts-Accounted r held s id waiter p a;
    ignores = λ ignored a. a;
    spawns = λ {held} {s} t o a. recount s.local (omega arith) (omega arith) a;
    ends = λ {held} {s} before t after e a.
        recount s.local
          (omega (arith, ap (weigh_tasks (counts r)) e, weigh_tasks-mid (counts r) before t after))
          (omega (arith, ap (weigh_tasks (weighs r)) e, weigh_tasks-mid (weighs r) before t after))
          a;
    dequeues_control = λ {held} {s} o rest e a.
        recount s.local (omega (arith, ap (weigh_queue (counts r)) e))
          (omega (arith, ap (weigh_queue (weighs r)) e)) a;
    dequeues_data = λ {held} {s} o rest e a.
        recount s.local (omega (arith, ap (weigh_queue (counts r)) e))
          (omega (arith, ap (weigh_queue (weighs r)) e)) a;
    writes = λ {held} {s} p wire e a.
        recount s.local (omega (arith, ap (weigh_writer (counts r)) e))
          (omega (arith, ap (weigh_writer (weighs r)) e)) a;
    wrote = λ {held} {s} p e a.
        recount s.local (omega (arith, ap (weigh_writer (counts r)) e))
          (omega (arith, ap (weigh_writer (weighs r)) e)) a;
    stops = λ {held} {s} a. stops-Accounted held s a;
    shuts = λ {held} {s} a. shut_down-Accounted held s a;
  }

  -- Whatever happens to a session, in whatever order: for every resource the local budget counts
  -- exactly the permits that its pending requests, its queues, its writer and its handlers hold,
  -- and stays within its limits.
  pub Reach-Accounted : (json : Json V) (s : Session V H) → Reach json s → Accounted r [] s
  unfolding spawn_admitted
  Reach-Accounted json s reached =
      Reach-keeps accounts_kit
        (free_beats accounts_kit (record { changes = λ b ts n received h. h })
          (record { counts = λ frames h. h }))
        (λ id handlers limits budget.
          recount _ (omega arith) (omega arith) (new-Balance limits.resources r))
        reached
