-- ===== src/Session/Counting.antt =====
-- src/session.rs: what leaves the count of received frames alone.
use vcmp_rs.Base.{ℕ, ◌≡◌, sym, subst, List, [], ◌∷◌, Option, none, some, Bool, true, false, Text}
use vcmp_rs.Base.Assoc.{get, insert, remove}
use vcmp_rs.Resources.{Resource}
use vcmp_rs.Session.{
  Session, Outgoing, PendingEntry, HandlerTask, Writer, idle, writing, stopped, Answer, dropped,
  release_both, close, abort_slot, reserve_both,
}
use vcmp_rs.Session.Sending.{take_pending, insert_pending, settle_found, settle}
use vcmp_rs.Session.Driving.{
  release_queue, release_writing, release_tasks, stop_writer, abort_tasks, clear_heartbeat,
  fail_pending, drain_pending, finish_close, shut_down,
}
use vcmp_rs.Session.Queueing.{reserve_both-Rebudgeted}
use vcmp_rs.Session.Upkeep.{Kit}
use vcmp_rs.Session.Beating.{Free}

module _ {V H : Type 0} (m i : ℕ) where
  -- The session of this id has received so many frames.
  abbrev pub At : Session V H → Type 0
  At s = (s.frames_received ≡ m) × (s.id ≡ i)

  pub close-At : (s : Session V H) → At s → At (close s)
  unfolding close
  close-At s h = go s.open_
    where
      go :
          (b : Bool)
          → At (elim b [ true ↦ record s { open_ = false; close_requested = true } | false ↦ s ])
      go true = h
      go false = h

  pub takes-At : (s : Session V H) (id : Text) (a : Answer V) → At s → At (take_pending id a s)
  unfolding take_pending settle_found settle release_both
  takes-At s id a h = go (get id s.pending)
    where
      go :
          (o : Option PendingEntry)
          → At (settle_found o a (record s { pending = remove id s.pending }))
      go none = h
      go (some e) = h

  inserts-At : (s : Session V H) (id : Text) (x : PendingEntry) → At s → At (insert_pending id x s)
  unfolding insert_pending settle_found settle release_both
  inserts-At s id x h = go (get id s.pending)
    where
      go :
          (o : Option PendingEntry)
          → At (settle_found o dropped (record s { pending = insert id x s.pending }))
      go none = h
      go (some e) = h

  release_queue-At : (os : List Outgoing) (s : Session V H) → At s → At (release_queue os s)
  unfolding release_queue release_both
  release_queue-At [] s h = h
  release_queue-At (o ∷ os) s h = release_queue-At os (release_both o.permits s) h

  release_writing-At : (w : Writer) (s : Session V H) → At s → At (release_writing w s)
  unfolding release_writing release_both
  release_writing-At idle s h = h
  release_writing-At (writing p) s h = h
  release_writing-At stopped s h = h

  pub stop_writer-At : (s : Session V H) → At s → At (stop_writer s)
  unfolding stop_writer
  stop_writer-At s h = release_queue-At s.out_queue _ (
      release_queue-At s.control_queue _ (
        release_writing-At s.writer
          (record s { writer = stopped; out_queue = []; control_queue = [] }) h))

  release_tasks-At :
      (ts : List (HandlerTask V H)) (s : Session V H) → At s → At (release_tasks ts s)
  unfolding release_tasks release_both
  release_tasks-At [] s h = h
  release_tasks-At (t ∷ ts) s h = release_tasks-At ts (release_both t.permits s) h

  fail_pending-At :
      (es : List (Text × PendingEntry)) (s : Session V H) → At s → At (fail_pending es s)
  unfolding fail_pending release_both
  fail_pending-At [] s h = h
  fail_pending-At ((id, e) ∷ es) s h = fail_pending-At es _ h

  abort_slot-At : (o : Option ℕ) (s : Session V H) → At s → At (abort_slot o s)
  abort_slot-At none s h = h
  abort_slot-At (some t) s h = h

  pub shut_down-At : (s : Session V H) → At s → At (shut_down s)
  unfolding shut_down finish_close drain_pending clear_heartbeat abort_tasks
  shut_down-At s h =
      let quiet : Session V H = stop_writer (abort_tasks (close s)) in
      let tasks =
        release_tasks-At (close s).tasks (record (close s) { tasks = [] }) (close-At s h) in
      let still = stop_writer-At (abort_tasks (close s)) tasks in
      fail_pending-At (clear_heartbeat quiet).pending
        (record (clear_heartbeat quiet) { pending = [] })
        (abort_slot-At quiet.heartbeat.echo_slot _
          (abort_slot-At quiet.heartbeat.watchdog_slot _ still))

  reserve-At : (r : Resource) (n : ℕ) (s : Session V H) → At s → At (reserve_both r n s).1
  reserve-At r n s h = let (l, b, e) = reserve_both-Rebudgeted r n s in subst At (sym e) h

  pub At-kit : Kit V H (λ held s. At s)
  At-kit = record {
    reserves = λ {held} {s} r n e h. subst (λ t. At t.1) e (reserve-At r n s h);
    refuses = λ {held} {s} r n e h. subst (λ t. At t.1) e (reserve-At r n s h);
    releases = λ p h. unfold release_both in h;
    queues_control = λ text p e h. h;
    queues_data = λ text p e h. h;
    closes = λ {held} {s} h. close-At s h;
    takes = λ {held} {s} id a h. takes-At s id a h;
    inserts = λ {held} {s} id waiter p o h. inserts-At s id _ h;
    ignores = λ ignored h. h;
    spawns = λ t o h. h;
    ends = λ before t after e h. h;
    dequeues_control = λ o rest e h. h;
    dequeues_data = λ o rest e h. h;
    writes = λ p wire e h. h;
    wrote = λ p e h. h;
    stops = λ {held} {s} h. stop_writer-At s h;
    shuts = λ {held} {s} h. shut_down-At s h;
  }

  pub beatless : Free V H (λ held s. At s)
  beatless = record { changes = λ b ts n received h. h }
