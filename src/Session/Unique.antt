-- ===== src/Session/Unique.antt =====
-- src/session.rs: the pending requests as a map, in which no id stands twice.
use vcmp_rs.Base.{subst, [], true, false, Text}
use vcmp_rs.Base.Assoc.{get, insert, remove, Distinct, remove-Distinct, insert-Distinct}
use vcmp_rs.Session.{Session, PendingEntry, Answer, dropped, release_both, close}
use vcmp_rs.Session.Sending.{take_pending, insert_pending}
use vcmp_rs.Session.Driving.{
  abort_tasks, stop_writer, clear_heartbeat, drain_pending, finish_close, shut_down,
}
use vcmp_rs.Session.Shapes.{
  Shape, shape, stop_writer-shape, reserve_both-shape, settle_found-shape, fail_pending-shape,
}
use vcmp_rs.Session.Upkeep.{Kit}

module _ {V H : Type 0} where
  -- No two pending requests have the same id.
  abbrev pub OneEach : Shape V H → Type 0
  OneEach s = Distinct s.pending

  pub takes-OneEach :
      (s : Session V H) (id : Text) (a : Answer V)
      → OneEach (shape s)
      → OneEach (shape (take_pending id a s))
  unfolding take_pending
  takes-OneEach s id a d =
      settle_found-shape OneEach (λ t xs q. q) (get id s.pending) a
        (record s { pending = remove id s.pending }) (remove-Distinct id s.pending d)

  pub inserts-OneEach :
      (s : Session V H) (id : Text) (x : PendingEntry)
      → OneEach (shape s)
      → OneEach (shape (insert_pending id x s))
  unfolding insert_pending
  inserts-OneEach s id x d =
      settle_found-shape OneEach (λ t xs q. q) (get id s.pending) dropped
        (record s { pending = insert id x s.pending }) (insert-Distinct id x s.pending d)

  close-OneEach : (s : Session V H) → OneEach (shape s) → OneEach (shape (close s))
  unfolding close
  close-OneEach s d =
      elim s.open_
        as (λ b. OneEach (
          shape
            (elim b [ true ↦ record s { open_ = false; close_requested = true } | false ↦ s ]))) [
              | true ↦ d
              | false ↦ d
            ]

  shut_down-OneEach : (s : Session V H) → OneEach (shape (shut_down s))
  unfolding shut_down finish_close drain_pending
  shut_down-OneEach s =
      let t : Session V H = clear_heartbeat (stop_writer (abort_tasks (close s))) in
      fail_pending-shape OneEach (λ t xs q. q) t.pending (record t { pending = [] }) tt

  pub OneEach-kit : Kit V H (λ held s. OneEach (shape s))
  OneEach-kit = record {
    reserves = λ {held} {s} r n e h.
        subst (λ t. OneEach (shape t.1)) e (reserve_both-shape OneEach r n s h);
    refuses = λ {held} {s} r n e h.
        subst (λ t. OneEach (shape t.1)) e (reserve_both-shape OneEach r n s h);
    releases = λ p h. unfold release_both in h;
    queues_control = λ text p e h. h;
    queues_data = λ text p e h. h;
    closes = λ {held} {s} h. close-OneEach s h;
    takes = λ {held} {s} id a h. takes-OneEach s id a h;
    inserts = λ {held} {s} id waiter p o h. inserts-OneEach s id _ h;
    ignores = λ ignored h. h;
    spawns = λ t o h. h;
    ends = λ before t after e h. h;
    dequeues_control = λ o rest e h. h;
    dequeues_data = λ o rest e h. h;
    writes = λ p wire e h. h;
    wrote = λ p e h. h;
    stops = λ {held} {s} h. stop_writer-shape OneEach s h;
    shuts = λ {held} {s} h. shut_down-OneEach s;
  }
