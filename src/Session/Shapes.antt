-- ===== src/Session/Shapes.antt =====
-- src/session.rs: what the parts of a method leave as it is. A property of the parts of a session in
-- a shape is kept by an admission, by dropping permits and by aborting timers.
use vcmp_rs.Base.{ℕ, List, [], ◌∷◌, Option, none, some, Bool, Result, ok, err, Text}
use vcmp_rs.Error.{VcmpError}
use vcmp_rs.Resources.{ResourceBudget, Resource, Permit, reserve}
use vcmp_rs.Session.{
  Session, Outgoing, PendingEntry, Answer, HandlerTask, Writer, idle, writing, stopped,
  reserve_both, reserve_local, reserve_global, release_both, abort_slot,
}
use vcmp_rs.Session.Sending.{settle, settle_found}
use vcmp_rs.Session.Driving.{
  release_queue, release_writing, stop_writer, release_tasks, fail_pending,
}

-- The part of a session that admission, the budgets and the timers do not touch.
pub record Shape (V H : Type 0) : Type 0 where
  pub closed : Bool
  pub open_ : Bool
  pub pending : List (Text × PendingEntry)
  pub out_queue : List Outgoing
  pub control_queue : List Outgoing
  pub writer : Writer
  pub tasks : List (HandlerTask V H)
  pub answers : List (ℕ × Answer V)

abbrev pub shape : {V H : Type 0} → Session V H → Shape V H
shape s = record {
  closed = s.closed;
  open_ = s.open_;
  pending = s.pending;
  out_queue = s.out_queue;
  control_queue = s.control_queue;
  writer = s.writer;
  tasks = s.tasks;
  answers = s.answers;
}

module _ {V H : Type 0} (Q : Shape V H → Type 0) where
  pub release_queue-shape :
      (os : List Outgoing) (s : Session V H) → Q (shape s) → Q (shape (release_queue os s))
  unfolding release_queue release_both
  release_queue-shape [] s q = q
  release_queue-shape (o ∷ os) s q = release_queue-shape os _ q

  pub release_writing-shape :
      (w : Writer) (s : Session V H) → Q (shape s) → Q (shape (release_writing w s))
  unfolding release_writing release_both
  release_writing-shape idle s q = q
  release_writing-shape (writing p) s q = q
  release_writing-shape stopped s q = q

  pub release_tasks-shape :
      (ts : List (HandlerTask V H)) (s : Session V H) → Q (shape s) → Q (shape (release_tasks ts s))
  unfolding release_tasks release_both
  release_tasks-shape [] s q = q
  release_tasks-shape (t ∷ ts) s q = release_tasks-shape ts _ q

  pub abort_slot-shape :
      (slot : Option ℕ) (s : Session V H) → Q (shape s) → Q (shape (abort_slot slot s))
  abort_slot-shape none s q = q
  abort_slot-shape (some t) s q = q

  pub stop_writer-shape :
      (s : Session V H)
      → Q (record (shape s) { writer = stopped; out_queue = []; control_queue = [] })
      → Q (shape (stop_writer s))
  unfolding stop_writer
  stop_writer-shape s q = release_queue-shape s.out_queue _ (
      release_queue-shape s.control_queue _ (
        release_writing-shape s.writer
          (record s { writer = stopped; out_queue = []; control_queue = [] }) q))

  pub reserve_global-shape :
      (p : Permit) (q : Result Permit (VcmpError V) × ResourceBudget) (s : Session V H)
      → Q (shape s)
      → Q (shape (reserve_global p q s).1)
  unfolding reserve_global
  reserve_global-shape p (ok g, b) s q = q
  reserve_global-shape p (err e, b) s q = q

  pub reserve_local-shape :
      (r : Resource) (n : ℕ) (q : Result Permit (VcmpError V) × ResourceBudget) (s : Session V H)
      → Q (shape s)
      → Q (shape (reserve_local r n q s).1)
  unfolding reserve_local
  reserve_local-shape r n (ok p, b) s q =
      reserve_global-shape p (reserve s.budget r n) (record s { local = b }) q
  reserve_local-shape r n (err e, b) s q = q

  pub reserve_both-shape :
      (r : Resource) (n : ℕ) (s : Session V H) → Q (shape s) → Q (shape (reserve_both r n s).1)
  unfolding reserve_both
  reserve_both-shape r n s q = reserve_local-shape r n (reserve s.local r n) s q

  module _
      (free : (t : Shape V H) (xs : List (ℕ × Answer V))
        → Q t
        → Q (record t { answers = xs })) where
    pub fail_pending-shape :
        (m : List (Text × PendingEntry)) (s : Session V H)
        → Q (shape s)
        → Q (shape (fail_pending m s))
    unfolding fail_pending release_both
    fail_pending-shape [] s q = q
    fail_pending-shape ((id, e) ∷ m) s q = fail_pending-shape m _ (free _ _ q)

    pub settle_found-shape :
        (e : Option PendingEntry) (a : Answer V) (s : Session V H)
        → Q (shape s)
        → Q (shape (settle_found e a s))
    unfolding settle_found settle release_both
    settle_found-shape none a s q = q
    settle_found-shape (some e) a s q = free _ _ q
