-- ===== src/Session/Weights.antt =====
-- src/session.rs: where a session keeps its permits. The permits that the pending requests, the
-- queues, the writer and the handlers hold, weighed by any function.
use vcmp_rs.Base.{ℕ, ◌+◌, ◌≡◌, refl, List, [], ◌∷◌, ◌++◌, none, some, Text, arith}
use vcmp_rs.Base.Assoc.{get, insert, remove}
use vcmp_rs.Session.{
  Session, Permits, Outgoing, PendingEntry, HandlerTask, Writer, idle, writing, stopped,
  release_both,
}
use vcmp_rs.Session.Driving.{release_queue, release_writing, release_tasks, fail_pending}

module _ (w : Permits → ℕ) where
  abbrev pub weigh_pending : List (Text × PendingEntry) → ℕ
  weigh_pending [] = 0
  weigh_pending ((id, e) ∷ m) = w e.permits + weigh_pending m

  abbrev pub weigh_queue : List Outgoing → ℕ
  weigh_queue [] = 0
  weigh_queue (o ∷ os) = w o.permits + weigh_queue os

  abbrev pub weigh_writer : Writer → ℕ
  weigh_writer idle = 0
  weigh_writer (writing p) = w p
  weigh_writer stopped = 0

  abbrev pub weigh_held : List Permits → ℕ
  weigh_held [] = 0
  weigh_held (p ∷ ps) = w p + weigh_held ps

  pub weigh_queue-append :
      (os : List Outgoing) (o : Outgoing)
      → weigh_queue (os ++ o ∷ []) ≡ weigh_queue os + w o.permits
  weigh_queue-append [] o = omega arith
  weigh_queue-append (q ∷ os) o = omega (arith, weigh_queue-append os o)

  pub weigh_pending-remove :
      (id : Text) (m : List (Text × PendingEntry)) (e : PendingEntry)
      → get id m ≡ some e
      → w e.permits + weigh_pending (remove id m) ≡ weigh_pending m
  unfolding get remove
  weigh_pending-remove id [] e h = ground arith
  weigh_pending-remove id ((j, d) ∷ m) e h = ground (arith, weigh_pending-remove id m e)

  pub weigh_pending-absent :
      (id : Text) (m : List (Text × PendingEntry))
      → get id m ≡ none
      → weigh_pending (remove id m) ≡ weigh_pending m
  unfolding get remove
  weigh_pending-absent id [] h = refl
  weigh_pending-absent id ((j, d) ∷ m) h = ground (arith, weigh_pending-absent id m)

  pub weigh_pending-insert :
      (id : Text) (m : List (Text × PendingEntry)) (e : PendingEntry)
      → get id m ≡ none
      → weigh_pending (insert id e m) ≡ w e.permits + weigh_pending m
  unfolding get insert
  weigh_pending-insert id [] e h = refl
  weigh_pending-insert id ((j, d) ∷ m) e h = ground (arith, weigh_pending-insert id m e)

  pub weigh_pending-replace :
      (id : Text) (m : List (Text × PendingEntry)) (e old : PendingEntry)
      → get id m ≡ some old
      → w old.permits + weigh_pending (insert id e m) ≡ w e.permits + weigh_pending m
  unfolding get insert
  weigh_pending-replace id [] e old h = ground arith
  weigh_pending-replace id ((j, d) ∷ m) e old h = ground (arith, weigh_pending-replace id m e old)

  module _ {V H : Type 0} where
    abbrev pub weigh_tasks : List (HandlerTask V H) → ℕ
    weigh_tasks [] = 0
    weigh_tasks (t ∷ ts) = w t.permits + weigh_tasks ts

    abbrev pub weigh_session : Session V H → ℕ
    weigh_session s =
        weigh_pending s.pending
        + (weigh_queue s.out_queue
            + (weigh_queue s.control_queue + (weigh_writer s.writer + weigh_tasks s.tasks)))

    pub weigh_tasks-mid :
        (before : List (HandlerTask V H)) (t : HandlerTask V H) (after : List (HandlerTask V H))
        → weigh_tasks (before ++ t ∷ after) ≡ w t.permits + weigh_tasks (before ++ after)
    weigh_tasks-mid [] t after = refl
    weigh_tasks-mid (u ∷ before) t after = omega (arith, weigh_tasks-mid before t after)

    -- Dropping permits that are out of the session's state leaves the rest where it is.
    pub weigh-release_queue :
        (os : List Outgoing) (s : Session V H)
        → weigh_session (release_queue os s) ≡ weigh_session s
    unfolding release_queue release_both
    weigh-release_queue [] s = refl
    weigh-release_queue (o ∷ os) s = weigh-release_queue os (release_both o.permits s)

    pub weigh-release_writing :
        (x : Writer) (s : Session V H) → weigh_session (release_writing x s) ≡ weigh_session s
    unfolding release_writing release_both
    weigh-release_writing idle s = refl
    weigh-release_writing (writing p) s = refl
    weigh-release_writing stopped s = refl

    pub weigh-release_tasks :
        (ts : List (HandlerTask V H)) (s : Session V H)
        → weigh_session (release_tasks ts s) ≡ weigh_session s
    unfolding release_tasks release_both
    weigh-release_tasks [] s = refl
    weigh-release_tasks (t ∷ ts) s = weigh-release_tasks ts (release_both t.permits s)

    pub weigh-fail_pending :
        (m : List (Text × PendingEntry)) (s : Session V H)
        → weigh_session (fail_pending m s) ≡ weigh_session s
    unfolding fail_pending release_both
    weigh-fail_pending [] s = refl
    weigh-fail_pending ((id, e) ∷ m) s = weigh-fail_pending m _
