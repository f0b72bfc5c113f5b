-- ===== src/Session/Ending.antt =====
-- src/session.rs: what a closed session leaves behind.
use vcmp_rs.Base.{ℕ, ◌≡◌, refl, List, [], ◌∷◌, ◌++◌, true, false, Text, arith, ap, subst, sym, ◌∙◌}
use vcmp_rs.Base.Assoc.{get, insert, remove}
use vcmp_rs.Resources.{Resource}
use vcmp_rs.Resources.Balance.{column, volume}
use vcmp_rs.Session.{
  Json, Session, Permits, Outgoing, PendingEntry, Answer, dropped, Writer, idle, writing, stopped,
  release_both, close, spawn_admitted,
}
use vcmp_rs.Session.Sending.{has_slot, take_pending, insert_pending}
use vcmp_rs.Session.Driving.{
  stop_writer, abort_tasks, clear_heartbeat, drain_pending, finish_close, shut_down,
}
use vcmp_rs.Session.Shapes.{
  Shape, shape, release_tasks-shape, fail_pending-shape, abort_slot-shape, settle_found-shape,
  stop_writer-shape, reserve_both-shape,
}
use vcmp_rs.Session.Upkeep.{Kit}
use vcmp_rs.Session.Beating.{free_beats}
use vcmp_rs.Session.Reach.{Reach, Reach-keeps}
use vcmp_rs.Session.Admissions.{counts, weighs}
use vcmp_rs.Session.Accounts.{Reach-Accounted}
use vcmp_rs.Session.Weights.{weigh_pending, weigh_queue, weigh_writer, weigh_tasks, weigh_session}

has_slot-stopped :
    (queue : List Outgoing) (n : ℕ) (w : Writer) → w ≡ stopped → has_slot queue n w ≡ false
unfolding has_slot
has_slot-stopped queue n idle e = ground arith
has_slot-stopped queue n (writing p) e = ground arith
has_slot-stopped queue n stopped e = refl

mid-ne-nil : {A : Type 0} (before : List A) (t : A) (after : List A) → before ++ t ∷ after ≡ [] → ⊥
mid-ne-nil [] t after e = cc
mid-ne-nil (u ∷ before) t after e = cc

idle-ne-stopped : ◌≡◌ {A = Writer} idle stopped → ⊥
idle-ne-stopped e = cc

writing-ne-stopped : {p : Permits} → ◌≡◌ {A = Writer} (writing p) stopped → ⊥
writing-ne-stopped e = cc

module _ {V H : Type 0} where
  -- No frame is queued or being written, and no handler runs.
  abbrev pub Idle : Shape V H → Type 0
  Idle s = (s.out_queue ≡ []) × (s.control_queue ≡ []) × (s.writer ≡ stopped) × (s.tasks ≡ [])

  abbrev pub Settled : Shape V H → Type 0
  Settled s = (s.open_ ≡ false) × (s.pending ≡ []) × Idle s

  abbrev pub Ended : Session V H → Type 0
  Ended s = s.closed ≡ true → Settled (shape s)

  -- The shutdown settles the session, whatever state it was in.
  pub shut_down-Settled : (s : Session V H) → Settled (shape (shut_down s))
  unfolding shut_down finish_close drain_pending clear_heartbeat abort_tasks
  shut_down-Settled s =
      let no_tasks =
        release_tasks-shape (λ t. t.tasks ≡ []) (close s).tasks (record (close s) { tasks = [] })
          refl in
      let still = stop_writer-shape Idle (abort_tasks (close s)) (refl, refl, refl, no_tasks) in
      let quiet : Session V H = stop_writer (abort_tasks (close s)) in
      let cleared =
        abort_slot-shape (λ t. (t.open_ ≡ false) × Idle t) quiet.heartbeat.echo_slot _
          (abort_slot-shape (λ t. (t.open_ ≡ false) × Idle t) quiet.heartbeat.watchdog_slot _
            (refl, still)) in
      fail_pending-shape Settled (λ t xs q. q) (clear_heartbeat quiet).pending
        (record (clear_heartbeat quiet) { pending = [] }) (cleared.0, refl, cleared.1)

  takes-Ended : (s : Session V H) (id : Text) (a : Answer V) → Ended s → Ended (take_pending id a s)
  unfolding take_pending remove
  takes-Ended s id a h =
      settle_found-shape (λ t. t.closed ≡ true → Settled t) (λ t xs q. q) (get id s.pending) a
        (record s { pending = remove id s.pending })
        (λ c. let (off, none_left, still) = h c in (off, ap (remove id) none_left, still))

  close-Ended : (s : Session V H) → Ended s → Ended (close s)
  unfolding close
  close-Ended s h =
      elim s.open_
        as (λ b.
          Ended
            (elim b [ true ↦ record s { open_ = false; close_requested = true } | false ↦ s ])) [
              | true ↦ λ c. let (off, none_left, still) = h c in (refl, none_left, still)
              | false ↦ h
            ]

  inserts-Ended :
      (s : Session V H) (id : Text) (e : PendingEntry)
      → s.open_ ≡ true
      → Ended s
      → Ended (insert_pending id e s)
  unfolding insert_pending
  inserts-Ended s id e o h =
      settle_found-shape (λ t. t.closed ≡ true → Settled t) (λ t xs q. q) (get id s.pending) dropped
        (record s { pending = insert id e s.pending }) (λ c. absurd (ground (arith, (h c).0, o)))

  Ended-kit : Kit V H (λ held s. Ended s)
  Ended-kit = record {
    reserves = λ {held} {s} r n e h.
        subst (λ t. Ended t.1) e (reserve_both-shape (λ t. t.closed ≡ true → Settled t) r n s h);
    refuses = λ {held} {s} r n e h.
        subst (λ t. Ended t.1) e (reserve_both-shape (λ t. t.closed ≡ true → Settled t) r n s h);
    releases = λ p h. unfold release_both in h;
    queues_control = λ {held} {s} text p e h c. absurd (
        ground (
          arith,
          has_slot-stopped s.control_queue s.limits.resources.control_messages s.writer ((h c).2.2),
          e,
        ));
    queues_data = λ {held} {s} text p e h c. absurd (
        ground (
          arith,
          has_slot-stopped s.out_queue s.limits.resources.queued_messages s.writer ((h c).2.2),
          e,
        ));
    closes = λ {held} {s} h. close-Ended s h;
    takes = λ {held} {s} id a h. takes-Ended s id a h;
    inserts = λ {held} {s} id waiter p o h. inserts-Ended s id _ o h;
    ignores = λ ignored h. h;
    spawns = λ {held} {s} t o h c. absurd (ground (arith, o, c));
    ends =
        λ {held} {s} before t after e h c. absurd (mid-ne-nil before t after (sym e ∙ (h c).2.3));
    dequeues_control = λ {held} {s} o rest e h c. absurd (mid-ne-nil [] o rest (sym e ∙ (h c).2.1));
    dequeues_data = λ {held} {s} o rest e h c. absurd (mid-ne-nil [] o rest (sym e ∙ (h c).2.0));
    writes = λ {held} {s} p wire e h c. absurd (idle-ne-stopped (sym e ∙ (h c).2.2));
    wrote = λ {held} {s} p e h c. absurd (writing-ne-stopped (sym e ∙ (h c).2.2));
    stops = λ {held} {s} h.
        stop_writer-shape (λ t. t.closed ≡ true → Settled t) s
          (λ c. let (off, none_left, still) = h c in (off, none_left, (refl, refl, refl, still.3)));
    shuts = λ {held} {s} h c. shut_down-Settled s;
  }

  weigh-Settled : (w : Permits → ℕ) (s : Session V H) → Settled (shape s) → weigh_session w s ≡ 0
  weigh-Settled w s (off, none_left, (out, control, writer, tasks)) = omega (
    arith,
    ap (weigh_pending w) none_left,
    ap (weigh_queue w) out,
    ap (weigh_queue w) control,
    ap (weigh_writer w) writer,
    ap (weigh_tasks w) tasks,
  )

  -- Once a session is closed it stays as its shutdown left it: not open, with no request pending, no
  -- frame queued or being written and no handler running; and its local budget is all free again.
  pub closed-Settled :
      (json : Json V) (s : Session V H) (r : Resource)
      → Reach json s
      → s.closed ≡ true
      → Settled (shape s) × (column s.local.usage r ≡ 0) × (volume s.local.usage r ≡ 0)
  unfolding spawn_admitted
  closed-Settled json s r reached c =
      let settled =
        Reach-keeps Ended-kit
          (free_beats Ended-kit (record { changes = λ b ts n received h. h })
            (record { counts = λ frames h. h }))
          (λ id handlers limits budget h. absurd (ground arith)) reached c in
      let a = Reach-Accounted r json s reached in
      (
        settled,
        a.counted ∙ omega (arith, weigh-Settled (counts r) s settled),
        a.weighed ∙ omega (arith, weigh-Settled (weighs r) s settled),
      )
