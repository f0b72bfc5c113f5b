-- ===== src/Session/Waiting.antt =====
-- src/session.rs: the waiters of requests, and the answers that reach their channels.
use vcmp_rs.Base.{
  ℕ, ◌+◌, ◌≡◌, refl, ◌⊎◌, inl, inr, List, [], ◌∷◌, some, Bool, true, false, Result, ok, err, Text,
  arith, ap, subst, sym, ◌∙◌, Option-cases, Bool-cases, text_eq, text_eq_iff, if◌then◌else◌, leb,
  length, codes, err-ne-ok,
}
use vcmp_rs.Base.Exec.{require, ◌>>=◌, ◌>>◌, bind_ok}
use vcmp_rs.Base.Assoc.{get, insert, get-insert, get-remove}
use vcmp_rs.Error.{VcmpError, session_not_open, new_error}
use vcmp_rs.Frame.{message, serialize}
use vcmp_rs.Resources.{request}
use vcmp_rs.Session.{
  Json, Session, Permits, PendingEntry, Answer, dropped, reserve_both, release_both, close,
}
use vcmp_rs.Session.Sending.{
  Method, enqueue, take_pending, insert_pending, register, cleanup_on_error, exchange, settle,
  settle_found, overhead,
}
use vcmp_rs.Session.Driving.{
  abort_tasks, stop_writer, clear_heartbeat, fail_pending, drain_pending, finish_close, shut_down,
}
use vcmp_rs.Session.Shapes.{
  Shape, shape, release_tasks-shape, abort_slot-shape, stop_writer-shape, reserve_both-shape,
}
use vcmp_rs.Session.Upkeep.{Kit, enqueue-keeps}
use vcmp_rs.Session.Beating.{free_beats}
use vcmp_rs.Session.Reach.{Reach, then_turn, sends, Turns, Turns-keeps, Turns-Reach}
use vcmp_rs.Session.Ending.{closed-Settled}
use vcmp_rs.Session.Waiters.{
  Answered, Answered-cons, Answered-here, Pending, get-here, get-there, waiter_of, same_waiter,
  nothing-pending,
}

module _ {V H : Type 0} (w : ℕ) where
  abbrev pub Waits : Shape V H → Type 0
  Waits s = Pending w s.pending ⊎ Answered w s.answers

  -- An entry whose answer was sent has left the pending map.
  takes-Waits :
      (s : Session V H) (id : Text) (a : Answer V)
      → Waits (shape s)
      → Waits (shape (take_pending id a s))
  unfolding take_pending settle_found settle release_both
  takes-Waits s id a (inr x) = elim (Option-cases (get id s.pending)) [
    | inl e ↦ rw (e, take_pending) (inr x)
    | inr (d, e) ↦ rw (e, take_pending) (inr (Answered-cons w d.waiter a s.answers x))
  ]
  takes-Waits s id a (inl (j, e, g, h)) = elim (Option-cases (get id s.pending)) [
    | inl f ↦
        rw (f, take_pending)
          (inl (j, e, get-remove id j s.pending (ground (arith, text_eq_iff id j)) ∙ g, h))
    | inr (d, f) ↦ elim (Bool-cases (text_eq id j)) [
      | inl same ↦
          rw (f, take_pending)
            (inr
              (Answered-here w d.waiter a s.answers (same_waiter id j s.pending d e same f g ∙ h)))
      | inr other ↦ rw (f, take_pending) (inl (j, e, get-remove id j s.pending other ∙ g, h))
    ]
  ]

  inserts-Waits :
      (s : Session V H) (id : Text) (x : PendingEntry)
      → Waits (shape s)
      → Waits (shape (insert_pending id x s))
  unfolding insert_pending settle_found settle release_both
  inserts-Waits s id x (inr a) = elim (Option-cases (get id s.pending)) [
    | inl e ↦ rw (e, insert_pending) (inr a)
    | inr (d, e) ↦ rw (e, insert_pending) (inr (Answered-cons w d.waiter dropped s.answers a))
  ]
  inserts-Waits s id x (inl (j, e, g, h)) = elim (Option-cases (get id s.pending)) [
    | inl f ↦
        rw (f, insert_pending)
          (inl (j, e, get-insert id j x s.pending ∙ ground (arith, text_eq_iff id j), h))
    | inr (d, f) ↦ elim (Bool-cases (text_eq id j)) [
      | inl same ↦
          rw (f, insert_pending)
            (inr (
              Answered-here w d.waiter dropped s.answers
                (same_waiter id j s.pending d e same f g ∙ h)))
      | inr other ↦
          rw (f, insert_pending) (inl (j, e, get-insert id j x s.pending ∙ rw (other) g, h))
    ]
  ]

  -- The new entry waits.
  registers-Waits :
      (s : Session V H) (id : Text) (p : Permits)
      → Waits (shape (insert_pending id (record { waiter = w; permits = p }) s))
  unfolding insert_pending settle_found settle release_both
  registers-Waits s id p =
      let x : PendingEntry = record { waiter = w; permits = p } in
      let found : get id (insert id x s.pending) ≡ some x =
        get-insert id id x s.pending ∙ ground (arith, text_eq_iff id id) in
      elim (Option-cases (get id s.pending)) [
        | inl e ↦ rw (e, insert_pending) (inl (id, x, found, refl))
        | inr (d, e) ↦ rw (e, insert_pending) (inl (id, x, found, refl))
      ]

  fail_pending-Answered :
      (m : List (Text × PendingEntry)) (s : Session V H)
      → Pending w m ⊎ Answered w s.answers
      → Answered w (fail_pending m s).answers
  unfolding fail_pending release_both
  fail_pending-Answered [] s (inr a) = a
  fail_pending-Answered [] s (inl (j, e, g, h)) = absurd (unfold get in ground arith)
  fail_pending-Answered ((id, d) ∷ m) s (inr a) =
      fail_pending-Answered m _ (inr (Answered-cons w d.waiter _ s.answers a))
  fail_pending-Answered ((id, d) ∷ m) s (inl (j, e, g, h)) = elim (Bool-cases (text_eq id j)) [
    | inl same ↦ fail_pending-Answered m _ (
        inr
          (Answered-here w d.waiter _ s.answers (waiter_of (sym (get-here id j d m same) ∙ g) ∙ h)))
    | inr other ↦ fail_pending-Answered m _ (inl (j, e, sym (get-there id j d m other) ∙ g, h))
  ]

  close-Waits : (s : Session V H) → Waits (shape s) → Waits (shape (close s))
  unfolding close
  close-Waits s x =
      elim s.open_
        as (λ b. Waits (
          shape
            (elim b [ true ↦ record s { open_ = false; close_requested = true } | false ↦ s ]))) [
              | true ↦ x
              | false ↦ x
            ]

  shut_down-Waits : (s : Session V H) → Waits (shape s) → Waits (shape (shut_down s))
  unfolding shut_down finish_close drain_pending clear_heartbeat abort_tasks
  shut_down-Waits s x =
      let quiet : Session V H = stop_writer (abort_tasks (close s)) in
      let aborted =
        release_tasks-shape Waits (close s).tasks (record (close s) { tasks = [] })
          (close-Waits s x) in
      let stopped = stop_writer-shape Waits (abort_tasks (close s)) aborted in
      let cleared =
        abort_slot-shape Waits quiet.heartbeat.echo_slot _
          (abort_slot-shape Waits quiet.heartbeat.watchdog_slot _ stopped) in
      inr (
        fail_pending-Answered (clear_heartbeat quiet).pending
          (record (clear_heartbeat quiet) { pending = [] }) cleared)

  waiting_kit : Kit V H (λ held s. Waits (shape s))
  waiting_kit = record {
    reserves =
        λ {held} {s} r n e h. subst (λ t. Waits (shape t.1)) e (reserve_both-shape Waits r n s h);
    refuses =
        λ {held} {s} r n e h. subst (λ t. Waits (shape t.1)) e (reserve_both-shape Waits r n s h);
    releases = λ p h. unfold release_both in h;
    queues_control = λ text p e h. h;
    queues_data = λ text p e h. h;
    closes = λ {held} {s} h. close-Waits s h;
    takes = λ {held} {s} id a h. takes-Waits s id a h;
    inserts = λ {held} {s} id waiter p o h. inserts-Waits s id _ h;
    ignores = λ ignored h. h;
    spawns = λ t o h. h;
    ends = λ before t after e h. h;
    dequeues_control = λ o rest e h. h;
    dequeues_data = λ o rest e h. h;
    writes = λ p wire e h. h;
    wrote = λ p e h. h;
    stops = λ {held} {s} h. stop_writer-shape Waits s h;
    shuts = λ {held} {s} h. shut_down-Waits s h;
  }

  register-Waits :
      (id : Text) (p : Permits) (s : Session V H) (u : Unit {0})
      → (register id w p s).0 ≡ ok u
      → Waits (shape (register id w p s).1)
  unfolding register
  register-Waits id p s u h = go s.open_ h
    where
      Outcome : Type 0
      Outcome = Result (Unit {0}) (VcmpError V) × Session V H

      joins : Outcome
      joins = (ok tt, insert_pending id (record { waiter = w; permits = p }) s)

      fails : Outcome
      fails = (
        err (session_not_open (codes "Cannot send message: the WebSocket is not open.")),
        release_both p s,
      )

      choice : Bool → Outcome
      choice b = if b then joins else fails

      go : (b : Bool) → (choice b).0 ≡ ok u → Waits (shape (choice b).1)
      go true h = registers-Waits s id p
      go false h = absurd (err-ne-ok h)

  cleanup-Waits :
      (id : Text) (r : Result (Unit {0}) (VcmpError V)) (s : Session V H) (u : Unit {0})
      → (cleanup_on_error id (r, s)).0 ≡ ok u
      → Waits (shape s)
      → Waits (shape (cleanup_on_error id (r, s)).1)
  unfolding cleanup_on_error
  cleanup-Waits id (ok v) s u h x = x
  cleanup-Waits id (err e) s u h x = absurd (err-ne-ok h)

  -- A send that has been queued waits for its answer.
  exchange-Waits :
      (id payload : Text) (s : Session V H) (u : Unit {0})
      → (exchange id w payload s).0 ≡ ok u
      → Waits (shape (exchange id w payload s).1)
  unfolding exchange
  exchange-Waits id payload s u h =
      let queue : Method V H (Unit {0}) =
        λ s. cleanup_on_error id (enqueue (serialize (message id payload)) false s) in
      let admitted : Permits → Method V H (Unit {0}) = λ p. register id w p >> queue in
      let guard : Method V H (Unit {0}) =
        require (λ s. leb (length payload + overhead) s.limits.max_message_bytes)
          (new_error 413 (codes "Message too large")) in
      let (u1, e1, f1) = bind_ok guard (λ _. reserve_both request 0 >>= admitted) s u h in
      let s1 : Session V H = (guard s).1 in
      let h1 : ((reserve_both request 0 >>= admitted) s1).0 ≡ ok u = ap (λ t. t.0) (sym f1) ∙ h in
      let (p, e2, f2) = bind_ok (reserve_both request 0) admitted s1 u h1 in
      let s2 : Session V H = (reserve_both request 0 s1).1 in
      let h2 : (admitted p s2).0 ≡ ok u = ap (λ t. t.0) (sym f2) ∙ h1 in
      let (u3, e3, f3) = bind_ok (register id w p) (λ _. queue) s2 u h2 in
      let s3 : Session V H = (register id w p s2).1 in
      let h3 : (queue s3).0 ≡ ok u = ap (λ t. t.0) (sym f3) ∙ h2 in
      let queued : Waits (shape (queue s3).1) = cleanup-Waits id _ _ u h3 (
        enqueue-keeps waiting_kit {held = []} (serialize (message id payload)) false
          (register-Waits id p s2 u3 e3)) in
      subst (λ t. Waits (shape t.1)) (sym (f1 ∙ f2 ∙ f3)) queued

  -- A send whose message was queued does not wait for ever: whatever happens after it, when the
  -- session has closed, the waiter has been answered or its sender was dropped.
  pub closed-Answered :
      (json : Json V) (s t : Session V H) (id payload : Text) (u : Unit {0})
      → Reach json s
      → (exchange id w payload s).0 ≡ ok u
      → Turns json (exchange id w payload s).1 t
      → t.closed ≡ true
      → Answered w t.answers
  closed-Answered json s t id payload u reached sent turns c =
      let there = Turns-Reach (then_turn reached (sends id w payload)) turns in
      let (settled, _, _) = closed-Settled json t request there c in
      elim (Turns-keeps waiting_kit
        (free_beats waiting_kit (record { changes = λ b ts n received h. h })
          (record { counts = λ frames h. h }))
        turns (exchange-Waits id payload s u sent)) [
          | inr a ↦ a
          | inl (j, e, g, h) ↦ absurd (nothing-pending j t.pending e settled.1 g)
        ]
