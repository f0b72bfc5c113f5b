-- ===== src/Session/Driving.antt =====
-- src/session.rs: the writer task, the read loop, and the end of a session.
use vcmp_rs.Base.{
  List, [], ◌∷◌, ◌++◌, Option, none, some, Bool, true, false, err, if◌then◌else◌, Text, codes,
}
use vcmp_rs.Error.{session_closed}
use vcmp_rs.Session.{
  Json, Session, Outgoing, PendingEntry, HandlerTask, answered, Writer, idle, writing, stopped,
  release_both, close, abort_slot,
}
use vcmp_rs.Session.Receiving.{handle_incoming}

module _ {V H : Type 0} where
  -- Dropping a queue drops the permits of its frames.
  unfoldable pub release_queue : List Outgoing → Session V H → Session V H
  release_queue [] s = s
  release_queue (o ∷ os) s = release_queue os (release_both o.permits s)

  unfoldable pub release_writing : Writer → Session V H → Session V H
  release_writing (writing p) s = release_both p s
  release_writing _ s = s

  -- The writer leaves its loop: the frame under way and the two queues are dropped.
  unfoldable pub stop_writer : Session V H → Session V H
  unfolding release_queue release_writing
  stop_writer s = release_queue s.out_queue (
      release_queue s.control_queue (
        release_writing s.writer
          (record s { writer = stopped; out_queue = []; control_queue = [] })))

  -- A frame is taken from a queue: it is written if the session is open, and ends the writer if not.
  unfoldable pub take_outgoing : Outgoing → Session V H → Session V H
  take_outgoing o s =
      if s.open_
      then record s { writer = writing o.permits; wire = s.wire ++ o.text ∷ [] }
      else stop_writer (release_both o.permits s)

  unfoldable pub next_outgoing : List Outgoing → List Outgoing → Session V H → Session V H
  unfolding take_outgoing
  next_outgoing (o ∷ rest) data_queue s = take_outgoing o (record s { control_queue = rest })
  next_outgoing [] (o ∷ rest) s = take_outgoing o (record s { out_queue = rest })
  next_outgoing [] [] s = s

  -- One turn of an idle writer: control frames go first.
  unfoldable pub writer_next : Session V H → Session V H
  unfolding next_outgoing
  writer_next s = elim s.writer [
    | idle ↦ next_outgoing s.control_queue s.out_queue s
    | writing p ↦ s
    | stopped ↦ s
  ]

  -- The write under way ends: in time and well, or not.
  unfoldable pub writer_done : Bool → Session V H → Session V H
  writer_done written s = elim s.writer [
    | idle ↦ s
    | writing p ↦
        if written then release_both p (record s { writer = idle }) else stop_writer (close s)
    | stopped ↦ s
  ]

  -- `tasks.abort_all()`, joined: every handler drops its permits.
  unfoldable pub release_tasks : List (HandlerTask V H) → Session V H → Session V H
  release_tasks [] s = s
  release_tasks (t ∷ ts) s = release_tasks ts (release_both t.permits s)

  unfoldable pub abort_tasks : Session V H → Session V H
  unfolding release_tasks
  abort_tasks s = release_tasks s.tasks (record s { tasks = [] })

  -- The first statements of `finish_close`.
  unfoldable pub clear_heartbeat : Session V H → Session V H
  clear_heartbeat s = abort_slot h.echo_slot (
      abort_slot h.watchdog_slot (record s {
        open_ = false;
        heartbeat = record h { watchdog_slot = none; echo_slot = none };
      }))
    where
      open s use {heartbeat as h}

  unfoldable pub fail_pending : List (Text × PendingEntry) → Session V H → Session V H
  fail_pending [] s = s
  fail_pending ((id, e) ∷ rest) s = fail_pending rest (record (release_both e.permits s) {
    answers =
        (
          e.waiter,
          answered (
              err (
                session_closed
                  (codes "The session was closed before the message was acknowledged."))),
        )
        ∷ s.answers;
  })

  -- `pending.drain()` under the lock, and an answer for each entry.
  unfoldable pub drain_pending : Session V H → Session V H
  unfolding fail_pending
  drain_pending s = fail_pending s.pending (record s { pending = [] })

  -- `finish_close`.
  unfoldable pub finish_close : Session V H → Session V H
  unfolding clear_heartbeat drain_pending
  finish_close s = record (drain_pending (clear_heartbeat s)) { closed = true }

  -- What follows the read loop in `drive`: by then the writer has ended, by itself or by an abort.
  unfoldable pub shut_down : Session V H → Session V H
  unfolding abort_tasks finish_close stop_writer
  shut_down s = finish_close (stop_writer (abort_tasks (close s)))

module _ {V H : Type 0} (json : Json V) where
  -- One turn of the read loop: a request to close, a text, or the end of the stream. The second
  -- part says whether the loop goes on.
  unfoldable pub read_turn : Option Text → Session V H → Session V H × Bool
  read_turn incoming s =
      if s.close_requested
      then (s, false)
      else elim incoming [ some raw ↦ (handle_incoming json raw s, true) | none ↦ (s, false) ]

  -- `drive` over the texts that the peer sends before the stream ends.
  unfoldable pub drive : List Text → Session V H → Session V H
  unfolding read_turn
  drive [] s = shut_down s
  drive (raw ∷ rest) s =
      let (s', more) = read_turn (some raw) s in
      let on = drive rest s' in if more then on else shut_down s'
