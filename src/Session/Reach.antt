-- ===== src/Session/Reach.antt =====
-- src/session.rs: the turns that a session takes, one for each event, in any order, and the
-- sessions that are reached from a fresh one.
use vcmp_rs.Base.{
  ℕ, ◌≡◌, refl, List, [], ◌∷◌, ◌++◌, Option, none, some, Bool, false, Result, ok, err, Text,
  if◌then◌else◌,
}
use vcmp_rs.Error.{VcmpError}
use vcmp_rs.Frame.{Frame, FrameError, message, ack, nak, heartbeat, parse}
use vcmp_rs.Resources.{ResourceBudget}
use vcmp_rs.Session.{
  Json, Session, SessionLimits, Permits, Outgoing, Arrival, HandlerTask, Timer, Writer, idle,
  writing, stopped, release_both, close, spawn_admitted,
}
use vcmp_rs.Session.Sending.{send_raw, exchange, exchange_result, cancel_exchange}
use vcmp_rs.Session.Heartbeats.{send_heartbeat, expect_heartbeat, fire}
use vcmp_rs.Session.Receiving.{
  send_nak, handle_frame, handle_parsed, handle_incoming, handler_reply, finish_task,
}
use vcmp_rs.Session.Driving.{
  take_outgoing, next_outgoing, stop_writer, writer_next, writer_done, shut_down,
}
use vcmp_rs.Session.Upkeep.{Kit, send_raw-keeps, exchange-keeps, exchange_result-keeps}
use vcmp_rs.Session.Beating.{Beats}
use vcmp_rs.Session.Turns.{
  choose, diagnose-keeps, reply-keeps, handle_ack-keeps, handle_nak-keeps, handle_message-keeps,
}

module _ {V H : Type 0} {P : List Permits → Session V H → Type 0} (kit : Kit V H P) where
  take_outgoing-keeps :
      {held : List Permits} {s : Session V H} (o : Outgoing)
      → s.writer ≡ idle
      → P (o.permits ∷ held) s
      → P held (take_outgoing o s)
  unfolding take_outgoing
  take_outgoing-keeps {s} o w h =
      choose kit _ _ s.open_ (kit.writes o.permits _ w h) (kit.stops (kit.releases o.permits h))

  pub writer_next-keeps :
      {held : List Permits} (s : Session V H) → P held s → P held (writer_next s)
  unfolding writer_next
  writer_next-keeps {held} s h = go s.writer refl
    where
      pick :
          (control data_queue : List Outgoing)
          → s.control_queue ≡ control
          → s.out_queue ≡ data_queue
          → s.writer ≡ idle
          → P held (next_outgoing control data_queue s)
      pick (o ∷ rest) data_queue c d w = take_outgoing-keeps o w (kit.dequeues_control o rest c h)
      pick [] (o ∷ rest) c d w = take_outgoing-keeps o w (kit.dequeues_data o rest d h)
      pick [] [] c d w = h

      go :
          (w : Writer)
          → s.writer ≡ w
          → P held (elim w [
            | idle ↦ next_outgoing s.control_queue s.out_queue s
            | writing p ↦ s
            | stopped ↦ s
          ])
      go idle w = pick s.control_queue s.out_queue refl refl w
      go (writing p) w = h
      go stopped w = h

  pub writer_done-keeps :
      {held : List Permits} (s : Session V H) (written : Bool)
      → P held s
      → P held (writer_done written s)
  unfolding writer_done
  writer_done-keeps {held} s written h = go s.writer refl
    where
      go :
          (w : Writer)
          → s.writer ≡ w
          → P held (elim w [
            | idle ↦ s
            | writing p ↦
                if written
                then release_both p (record s { writer = idle })
                else stop_writer (close s)
            | stopped ↦ s
          ])
      go idle w = h
      go (writing p) w =
          choose kit _ _ written (kit.releases p (kit.wrote p w h)) (kit.stops (kit.closes h))
      go stopped w = h

  module _ (pulse : Beats V H P) (json : Json V) where
    handle_frame-keeps :
        {held : List Permits} {s : Session V H} (f : Frame) (arrival : Arrival)
        → s.closed ≡ false
        → P held s
        → P held (handle_frame json f (arrival, s))
    unfolding handle_frame
    handle_frame-keeps (heartbeat interval) arrival o h = pulse.hears interval h
    handle_frame-keeps (ack id payload) arrival o h = handle_ack-keeps kit id payload arrival h
    handle_frame-keeps (nak id payload) arrival o h = handle_nak-keeps kit json id payload h
    handle_frame-keeps (message id payload) arrival o h =
        handle_message-keeps kit json id payload arrival o h

    handle_incoming-keeps :
        {held : List Permits} {s : Session V H} (raw : Text)
        → s.closed ≡ false
        → P held s
        → P held (handle_incoming json raw s)
    unfolding handle_incoming
    handle_incoming-keeps {held} {s} raw o h = choose kit _ _ _ (kit.closes h) (go (parse raw))
      where
        go : (r : Result Frame FrameError) → P held (handle_parsed json r s)
        go (err e) = diagnose-keeps kit h
        go (ok f) = handle_frame-keeps f _ o (pulse.arrives _ h)

  module _ (json : Json V) where
    handler_reply-keeps :
        {held : List Permits} {s : Session V H} (id : Text)
        (outcome : Option (Result (Option Text) (VcmpError V)))
        → P held s
        → P held (handler_reply json id outcome s)
    unfolding handler_reply send_nak
    handler_reply-keeps id (some (ok payload)) h = reply-keeps kit _ h
    handler_reply-keeps id (some (err e)) h = reply-keeps kit _ h
    handler_reply-keeps id none h = reply-keeps kit _ h

    pub finish_task-keeps :
        {held : List Permits} {s : Session V H} (before : List (HandlerTask V H))
        (t : HandlerTask V H) (after : List (HandlerTask V H))
        (outcome : Option (Result (Option Text) (VcmpError V)))
        → s.tasks ≡ before ++ t ∷ after
        → P held s
        → P held (finish_task json before t after outcome s)
    unfolding finish_task
    finish_task-keeps before t after outcome e h =
        kit.releases t.permits (handler_reply-keeps t.id outcome (kit.ends before t after e h))

-- What can happen to a session. A text is received, and a handler ends, only while the read loop's
-- task has not finished.
pub data Turn {V H : Type 0} (json : Json V) : Session V H → Session V H → Type 0 where
  sends :
      {s : Session V H} (id : Text) (waiter : ℕ) (payload : Text)
      → Turn json s (exchange id waiter payload s).1
  resolves :
      {s : Session V H} (id : Text) (waiter : ℕ) (expired : Bool)
      → Turn json s (exchange_result id waiter expired s).1
  cancels : {s : Session V H} (id : Text) → Turn json s (cancel_exchange id s)
  sends_raw : {s : Session V H} (raw : Text) → Turn json s (send_raw raw s).1
  receives :
      {s : Session V H} (raw : Text) → s.closed ≡ false → Turn json s (handle_incoming json raw s)
  handles :
      {s : Session V H} (before : List (HandlerTask V H)) (t : HandlerTask V H)
      (after : List (HandlerTask V H)) (outcome : Option (Result (Option Text) (VcmpError V)))
      → s.tasks ≡ before ++ t ∷ after
      → Turn json s (finish_task json before t after outcome s)
  beats : {s : Session V H} (interval : ℕ) → Turn json s (send_heartbeat interval s)
  expects : {s : Session V H} (timeout : ℕ) → Turn json s (expect_heartbeat timeout s)
  fires : {s : Session V H} (t : Timer) → Turn json s (fire t s)
  takes_frame : {s : Session V H} → Turn json s (writer_next s)
  ends_write : {s : Session V H} (written : Bool) → Turn json s (writer_done written s)
  stops_writer : {s : Session V H} → Turn json s (stop_writer s)
  closes : {s : Session V H} → Turn json s (close s)
  shuts : {s : Session V H} → Turn json s (shut_down s)

pub data Reach {V H : Type 0} (json : Json V) : Session V H → Type 0 where
  spawned :
      (id : ℕ) (handlers : List (Text × H)) (limits : SessionLimits) (budget : ResourceBudget)
      → Reach json (spawn_admitted id handlers limits budget)
  then_turn : {s t : Session V H} → Reach json s → Turn json s t → Reach json t

module _ {V H : Type 0} {P : List Permits → Session V H → Type 0} (kit : Kit V H P)
    (pulse : Beats V H P) {json : Json V} where
  pub Turn-keeps : {s t : Session V H} → Turn json s t → P [] s → P [] t
  unfolding cancel_exchange
  Turn-keeps (sends id waiter payload) h = exchange-keeps kit id waiter payload h
  Turn-keeps (resolves id waiter expired) h = exchange_result-keeps kit id waiter expired h
  Turn-keeps (cancels id) h = kit.takes id _ h
  Turn-keeps (sends_raw raw) h = send_raw-keeps kit raw h
  Turn-keeps (receives raw o) h = handle_incoming-keeps kit pulse json raw o h
  Turn-keeps (handles before t after outcome e) h =
      finish_task-keeps kit json before t after outcome e h
  Turn-keeps (beats interval) h = pulse.beats interval h
  Turn-keeps (expects timeout) h = pulse.expects timeout h
  Turn-keeps (fires t) h = pulse.fires t h
  Turn-keeps {s} takes_frame h = writer_next-keeps kit s h
  Turn-keeps {s} (ends_write written) h = writer_done-keeps kit s written h
  Turn-keeps stops_writer h = kit.stops h
  Turn-keeps closes h = kit.closes h
  Turn-keeps shuts h = kit.shuts h

  pub Reach-keeps :
      ((id : ℕ) (handlers : List (Text × H)) (limits : SessionLimits) (budget : ResourceBudget)
        → P [] (spawn_admitted id handlers limits budget))
      → {s : Session V H} → Reach json s
      → P [] s
  Reach-keeps start (spawned id handlers limits budget) = start id handlers limits budget
  Reach-keeps start (then_turn r t) = Turn-keeps t (Reach-keeps start r)

-- Any number of turns.
pub data Turns {V H : Type 0} (json : Json V) : Session V H → Session V H → Type 0 where
  done : {s : Session V H} → Turns json s s
  more : {s t u : Session V H} → Turns json s t → Turn json t u → Turns json s u

module _ {V H : Type 0} {P : List Permits → Session V H → Type 0} (kit : Kit V H P)
    (pulse : Beats V H P) {json : Json V} where
  pub Turns-keeps : {s t : Session V H} → Turns json s t → P [] s → P [] t
  Turns-keeps done h = h
  Turns-keeps (more ts t) h = Turn-keeps kit pulse t (Turns-keeps ts h)

pub Turns-Reach :
    {V H : Type 0} {json : Json V} {s t : Session V H}
    → Reach json s
    → Turns json s t
    → Reach json t
Turns-Reach r done = r
Turns-Reach r (more ts t) = then_turn (Turns-Reach r ts) t
