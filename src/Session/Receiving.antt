-- ===== src/Session/Receiving.antt =====
-- src/session.rs: what a received frame does.
use vcmp_rs.Base.{
  List, [], ◌∷◌, ◌++◌, Option, none, some, Result, ok, err, ltb, if◌then◌else◌, Text, codes, length,
  is_empty,
}
use vcmp_rs.Base.Assoc.{get}
use vcmp_rs.Error.{
  VcmpError, new_error, bad_request, internal, with_detail, with_source, into_peer_error,
  from_problem,
}
use vcmp_rs.Frame.{Frame, FrameError, message, ack, nak, heartbeat, new_ack, new_nak, parse}
use vcmp_rs.Resources.{handler}
use vcmp_rs.Session.{
  Json, Session, Permits, Arrival, HandlerTask, answered, reserve_both, release_both, diagnose,
  close, incremented,
}
use vcmp_rs.Session.Sending.{write, take_pending}
use vcmp_rs.Session.Heartbeats.{handle_heartbeat}

-- The text of the fallback always serializes, which `expect` says; if not, the task panics.
unfoldable pub or_panic : Option Text → Text
or_panic none = []
or_panic (some t) = t

-- `.filter(|t| !t.is_empty())`.
unfoldable pub named_type : Option Text → Option Text
named_type none = none
named_type (some t) = if is_empty t then none else some t

module _ {V : Type 0} (json : Json V) where
  -- The error that a `NAK` stands for.
  unfoldable pub nak_error : Option Text → VcmpError V
  nak_error none =
      with_detail (internal (codes "Message handling failed"))
        (codes "Unspecified error in message handling.")
  nak_error (some payload) = elim (json.problem_from_str payload) [
    | ok p ↦ from_problem p
    | err e ↦
        with_source
          (with_detail (internal (codes "Message handling failed"))
            (codes "The NAK payload could not be parsed."))
          e
  ]

  unfoldable pub error_text : VcmpError V → Text
  unfolding or_panic
  error_text e = elim (json.problem_to_string e.problem) [
    | some t ↦ t
    | none ↦ or_panic (
        json.problem_to_string
          (with_detail (internal (codes "Message handling failed"))
            (codes "The handler error could not be serialized.")).problem)
  ]

  unfoldable pub parsed : Text → Option V
  parsed payload = if is_empty payload then some json.empty_object else json.from_str payload

module _ {V H : Type 0} where
  -- Sends `ACK` or `NAK` and leaves the result aside.
  unfoldable pub reply : Frame → Session V H → Session V H
  reply f s = let (_, s') = write f s in s'

  -- `handle_ack`: the entry is taken out, or the frame is late or unknown.
  unfoldable pub handle_ack : Text → Option Text → Arrival → Session V H → Session V H
  handle_ack id payload arrival s = elim (get id s.pending) [
    | some e ↦ take_pending id (answered (ok (payload, arrival))) s
    | none ↦ diagnose s
  ]

module _ {V H : Type 0} (json : Json V) where
  -- `handle_nak`.
  unfoldable pub handle_nak : Text → Option Text → Session V H → Session V H
  handle_nak id payload s = elim (get id s.pending) [
    | some e ↦ take_pending id (answered (err (into_peer_error (nak_error json payload)))) s
    | none ↦ diagnose s
  ]

  -- `Session::nak`.
  unfoldable pub send_nak : Text → VcmpError V → Session V H → Session V H
  unfolding error_text
  send_nak id e s = reply (new_nak id (some (error_text json e))) s

  -- An early return of `handle_message` drops the permits at its end.
  unfoldable pub refuse : Text → VcmpError V → Permits → Session V H → Session V H
  refuse id e p s = release_both p (send_nak id e (diagnose s))

  -- `tasks.spawn`.
  unfoldable pub spawn_task : Text → H → V → Arrival → Permits → Session V H → Session V H
  spawn_task id h v arrival p s = record s {
    tasks = record { id = id; handler = h; message = v; arrival = arrival; permits = p } ∷ s.tasks;
  }

  unfoldable pub dispatch : Text → Arrival → Permits → V → Session V H → Session V H
  unfolding named_type
  dispatch id arrival p v s = elim (named_type (json.type_of v)) [
    | none ↦
        refuse id
          (with_detail (bad_request (codes "Invalid message"))
            (codes "The message does not specify a type."))
          p s
    | some type ↦ elim (get type s.handlers) [
      | none ↦ release_both p (reply (new_nak id none) s)
      | some h ↦ spawn_task id h v arrival p s
    ]
  ]

  unfoldable pub admit_message :
      Text → Text → Arrival → Result Permits (VcmpError V) × Session V H → Session V H
  unfolding parsed
  admit_message id payload arrival (err e, s) = send_nak id e s
  admit_message id payload arrival (ok p, s) = elim (parsed json payload) [
    | none ↦
        refuse id
          (with_detail (bad_request (codes "Invalid message"))
            (codes "The message payload could not be parsed."))
          p s
    | some v ↦ dispatch id arrival p v s
  ]

  -- `handle_message`.
  unfoldable pub handle_message : Text → Text → Arrival → Session V H → Session V H
  handle_message id payload arrival s =
      admit_message id payload arrival (reserve_both handler (length payload) s)

  -- The next arrival, which only the read loop counts.
  unfoldable pub arrive : Session V H → Arrival × Session V H
  arrive s = (
    record { session = s.id; frame = incremented s.frames_received },
    record s { frames_received = incremented s.frames_received },
  )

  unfoldable pub handle_frame : Frame → Arrival × Session V H → Session V H
  handle_frame (heartbeat interval) (arrival, s) = handle_heartbeat interval s
  handle_frame (ack id payload) (arrival, s) = handle_ack id payload arrival s
  handle_frame (nak id payload) (arrival, s) = handle_nak id payload s
  handle_frame (message id payload) (arrival, s) = handle_message id payload arrival s

  unfoldable pub handle_parsed : Result Frame FrameError → Session V H → Session V H
  unfolding arrive
  handle_parsed (ok f) s = handle_frame f (arrive s)
  handle_parsed (err e) s = diagnose s

  -- `handle_incoming`.
  unfoldable pub handle_incoming : Text → Session V H → Session V H
  unfolding handle_parsed
  handle_incoming raw s =
      if ltb s.limits.max_message_bytes (length raw) then close s else handle_parsed (parse raw) s

  -- The end of a spawned handler: its result, or none past the deadline. Its permits are dropped
  -- after the reply.
  unfoldable pub handler_reply :
      Text → Option (Result (Option Text) (VcmpError V)) → Session V H → Session V H
  handler_reply id (some (ok payload)) s = reply (new_ack id payload) s
  handler_reply id (some (err e)) s = send_nak id e s
  handler_reply id none s = send_nak id (new_error 504 (codes "Handler timed out")) s

  unfoldable pub finish_task :
      List (HandlerTask V H)
      → HandlerTask V H
      → List (HandlerTask V H)
      → Option (Result (Option Text) (VcmpError V))
      → Session V H
      → Session V H
  unfolding handler_reply
  finish_task before t after outcome s =
      release_both t.permits (handler_reply t.id outcome (record s { tasks = before ++ after }))
