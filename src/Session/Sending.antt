-- ===== src/Session/Sending.antt =====
-- src/session.rs: queueing frames, the requests that await an acknowledgement, and sending.
use vcmp_rs.Base.{
  ℕ, ◌+◌, List, [], ◌∷◌, ◌++◌, Option, none, some, Bool, true, false, not, Result, ok, err, max,
  ltb, leb, is_ok, if◌then◌else◌, Text, codes, length, text_eq, ◌==◌,
}
use vcmp_rs.Base.Assoc.{get, insert, remove}
use vcmp_rs.Base.Exec.{Exec, ◌>>=◌, ◌>>◌, require}
use vcmp_rs.Error.{
  VcmpError, new_error, session_not_open, session_closed, transport_overloaded,
  acknowledgement_timeout,
}
use vcmp_rs.Frame.{Frame, message, serialize}
use vcmp_rs.Resources.{Resource, request, data_frame, control}
use vcmp_rs.Session.{
  Session, Permits, Outgoing, PendingEntry, Arrival, Answer, answered, dropped, Writer, stopped,
  reserve_both, release_both, close,
}

-- `payload.len().saturating_add(15)`: the id and the type in front of a payload.
abbrev pub overhead : ℕ
overhead = 15

-- A method that may fail.
abbrev pub Method : Type 0 → Type 0 → Type 0 → Type 0
Method V H A = Exec (Session V H) A (VcmpError V)

-- The channel takes a frame while the writer runs and a slot is free; the frame is dropped, and
-- its permits with it, if not. A channel has at least one slot.
unfoldable pub has_slot : List Outgoing → ℕ → Writer → Bool
has_slot queue slots stopped = false
has_slot queue slots _ = ltb (length queue) (max slots 1)

unfoldable pub resource_of : Bool → Resource
resource_of true = control
resource_of false = data_frame

unfoldable pub starts_with_msg : Text → Bool
starts_with_msg (a ∷ b ∷ c ∷ _) = text_eq (a ∷ b ∷ c ∷ []) (codes "MSG")
starts_with_msg _ = false

module _ {V H : Type 0} where
  unfoldable pub overload : Permits → Method V H (Unit {0})
  overload p s = (err transport_overloaded, release_both p s)

  unfoldable pub try_send : Bool → Text → Permits → Method V H (Unit {0})
  unfolding has_slot overload
  try_send true text p s =
      if has_slot s.control_queue s.limits.resources.control_messages s.writer
      then (
        ok tt,
        record s { control_queue = s.control_queue ++ record { text = text; permits = p } ∷ [] },
      )
      else overload p s
  try_send false text p s =
      if has_slot s.out_queue s.limits.resources.queued_messages s.writer
      then (ok tt, record s { out_queue = s.out_queue ++ record { text = text; permits = p } ∷ [] })
      else overload p s

  -- `Session::enqueue`.
  unfoldable pub enqueue : Text → Bool → Method V H (Unit {0})
  enqueue text is_control = do
    require (λ s. s.open_) (session_not_open (codes "The session is not open."))
    require (λ s. leb (length text) s.limits.max_message_bytes)
        (new_error 413 (codes "Message too large"))
    permits ← reserve_both (resource_of is_control) (length text)
    try_send is_control text permits

  -- `Session::write`: a control frame that cannot be queued disconnects.
  unfoldable pub write : Frame → Session V H → Bool × Session V H
  write frame s =
      let (r, s') = enqueue (serialize frame) true s in
      if is_ok r then (true, s') else (false, close s')

  -- `Session::send_raw`.
  unfoldable pub send_raw : Text → Session V H → Bool × Session V H
  send_raw raw s = let (r, s') = enqueue raw (not (starts_with_msg raw)) s in (is_ok r, s')

  -- The result that reaches a waiter. The permits of an entry go with it.
  unfoldable pub settle : PendingEntry → Answer V → Session V H → Session V H
  settle e a s = record (release_both e.permits s) { answers = (e.waiter, a) ∷ s.answers }

  unfoldable pub settle_found : Option PendingEntry → Answer V → Session V H → Session V H
  unfolding settle
  settle_found none a s = s
  settle_found (some e) a s = settle e a s

  -- `take_pending`, and what is then sent to the waiter of the entry; dropping the sender is an
  -- answer too.
  unfoldable pub take_pending : Text → Answer V → Session V H → Session V H
  take_pending id a s =
      settle_found (get id s.pending) a (record s { pending = remove id s.pending })

  -- `pending.insert`: an entry of the same id would lose its sender and its permits.
  unfoldable pub insert_pending : Text → PendingEntry → Session V H → Session V H
  insert_pending id e s =
      settle_found (get id s.pending) dropped (record s { pending = insert id e s.pending })

  -- The block under the `pending` lock.
  unfoldable pub register : Text → ℕ → Permits → Method V H (Unit {0})
  register id waiter p s =
      if s.open_ then (ok tt, insert_pending id (record { waiter = waiter; permits = p }) s) else (
        err (session_not_open (codes "Cannot send message: the WebSocket is not open.")),
        release_both p s,
      )

  -- `PendingCleanup`: the error of the enqueueing drops the entry.
  unfoldable pub cleanup_on_error :
      Text
      → Result (Unit {0}) (VcmpError V) × Session V H
      → Result (Unit {0}) (VcmpError V) × Session V H
  cleanup_on_error id (ok u, s) = (ok u, s)
  cleanup_on_error id (err e, s) = (err e, take_pending id dropped s)

  -- `exchange` up to its wait. The id that `Frame::message` generates and the number of the waiter
  -- are arguments.
  unfoldable pub exchange : Text → ℕ → Text → Method V H (Unit {0})
  exchange id waiter payload = do
    require (λ s. leb (length payload + overhead) s.limits.max_message_bytes)
        (new_error 413 (codes "Message too large"))
    permits ← reserve_both request 0
    register id waiter permits
    λ s. cleanup_on_error id (enqueue (serialize (message id payload)) false s)

module _ {V : Type 0} where
  unfoldable pub answer_for : ℕ → List (ℕ × Answer V) → Option (Answer V)
  answer_for w [] = none
  answer_for w ((v, a) ∷ rest) = if v == w then some a else answer_for w rest

  -- The result of `timeout(request_timeout, rx)`, which looks at the channel first; none while the
  -- wait goes on.
  unfoldable pub wait_result :
      Option (Answer V) → Bool → Option (Result (Option Text × Arrival) (VcmpError V))
  wait_result (some (answered r)) expired = some r
  wait_result (some dropped) expired =
      some (err (session_closed (codes "The session closed before acknowledgement.")))
  wait_result none true = some (err acknowledgement_timeout)
  wait_result none false = none

module _ {V H : Type 0} where
  -- The end of `exchange`: once there is a result, the cleanup takes the entry out.
  unfoldable pub exchange_result :
      Text
      → ℕ
      → Bool
      → Session V H
      → Option (Result (Option Text × Arrival) (VcmpError V)) × Session V H
  exchange_result id waiter expired s = elim (wait_result (answer_for waiter s.answers) expired) [
    | none ↦ (none, s)
    | some r ↦ (some r, take_pending id dropped s)
  ]

  -- The future of a send is dropped: only the cleanup runs.
  unfoldable pub cancel_exchange : Text → Session V H → Session V H
  cancel_exchange id s = take_pending id dropped s
