-- ===== src/Session/Scenarios.antt =====
-- src/session.rs: the theorems on requests between sessions and on the heartbeat at concrete runs.
use vcmp_rs.Frame.{parse, ack, codec}
use vcmp_rs.Session.Arrivals.{arrivals-Ordered}
use vcmp_rs.Base.{◌<◌}
use vcmp_rs.Session.Handlers.{write_chunks, serialize_bounded}
use vcmp_rs.Base.{false, length, ◌∷◌, ℕ, ◌≡◌, refl, [], none, some, true, ok, err, codes}
use vcmp_rs.Resources.{new_budget, default_limits, request, reserve, admitted, charge}
use vcmp_rs.Frame.{serialize}
use vcmp_rs.Base.Assoc.{get, insert}
use vcmp_rs.Session.{
  Json, Session, default_session_limits, spawn_admitted, reserve_both, reserve_local,
  reserve_global,
}
use vcmp_rs.Session.Sending.{
  exchange, register, insert_pending, settle_found, cleanup_on_error, enqueue, has_slot, try_send,
  resource_of,
}
use vcmp_rs.Session.Driving.{
  finish_close, shut_down, drain_pending, fail_pending, clear_heartbeat, stop_writer, abort_tasks,
}
use vcmp_rs.Session.Sending.{wait_result, answer_for}
use vcmp_rs.Session.{close, release_both}
use vcmp_rs.Session.Reach.{spawned, then_turn, shuts, done, more}
use vcmp_rs.Error.{session_closed}
use vcmp_rs.Base.{text_eq, Text, ◌*◌, ◌^◌, arith, ◌⊎◌, is_ascii, at_boundary, is_empty}
use vcmp_rs.Frame.{message, new_ack}
use vcmp_rs.Resources.{handler}
use vcmp_rs.Session.{Permits, PendingEntry}
use vcmp_rs.Session.Sending.{exchange_result, cancel_exchange}
use vcmp_rs.Session.Receiving.{arrive, parsed, named_type, handle_incoming, finish_task}
use vcmp_rs.Session.Queueing.{Queued}
use vcmp_rs.Session.Replies.{Outcome, reply_frame, returned}
use vcmp_rs.Session.Calls.{task_of, call-Returns}
use vcmp_rs.Session.Requests.{
  begin_send, send_with_arrival, serialized, await_exchange, decoded, with_value,
}
use vcmp_rs.Session.Forgetting.{send-Forgets}
use vcmp_rs.Session.Examples.{no_json, fresh_session, asked, asked_ok}
use vcmp_rs.Session.Heartbeats.{expect_heartbeat, arm_watchdog}
use vcmp_rs.Session.Reach.{expects}
use vcmp_rs.Session.Timers.{Rhythm}
use vcmp_rs.Session.Pulse.{Reach-Rhythm}

-- A JSON library that reads each text as its length, whose messages all have the type `n`.
abbrev some_json : Json ℕ
some_json = record no_json { from_str = λ t. some (length t); type_of = λ v. some (codes "n") }

-- A peer with a handler for it.
abbrev peer : Session ℕ ℕ
peer = spawn_admitted 8 ((codes "n", 5) ∷ []) default_session_limits (new_budget default_limits)

abbrev some_permits : Permits
some_permits = record {
  local = record { resource = request; bytes = 0 };
  global = record { resource = request; bytes = 0 };
}

abbrev peer_permits : Permits
peer_permits = record {
  local = record { resource = handler; bytes = 2 };
  global = record { resource = handler; bytes = 2 };
}

abbrev some_entry : PendingEntry
some_entry = record { waiter = 1; permits = some_permits }

abbrev some_id : Text
some_id = codes "Zm9vYmFyYmF6"

abbrev some_outcome : Outcome ℕ
some_outcome = some (ok (some (codes "{}")))

asked_pending : get some_id asked.pending ≡ some some_entry
unfolding exchange register insert_pending settle_found get insert cleanup_on_error enqueue has_slot
    try_send resource_of reserve_both reserve_local reserve_global reserve admitted new_budget
    serialize spawn_admitted charge text_eq
asked_pending = refl

peer_admits : (reserve_both {V = ℕ} {H = ℕ} handler 2 (arrive some_json peer).1).0 ≡ ok peer_permits
unfolding reserve_both reserve_local reserve_global reserve admitted new_budget spawn_admitted
    charge arrive
peer_admits = refl

peer_handles : get (codes "n") peer.handlers ≡ some 5
unfolding spawn_admitted get text_eq
peer_handles = refl

limits_of_asked : asked.limits.max_message_bytes ≡ 2 * 2 ^ 20
unfolding exchange register insert_pending settle_found get insert cleanup_on_error enqueue has_slot
    try_send resource_of reserve_both reserve_local reserve_global reserve admitted new_budget
    serialize spawn_admitted charge
limits_of_asked = refl

call-Returns_example :
    Queued false
      (serialize (message some_id (codes "{}")))
      fresh_session
      (exchange some_id 1 (codes "{}") fresh_session).1
    × ((handle_incoming some_json (serialize (message some_id (codes "{}"))) peer).tasks
        ≡ (task_of some_json some_id 5 2 peer peer_permits ∷ peer.tasks))
    × (((finish_task some_json []
            (task_of some_json some_id 5 2 peer peer_permits)
            []
            some_outcome
            peer).open_
          ≡ false)
        ⊎ Queued true (serialize (reply_frame some_json some_id some_outcome)) peer (
            finish_task some_json []
              (task_of some_json some_id 5 2 peer peer_permits)
              []
              some_outcome
              peer))
    × ((exchange_result some_id some_entry.waiter false (
          handle_incoming some_json
            (serialize (reply_frame some_json some_id some_outcome))
            asked)).0
        ≡ some (returned some_outcome (arrive some_json asked).0))
call-Returns_example =
    call-Returns some_json fresh_session peer peer asked some_id (codes "{}") 1 tt peer_permits 2
      (codes "n") 5 [] [] some_outcome some_entry false (refl, unfold is_ascii in refl)
      (unfold at_boundary in refl) (unfold at_boundary in refl) asked_ok
      (unfold serialize spawn_admitted in omega arith) peer_admits (unfold parsed is_empty in refl)
      (unfold named_type is_empty in refl) peer_handles asked_pending
      (unfold serialize reply_frame new_ack is_empty in ground (arith, limits_of_asked))

-- The session is shut down while the request waits.
shut_returns :
    (send_with_arrival {H = ℕ} some_json some_id 1
      (codes "{" ∷ codes "}" ∷ [], false)
      shut_down
      true
      fresh_session).0
    ≡ some
        (err (session_closed (codes "The session was closed before the message was acknowledged.")))
unfolding exchange register insert_pending settle_found get insert cleanup_on_error enqueue has_slot
    try_send resource_of reserve_both reserve_local reserve_global reserve admitted new_budget
    serialize spawn_admitted charge text_eq send_with_arrival begin_send serialized await_exchange
    decoded with_value exchange_result wait_result answer_for shut_down finish_close drain_pending
    fail_pending clear_heartbeat stop_writer abort_tasks close serialize_bounded write_chunks
    release_both
shut_returns = refl

send-Forgets_example :
    (get some_id
        (send_with_arrival {H = ℕ} some_json some_id 1
          (codes "{" ∷ codes "}" ∷ [], false)
          shut_down
          true
          fresh_session).1.pending
      ≡ none)
    × (get some_id
          (cancel_exchange {V = ℕ} {H = ℕ} some_id (
            shut_down
              (begin_send some_id 1 (codes "{" ∷ codes "}" ∷ [], false) fresh_session).1)).pending
        ≡ none)
send-Forgets_example =
    send-Forgets some_id some_json fresh_session 1 (codes "{" ∷ codes "}" ∷ [], false) shut_down
      true
      (err (session_closed (codes "The session was closed before the message was acknowledged.")))
      (spawned 7 [] default_session_limits (new_budget default_limits))
      (unfold spawn_admitted get in refl) (more done shuts) shut_returns

-- A session that expects the first heartbeat of its peer.
abbrev beating : Session ℕ ℕ
beating = expect_heartbeat 60000 fresh_session

beating_open : beating.open_ ≡ true
unfolding expect_heartbeat spawn_admitted arm_watchdog
beating_open = refl

Reach-Rhythm_example : Rhythm beating.heartbeat beating.timers
Reach-Rhythm_example =
    Reach-Rhythm some_json beating
      (then_turn (spawned 7 [] default_session_limits (new_budget default_limits)) (expects 60000))
      beating_open

-- A late `ACK`, and then whatever comes next.
abbrev late_ack : Text
late_ack = codes "ACKZm9vYmFyYmF6"

late_ack_parses : parse late_ack ≡ ok (ack some_id none)
unfolding codec
late_ack_parses = refl

fresh_counts : fresh_session.frames_received ≡ 0
unfolding spawn_admitted
fresh_counts = refl

arrivals-Ordered_example :
    ((arrive some_json fresh_session).0.session
      ≡ (arrive some_json (handle_incoming some_json late_ack fresh_session)).0.session)
    × ((arrive some_json fresh_session).0.frame
        < (arrive some_json (handle_incoming some_json late_ack fresh_session)).0.frame)
arrivals-Ordered_example =
    arrivals-Ordered some_json fresh_session (handle_incoming some_json late_ack fresh_session)
      late_ack (ack some_id none) done (unfold spawn_admitted in refl)
      (unfold spawn_admitted in omega arith) late_ack_parses (omega (arith, fresh_counts))
