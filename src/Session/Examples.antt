-- ===== src/Session/Examples.antt =====
-- src/session.rs: the theorems on sessions at concrete runs.
use vcmp_rs.Session.Handlers.{concat, serialize_bounded, serialize_bounded_lem}
use vcmp_rs.Error.{new_error, internal}
use vcmp_rs.Base.{
  false, ltb, length, if◌then◌else◌, ◌∷◌, ℕ, ◌≡◌, refl, [], none, some, true, ok, err, codes,
}
use vcmp_rs.Error.Problem.{create}
use vcmp_rs.Resources.{new_budget, default_limits, request, reserve, admitted, charge}
use vcmp_rs.Frame.{serialize}
use vcmp_rs.Base.Assoc.{get, insert}
use vcmp_rs.Resources.Balance.{column, volume}
use vcmp_rs.Session.{
  Json, Session, default_session_limits, spawn_admitted, reserve_both, reserve_local,
  reserve_global,
}
use vcmp_rs.Session.Sending.{
  exchange, register, insert_pending, settle_found, cleanup_on_error, enqueue, has_slot, try_send,
  resource_of,
}
use vcmp_rs.Session.Driving.{finish_close, shut_down}
use vcmp_rs.Session.Reach.{Reach, spawned, then_turn, sends, shuts, done, more}
use vcmp_rs.Session.Admissions.{Accounted}
use vcmp_rs.Session.Accounts.{Reach-Accounted}
use vcmp_rs.Session.Ending.{Settled, closed-Settled}
use vcmp_rs.Session.Shapes.{shape}
use vcmp_rs.Session.{Arrival, answered}
use vcmp_rs.Session.Receiving.{handle_ack, handle_nak}
use vcmp_rs.Session.Settling.{Settles, Reports, replies-Settle}
use vcmp_rs.Error.{VcmpError, peer_nak}
use vcmp_rs.Session.Waiters.{Answered}
use vcmp_rs.Session.Waiting.{closed-Answered}

-- A JSON library with numbers for values, which parses nothing.
abbrev pub no_json : Json ℕ
no_json = record {
  from_str = λ t. none;
  syntax_error = λ t. record { type_name = codes "serde_json::error::Error"; message = t };
  empty_object = 0;
  null = 0;
  type_of = λ v. none;
  problem_to_string = λ p. some p.title;
  problem_from_str = λ t. ok (create 500 t);
}

abbrev pub fresh_session : Session ℕ ℕ
fresh_session = spawn_admitted 7 [] default_session_limits (new_budget default_limits)

-- One request is sent.
abbrev pub asked : Session ℕ ℕ
asked = (exchange (codes "Zm9vYmFyYmF6") 1 (codes "{}") fresh_session).1

pub asked-Reach : Reach no_json asked
asked-Reach =
    then_turn (spawned 7 [] default_session_limits (new_budget default_limits))
      (sends (codes "Zm9vYmFyYmF6") 1 (codes "{}"))

Reach-Accounted_example : Accounted request [] asked
Reach-Accounted_example = Reach-Accounted request no_json asked asked-Reach

shut : (shut_down asked).closed ≡ true
unfolding shut_down finish_close
shut = refl

closed-Settled_example :
    Settled (shape (shut_down asked))
    × (column (shut_down asked).local.usage request ≡ 0)
    × (volume (shut_down asked).local.usage request ≡ 0)
closed-Settled_example =
    closed-Settled no_json (shut_down asked) request (then_turn asked-Reach shuts) shut

pub asked_ok : (exchange (codes "Zm9vYmFyYmF6") 1 (codes "{}") fresh_session).0 ≡ ok tt
unfolding exchange register insert_pending settle_found get insert cleanup_on_error enqueue has_slot
    try_send resource_of reserve_both reserve_local reserve_global reserve admitted new_budget
    serialize spawn_admitted charge
asked_ok = refl

closed-Answered_example : Answered 1 (shut_down asked).answers
closed-Answered_example =
    closed-Answered 1 no_json fresh_session (shut_down asked) (codes "Zm9vYmFyYmF6") (codes "{}") tt
      (spawned 7 [] default_session_limits (new_budget default_limits)) asked_ok (more done shuts)
      shut

serialize_bounded_lem_example : serialize_bounded {V = ℕ} (codes "{" ∷ codes "}" ∷ []) false 1 ≡ (
    if ltb 1 (length (concat (codes "{" ∷ codes "}" ∷ [])))
    then err (new_error 413 (codes "Message too large"))
    else if false
    then err (internal (codes "Message serialization failed"))
    else ok (concat (codes "{" ∷ codes "}" ∷ [])))
serialize_bounded_lem_example = serialize_bounded_lem (codes "{" ∷ codes "}" ∷ []) false 1

abbrev first_frame : Arrival
first_frame = record { session = 7; frame = 1 }

replies-Settle_example :
    (Settles
        (codes "Zm9vYmFyYmF6")
        (answered (ok (some (codes "{}"), first_frame)))
        asked
        (handle_ack (codes "Zm9vYmFyYmF6") (some (codes "{}")) first_frame asked)
      × (get
            (codes "Zm9vYmFyYmF6")
            (handle_ack (codes "Zm9vYmFyYmF6") (some (codes "{}")) first_frame asked).pending
          ≡ none))
    × ((e : VcmpError ℕ) × (e.kind ≡ peer_nak)
        × Reports no_json (some (codes "{}")) e
        × Settles
            (codes "Zm9vYmFyYmF6")
            (answered (err e))
            asked
            (handle_nak no_json (codes "Zm9vYmFyYmF6") (some (codes "{}")) asked)
        × (get
              (codes "Zm9vYmFyYmF6")
              (handle_nak no_json (codes "Zm9vYmFyYmF6") (some (codes "{}")) asked).pending
            ≡ none))
replies-Settle_example =
    replies-Settle no_json (codes "Zm9vYmFyYmF6") (some (codes "{}")) first_frame asked asked-Reach
