-- ===== src/Session/Replies.antt =====
-- src/session.rs: the outcomes of a handler, the frames that answer them, and what they mean to the sender.
use vcmp_rs.Base.{
  ◌≡◌, ◌≢◌, refl, sym, subst, [], ◌∷◌, Option, none, some, Result, ok, err, Text, codes, is_empty,
}
use vcmp_rs.Error.Problem.{ProblemDetail}
use vcmp_rs.Error.{VcmpError, new_error, from_problem, into_peer_error}
use vcmp_rs.Frame.{Frame, new_ack, new_nak, normalized}
use vcmp_rs.Frame.RoundTrip.{IsId, IsStr, IsNormal, IsWellFormed}
use vcmp_rs.Session.{Json, Arrival}
use vcmp_rs.Session.Receiving.{nak_error, error_text}

-- How a handler ends: its result, or none past the deadline.
abbrev pub Outcome : Type 0 → Type 0
Outcome V = Option (Result (Option Text) (VcmpError V))

module _ {V : Type 0} where
  -- What the peer's error is for the sender: its problem detail, and that a peer sent it.
  abbrev pub from_peer : VcmpError V → VcmpError V
  from_peer e = into_peer_error (from_problem e.problem)

  -- What a request returns when the handler of its message ends with this outcome.
  unfoldable pub returned : Outcome V → Arrival → Result (Option Text × Arrival) (VcmpError V)
  returned (some (ok payload)) arrival = ok (normalized payload, arrival)
  returned (some (err e)) arrival = err (from_peer e)
  returned none arrival = err (from_peer (new_error 504 (codes "Handler timed out")))

module _ {V : Type 0} (json : Json V) where
  -- A problem detail that the JSON library writes as a text and reads back.
  abbrev pub Carried : ProblemDetail V → Type 0
  Carried p =
      (t : Text) × (json.problem_to_string p ≡ some t)
      × (t ≢ [])
      × IsStr t
      × (json.problem_from_str t ≡ ok p)

  -- What the reply to an outcome needs to reach the sender: a payload is a `str`.
  abbrev pub Conveyed : Outcome V → Type 0
  Conveyed (some (ok none)) = Unit
  Conveyed (some (ok (some payload))) = IsStr payload
  Conveyed (some (err e)) = Carried e.problem
  Conveyed none = Carried (new_error {V = V} 504 (codes "Handler timed out")).problem

  -- The frame with which an outcome is answered.
  unfoldable pub reply_frame : Text → Outcome V → Frame
  reply_frame id (some (ok payload)) = new_ack id payload
  reply_frame id (some (err e)) = new_nak id (some (error_text json e))
  reply_frame id none =
      new_nak id (some (error_text json (new_error 504 (codes "Handler timed out"))))

  normalized-IsNormal : (p : Text) → IsStr p → IsNormal (normalized (some p))
  unfolding is_empty
  normalized-IsNormal [] h = tt
  normalized-IsNormal (c ∷ p) h = (λ e. cc, h)

  error_text-Carried : (e : VcmpError V) (c : Carried e.problem) → error_text json e ≡ c.0
  unfolding error_text
  error_text-Carried e (t, f, n, s, g) = rw (f, error_text)

  nak-WellFormed :
      (id : Text) (e : VcmpError V)
      → IsId id
      → Carried e.problem
      → IsWellFormed (new_nak id (some (error_text json e)))
  unfolding new_nak is_empty
  nak-WellFormed id e i (t, f, n, s, g) = (
    i,
    subst (λ x. IsNormal (normalized (some x))) (sym (error_text-Carried e (t, f, n, s, g)))
        (normalized-IsNormal t s),
  )

  pub reply_frame-WellFormed :
      (id : Text) (o : Outcome V) → IsId id → Conveyed o → IsWellFormed (reply_frame id o)
  unfolding reply_frame new_ack is_empty
  reply_frame-WellFormed id (some (ok none)) i c = (i, tt)
  reply_frame-WellFormed id (some (ok (some p))) i c = (i, normalized-IsNormal p c)
  reply_frame-WellFormed id (some (err e)) i c = nak-WellFormed id e i c
  reply_frame-WellFormed id none i c =
      nak-WellFormed id (new_error 504 (codes "Handler timed out")) i c

  pub nak_error-Carried :
      (e : VcmpError V)
      → Carried e.problem
      → into_peer_error (nak_error json (normalized (some (error_text json e)))) ≡ from_peer e
  unfolding nak_error is_empty
  nak_error-Carried e (t, f, n, s, g) = rw (error_text-Carried e (t, f, n, s, g)) (read t n g)
    where
      read :
          (t : Text)
          → t ≢ []
          → json.problem_from_str t ≡ ok e.problem
          → into_peer_error (nak_error json (normalized (some t))) ≡ from_peer e
      read [] n g = absurd (n refl)
      read (c ∷ t) n g = rw (g, nak_error)
