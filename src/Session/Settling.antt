-- ===== src/Session/Settling.antt =====
-- src/session.rs: what an `ACK` or a `NAK` settles.
use vcmp_rs.Base.{
  ℕ, ◌≡◌, ◌≢◌, refl, List, ◌∷◌, Option, none, some, false, Result, ok, err, Text, codes, text_eq,
  arith, ◌⊎◌, inl, inr,
}
use vcmp_rs.Base.Assoc.{get, remove, get-remove, Distinct}
use vcmp_rs.Error.{
  VcmpError, StdError, peer_nak, into_peer_error, internal, new_error, with_detail, with_source,
  from_problem,
}
use vcmp_rs.Error.Problem
use vcmp_rs.Error.Problem.{ProblemDetail}
use vcmp_rs.Resources.{release}
use vcmp_rs.Session.{
  Json, Session, Arrival, PendingEntry, Answer, answered, release_both, diagnose, incremented,
}
use vcmp_rs.Session.Sending.{take_pending, settle, settle_found, answer_for}
use vcmp_rs.Session.Receiving.{handle_ack, handle_nak, nak_error}
use vcmp_rs.Session.Reach.{Reach}
use vcmp_rs.Session.Forgetting.{Reach-Distinct, takes-Absent}

module _ {V : Type 0} where
  answer_here :
      (w : ℕ) (a : Answer V) (xs : List (ℕ × Answer V)) → answer_for w ((w, a) ∷ xs) ≡ some a
  unfolding answer_for
  answer_here w a xs = ground arith

  answer_there :
      (v w : ℕ) (a : Answer V) (xs : List (ℕ × Answer V))
      → v ≢ w
      → answer_for w ((v, a) ∷ xs) ≡ answer_for w xs
  unfolding answer_for
  answer_there v w a xs n = ground arith

module _ {V H : Type 0} where
  -- An answer for an id: the request that is pending under it has the answer, no other waiter's
  -- answer and no other pending request changes, its permits are released, and the session is
  -- otherwise as it was; if none is pending, the frame is counted as ignored and nothing else
  -- happens.
  abbrev pub Settles : Text → Answer V → Session V H → Session V H → Type 0
  Settles id a s after =
      ((e : PendingEntry) × (get id s.pending ≡ some e)
        × (answer_for e.waiter after.answers ≡ some a)
        × ((w : ℕ) → e.waiter ≢ w → answer_for w after.answers ≡ answer_for w s.answers)
        × ((j : Text) → text_eq id j ≡ false → get j after.pending ≡ get j s.pending)
        × (after ≡ record s {
          pending = after.pending;
          answers = after.answers;
          local = release e.permits.local s.local;
          budget = release e.permits.global s.budget;
        }))
      ⊎ ((get id s.pending ≡ none)
          × (after ≡ record s { ignored_frames = incremented s.ignored_frames }))

  -- Both handlers, as one test of what is pending.
  settles :
      (id : Text) (a : Answer V) (s : Session V H)
      → Settles id a s
          (elim (get id s.pending) [ some e ↦ take_pending id a s | none ↦ diagnose s ])
  unfolding take_pending settle_found settle release_both diagnose
  settles id a s = go (get id s.pending) refl
    where
      go :
          (o : Option PendingEntry)
          → get id s.pending ≡ o
          → Settles id a s (elim o as (λ x. Session V H) [
            | some e ↦ settle_found o a (record s { pending = remove id s.pending })
            | none ↦ diagnose s
          ])
      go none q = inr (q, refl)
      go (some e) q = inl (
        e,
        q,
        answer_here e.waiter a s.answers,
        (λ w n. answer_there e.waiter w a s.answers n),
        (λ j n. get-remove id j s.pending n),
        refl,
      )

pub handlers-settle :
    {V H : Type 0} (json : Json V) (id : Text) (payload : Option Text) (arrival : Arrival)
    (s : Session V H)
    → Settles id (answered (ok (payload, arrival))) s (handle_ack id payload arrival s)
      × Settles id
          (answered (err (into_peer_error (nak_error json payload))))
          s
          (handle_nak json id payload s)
unfolding handle_ack handle_nak
handlers-settle json id payload arrival s = (settles id _ s, settles id _ s)

module _ {V : Type 0} (json : Json V) where
  -- The problem that a peer reports: the one that is read from its payload, or an internal one that
  -- says why there is none.
  abbrev pub Reports : Option Text → VcmpError V → Type 0
  Reports none e =
      (e.problem.status ≡ 500)
      × (e.problem.title ≡ codes "Message handling failed")
      × (e.problem.detail ≡ some (codes "Unspecified error in message handling."))
  Reports (some text) e =
      ((p : ProblemDetail V) × (json.problem_from_str text ≡ ok p) × (e.problem ≡ p))
      ⊎ ((x : StdError) × (json.problem_from_str text ≡ err x)
          × (e.problem.status ≡ 500)
          × (e.problem.title ≡ codes "Message handling failed")
          × (e.problem.detail ≡ some (codes "The NAK payload could not be parsed."))
          × (e.source ≡ some x))

  nak_error-Reports :
      (payload : Option Text) → Reports payload (into_peer_error (nak_error json payload))
  unfolding nak_error into_peer_error internal new_error with_detail with_source from_problem
      Problem.create Problem.with_detail
  nak_error-Reports none = (refl, refl, refl)
  nak_error-Reports (some text) = go (json.problem_from_str text) refl
    where
      read : Result (ProblemDetail V) StdError → VcmpError V
      read r = elim r [
        | ok p ↦ from_problem p
        | err e ↦
            with_source
              (with_detail (internal (codes "Message handling failed"))
                (codes "The NAK payload could not be parsed."))
              e
      ]

      go :
          (r : Result (ProblemDetail V) StdError)
          → json.problem_from_str text ≡ r
          → ((p : ProblemDetail V) × (json.problem_from_str text ≡ ok p)
              × ((into_peer_error (read r)).problem ≡ p))
            ⊎ ((x : StdError) × (json.problem_from_str text ≡ err x)
                × ((into_peer_error (read r)).problem.status ≡ 500)
                × ((into_peer_error (read r)).problem.title ≡ codes "Message handling failed")
                × ((into_peer_error (read r)).problem.detail
                    ≡ some (codes "The NAK payload could not be parsed."))
                × ((into_peer_error (read r)).source ≡ some x))
      go (ok p) q = inl (p, q, refl)
      go (err x) q = inr (x, q, refl, refl, refl, refl)

-- What either handler does to a session in which no id is pending twice: nothing is pending under
-- the id after it.
settles-Absent :
    {V H : Type 0} (id : Text) (a : Answer V) (s : Session V H)
    → Distinct s.pending
    → get id
        (elim (get id s.pending) as (λ o. Session V H) [
          | some e ↦ take_pending id a s
          | none ↦ diagnose s
        ]).pending
      ≡ none
unfolding diagnose
settles-Absent {V} {H} id a s d = go (get id s.pending) refl
  where
    go :
        (o : Option PendingEntry)
        → get id s.pending ≡ o
        → get id
            (elim o as (λ x. Session V H) [
              | some e ↦ take_pending id a s
              | none ↦ diagnose s
            ]).pending
          ≡ none
    go none q = q
    go (some e) q = takes-Absent id s a d

-- An `ACK` or a `NAK` that arrives at a session settles the request of its id and takes it out of
-- those that are pending, so that a second one for the id is ignored: the waiter of that request
-- has the acknowledged payload with its arrival, or the peer's error with the problem that the
-- payload of the `NAK` holds (an internal one, if it holds none), the permits of the request are
-- released, and no other waiter's answer, no other pending request and nothing else changes. If
-- none is pending, the frame is counted as ignored and nothing else happens.
pub replies-Settle :
    {V H : Type 0} (json : Json V) (id : Text) (payload : Option Text) (arrival : Arrival)
    (s : Session V H)
    → Reach json s
    → (Settles id (answered (ok (payload, arrival))) s (handle_ack id payload arrival s)
        × (get id (handle_ack id payload arrival s).pending ≡ none))
      × ((e : VcmpError V) × (e.kind ≡ peer_nak)
          × Reports json payload e
          × Settles id (answered (err e)) s (handle_nak json id payload s)
          × (get id (handle_nak json id payload s).pending ≡ none))
unfolding handle_ack handle_nak into_peer_error
replies-Settle json id payload arrival s reached =
    let (acks, naks) = handlers-settle json id payload arrival s in
    let one = Reach-Distinct json s reached in
    (
      (acks, settles-Absent id _ s one),
      (
        into_peer_error (nak_error json payload),
        refl,
        nak_error-Reports json payload,
        naks,
        settles-Absent id _ s one,
      ),
    )
