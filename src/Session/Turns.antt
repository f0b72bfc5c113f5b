-- ===== src/Session/Turns.antt =====
-- src/session.rs: the turns that a session takes, one for each event, and the sessions that are
-- reached from a fresh one. What every turn keeps holds of all of them.
use vcmp_rs.Base.{
  ℕ, ◌≡◌, refl, inl, inr, List, ◌∷◌, Option, Bool, true, false, Result, ok, err, Text, Option-cases,
  length, ap, ◌∙◌, if◌then◌else◌, sym,
}
use vcmp_rs.Base.Assoc.{get}
use vcmp_rs.Error.{VcmpError}
use vcmp_rs.Frame.{Frame}
use vcmp_rs.Resources.{ResourceBudget, Permit, Resource, handler, reserve}
use vcmp_rs.Session.{
  Json, Session, Permits, Arrival, reserve_both, reserve_local, reserve_global, diagnose,
}
use vcmp_rs.Session.Receiving.{
  reply, handle_ack, handle_nak, send_nak, refuse, named_type, parsed, spawn_task, dispatch,
  admit_message, handle_message,
}
use vcmp_rs.Session.Upkeep.{Kit, write-keeps}

reserve_global-closed :
    {V H : Type 0} (p : Permit) (q : Result Permit (VcmpError V) × ResourceBudget) (s : Session V H)
    → (reserve_global p q s).1.closed ≡ s.closed
unfolding reserve_global
reserve_global-closed p (ok q, b) s = refl
reserve_global-closed p (err e, b) s = refl

reserve_local-closed :
    {V H : Type 0} (r : Resource) (n : ℕ) (q : Result Permit (VcmpError V) × ResourceBudget)
    (s : Session V H)
    → (reserve_local r n q s).1.closed ≡ s.closed
unfolding reserve_local
reserve_local-closed r n (ok p, b) s =
    reserve_global-closed p (reserve s.budget r n) (record s { local = b })
reserve_local-closed r n (err e, b) s = refl

-- An admission does not touch the flag.
reserve_both-closed :
    {V H : Type 0} (r : Resource) (n : ℕ) (s : Session V H) (x : Result Permits (VcmpError V))
    (s' : Session V H)
    → reserve_both r n s ≡ (x, s')
    → s'.closed ≡ s.closed
unfolding reserve_both
reserve_both-closed r n s x s' e =
    sym (ap (λ t. t.1.closed) e) ∙ reserve_local-closed r n (reserve s.local r n) s

module _ {V H : Type 0} {P : List Permits → Session V H → Type 0} (kit : Kit V H P) where
  pub choose :
      {held : List Permits} (x y : Session V H) (b : Bool)
      → P held x
      → P held y
      → P held (if b then x else y)
  choose x y true h k = h
  choose x y false h k = k

  pub diagnose-keeps : {held : List Permits} {s : Session V H} → P held s → P held (diagnose s)
  unfolding diagnose
  diagnose-keeps {s} h = kit.ignores _ h

  pub reply-keeps :
      {held : List Permits} {s : Session V H} (f : Frame) → P held s → P held (reply f s)
  unfolding reply
  reply-keeps f h = write-keeps kit f h

  pub handle_ack-keeps :
      {held : List Permits} {s : Session V H} (id : Text) (payload : Option Text)
      (arrival : Arrival)
      → P held s
      → P held (handle_ack id payload arrival s)
  unfolding handle_ack
  handle_ack-keeps {s} id payload arrival h = elim (Option-cases (get id s.pending)) [
    | inl e ↦ rw (e, handle_ack) (diagnose-keeps h)
    | inr (entry, e) ↦ rw (e, handle_ack) (kit.takes id _ h)
  ]

  module _ (json : Json V) where
    pub handle_nak-keeps :
        {held : List Permits} {s : Session V H} (id : Text) (payload : Option Text)
        → P held s
        → P held (handle_nak json id payload s)
    unfolding handle_nak
    handle_nak-keeps {s} id payload h = elim (Option-cases (get id s.pending)) [
      | inl e ↦ rw (e, handle_nak) (diagnose-keeps h)
      | inr (entry, e) ↦ rw (e, handle_nak) (kit.takes id _ h)
    ]

    pub refuse-keeps :
        {held : List Permits} {s : Session V H} (id : Text) (e : VcmpError V) (p : Permits)
        → P (p ∷ held) s
        → P held (refuse json id e p s)
    unfolding refuse send_nak
    refuse-keeps id e p h = kit.releases p (reply-keeps _ (diagnose-keeps h))

    pub dispatch-keeps :
        {held : List Permits} {s : Session V H} (id : Text) (arrival : Arrival) (p : Permits)
        (v : V)
        → s.closed ≡ false
        → P (p ∷ held) s
        → P held (dispatch json id arrival p v s)
    unfolding dispatch spawn_task
    dispatch-keeps {s} id arrival p v o h = elim (Option-cases (named_type (json.type_of v))) [
      | inl e ↦ rw (e, dispatch) (refuse-keeps id _ p h)
      | inr (type, e) ↦ elim (Option-cases (get type s.handlers)) [
        | inl f ↦ rw (e, f, dispatch) (kit.releases p (reply-keeps _ h))
        | inr (run, f) ↦
            rw (e, f, dispatch)
              (kit.spawns
                (record { id = id; handler = run; message = v; arrival = arrival; permits = p }) o
                h)
      ]
    ]

    pub admit_message-keeps :
        {held : List Permits} {s : Session V H} (id payload : Text) (arrival : Arrival)
        (p : Permits)
        → s.closed ≡ false
        → P (p ∷ held) s
        → P held (admit_message json id payload arrival (ok p, s))
    unfolding admit_message
    admit_message-keeps {s} id payload arrival p o h = elim (Option-cases (parsed json payload)) [
      | inl e ↦ rw (e, admit_message) (refuse-keeps id _ p h)
      | inr (v, e) ↦ rw (e, admit_message) (dispatch-keeps id arrival p v o h)
    ]

    pub handle_message-keeps :
        {held : List Permits} {s : Session V H} (id payload : Text) (arrival : Arrival)
        → s.closed ≡ false
        → P held s
        → P held (handle_message json id payload arrival s)
    unfolding handle_message admit_message send_nak
    handle_message-keeps {held} {s} id payload arrival o h =
        go (reserve_both handler (length payload) s).0 (reserve_both handler (length payload) s).1
          refl
      where
        go :
            (r : Result Permits (VcmpError V)) (s' : Session V H)
            → reserve_both handler (length payload) s ≡ (r, s')
            → P held (admit_message json id payload arrival (r, s'))
        go (ok p) s' e =
            admit_message-keeps id payload arrival p
              (reserve_both-closed handler (length payload) s (ok p) s' e ∙ o)
              (kit.reserves handler (length payload) e h)
        go (err x) s' e = reply-keeps _ (kit.refuses handler (length payload) e h)
