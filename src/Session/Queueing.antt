-- ===== src/Session/Queueing.antt =====
-- src/session.rs: what an admission leaves alone, and where a frame that is accepted goes.
use vcmp_rs.Base.{
  ℕ, ◌≡◌, refl, sym, ap, ◌∙◌, List, [], ◌∷◌, ◌++◌, Bool, true, false, Result, ok, err, Text, codes,
  leb, length, err-ne-ok, pick,
}
use vcmp_rs.Base.Exec.{require, ◌>>=◌, ◌>>◌, bind_ok}
use vcmp_rs.Error.{VcmpError, session_not_open, new_error}
use vcmp_rs.Resources.{ResourceBudget, Resource, Permit, reserve, release}
use vcmp_rs.Session.{Session, Permits, Outgoing, reserve_both, reserve_local, reserve_global}
use vcmp_rs.Session.Sending.{Method, enqueue, try_send, overload, has_slot, resource_of}

module _ {V H : Type 0} where
  -- A session with other budgets.
  abbrev pub Rebudgeted : Session V H → Session V H → Type 0
  Rebudgeted s t =
      (l : ResourceBudget) × (b : ResourceBudget) × (t ≡ record s { local = l; budget = b })

  reserve_global-Rebudgeted :
      (p : Permit) (q : Result Permit (VcmpError V) × ResourceBudget) (s : Session V H)
      → Rebudgeted s (reserve_global p q s).1
  unfolding reserve_global
  reserve_global-Rebudgeted p (ok g, b) s = (s.local, b, refl)
  reserve_global-Rebudgeted p (err e, b) s = (release p s.local, b, refl)

  reserve_local-Rebudgeted :
      (r : Resource) (n : ℕ) (q : Result Permit (VcmpError V) × ResourceBudget) (s : Session V H)
      → Rebudgeted s (reserve_local r n q s).1
  unfolding reserve_local
  reserve_local-Rebudgeted r n (ok p, l) s =
      let (k, b, e) = reserve_global-Rebudgeted p (reserve s.budget r n) (record s { local = l }) in
      (k, b, e)
  reserve_local-Rebudgeted r n (err e, l) s = (l, s.budget, refl)

  pub reserve_both-Rebudgeted :
      (r : Resource) (n : ℕ) (s : Session V H) → Rebudgeted s (reserve_both r n s).1
  unfolding reserve_both
  reserve_both-Rebudgeted r n s = reserve_local-Rebudgeted r n (reserve s.local r n) s

  -- The queue that a frame goes to.
  abbrev pub queue_of : Bool → Session V H → List Outgoing
  queue_of true s = s.control_queue
  queue_of false s = s.out_queue

  -- A frame of this text was put at the end of a queue.
  abbrev pub Queued : Bool → Text → Session V H → Session V H → Type 0
  Queued b text s t =
      (p : Permits) × (queue_of b t ≡ queue_of b s ++ (record { text = text; permits = p } ∷ []))

  same_queue :
      (b : Bool) (s : Session V H) (l c : ResourceBudget) (os : List Outgoing)
      → queue_of b (record s { local = l; budget = c }) ++ os ≡ queue_of b s ++ os
  same_queue true s l c os = refl
  same_queue false s l c os = refl

  try_send-Queued :
      (b : Bool) (text : Text) (p : Permits) (s : Session V H) (u : Unit {0})
      → (try_send b text p s).0 ≡ ok u
      → Queued b text s (try_send b text p s).1
  unfolding try_send overload
  try_send-Queued true text p s u =
      pick
        (λ (t : Result (Unit {0}) (VcmpError V) × Session V H). t.0 ≡ ok u → Queued true text s t.1)
        (has_slot s.control_queue s.limits.resources.control_messages s.writer) (λ _ h. (p, refl))
        (λ _ h. absurd (err-ne-ok h))
  try_send-Queued false text p s u =
      pick
        (λ (t : Result (Unit {0}) (VcmpError V) × Session V H).
          t.0 ≡ ok u → Queued false text s t.1)
        (has_slot s.out_queue s.limits.resources.queued_messages s.writer) (λ _ h. (p, refl))
        (λ _ h. absurd (err-ne-ok h))

  require_ok :
      (test : Session V H → Bool) (e : VcmpError V) (s : Session V H) (u : Unit {0})
      → (require test e s).0 ≡ ok u
      → (require test e s).1 ≡ s
  require_ok test e s u h = go (test s) h
    where
      choice : Bool → Result (Unit {0}) (VcmpError V) × Session V H
      choice b = elim b [ true ↦ (ok tt, s) | false ↦ (err e, s) ]

      go : (b : Bool) → (choice b).0 ≡ ok u → (choice b).1 ≡ s
      go true h = refl
      go false h = absurd (err-ne-ok h)

  -- The first step of a chain, when the step leaves the session alone.
  pub past_guard :
      (test : Session V H → Bool) (e : VcmpError V) (k : Method V H (Unit {0})) (s : Session V H)
      (u : Unit {0})
      → ((require test e >> k) s).0 ≡ ok u
      → (require test e >> k) s ≡ k s
  past_guard test e k s u h =
      let (v, g, f) = bind_ok (require test e) (λ _. k) s u h in f ∙ ap k (require_ok test e s v g)

  pub enqueue-Queued :
      (b : Bool) (text : Text) (s : Session V H) (u : Unit {0})
      → (enqueue text b s).0 ≡ ok u
      → Queued b text s (enqueue text b s).1
  unfolding enqueue
  enqueue-Queued b text s u h =
      let f1 = past_guard (λ s. s.open_) not_open (large >> admits) s u h in
      let h1 : ((large >> admits) s).0 ≡ ok u = ap (λ t. t.0) (sym f1) ∙ h in
      let f2 = past_guard fits too_large admits s u h1 in
      let h2 : (admits s).0 ≡ ok u = ap (λ t. t.0) (sym f2) ∙ h1 in
      let (p, e, f3) =
        bind_ok (reserve_both (resource_of b) (length text)) (try_send b text) s u h2 in
      let s3 : Session V H = (reserve_both (resource_of b) (length text) s).1 in
      let h3 : (try_send b text p s3).0 ≡ ok u = ap (λ t. t.0) (sym f3) ∙ h2 in
      let (q, g) = try_send-Queued b text p s3 u h3 in
      let (l, c, r) = reserve_both-Rebudgeted (resource_of b) (length text) s in
      (
        q,
        ap (λ t. queue_of b t.1) (f1 ∙ f2 ∙ f3)
            ∙ g
            ∙ ap (λ t. queue_of b t ++ (record { text = text; permits = q } ∷ [])) r
            ∙ same_queue b s l c (record { text = text; permits = q } ∷ []),
      )
    where
      not_open : VcmpError V
      not_open = session_not_open (codes "The session is not open.")

      fits : Session V H → Bool
      fits s = leb (length text) s.limits.max_message_bytes

      too_large : VcmpError V
      too_large = new_error 413 (codes "Message too large")

      large : Method V H (Unit {0})
      large = require fits too_large

      admits : Method V H (Unit {0})
      admits = reserve_both (resource_of b) (length text) >>= try_send b text
