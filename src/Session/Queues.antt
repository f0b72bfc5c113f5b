-- ===== src/Session/Queues.antt =====
-- src/session.rs: what a method that succeeds has put into a queue.
use vcmp_rs.Base.{
  ℕ, ◌+◌, ◌≡◌, refl, sym, ap, ◌∙◌, [], ◌∷◌, ◌++◌, none, some, Bool, true, false, Result, ok, err,
  Text, codes, ◌⊎◌, inl, inr, if◌then◌else◌, leb, length, err-ne-ok, pick, is_ok,
}
use vcmp_rs.Base.Exec.{◌>>=◌, ◌>>◌, bind_ok}
use vcmp_rs.Base.Assoc.{get, insert}
use vcmp_rs.Error.{VcmpError, new_error}
use vcmp_rs.Frame.{Frame, message, serialize}
use vcmp_rs.Resources.{request}
use vcmp_rs.Session.{Session, Permits, PendingEntry, dropped, reserve_both, release_both, close}
use vcmp_rs.Session.Sending.{
  Method, enqueue, insert_pending, register, cleanup_on_error, exchange, settle, settle_found,
  overhead, write,
}
use vcmp_rs.Session.Queueing.{reserve_both-Rebudgeted, Queued, past_guard, enqueue-Queued}

module _ {V H : Type 0} where
  -- Sending a reply succeeds in queueing it, or closes the session.
  pub write-Queued :
      (f : Frame) (s : Session V H)
      → ((write f s).1.open_ ≡ false) ⊎ Queued true (serialize f) s (write f s).1
  unfolding write close
  write-Queued f s = go (enqueue (serialize f) true s) refl
    where
      Outcome : Type 0
      Outcome = Result (Unit {0}) (VcmpError V) × Session V H

      both : Outcome → Bool × Session V H
      both (r, t) = if is_ok r then (true, t) else (false, close t)

      written : Outcome → Session V H
      written o = (both o).1

      closes : (b : Bool) (t : Session V H) → t.open_ ≡ b → (close t).open_ ≡ false
      closes true t h = rw h
      closes false t h = rw h

      go :
          (o : Outcome)
          → enqueue (serialize f) true s ≡ o
          → ((written o).open_ ≡ false) ⊎ Queued true (serialize f) s (written o)
      go (ok u, t) e =
          let (p, g) = enqueue-Queued true (serialize f) s u (ap (λ o. o.0) e) in
          inr (p, ap (λ o. o.1.control_queue) (sym e) ∙ g)
      go (err x, t) e = inl (closes t.open_ t refl)

  insert_pending-out_queue :
      (id : Text) (x : PendingEntry) (s : Session V H)
      → (insert_pending id x s).out_queue ≡ s.out_queue
  unfolding insert_pending settle_found settle release_both
  insert_pending-out_queue id x s =
      elim (get id s.pending)
        as (λ o.
          (settle_found o dropped (record s { pending = insert id x s.pending })).out_queue
          ≡ s.out_queue) [ none ↦ refl | some e ↦ refl ]

  register-out_queue :
      (id : Text) (w : ℕ) (p : Permits) (s : Session V H)
      → (register id w p s).1.out_queue ≡ s.out_queue
  unfolding register release_both
  register-out_queue id w p s =
      pick (λ (t : Result (Unit {0}) (VcmpError V) × Session V H). t.1.out_queue ≡ s.out_queue)
        s.open_ (λ _. insert_pending-out_queue id (record { waiter = w; permits = p }) s)
        (λ _. refl)

  cleanup-Queued :
      (id text : Text) (s : Session V H) (q : Result (Unit {0}) (VcmpError V) × Session V H)
      (u : Unit {0})
      → (cleanup_on_error id q).0 ≡ ok u
      → ((v : Unit {0}) → q.0 ≡ ok v → Queued false text s q.1)
      → Queued false text s (cleanup_on_error id q).1
  unfolding cleanup_on_error
  cleanup-Queued id text s (ok v, t) u h k = k v refl
  cleanup-Queued id text s (err e, t) u h k = absurd (err-ne-ok h)

  pub exchange-Queued :
      (id : Text) (w : ℕ) (payload : Text) (s : Session V H) (u : Unit {0})
      → (exchange id w payload s).0 ≡ ok u
      → Queued false (serialize (message id payload)) s (exchange id w payload s).1
  unfolding exchange
  exchange-Queued id w payload s u h =
      let f1 = past_guard fits too_large reserving s u h in
      let h1 : (reserving s).0 ≡ ok u = ap (λ t. t.0) (sym f1) ∙ h in
      let (p, e, f2) = bind_ok (reserve_both request 0) admits s u h1 in
      let s2 : Session V H = (reserve_both request 0 s).1 in
      let h2 : (admits p s2).0 ≡ ok u = ap (λ t. t.0) (sym f2) ∙ h1 in
      let (v, g, f3) = bind_ok (register id w p) (λ _. queue) s2 u h2 in
      let s3 : Session V H = (register id w p s2).1 in
      let h3 : (queue s3).0 ≡ ok u = ap (λ t. t.0) (sym f3) ∙ h2 in
      let (q, k) =
        cleanup-Queued id text s3 (enqueue text false s3) u h3
          (λ v e. enqueue-Queued false text s3 v e) in
      let (l, c, r) = reserve_both-Rebudgeted request 0 s in
      (
        q,
        ap (λ t. t.1.out_queue) (f1 ∙ f2 ∙ f3)
            ∙ k
            ∙ ap (λ os. os ++ (record { text = text; permits = q } ∷ []))
                (register-out_queue id w p s2 ∙ ap (λ t. t.out_queue) r),
      )
    where
      text : Text
      text = serialize (message id payload)

      fits : Session V H → Bool
      fits s = leb (length payload + overhead) s.limits.max_message_bytes

      too_large : VcmpError V
      too_large = new_error 413 (codes "Message too large")

      queue : Method V H (Unit {0})
      queue s = cleanup_on_error id (enqueue text false s)

      admits : Permits → Method V H (Unit {0})
      admits p = register id w p >> queue

      reserving : Method V H (Unit {0})
      reserving = reserve_both request 0 >>= admits
