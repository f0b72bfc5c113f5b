-- ===== src/Session/Forgetting.antt =====
-- src/session.rs: what a send leaves behind in the map of pending requests.
use vcmp_rs.Base.{
  ℕ, ◌+◌, ◌-◌, ◌≡◌, refl, sym, ap, ◌∙◌, subst, [], Option, none, some, Bool, true, false, Result,
  ok, err, Text, codes, inl, inr, leb, length, ok-ne-err, pick, Result-cases,
}
use vcmp_rs.Base.Exec.{require, ◌>>=◌, ◌>>◌}
use vcmp_rs.Base.Assoc.{get, remove, Distinct, get-remove-same}
use vcmp_rs.Error.{VcmpError, new_error}
use vcmp_rs.Frame.{message, serialize}
use vcmp_rs.Resources.{request}
use vcmp_rs.Session.{
  Json, Session, Permits, Answer, dropped, Arrival, reserve_both, release_both, spawn_admitted,
}
use vcmp_rs.Session.Sending.{
  Method, enqueue, take_pending, register, cleanup_on_error, exchange, answer_for, overhead,
  wait_result, exchange_result, cancel_exchange,
}
use vcmp_rs.Session.Handlers.{serialize_bounded}
use vcmp_rs.Session.Requests.{
  Writes, serialized, begin_send, await_exchange, decoded, send_with_arrival,
}
use vcmp_rs.Session.Shapes.{settle_found-shape}
use vcmp_rs.Session.Upkeep.{enqueue-keeps, exchange-keeps}
use vcmp_rs.Session.Beating.{free_beats}
use vcmp_rs.Session.Reach.{Reach, Turns, Turns-keeps, Reach-keeps}
use vcmp_rs.Session.Queueing.{reserve_both-Rebudgeted}
use vcmp_rs.Session.Unique.{inserts-OneEach, OneEach-kit}

-- No id is pending twice.
pub Reach-Distinct :
    {V H : Type 0} (json : Json V) (s : Session V H) → Reach json s → Distinct s.pending
unfolding spawn_admitted
Reach-Distinct json s reached =
    Reach-keeps OneEach-kit
      (free_beats OneEach-kit (record { changes = λ b ts n received h. h })
        (record { counts = λ frames h. h }))
      (λ id handlers limits budget. tt) reached

module _ {V H : Type 0} (id : Text) where
  -- Nothing is pending under the id.
  abbrev pub Absent : Session V H → Type 0
  Absent s = get id s.pending ≡ none

  pub takes-Absent :
      (s : Session V H) (a : Answer V) → Distinct s.pending → Absent (take_pending id a s)
  unfolding take_pending
  takes-Absent s a d =
      settle_found-shape (λ t. get id t.pending ≡ none) (λ t xs q. q) (get id s.pending) a
        (record s { pending = remove id s.pending }) (get-remove-same id s.pending d)

  -- A method that fails leaves nothing under the id.
  abbrev Clean : {A : Type 0} → Result A (VcmpError V) × Session V H → Type 0
  Clean q = (e : VcmpError V) → q.0 ≡ err e → Absent q.1

  bind-Clean :
      {A B : Type 0} (m : Method V H A) (k : A → Method V H B) (s : Session V H)
      → Clean (m s)
      → ((a : A) → Clean (k a (m s).1))
      → Clean ((m >>= k) s)
  bind-Clean m k s c d = elim (Result-cases (m s).0) [
    | inl (a, f) ↦ rw f (d a)
    | inr (x, f) ↦ λ e g. rw f (c x f)
  ]

  guard-Clean :
      {B : Type 0} (test : Session V H → Bool) (x : VcmpError V) (m : Method V H B)
      (s : Session V H)
      → Absent s
      → Clean (m s)
      → Clean ((require test x >> m) s)
  guard-Clean {B} test x m s a c = go (test s)
    where
      go : (b : Bool) → Clean ((require (λ _. b) x >> m) s)
      go true = c
      go false = λ e g. a

  cleanup-Clean :
      (q : Result (Unit {0}) (VcmpError V) × Session V H)
      → Distinct q.1.pending
      → Clean (cleanup_on_error id q)
  unfolding cleanup_on_error
  cleanup-Clean (ok u, s) d e g = absurd (ok-ne-err g)
  cleanup-Clean (err x, s) d e g = takes-Absent s dropped d

  register-Clean : (w : ℕ) (p : Permits) (s : Session V H) → Absent s → Clean (register id w p s)
  unfolding register release_both
  register-Clean w p s a =
      pick (λ (q : Result (Unit {0}) (VcmpError V) × Session V H). Clean q) s.open_
        (λ _ e g. absurd (ok-ne-err g)) (λ _ e g. a)

  register-OneEach :
      (w : ℕ) (p : Permits) (s : Session V H)
      → Distinct s.pending
      → Distinct (register id w p s).1.pending
  unfolding register release_both
  register-OneEach w p s d =
      pick (λ (q : Result (Unit {0}) (VcmpError V) × Session V H). Distinct q.1.pending) s.open_
        (λ _. inserts-OneEach s id (record { waiter = w; permits = p }) d) (λ _. d)

  -- A request that could not be queued is not pending.
  exchange-Clean :
      (w : ℕ) (payload : Text) (s : Session V H)
      → Absent s
      → Distinct s.pending
      → Clean (exchange id w payload s)
  unfolding exchange
  exchange-Clean w payload s a d =
      let (l, b, r) = reserve_both-Rebudgeted request 0 s in
      let absent : Absent (reserve_both request 0 s).1 = ap (λ t. get id t.pending) r ∙ a in
      let distinct : Distinct (reserve_both request 0 s).1.pending =
        subst (λ t. Distinct t.pending) (sym r) d in
      guard-Clean (λ s. leb (length payload + overhead) s.limits.max_message_bytes)
        (new_error 413 (codes "Message too large")) (reserve_both request 0 >>= admits) s a
        (bind-Clean (reserve_both request 0) admits s (λ e g. absent)
          (λ p.
            bind-Clean (register id w p) (λ _. queue) _ (register-Clean w p _ absent)
              (λ u. cleanup-Clean _ (
                enqueue-keeps OneEach-kit {held = []} (serialize (message id payload)) false
                  (register-OneEach w p _ distinct)))))
    where
      queue : Method V H (Unit {0})
      queue s = cleanup_on_error id (enqueue (serialize (message id payload)) false s)

      admits : Permits → Method V H (Unit {0})
      admits p = register id w p >> queue

  exchange_result-Absent :
      (w : ℕ) (expired : Bool) (s : Session V H) (r : Result (Option Text × Arrival) (VcmpError V))
      → Distinct s.pending
      → (exchange_result id w expired s).0 ≡ some r
      → Absent (exchange_result id w expired s).1
  unfolding exchange_result
  exchange_result-Absent w expired s r d h = go (wait_result (answer_for w s.answers) expired) h
    where
      Waited : Type 0
      Waited = Option (Result (Option Text × Arrival) (VcmpError V))

      ended : Waited → Waited × Session V H
      ended o = elim o [ none ↦ (none, s) | some x ↦ (some x, take_pending id dropped s) ]

      go : (o : Waited) → (ended o).0 ≡ some r → Absent (ended o).1
      go none h = absurd (cc)
      go (some x) h = takes-Absent s dropped d

  begin_send-Clean :
      (w : ℕ) (writes : Writes) (s : Session V H)
      → Absent s
      → Distinct s.pending
      → Clean (begin_send id w writes s)
  unfolding begin_send serialized
  begin_send-Clean w writes s a d =
      bind-Clean (serialized writes) (exchange id w) s (λ e g. a)
        (λ payload. exchange-Clean w payload s a d)

  begin_send-OneEach :
      (w : ℕ) (writes : Writes) (s : Session V H)
      → Distinct s.pending
      → Distinct (begin_send id w writes s).1.pending
  unfolding begin_send serialized
  begin_send-OneEach w (chunks, fails) s d =
      go (serialize_bounded chunks fails (s.limits.max_message_bytes - overhead))
    where
      go :
          (r : Result Text (VcmpError V))
          → Distinct (((λ (t : Session V H). (r, t)) >>= exchange id w) s).1.pending
      go (ok payload) = exchange-keeps OneEach-kit {held = []} id w payload d
      go (err e) = d

  await_exchange-Absent :
      (w : ℕ) (meanwhile : Session V H → Session V H) (expired : Bool)
      (q : Result (Unit {0}) (VcmpError V) × Session V H)
      (r : Result (Option Text × Arrival) (VcmpError V))
      → Clean q
      → Distinct (meanwhile q.1).pending
      → (await_exchange id w meanwhile expired q).0 ≡ some r
      → Absent (await_exchange id w meanwhile expired q).1
  unfolding await_exchange
  await_exchange-Absent w meanwhile expired (ok u, s) r c d h =
      exchange_result-Absent w expired (meanwhile s) r d h
  await_exchange-Absent w meanwhile expired (err e, s) r c d h = c e refl

  decoded-Absent :
      (json : Json V) (q : Option (Result (Option Text × Arrival) (VcmpError V)) × Session V H)
      (r : Result (V × Arrival) (VcmpError V))
      → ((x : Result (Option Text × Arrival) (VcmpError V)) → q.0 ≡ some x → Absent q.1)
      → (decoded json q).0 ≡ some r
      → Absent (decoded json q).1
  unfolding decoded
  decoded-Absent json (none, s) r a h = absurd (cc)
  decoded-Absent json (some x, s) r a h = a x refl

  -- A send with an id that is not in use leaves no trace of it in the map of pending requests:
  -- whatever it fails with, whatever becomes of the session while it waits, and whatever it
  -- returns, its id is not pending after it, and neither is it after the send is cancelled.
  pub send-Forgets :
      (json : Json V) (s : Session V H) (w : ℕ) (writes : Writes)
      (meanwhile : Session V H → Session V H) (expired : Bool)
      (r : Result (V × Arrival) (VcmpError V))
      → Reach json s
      → get id s.pending ≡ none
      → Turns json (begin_send id w writes s).1 (meanwhile (begin_send id w writes s).1)
      → (send_with_arrival json id w writes meanwhile expired s).0 ≡ some r
      → (get id (send_with_arrival json id w writes meanwhile expired s).1.pending ≡ none)
        × (get id (cancel_exchange id (meanwhile (begin_send id w writes s).1)).pending ≡ none)
  unfolding send_with_arrival spawn_admitted cancel_exchange
  send-Forgets json s w writes meanwhile expired r reached fresh turns h =
      let one : Distinct s.pending = Reach-Distinct json s reached in
      let begun : Result (Unit {0}) (VcmpError V) × Session V H = begin_send id w writes s in
      let still : Distinct (meanwhile begun.1).pending =
        Turns-keeps OneEach-kit
          (free_beats OneEach-kit (record { changes = λ b ts n received h. h })
            (record { counts = λ frames h. h }))
          turns (begin_send-OneEach w writes s one) in
      (
        decoded-Absent json (await_exchange id w meanwhile expired begun) r
            (λ x.
              await_exchange-Absent w meanwhile expired begun x
                (begin_send-Clean w writes s fresh one) still)
            h,
        takes-Absent (meanwhile begun.1) dropped still,
      )
