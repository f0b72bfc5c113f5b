-- ===== src/Session/Upkeep.antt =====
-- src/session.rs: the primitive changes of a session's state, as an interface for the properties
-- that they keep. `held` are the permits that the method under way holds.
use vcmp_rs.Base.{
  ℕ, ◌+◌, codes, ◌≡◌, refl, ap, inl, inr, List, [], ◌∷◌, ◌++◌, Bool, true, false, Result, ok, err,
  Text, Result-cases, Option-cases, leb, length, if◌then◌else◌,
}
use vcmp_rs.Base.Exec.{require, ◌>>◌, ◌>>=◌}
use vcmp_rs.Error.{VcmpError, new_error}
use vcmp_rs.Frame.{Frame, message, serialize}
use vcmp_rs.Resources.{Resource, request}
use vcmp_rs.Session.{
  Session, Permits, Outgoing, Answer, HandlerTask, idle, writing, dropped, reserve_both,
  release_both, close,
}
use vcmp_rs.Session.Sending.{
  Method, has_slot, resource_of, try_send, overload, overhead, enqueue, write, send_raw,
  take_pending, insert_pending, register, cleanup_on_error, exchange, wait_result, answer_for,
  exchange_result,
}
use vcmp_rs.Session.Driving.{stop_writer, shut_down}

pub record Kit (V H : Type 0) (P : List Permits → Session V H → Type 0) : Type 0 where
  pub reserves :
      {held : List Permits} {s s' : Session V H} {p : Permits} (r : Resource) (n : ℕ)
      → reserve_both r n s ≡ (ok p, s')
      → P held s
      → P (p ∷ held) s'
  pub refuses :
      {held : List Permits} {s s' : Session V H} {e : VcmpError V} (r : Resource) (n : ℕ)
      → reserve_both r n s ≡ (err e, s')
      → P held s
      → P held s'
  pub releases :
      {held : List Permits} {s : Session V H} (p : Permits)
      → P (p ∷ held) s
      → P held (release_both p s)
  pub queues_control :
      {held : List Permits} {s : Session V H} (text : Text) (p : Permits)
      → has_slot s.control_queue s.limits.resources.control_messages s.writer ≡ true
      → P (p ∷ held) s
      → P held
          (record s { control_queue = s.control_queue ++ record { text = text; permits = p } ∷ [] })
  pub queues_data :
      {held : List Permits} {s : Session V H} (text : Text) (p : Permits)
      → has_slot s.out_queue s.limits.resources.queued_messages s.writer ≡ true
      → P (p ∷ held) s
      → P held (record s { out_queue = s.out_queue ++ record { text = text; permits = p } ∷ [] })
  pub closes : {held : List Permits} {s : Session V H} → P held s → P held (close s)
  pub takes :
      {held : List Permits} {s : Session V H} (id : Text) (a : Answer V)
      → P held s
      → P held (take_pending id a s)
  pub inserts :
      {held : List Permits} {s : Session V H} (id : Text) (waiter : ℕ) (p : Permits)
      → s.open_ ≡ true
      → P (p ∷ held) s
      → P held (insert_pending id (record { waiter = waiter; permits = p }) s)
  -- The count of ignored frames.
  pub ignores :
      {held : List Permits} {s : Session V H} (ignored : ℕ)
      → P held s
      → P held (record s { ignored_frames = ignored })
  pub spawns :
      {held : List Permits} {s : Session V H} (t : HandlerTask V H)
      → s.closed ≡ false
      → P (t.permits ∷ held) s
      → P held (record s { tasks = t ∷ s.tasks })
  pub ends :
      {held : List Permits} {s : Session V H} (before : List (HandlerTask V H))
      (t : HandlerTask V H) (after : List (HandlerTask V H))
      → s.tasks ≡ before ++ t ∷ after
      → P held s
      → P (t.permits ∷ held) (record s { tasks = before ++ after })
  -- The writer.
  pub dequeues_control :
      {held : List Permits} {s : Session V H} (o : Outgoing) (rest : List Outgoing)
      → s.control_queue ≡ o ∷ rest
      → P held s
      → P (o.permits ∷ held) (record s { control_queue = rest })
  pub dequeues_data :
      {held : List Permits} {s : Session V H} (o : Outgoing) (rest : List Outgoing)
      → s.out_queue ≡ o ∷ rest
      → P held s
      → P (o.permits ∷ held) (record s { out_queue = rest })
  pub writes :
      {held : List Permits} {s : Session V H} (p : Permits) (wire : List Text)
      → s.writer ≡ idle
      → P (p ∷ held) s
      → P held (record s { writer = writing p; wire = wire })
  pub wrote :
      {held : List Permits} {s : Session V H} (p : Permits)
      → s.writer ≡ writing p
      → P held s
      → P (p ∷ held) (record s { writer = idle })
  pub stops : {held : List Permits} {s : Session V H} → P held s → P held (stop_writer s)
  pub shuts : {held : List Permits} {s : Session V H} → P held s → P held (shut_down s)

-- A computed pair with a known first part.
pair {ℓ κ} : {A : Type ℓ} {B : Type κ} {q : A × B} {a : A} → q.0 ≡ a → q ≡ (a, q.1)
pair {q} e = ap (λ a. (a, q.1)) e

module _ {V H : Type 0} {P : List Permits → Session V H → Type 0} (kit : Kit V H P) where
  if-keeps {ℓ} :
      {R : Type ℓ} {held : List Permits} (x y : R × Session V H) (b : Bool)
      → (b ≡ true → P held x.1)
      → (b ≡ false → P held y.1)
      → P held (if b then x else y).1
  if-keeps x y true f g = f refl
  if-keeps x y false f g = g refl

  -- A guard, and what follows it.
  guard-keeps :
      {B : Type 0} {held : List Permits} {s : Session V H} (test : Session V H → Bool)
      (e : VcmpError V) (m : Method V H B)
      → P held s
      → (test s ≡ true → P held (m s).1)
      → P held ((require test e >> m) s).1
  guard-keeps {held} {s} test e m h k = go (test s) k
    where
      go : (b : Bool) → (b ≡ true → P held (m s).1) → P held ((require (λ _. b) e >> m) s).1
      go true k = k refl
      go false k = h

  try_send-keeps :
      {held : List Permits} {s : Session V H} (is_control : Bool) (text : Text) (p : Permits)
      → P (p ∷ held) s
      → P held (try_send is_control text p s).1
  unfolding try_send overload
  try_send-keeps true text p h =
      if-keeps _ _ _ (λ e. kit.queues_control text p e h) (λ e. kit.releases p h)
  try_send-keeps false text p h =
      if-keeps _ _ _ (λ e. kit.queues_data text p e h) (λ e. kit.releases p h)

  -- A method and what follows it.
  then-keeps :
      {A B : Type 0} {held : List Permits} {s : Session V H} (m : Method V H A)
      (k : A → Method V H B)
      → P held (m s).1
      → ((a : A) (s' : Session V H) → P held s' → P held (k a s').1)
      → P held ((m >>= k) s).1
  then-keeps {s} m k h f = elim (Result-cases (m s).0) [
    | inl (a, e) ↦ rw e (f a (m s).1 h)
    | inr (x, e) ↦ rw e h
  ]

  -- An admission, and what takes the permits over.
  reserve-keeps :
      {B : Type 0} {held : List Permits} {s : Session V H} (r : Resource) (n : ℕ)
      (k : Permits → Method V H B)
      → P held s
      → ((p : Permits) (s' : Session V H) → P (p ∷ held) s' → P held (k p s').1)
      → P held ((reserve_both r n >>= k) s).1
  reserve-keeps {s} r n k h f = elim (Result-cases (reserve_both r n s).0) [
    | inl (p, e) ↦ rw e (f p (reserve_both r n s).1 (kit.reserves r n (pair e) h))
    | inr (x, e) ↦ rw e (kit.refuses r n (pair e) h)
  ]

  pub enqueue-keeps :
      {held : List Permits} {s : Session V H} (text : Text) (is_control : Bool)
      → P held s
      → P held (enqueue text is_control s).1
  unfolding enqueue
  enqueue-keeps {s} text is_control h =
      guard-keeps (λ s. s.open_) _ _ h
        (λ _.
          guard-keeps (λ s. leb (length text) s.limits.max_message_bytes) _ _ h
            (λ _.
              reserve-keeps (resource_of is_control) (length text) _ h
                (λ p s' k. try_send-keeps is_control text p k)))

  pub write-keeps :
      {held : List Permits} {s : Session V H} (frame : Frame) → P held s → P held (write frame s).1
  unfolding write
  write-keeps {s} frame h =
      let k = enqueue-keeps (serialize frame) true h in
      elim (Result-cases (enqueue (serialize frame) true s).0) [
        | inl (u, e) ↦ rw e k
        | inr (x, e) ↦ rw e (kit.closes k)
      ]

  pub send_raw-keeps :
      {held : List Permits} {s : Session V H} (raw : Text) → P held s → P held (send_raw raw s).1
  unfolding send_raw
  send_raw-keeps raw h = enqueue-keeps raw _ h

  register-keeps :
      {held : List Permits} {s : Session V H} (id : Text) (waiter : ℕ) (p : Permits)
      → P (p ∷ held) s
      → P held (register id waiter p s).1
  unfolding register
  register-keeps id waiter p h =
      if-keeps _ _ _ (λ o. kit.inserts id waiter p o h) (λ _. kit.releases p h)

  cleanup-keeps :
      {held : List Permits} (id : Text) (r : Result (Unit {0}) (VcmpError V)) (s : Session V H)
      → P held s
      → P held (cleanup_on_error id (r, s)).1
  unfolding cleanup_on_error
  cleanup-keeps id (ok u) s h = h
  cleanup-keeps id (err e) s h = kit.takes id _ h

  queue_request-keeps :
      {held : List Permits} {s : Session V H} (id payload : Text)
      → P held s
      → P held (cleanup_on_error id (enqueue (serialize (message id payload)) false s)).1
  queue_request-keeps id payload h = cleanup-keeps id _ _ (enqueue-keeps _ false h)

  pub exchange-keeps :
      {held : List Permits} {s : Session V H} (id : Text) (waiter : ℕ) (payload : Text)
      → P held s
      → P held (exchange id waiter payload s).1
  unfolding exchange
  exchange-keeps id waiter payload h =
      let queue : Method V H (Unit {0}) =
        λ s. cleanup_on_error id (enqueue (serialize (message id payload)) false s) in
      let admitted : Permits → Method V H (Unit {0}) = λ p. register id waiter p >> queue in
      guard-keeps (λ s. leb (length payload + overhead) s.limits.max_message_bytes)
        (new_error 413 (codes "Message too large")) (reserve_both request 0 >>= admitted) h
        (λ _. reserve-keeps request 0 admitted h (λ p s' k.
          then-keeps {s = s'} (register id waiter p) (λ _. queue) (register-keeps id waiter p k)
            (λ u s'' k. queue_request-keeps id payload k)))

  pub exchange_result-keeps :
      {held : List Permits} {s : Session V H} (id : Text) (waiter : ℕ) (expired : Bool)
      → P held s
      → P held (exchange_result id waiter expired s).1
  unfolding exchange_result
  exchange_result-keeps {s} id waiter expired h =
      elim (Option-cases (wait_result (answer_for waiter s.answers) expired)) [
        | inl e ↦ rw (e, exchange_result) h
        | inr (r, e) ↦ rw (e, exchange_result) (kit.takes id dropped h)
      ]
