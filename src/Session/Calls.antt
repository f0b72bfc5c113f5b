-- ===== src/Session/Calls.antt =====
-- src/session.rs: a request from one session to another and back.
use vcmp_rs.Base.{
  ℕ, ◌≤◌, ◌≡◌, refl, sym, ap, ◌∙◌, subst, List, ◌∷◌, ◌++◌, Option, none, some, Bool, true, false,
  ok, err, Text, codes, ◌⊎◌, inl, inr, ltb, arith, length, if◌then◌else◌,
}
use vcmp_rs.Base.Assoc.{get}
use vcmp_rs.Error.{VcmpError, new_error}
use vcmp_rs.Frame.{Frame, message, new_ack, new_nak, normalized, parse, serialize}
use vcmp_rs.Frame.RoundTrip.{IsId, IsStr, IsWellFormed, parse-serialize}
use vcmp_rs.Resources.{handler}
use vcmp_rs.Session.{
  Json, Session, Permits, PendingEntry, Arrival, Answer, answered, HandlerTask, reserve_both,
  release_both, close,
}
use vcmp_rs.Session.Sending.{exchange, exchange_result, wait_result, answer_for}
use vcmp_rs.Session.Receiving.{
  handle_incoming, handle_parsed, handle_frame, handle_message, admit_message, dispatch, spawn_task,
  handle_nak, arrive, parsed, named_type, finish_task, handler_reply, reply, send_nak, error_text,
}
use vcmp_rs.Session.Settling.{Settles, handlers-settle}
use vcmp_rs.Session.Queueing.{Queued, reserve_both-Rebudgeted}
use vcmp_rs.Session.Queues.{write-Queued, exchange-Queued}
use vcmp_rs.Session.Replies.{
  Outcome, from_peer, returned, Carried, Conveyed, reply_frame, reply_frame-WellFormed,
  nak_error-Carried,
}

module _ {V H : Type 0} (json : Json V) where
  -- A well-formed frame that is not too large is handled as what it was before it was written.
  incoming-serialize :
      (f : Frame) (s : Session V H)
      → IsWellFormed f
      → length (serialize f) ≤ s.limits.max_message_bytes
      → handle_incoming json (serialize f) s ≡ handle_frame json f (arrive json s)
  unfolding handle_incoming handle_parsed
  incoming-serialize f s w h =
      let fits : ltb s.limits.max_message_bytes (length (serialize f)) ≡ false =
        ground (arith, h) in
      ap (λ b. if b then close s else handle_parsed json (parse (serialize f)) s) fits
      ∙ ap (λ r. handle_parsed json r s) (parse-serialize f w)

  admit-spawns :
      (id payload : Text) (a : Arrival) (p : Permits) (v : V) (type : Text) (h : H)
      (s : Session V H)
      → parsed json payload ≡ some v
      → named_type (json.type_of v) ≡ some type
      → get type s.handlers ≡ some h
      → admit_message json id payload a (ok p, s) ≡ spawn_task json id h v a p s
  unfolding admit_message dispatch
  admit-spawns id payload a p v type h s e f g = rw (e, admit_message, f, dispatch, g)

  -- The peer spawns the handler of the message's type.
  message-spawns :
      (id payload : Text) (p : Permits) (v : V) (type : Text) (h : H) (t : Session V H)
      → (reserve_both handler (length payload) (arrive json t).1).0 ≡ ok p
      → parsed json payload ≡ some v
      → named_type (json.type_of v) ≡ some type
      → get type t.handlers ≡ some h
      → (handle_frame json (message id payload) (arrive json t)).tasks ≡ (
          record { id = id; handler = h; message = v; arrival = (arrive json t).0; permits = p }
          ∷ t.tasks)
  unfolding handle_frame handle_message arrive spawn_task
  message-spawns id payload p v type h t e f g k =
      let t1 : Session V H = (arrive json t).1 in
      let t2 : Session V H = (reserve_both handler (length payload) t1).1 in
      let (l, b, r) = reserve_both-Rebudgeted handler (length payload) t1 in
      let same : t2.handlers ≡ t.handlers = ap (λ x. x.handlers) r in
      ap (λ q. (admit_message json id payload (arrive json t).0 (q, t2)).tasks) e
      ∙ ap (λ x. x.tasks)
          (admit-spawns id payload (arrive json t).0 p v type h t2 f g
            (ap (λ m. get type m) same ∙ k))
      ∙ ap
          (λ ts.
            record { id = id; handler = h; message = v; arrival = (arrive json t).0; permits = p }
            ∷ ts)
          (ap (λ x. x.tasks) r)

  -- The end of the handler queues the reply, or closes the session that cannot send it.
  finish_task-replies :
      (before after : List (HandlerTask V H)) (x : HandlerTask V H) (o : Outcome V)
      (t : Session V H)
      → ((finish_task json before x after o t).open_ ≡ false)
        ⊎ Queued true (serialize (reply_frame json x.id o)) t (finish_task json before x after o t)
  unfolding finish_task handler_reply reply send_nak reply_frame release_both
  finish_task-replies before after x (some (ok payload)) t =
      write-Queued (new_ack x.id payload) (record t { tasks = before ++ after })
  finish_task-replies before after x (some (err e)) t =
      write-Queued (new_nak x.id (some (error_text json e))) (record t { tasks = before ++ after })
  finish_task-replies before after x none t =
      write-Queued
        (new_nak x.id (some (error_text json (new_error 504 (codes "Handler timed out")))))
        (record t { tasks = before ++ after })

  -- What the waiter of a pending request finds once its request was settled.
  Settles-answer :
      (id : Text) (a : Answer V) (s after : Session V H) (e : PendingEntry)
      → Settles id a s after
      → get id s.pending ≡ some e
      → answer_for e.waiter after.answers ≡ some a
  Settles-answer id a s after e (inr (n, _)) g = absurd (cc)
  Settles-answer id a s after e (inl (d, f, h, _, _, _)) g =
      let same : d.waiter ≡ e.waiter =
        ap (λ o. elim o [ none ↦ 0 | some x ↦ x.waiter ]) (sym f ∙ g) in
      subst (λ w. answer_for w after.answers ≡ some a) same h

  nak-settles :
      (id : Text) (x : VcmpError V) (u : Session V H) (e : PendingEntry)
      → Carried json x.problem
      → get id u.pending ≡ some e
      → answer_for e.waiter
          (handle_nak json id (normalized (some (error_text json x))) (arrive json u).1).answers
        ≡ some (answered (err (from_peer x)))
  unfolding arrive
  nak-settles id x u e c g =
      let payload : Option Text = normalized (some (error_text json x)) in
      let u1 : Session V H = (arrive json u).1 in
      Settles-answer id _ u1 _ e (handlers-settle json id payload (arrive json u).0 u1).1 g
      ∙ ap (λ y. some (answered (err y))) (nak_error-Carried json x c)

  -- The reply settles the request with what its outcome stands for.
  reply-settles :
      (id : Text) (o : Outcome V) (u : Session V H) (e : PendingEntry)
      → Conveyed json o
      → get id u.pending ≡ some e
      → answer_for e.waiter (handle_frame json (reply_frame json id o) (arrive json u)).answers
        ≡ some (answered (returned o (arrive json u).0))
  unfolding handle_frame reply_frame returned arrive new_ack new_nak
  reply-settles id (some (ok payload)) u e c g =
      let u1 : Session V H = (arrive json u).1 in
      let a : Arrival = (arrive json u).0 in
      Settles-answer id _ u1 _ e (handlers-settle json id (normalized payload) a u1).0 g
  reply-settles id (some (err x)) u e c g = nak-settles id x u e c g
  reply-settles id none u e c g = nak-settles id (new_error 504 (codes "Handler timed out")) u e c g

  -- The task of a message that arrived at a session.
  abbrev pub task_of : Text → H → V → Session V H → Permits → HandlerTask V H
  task_of id h v t p = record {
    id = id;
    handler = h;
    message = v;
    arrival = (arrive json t).0;
    permits = p;
  }

  -- A request from one session to another, under an id of the generator's form, with frames
  -- within the receivers' size limits and a reply that JSON carries: once its frame is queued and
  -- the peer admits it, the peer's handler of its type runs on the parsed message; however that
  -- handler ends, its session closes or queues a reply, and a request still pending when that
  -- reply arrives returns the handler's payload with the arrival of the reply, or an error with
  -- the handler's problem detail, and 504 past the handler's deadline.
  pub call-Returns :
      (s t t' u : Session V H) (id payload : Text) (waiter : ℕ) (queued : Unit {0}) (p : Permits)
      (v : V) (type : Text) (h : H) (before after : List (HandlerTask V H)) (o : Outcome V)
      (e : PendingEntry) (expired : Bool)
      → IsId id
      → IsStr payload
      → Conveyed json o
      → (exchange id waiter payload s).0 ≡ ok queued
      → length (serialize (message id payload)) ≤ t.limits.max_message_bytes
      → (reserve_both handler (length payload) (arrive json t).1).0 ≡ ok p
      → parsed json payload ≡ some v
      → named_type (json.type_of v) ≡ some type
      → get type t.handlers ≡ some h
      → get id u.pending ≡ some e
      → length (serialize (reply_frame json id o)) ≤ u.limits.max_message_bytes
      → Queued false (serialize (message id payload)) s (exchange id waiter payload s).1
        × ((handle_incoming json (serialize (message id payload)) t).tasks
            ≡ (task_of id h v t p ∷ t.tasks))
        × (((finish_task json before (task_of id h v t p) after o t').open_ ≡ false)
            ⊎ Queued true
                (serialize (reply_frame json id o))
                t'
                (finish_task json before (task_of id h v t p) after o t'))
        × ((exchange_result id e.waiter expired
              (handle_incoming json (serialize (reply_frame json id o)) u)).0
            ≡ some (returned o (arrive json u).0))
  unfolding exchange_result wait_result
  call-Returns s t t' u id payload waiter queued p v type h before after o e expired i str c sent
        fits admitted parses named found pending small =
      (
        exchange-Queued id waiter payload s queued sent,
        ap (λ r. r.tasks) (incoming-serialize (message id payload) t (i, str) fits)
            ∙ message-spawns id payload p v type h t admitted parses named found,
        finish_task-replies before after (task_of id h v t p) o t',
        rw
            (
              ap (λ r. answer_for e.waiter r.answers)
                    (incoming-serialize (reply_frame json id o) u
                      (reply_frame-WellFormed json id o i c) small)
                  ∙ reply-settles id o u e c pending,
              exchange_result,
            )
            refl,
      )
