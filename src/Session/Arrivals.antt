-- ===== src/Session/Arrivals.antt =====
-- src/session.rs: the arrivals that a session gives to the frames it receives.
use vcmp_rs.Base.{
  pick, ℕ, ◌+◌, ◌^◌, ◌≤◌, ◌<◌, ◌≡◌, refl, sym, ◌∙◌, subst, [], false, ◌⊎◌, inl, inr, Text, Result,
  ok, err, length, ltb, arith, if◌then◌else◌,
}
use vcmp_rs.Frame.{Frame, FrameError, message, ack, nak, heartbeat, parse}
use vcmp_rs.Session.{Json, Session, Arrival, dropped, close, incremented}
use vcmp_rs.Session.Sending.{cancel_exchange}
use vcmp_rs.Session.Receiving.{arrive, handle_frame, handle_parsed, handle_incoming}
use vcmp_rs.Session.Upkeep.{exchange-keeps, exchange_result-keeps, send_raw-keeps}
use vcmp_rs.Session.Turns.{diagnose-keeps, handle_ack-keeps, handle_nak-keeps, handle_message-keeps}
use vcmp_rs.Session.Beating.{
  send_heartbeat-keeps, expect_heartbeat-keeps, handle_heartbeat-keeps, fire-keeps,
}
use vcmp_rs.Session.Reach.{
  Turn, sends, resolves, cancels, sends_raw, receives, handles, beats, expects, fires, takes_frame,
  ends_write, stops_writer, closes, shuts, Turns, done, more, writer_next-keeps, writer_done-keeps,
  finish_task-keeps,
}
use vcmp_rs.Session.Counting.{
  At, close-At, takes-At, stop_writer-At, shut_down-At, At-kit, beatless,
}

incremented_small : (n : ℕ) → n + 1 < 2 ^ 64 → incremented n ≡ n + 1
incremented_small n h = omega arith

module _ {V H : Type 0} (json : Json V) where
  handle_frame-At :
      (f : Frame) (a : Arrival) (m i : ℕ) (s : Session V H)
      → s.closed ≡ false
      → At m i s
      → At m i (handle_frame json f (a, s))
  unfolding handle_frame
  handle_frame-At (heartbeat interval) a m i s o h =
      handle_heartbeat-keeps (At-kit m i) (beatless m i) {held = []} interval h
  handle_frame-At (ack id payload) a m i s o h =
      handle_ack-keeps (At-kit m i) {held = []} id payload a h
  handle_frame-At (nak id payload) a m i s o h =
      handle_nak-keeps (At-kit m i) json {held = []} id payload h
  handle_frame-At (message id payload) a m i s o h =
      handle_message-keeps (At-kit m i) json {held = []} id payload a o h

  -- A text that is received counts once, if it is a frame.
  handle_incoming-At :
      (raw : Text) (s : Session V H)
      → s.closed ≡ false
      → At s.frames_received s.id (handle_incoming json raw s)
        ⊎ At (incremented s.frames_received) s.id (handle_incoming json raw s)
  unfolding handle_incoming handle_parsed arrive
  handle_incoming-At raw s o =
      pick
        (λ (t : Session V H).
          At s.frames_received s.id t ⊎ At (incremented s.frames_received) s.id t)
        (ltb s.limits.max_message_bytes (length raw))
        (λ _. inl (close-At s.frames_received s.id s (refl, refl))) (λ _. go (parse raw))
    where
      go :
          (r : Result Frame FrameError)
          → At s.frames_received s.id (handle_parsed json r s)
            ⊎ At (incremented s.frames_received) s.id (handle_parsed json r s)
      go (err e) =
          inl (diagnose-keeps (At-kit s.frames_received s.id) {held = []} {s = s} (refl, refl))
      go (ok f) = inr (
          handle_frame-At f (arrive json s).0 (incremented s.frames_received) s.id (arrive json s).1
            o (refl, refl))

  frame-counted :
      (raw : Text) (f : Frame) (s : Session V H)
      → s.closed ≡ false
      → length raw ≤ s.limits.max_message_bytes
      → parse raw ≡ ok f
      → At (incremented s.frames_received) s.id (handle_incoming json raw s)
  unfolding handle_incoming handle_parsed arrive
  frame-counted raw f s o h e =
      let fits : ltb s.limits.max_message_bytes (length raw) ≡ false = ground (arith, h) in
      subst
        (λ b.
          At (incremented s.frames_received) s.id
            (if b then close s else handle_parsed json (parse raw) s))
        (sym fits)
        (subst (λ r. At (incremented s.frames_received) s.id (handle_parsed json r s)) (sym e)
          (handle_frame-At f (arrive json s).0 (incremented s.frames_received) s.id
            (arrive json s).1 o (refl, refl)))

  abbrev Counted : ℕ → Session V H → Session V H → Type 0
  Counted k s t =
      At s.frames_received s.id t ⊎ ((k ≡ 1) × At (incremented s.frames_received) s.id t)

  abbrev pub is_received : {s t : Session V H} → Turn json s t → ℕ
  is_received (receives raw o) = 1
  is_received _ = 0

  turn-Counted : {s t : Session V H} (turn : Turn json s t) → Counted (is_received turn) s t
  unfolding cancel_exchange
  turn-Counted {s} (sends id waiter payload) =
      inl
        (exchange-keeps (At-kit s.frames_received s.id) {held = []} id waiter payload (refl, refl))
  turn-Counted {s} (resolves id waiter expired) = inl (
      exchange_result-keeps (At-kit s.frames_received s.id) {held = []} id waiter expired
        (refl, refl))
  turn-Counted {s} (cancels id) = inl (takes-At s.frames_received s.id s id dropped (refl, refl))
  turn-Counted {s} (sends_raw raw) =
      inl (send_raw-keeps (At-kit s.frames_received s.id) {held = []} raw (refl, refl))
  turn-Counted {s} (receives raw o) = elim (handle_incoming-At raw s o) [
    | inl h ↦ inl h
    | inr h ↦ inr (refl, h)
  ]
  turn-Counted {s} (handles before t after outcome e) = inl (
      finish_task-keeps (At-kit s.frames_received s.id) json {held = []} before t after outcome e
        (refl, refl))
  turn-Counted {s} (beats interval) = inl (
      send_heartbeat-keeps (At-kit s.frames_received s.id) (beatless s.frames_received s.id)
        {held = []} interval (refl, refl))
  turn-Counted {s} (expects timeout) = inl (
      expect_heartbeat-keeps (At-kit s.frames_received s.id) (beatless s.frames_received s.id)
        {held = []} timeout (refl, refl))
  turn-Counted {s} (fires t) = inl (
      fire-keeps (At-kit s.frames_received s.id) (beatless s.frames_received s.id) {held = []} t
        (refl, refl))
  turn-Counted {s} takes_frame =
      inl (writer_next-keeps (At-kit s.frames_received s.id) {held = []} s (refl, refl))
  turn-Counted {s} (ends_write written) =
      inl (writer_done-keeps (At-kit s.frames_received s.id) {held = []} s written (refl, refl))
  turn-Counted {s} stops_writer = inl (stop_writer-At s.frames_received s.id s (refl, refl))
  turn-Counted {s} closes = inl (close-At s.frames_received s.id s (refl, refl))
  turn-Counted {s} shuts = inl (shut_down-At s.frames_received s.id s (refl, refl))

  -- The texts that are received in a number of turns.
  abbrev pub texts : {s t : Session V H} → Turns json s t → ℕ
  texts done = 0
  texts (more ts t) = texts ts + is_received t

  turns-Counted :
      {s t : Session V H} (ts : Turns json s t)
      → s.frames_received + texts ts < 2 ^ 64
      → (s.frames_received ≤ t.frames_received)
        × (t.frames_received ≤ s.frames_received + texts ts)
        × (t.id ≡ s.id)
  turns-Counted done b = (omega arith, omega arith, refl)
  turns-Counted {s} {t} (more {t = u} ts turn) b =
      let (low, high, same) = turns-Counted ts (omega arith) in
      elim (turn-Counted turn) [
        | inl (n, i) ↦ (omega arith, omega arith, i ∙ same)
        | inr (k, (n, i)) ↦
            let step : incremented u.frames_received ≡ u.frames_received + 1 =
              incremented_small u.frames_received (omega arith) in
            (omega arith, omega arith, i ∙ same)
      ]

  -- Frames are ordered by their arrivals: of a frame that is received by a running read loop,
  -- within the size limit, and any later frame of the session, with anything in between, the
  -- first has the lesser arrival, as long as the counter of the frames does not wrap around.
  pub arrivals-Ordered :
      (s t : Session V H) (raw : Text) (f : Frame) (ts : Turns json (handle_incoming json raw s) t)
      → s.closed ≡ false
      → length raw ≤ s.limits.max_message_bytes
      → parse raw ≡ ok f
      → s.frames_received + texts ts + 2 < 2 ^ 64
      → ((arrive json s).0.session ≡ (arrive json t).0.session)
        × ((arrive json s).0.frame < (arrive json t).0.frame)
  unfolding arrive
  arrivals-Ordered s t raw f ts o fits e b =
      let (n, i) = frame-counted raw f s o fits e in
      let first : incremented s.frames_received ≡ s.frames_received + 1 =
        incremented_small s.frames_received (omega arith) in
      let (low, high, same) = turns-Counted ts (omega arith) in
      let second : incremented t.frames_received ≡ t.frames_received + 1 =
        incremented_small t.frames_received (omega arith) in
      (sym (same ∙ i), omega arith)
