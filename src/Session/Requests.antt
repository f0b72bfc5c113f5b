-- ===== src/Session/Requests.antt =====
-- src/session.rs: the typed sends around `exchange`, from the serialization of a message to the
-- decoding of its acknowledgement. The serializer's writes and the deserializer are arguments.
use vcmp_rs.Base.{ℕ, ◌-◌, ◌++◌, List, Option, none, some, Bool, Result, ok, err, Text, codes}
use vcmp_rs.Base.Exec.{◌>>=◌}
use vcmp_rs.Error.{VcmpError, StdError, internal, with_detail, with_source}
use vcmp_rs.Session.{Json, Session, Arrival}
use vcmp_rs.Session.Sending.{Method, exchange, exchange_result, overhead}
use vcmp_rs.Session.Handlers.{serialize_bounded}

-- A message with its `@type` member, as sent on the wire.
pub record Tagged (M : Type 0) : Type 0 where
  pub type_ : Text
  pub message : M

-- What `serde_json::to_writer` does with a value: its writes, and whether it then fails by itself.
abbrev pub Writes : Type 0
Writes = List Text × Bool

module _ {V : Type 0} where
  -- The two errors with which an acknowledgement is turned down.
  unfoldable pub invalid_acknowledgement : Text → StdError → VcmpError V
  invalid_acknowledgement detail error =
      with_source (with_detail (internal (codes "Invalid acknowledgement")) detail) error

  unfoldable pub from_value_error : StdError → VcmpError V
  unfolding invalid_acknowledgement
  from_value_error error =
      invalid_acknowledgement (codes "The ACK payload could not be deserialized: " ++ error.message)
        error

  unfoldable pub value_only :
      Option (Result (V × Arrival) (VcmpError V)) → Option (Result V (VcmpError V))
  value_only none = none
  value_only (some (err e)) = some (err e)
  value_only (some (ok (v, arrival))) = some (ok v)

  unfoldable pub deserialized :
      {R : Type 0}
      → (V → Result R StdError)
      → Option (Result V (VcmpError V))
      → Option (Result R (VcmpError V))
  unfolding from_value_error
  deserialized from_value none = none
  deserialized from_value (some (err e)) = some (err e)
  deserialized from_value (some (ok v)) = elim (from_value v) [
    | ok r ↦ some (ok r)
    | err e ↦ some (err (from_value_error e))
  ]

module _ {V : Type 0} (json : Json V) where
  -- The end of `send_with_arrival`: the acknowledgement as a JSON value.
  unfoldable pub parse_ack : Option Text → Result V (VcmpError V)
  unfolding invalid_acknowledgement
  parse_ack none = ok json.null
  parse_ack (some ack) = elim (json.from_str ack) [
    | some v ↦ ok v
    | none ↦ err (
        invalid_acknowledgement (codes "The ACK payload could not be parsed.")
          (json.syntax_error ack))
  ]

  unfoldable pub with_value :
      Result (Option Text × Arrival) (VcmpError V) → Result (V × Arrival) (VcmpError V)
  unfolding parse_ack
  with_value (err e) = err e
  with_value (ok (ack, arrival)) = elim (parse_ack ack) [ ok v ↦ ok (v, arrival) | err e ↦ err e ]

module _ {V H : Type 0} where
  unfoldable pub serialized : Writes → Method V H Text
  serialized (chunks, fails) s =
      (serialize_bounded chunks fails (s.limits.max_message_bytes - overhead), s)

  -- `send_with_arrival` up to the wait of `exchange`.
  unfoldable pub begin_send : Text → ℕ → Writes → Method V H (Unit {0})
  unfolding serialized
  begin_send id waiter writes = do payload ← serialized writes; exchange id waiter payload

  -- The wait of a request that was sent; `meanwhile` is what becomes of the session until the
  -- waiter looks at its channel for the last time, with its deadline `expired` or not. None while
  -- it goes on waiting.
  unfoldable pub await_exchange :
      Text
      → ℕ
      → (Session V H → Session V H)
      → Bool
      → Result (Unit {0}) (VcmpError V) × Session V H
      → Option (Result (Option Text × Arrival) (VcmpError V)) × Session V H
  await_exchange id waiter meanwhile expired (err e, s) = (some (err e), s)
  await_exchange id waiter meanwhile expired (ok u, s) =
      exchange_result id waiter expired (meanwhile s)

  -- `send_payload`: the raw payload, and the payload of the acknowledgement.
  unfoldable pub send_payload :
      Text
      → ℕ
      → Text
      → (Session V H → Session V H)
      → Bool
      → Session V H
      → Option (Result (Option Text) (VcmpError V)) × Session V H
  unfolding await_exchange
  send_payload id waiter payload meanwhile expired s =
      let (r, s') = await_exchange id waiter meanwhile expired (exchange id waiter payload s) in
      (without_arrival r, s')
    where
      without_arrival :
          Option (Result (Option Text × Arrival) (VcmpError V))
          → Option (Result (Option Text) (VcmpError V))
      without_arrival none = none
      without_arrival (some (err e)) = some (err e)
      without_arrival (some (ok (ack, arrival))) = some (ok ack)

module _ {V H : Type 0} (json : Json V) where
  unfoldable pub decoded :
      Option (Result (Option Text × Arrival) (VcmpError V)) × Session V H
      → Option (Result (V × Arrival) (VcmpError V)) × Session V H
  unfolding with_value
  decoded (none, s) = (none, s)
  decoded (some r, s) = (some (with_value json r), s)

  -- `send_with_arrival`.
  unfoldable pub send_with_arrival :
      Text
      → ℕ
      → Writes
      → (Session V H → Session V H)
      → Bool
      → Session V H
      → Option (Result (V × Arrival) (VcmpError V)) × Session V H
  unfolding begin_send await_exchange decoded
  send_with_arrival id waiter writes meanwhile expired s =
      decoded (await_exchange id waiter meanwhile expired (begin_send id waiter writes s))

  -- `send_value`.
  unfoldable pub send_value :
      Text
      → ℕ
      → Writes
      → (Session V H → Session V H)
      → Bool
      → Session V H
      → Option (Result V (VcmpError V)) × Session V H
  unfolding send_with_arrival value_only
  send_value id waiter writes meanwhile expired s =
      let (r, s') = send_with_arrival id waiter writes meanwhile expired s in (value_only r, s')

  module _ {M : Type 0} (TYPE : Text) (to_writer : Tagged M → Writes) where
    -- `send`.
    unfoldable pub send :
        Text
        → ℕ
        → M
        → (Session V H → Session V H)
        → Bool
        → Session V H
        → Option (Result V (VcmpError V)) × Session V H
    unfolding send_value
    send id waiter m meanwhile expired s =
        send_value id waiter (to_writer (record { type_ = TYPE; message = m })) meanwhile expired s

    -- `send_as`.
    unfoldable pub send_as :
        {R : Type 0}
        → (V → Result R StdError)
        → Text
        → ℕ
        → M
        → (Session V H → Session V H)
        → Bool
        → Session V H
        → Option (Result R (VcmpError V)) × Session V H
    unfolding send deserialized
    send_as from_value id waiter m meanwhile expired s =
        let (r, s') = send id waiter m meanwhile expired s in (deserialized from_value r, s')
