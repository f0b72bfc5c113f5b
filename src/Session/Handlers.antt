-- ===== src/Session/Handlers.antt =====
-- src/session.rs: the handler map, the erased handlers in it, and the bounded serialization of
-- what is sent. The serializer's writes and the deserializer are arguments.
use vcmp_rs.Base.{
  ℕ, ◌+◌, ◌-◌, ◌≤◌, ◌≡◌, inl, inr, List, [], ◌∷◌, ◌++◌, Option, none, some, Bool, true, false,
  Result, ok, err, ◌>>=◌, Text, codes, length, ltb, arith, text_eq, if◌then◌else◌, Bool-cases,
  length-append, append_assoc, append-nil, ◌==◌,
}
use vcmp_rs.Base.Assoc.{get, insert, remove, get-insert}
use vcmp_rs.Error.{VcmpError, new_error, bad_request, internal, with_detail, status}

module _ {H : Type 0} where
  -- `HandlerMap::off`, `has` and `resolve`; `insert` is the end of `register`.
  off : Text → List (Text × H) → List (Text × H)
  off type handlers = remove type handlers

  has : Text → List (Text × H) → Bool
  has type handlers = elim (get type handlers) [ none ↦ false | some h ↦ true ]

  resolve : Text → List (Text × H) → Option H
  resolve type handlers = get type handlers

  register_handler : Text → H → List (Text × H) → List (Text × H)
  register_handler type h handlers = insert type h handlers

-- `Output::write`, for each write of the serializer: none once the output is full.
unfoldable pub write_chunks : ℕ → List Text → Text → Option Text
write_chunks limit [] bytes = some bytes
write_chunks limit (chunk ∷ chunks) bytes =
    let rest = write_chunks limit chunks (bytes ++ chunk) in
    if ltb (limit - length bytes) (length chunk) then none else rest

pub concat : List Text → Text
concat [] = []
concat (chunk ∷ chunks) = chunk ++ concat chunks

write_chunks_lem :
    (limit : ℕ) (chunks : List Text) (bytes : Text)
    → length bytes ≤ limit
    → write_chunks limit chunks bytes ≡ (
        if ltb limit (length bytes + length (concat chunks))
        then none
        else some (bytes ++ concat chunks))
unfolding write_chunks concat
write_chunks_lem limit [] bytes h = rw (append-nil bytes) (ground arith)
write_chunks_lem limit (chunk ∷ chunks) bytes h =
    elim (Bool-cases (ltb (limit - length bytes) (length chunk))) [
      | inl e ↦ ground (arith, length-append chunk (concat chunks))
      | inr e ↦ ground (
        arith,
        length-append chunk (concat chunks),
        length-append bytes chunk,
        append_assoc bytes chunk (concat chunks),
        write_chunks_lem limit chunks (bytes ++ chunk),
      )
    ]

-- What the map holds: a handler of a value, for the limit of the session that it is given.
abbrev pub Handler : Type 0 → Type 0
Handler V = ℕ → V → Result (Option Text) (VcmpError V)

-- `HandlerMap::new`.
new_handlers : (V : Type 0) → List (Text × Handler V)
new_handlers V = []

module _ {V : Type 0} where
  -- `serialize_bounded`, on the writes of the serializer and whether it then failed by itself.
  unfoldable pub serialize_bounded : List Text → Bool → ℕ → Result Text (VcmpError V)
  serialize_bounded chunks fails limit = elim (write_chunks limit chunks []) [
    | none ↦ err (new_error 413 (codes "Message too large"))
    | some bytes ↦ if fails then err (internal (codes "Message serialization failed")) else ok bytes
  ]

  -- `map_err` on the result of a handler.
  reply_error : VcmpError V → VcmpError V
  reply_error e =
      if status e == 413
      then e
      else with_detail (internal (codes "Message handling failed"))
          (codes "The handler result could not be serialized.")

  bounded_reply : Result Text (VcmpError V) → Result (Option Text) (VcmpError V)
  bounded_reply (err e) = err (reply_error e)
  bounded_reply (ok payload) = ok (if text_eq payload (codes "null") then none else some payload)

  invalid_message : {M : Type 0} → Result M Text → Result M (VcmpError V)
  invalid_message (ok m) = ok m
  invalid_message (err e) = err (
      with_detail (bad_request (codes "Invalid message"))
        (codes "The message could not be deserialized: " ++ e))

  -- The erased handler of `register`: the `@type` member is removed for `on` and stays for
  -- `on_type`.
  erased :
      {M R : Type 0} (strip_type : Bool) (without_type : V → V) (from_value : V → Result M Text)
      (handler : M → Result R (VcmpError V)) (chunks : R → List Text × Bool) (max_message_bytes : ℕ)
      → V
      → Result (Option Text) (VcmpError V)
  erased strip_type without_type from_value handler chunks max_message_bytes value =
      invalid_message (from_value (if strip_type then without_type value else value)) >>= λ message.
      handler message >>= λ result.
      bounded_reply (serialize_bounded (chunks result).0 (chunks result).1 (max_message_bytes - 15))

  -- `HandlerMap::on` and `on_type`.
  module _ {M R : Type 0} (without_type : V → V) (from_value : V → Result M Text)
      (handler : M → Result R (VcmpError V)) (chunks : R → List Text × Bool) where
    on : Text → List (Text × Handler V) → List (Text × Handler V)
    on type handlers =
        register_handler type (λ limit. erased true without_type from_value handler chunks limit)
          handlers

    on_type : Text → List (Text × Handler V) → List (Text × Handler V)
    on_type type handlers =
        register_handler type (λ limit. erased false without_type from_value handler chunks limit)
          handlers

    -- The handler that was registered last for a type is the one that resolves, and the others
    -- are as they were.
    resolve-on_type :
        (type other : Text) (handlers : List (Text × Handler V))
        → resolve other (on_type type handlers) ≡ (
            if text_eq type other
            then some (λ limit. erased false without_type from_value handler chunks limit)
            else resolve other handlers)
    unfolding resolve on_type register_handler
    resolve-on_type type other handlers = get-insert type other _ handlers

  -- The bounded serialization is the whole text if that fits the limit, the error 413 if it does
  -- not fit, and the error 500 if it fits and the serializer failed.
  pub serialize_bounded_lem :
      (chunks : List Text) (fails : Bool) (limit : ℕ)
      → serialize_bounded chunks fails limit ≡ (
          if ltb limit (length (concat chunks))
          then err (new_error 413 (codes "Message too large"))
          else if fails
          then err (internal (codes "Message serialization failed"))
          else ok (concat chunks))
  unfolding serialize_bounded
  serialize_bounded_lem chunks fails limit =
      rw (write_chunks_lem limit chunks [] (omega arith), serialize_bounded) (ground arith)
