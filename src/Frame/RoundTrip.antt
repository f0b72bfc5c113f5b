-- ===== src/Frame/RoundTrip.antt =====
-- `Frame::parse` after `Frame::serialize`, on the frames that the program builds.
use vcmp_rs.Base.{
  ℕ, ◌≤◌, ◌≡◌, ◌≢◌, refl, [], ◌∷◌, ◌++◌, Option, none, some, true, arith, ok, Text, codes, length,
  length-append, IsAscii, at_boundary, get_from, get_range, get_to-append, get_from-append,
  get_range-append, at_boundary-append, ap, ◌∙◌, append_assoc, subst, text_eq,
}
use vcmp_rs.Decimal.{max_u64, to_string}
use vcmp_rs.Decimal.RoundTrip.{parse_u64-to_string, to_string-at_boundary}
use vcmp_rs.Frame.{
  Frame, message, ack, nak, heartbeat, build, parse_interval, parse_with_id, parse_type, parse,
  serialize, wire_payload, type_length, payload_index, id_length,
}

abbrev pub IsId : Text → Type 0
IsId id = (length id ≡ id_length) × IsAscii id

-- A `str` never begins inside a character.
abbrev pub IsStr : Text → Type 0
IsStr s = at_boundary s ≡ true

abbrev pub IsNormal : Option Text → Type 0
IsNormal none = Unit
IsNormal (some p) = (p ≢ []) × IsStr p

-- A frame as the constructors build it, over an id of `generate_id`.
abbrev pub IsWellFormed : Frame → Type 0
IsWellFormed (message id payload) = IsId id × IsStr payload
IsWellFormed (ack id payload) = IsId id × IsNormal payload
IsWellFormed (nak id payload) = IsId id × IsNormal payload
IsWellFormed (heartbeat interval) = interval ≤ max_u64

parse_typed :
    (type rest : Text)
    → length type ≡ type_length
    → at_boundary rest ≡ true
    → parse (type ++ rest) ≡ parse_type type (type ++ rest)
unfolding parse
parse_typed type rest t b = rw (get_to-append type rest type_length t b)

module _ (type id payload : Text) (t : length type ≡ type_length) (v : IsId id)
    (p : IsStr payload) where
  abbrev raw : Text
  raw = type ++ (id ++ payload)

  raw-id : get_range raw type_length payload_index ≡ some id
  raw-id =
      get_range-append type id payload type_length payload_index t (omega arith)
        (at_boundary-append id payload v.1 (omega arith)) p

  raw-payload : get_from raw payload_index ≡ some payload
  raw-payload =
      subst (λ r. get_from r payload_index ≡ some payload) (append_assoc type id payload)
        (get_from-append (type ++ id) payload payload_index (omega (arith, length-append type id))
          p)

  parse_with_id_lem : parse_with_id type raw ≡ ok (build type id payload)
  unfolding parse_with_id
  parse_with_id_lem = rw (raw-id, v.1, raw-payload)

  parse-raw : parse raw ≡ parse_type type raw
  parse-raw = parse_typed type (id ++ payload) t (at_boundary-append id payload v.1 (omega arith))

-- The empty payload on the wire is read as none, and any other as itself.
build-ack :
    (id : Text) (payload : Option Text)
    → IsNormal payload
    → build (codes "ACK") id (wire_payload payload) ≡ ack id payload
unfolding build text_eq
build-ack id none n = refl
build-ack id (some []) n = absurd (n.0 refl)
build-ack id (some (c ∷ p)) n = refl

build-nak :
    (id : Text) (payload : Option Text)
    → IsNormal payload
    → build (codes "NAK") id (wire_payload payload) ≡ nak id payload
unfolding build text_eq
build-nak id none n = refl
build-nak id (some []) n = absurd (n.0 refl)
build-nak id (some (c ∷ p)) n = refl

wire_payload-IsStr : (payload : Option Text) → IsNormal payload → IsStr (wire_payload payload)
unfolding at_boundary
wire_payload-IsStr none n = refl
wire_payload-IsStr (some p) n = n.1

parse_interval-to_string : (n : ℕ) → n ≤ max_u64 → parse_interval (to_string n) ≡ ok (heartbeat n)
unfolding parse_interval
parse_interval-to_string n h = rw (parse_u64-to_string n h, parse_interval)

-- Every well-formed frame, a heartbeat of any u64 interval included, is parsed back from its wire
-- text.
pub parse-serialize : (f : Frame) → IsWellFormed f → parse (serialize f) ≡ ok f
unfolding serialize parse_type text_eq build
parse-serialize (message id payload) (v, p) =
    parse-raw (codes "MSG") id payload refl v p
    ∙ parse_with_id_lem (codes "MSG") id payload refl v p
parse-serialize (ack id payload) (v, n) =
    let p = wire_payload-IsStr payload n in
    let w = wire_payload payload in
    parse-raw (codes "ACK") id w refl v p
    ∙ parse_with_id_lem (codes "ACK") id w refl v p
    ∙ ap ok (build-ack id payload n)
parse-serialize (nak id payload) (v, n) =
    let p = wire_payload-IsStr payload n in
    let w = wire_payload payload in
    parse-raw (codes "NAK") id w refl v p
    ∙ parse_with_id_lem (codes "NAK") id w refl v p
    ∙ ap ok (build-nak id payload n)
parse-serialize (heartbeat n) h =
    parse_typed (codes "HBT") (to_string n) refl (to_string-at_boundary n)
    ∙ parse_interval-to_string n h
