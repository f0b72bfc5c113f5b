-- ===== src/Frame.antt =====
-- src/frame.rs: the frame type, its constructors, and the codec between frames and texts.
pub mod Base64
pub mod Parsing
pub mod RoundTrip
pub mod Display
mod Examples
use vcmp_rs.Base.{
  ℕ, ◌+◌, ◌≡◌, refl, [], ◌++◌, Option, none, some, Bool, true, false, ◌||◌, if◌then◌else◌, Result,
  ok, err, ok_or, ◌>>=◌, Text, codes, length, drop, text_eq, is_empty, is_ascii, get_to, get_from,
  get_range,
}
use vcmp_rs.Decimal.{to_string, parse_u64}

abbrev pub type_length : ℕ
type_length = 3

abbrev pub id_length : ℕ
id_length = 12

abbrev pub payload_index : ℕ
payload_index = type_length + id_length

pub data Frame : Type 0 where
  message : (id : Text) → (payload : Text) → Frame
  ack : (id : Text) → (payload : Option Text) → Frame
  nak : (id : Text) → (payload : Option Text) → Frame
  heartbeat : (interval : ℕ) → Frame

pub data FrameError : Type 0 where
  too_short : ℕ → FrameError
  invalid_type : Text → FrameError
  incomplete_id : FrameError
  invalid_interval : Text → FrameError

-- `payload.filter(|p| !p.is_empty())`.
abbrev pub normalized : Option Text → Option Text
normalized none = none
normalized (some p) = if is_empty p then none else some p

-- `Frame::ack` and `Frame::nak`.
unfoldable pub new_ack : Text → Option Text → Frame
unfolding is_empty
new_ack id payload = ack id (normalized payload)

unfoldable pub new_nak : Text → Option Text → Frame
unfolding is_empty
new_nak id payload = nak id (normalized payload)

unfoldable pub kind : Frame → Text
kind (message id payload) = codes "MSG"
kind (ack id payload) = codes "ACK"
kind (nak id payload) = codes "NAK"
kind (heartbeat interval) = codes "HBT"

unfoldable pub frame_id : Frame → Option Text
frame_id (message id payload) = some id
frame_id (ack id payload) = some id
frame_id (nak id payload) = some id
frame_id (heartbeat interval) = none

-- The `HBT` branch of `parse`.
parse_interval : Text → Result Frame FrameError
parse_interval interval = elim (parse_u64 interval) [
  | none ↦ err (invalid_interval interval)
  | some n ↦ ok (heartbeat n)
]

-- `.filter(|id| id.is_ascii())`.
abbrev ascii_only : Option Text → Option Text
ascii_only none = none
ascii_only (some id) = if is_ascii id then some id else none

abbrev or_default : Option Text → Text
or_default none = []
or_default (some s) = s

-- The frame of a given type, once the id and the payload are cut out.
build : Text → Text → Text → Frame
unfolding new_ack new_nak
build type id payload =
    if text_eq type (codes "MSG")
    then message id payload
    else if text_eq type (codes "ACK")
    then new_ack id (some payload)
    else new_nak id (some payload)

-- The `MSG`, `ACK` and `NAK` branch of `parse`.
parse_with_id : Text → Text → Result Frame FrameError
parse_with_id type raw = do
  id ← ok_or (ascii_only (get_range raw type_length payload_index)) incomplete_id
  ok (build type id (or_default (get_from raw payload_index)))

parse_type : Text → Text → Result Frame FrameError
parse_type type raw =
    if text_eq type (codes "HBT")
    then parse_interval (drop type_length raw)
    else if text_eq type (codes "MSG") || text_eq type (codes "ACK") || text_eq type (codes "NAK")
    then parse_with_id type raw
    else err (invalid_type type)

-- `Frame::parse`.
pub parse : Text → Result Frame FrameError
parse raw = do type ← ok_or (get_to raw type_length) (too_short (length raw)); parse_type type raw

-- The payload as it stands on the wire, where none and an empty one are the same.
abbrev wire_payload : Option Text → Text
wire_payload none = []
wire_payload (some p) = p

-- `Frame::serialize`.
unfoldable pub serialize : Frame → Text
unfolding kind
serialize (message id payload) = kind (message id payload) ++ (id ++ payload)
serialize (ack id payload) = kind (ack id payload) ++ (id ++ wire_payload payload)
serialize (nak id payload) = kind (nak id payload) ++ (id ++ wire_payload payload)
serialize (heartbeat interval) = kind (heartbeat interval) ++ to_string interval

-- `payload_len`: the room reserved for the payload.
unfoldable pub payload_len : Frame → ℕ
payload_len (message id payload) = length payload
payload_len (ack id none) = 0
payload_len (ack id (some p)) = length p
payload_len (nak id none) = 0
payload_len (nak id (some p)) = length p
payload_len (heartbeat interval) = 20

-- All that a run of the codec computes with.
unfoldable pub codec : Unit {0}
unfolding parse parse_type parse_interval parse_with_id build text_eq is_empty is_ascii get_to
    get_range get_from
codec = tt

parses_message :
    parse (codes "MSG123456789012foo") ≡ ok (message (codes "123456789012") (codes "foo"))
unfolding codec
parses_message = refl

parses_empty_ack : parse (codes "ACK123456789012") ≡ ok (ack (codes "123456789012") none)
unfolding codec
parses_empty_ack = refl

rejects_short : parse (codes "MS") ≡ err (too_short 2)
unfolding codec
rejects_short = refl

rejects_type : parse (codes "XXXsomething") ≡ err (invalid_type (codes "XXX"))
unfolding codec
rejects_type = refl

rejects_id : parse (codes "MSG12345") ≡ err incomplete_id
unfolding codec
rejects_id = refl

rejects_interval : parse (codes "HBT-5") ≡ err (invalid_interval (codes "-5"))
unfolding codec parse_u64
rejects_interval = refl
