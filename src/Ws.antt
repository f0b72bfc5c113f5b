-- ===== src/Ws.antt =====
-- src/ws.rs: how a text becomes WebSocket messages, and which messages become texts.
-- The streams and the sinks of `tokio-tungstenite` are lists of messages.
pub mod Pieces
pub mod Cutting
pub mod Transport
mod Examples
use vcmp_rs.Base.{
  ◌++◌, ℕ, zero, suc, ◌+◌, ◌-◌, ◌^◌, ◌≡◌, refl, List, [], ◌∷◌, Option, none, some, Bool, true,
  false, not, ◌&&◌, min, Text, codes, length, take, drop, ltb, leb, ◌==◌, if◌then◌else◌,
  is_char_boundary,
}

pub data Opcode : Type 0 where
  text_data continue_data : Opcode

pub data Message : Type 0 where
  text_message : Text → Message
  raw_frame : (payload : Text) → (opcode : Opcode) → (is_final : Bool) → Message

-- `usize::MAX` of a 64-bit target.
abbrev pub max_usize : ℕ
max_usize = 2 ^ 64 - 1

-- What the closure of `message_fragments` captures.
pub record Fragments : Type 0 where
  pub text : Text
  pub start : ℕ
  pub done : Bool

abbrev pub fragments : Text → Fragments
fragments text = record { text = text; start = 0; done = false }

-- `fragment_size.filter(|size| *size > 0).unwrap_or(usize::MAX)`.
abbrev pub size_of : Option ℕ → ℕ
size_of none = max_usize
size_of (some size) = if ltb 0 size then size else max_usize

-- `while end > start && !text.is_char_boundary(end) { end -= 1; }`
unfoldable pub retreat : Text → ℕ → ℕ → ℕ
retreat text start zero = 0
retreat text start (suc end) =
    let back = retreat text start end in
    if ltb start (suc end) && not (is_char_boundary text (suc end)) then back else suc end

-- Where the fragment that begins at `start` ends.
unfoldable pub fragment_end : Text → ℕ → ℕ → ℕ
fragment_end text start size =
    let limit = start + min (length text - start) size in
    let end = retreat text start limit in if end == start then limit else end

-- One call of the closure.
unfoldable pub next_fragment : Option ℕ → Fragments → Option Message × Fragments
next_fragment fragment_size f =
    let size = size_of fragment_size in
    let end = fragment_end f.text f.start size in
    if f.done
    then (none, f)
    else if leb (length f.text) size
    then (some (text_message f.text), record f { text = []; done = true })
    else (
      some (
          raw_frame (drop f.start (take end f.text))
            (if f.start == 0 then text_data else continue_data) (end == length f.text)),
      record f { start = end; done = end == length f.text },
    )

-- `collect`, on so many calls: none if the iterator has not ended by then.
unfoldable pub collect : ℕ → Option ℕ → Fragments → Option (List Message)
collect zero fragment_size f = none
collect (suc fuel) fragment_size f =
    let (m, g) = next_fragment fragment_size f in
    let rest = collect fuel fragment_size g in
    elim m [ none ↦ some [] | some m ↦ elim rest [ none ↦ none | some ms ↦ some (m ∷ ms) ] ]

unfoldable pub flat_map : (Text → List Message) → List Text → List Message
flat_map f [] = []
flat_map f (text ∷ texts) = f text ++ flat_map f texts

-- The messages of one text: the iterator has ended after that many calls.
unfoldable pub messages_of : Option ℕ → Text → List Message
unfolding collect
messages_of fragment_size text =
    elim (collect (suc (suc (length text))) fragment_size (fragments text)) [
      | some ms ↦ ms
      | none ↦ []
    ]

-- `outgoing`: what is sent for the texts that go into the sink.
unfoldable pub outgoing : Option ℕ → List Text → List Message
unfolding flat_map messages_of
outgoing fragment_size texts = flat_map (messages_of fragment_size) texts

-- What the peer, or the stream of the socket, delivers.
pub data Incoming : Type 0 where
  text_in : Text → Incoming
  binary_in : List ℕ → Incoming
  control_in : Incoming
  close_in : Incoming
  error_in : Incoming

-- `incoming`: `take_while`, then `filter_map`, on the messages in the order of their arrival.
unfoldable pub incoming : List Incoming → List Text
incoming [] = []
incoming (text_in text ∷ ms) = text ∷ incoming ms
incoming (binary_in bytes ∷ ms) = incoming ms
incoming (control_in ∷ ms) = incoming ms
incoming (close_in ∷ ms) = []
incoming (error_in ∷ ms) = []

small_is_one_message :
    collect 9 (some 8) (fragments (codes "hello")) ≡ some (text_message (codes "hello") ∷ [])
unfolding collect next_fragment fragment_end retreat
small_is_one_message = refl

large_is_split :
    collect 9 (some 2) (fragments (codes "hello"))
    ≡ some (
        raw_frame (codes "he") text_data false
        ∷ raw_frame (codes "ll") continue_data false
        ∷ raw_frame (codes "o") continue_data true
        ∷ [])
unfolding collect next_fragment fragment_end retreat is_char_boundary
large_is_split = refl
