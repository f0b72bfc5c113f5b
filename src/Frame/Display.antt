-- ===== src/Frame/Display.antt =====
-- src/frame.rs: `Display for Frame`, the rendering for logs with a truncated payload.
use vcmp_rs.Base.{
  ℕ, suc, ◌+◌, ◌-◌, ◌≤◌, ◌<◌, ◌≡◌, refl, [], ◌∷◌, ◌++◌, Option, none, some, true, false, arith, ltb,
  ◌==◌, if◌then◌else◌, Text, codes, length, take, drop, is_continuation, take-length, length-drop,
  take-append-drop, ap, sym, at_boundary, min, inl, inr, Bool-cases, ==_iff,
}
use vcmp_rs.Decimal.{to_string}
use vcmp_rs.Frame.{Frame, message, ack, nak, heartbeat}

-- `char_indices().nth(n)`: where the character begins that has n characters in front of it, for
-- the bytes of a text from the offset on.
char_offset : ℕ → Text → ℕ → Option ℕ
char_offset n [] offset = none
char_offset n (b ∷ s) offset =
    let skip = char_offset n s (offset + 1) in
    let next = char_offset (n - 1) s (offset + 1) in
    if is_continuation b then skip else if n == 0 then some offset else next

-- `.map_or(payload.len(), |(i, _)| i)`.
abbrev or_end : Option ℕ → Text → ℕ
or_end none s = length s
or_end (some i) s = i

shown : Text → ℕ
shown payload = or_end (char_offset 36 payload 0) payload

display_payload : Text → Text
display_payload payload =
    codes ":"
    ++ (take (shown payload) payload
        ++ (if ltb (shown payload) (length payload) then codes "..." else []))

display_body : Text → Text → Option Text → Text
display_body type id none = type ++ (codes "#" ++ id)
display_body type id (some payload) = type ++ (codes "#" ++ (id ++ display_payload payload))

pub display : Frame → Text
display (heartbeat interval) = codes "HBT " ++ (to_string interval ++ codes "ms")
display (message id payload) = display_body (codes "MSG") id (some payload)
display (ack id payload) = display_body (codes "ACK") id payload
display (nak id payload) = display_body (codes "NAK") id payload

-- The characters of a text.
pub chars : Text → ℕ
chars [] = 0
chars (b ∷ s) = if is_continuation b then chars s else suc (chars s)

-- Where the offset lies: at a character that has n characters in front of it, if there is one.
abbrev Cut : ℕ → Text → ℕ → Option ℕ → Type 0
Cut n s offset none = chars s ≤ n
Cut n s offset (some i) =
    (k : ℕ) × (i ≡ offset + k)
    × (k < length s)
    × (chars (take k s) ≡ n)
    × (n < chars s)
    × (at_boundary (drop k s) ≡ true)

module _ (n b : ℕ) (s : Text) (offset : ℕ) where
  Cut-skip :
      (o : Option ℕ) → is_continuation b ≡ true → Cut n s (offset + 1) o → Cut n (b ∷ s) offset o
  unfolding chars
  Cut-skip none c h = rw c h
  Cut-skip (some i) c (k, e, l, m, t, a) = (suc k, omega arith, omega arith, rw c m, rw c t, a)

  Cut-next :
      (o : Option ℕ)
      → is_continuation b ≡ false
      → 0 < n
      → Cut (n - 1) s (offset + 1) o
      → Cut n (b ∷ s) offset o
  unfolding chars
  Cut-next none c p h = rw c (omega arith)
  Cut-next (some i) c p (k, e, l, m, t, a) =
      (suc k, omega arith, omega arith, rw c (omega arith), rw c (omega arith), a)

char_offset-Cut : (n : ℕ) (s : Text) (offset : ℕ) → Cut n s offset (char_offset n s offset)
unfolding char_offset
char_offset-Cut n [] offset = unfold chars in omega arith
char_offset-Cut n (b ∷ s) offset = elim (Bool-cases (is_continuation b)) [
  | inl c ↦ rw c (Cut-skip n b s offset _ c (char_offset-Cut n s (offset + 1)))
  | inr c ↦ elim (Bool-cases (n == 0)) [
    | inl z ↦ rw (c, z) (here c ((==_iff n 0).0 z))
    | inr z ↦
        rw (c, z)
          (Cut-next n b s offset _ c (ground arith) (char_offset-Cut (n - 1) s (offset + 1)))
  ]
]
  where
    here : is_continuation b ≡ false → n ≡ 0 → Cut n (b ∷ s) offset (some offset)
    here c z = (
      0,
      omega arith,
      omega arith,
      unfold chars in sym z,
      unfold chars in rw (c, z) (omega arith),
      unfold at_boundary in rw c,
    )

drop_all : (s : Text) → drop (length s) s ≡ []
drop_all [] = refl
drop_all (b ∷ s) = drop_all s

-- The offset is in the text, between two characters, and has at most 36 of them in front of it.
shown-Part :
    (payload : Text)
    → (shown payload ≤ length payload)
      × (at_boundary (drop (shown payload) payload) ≡ true)
      × (chars (take (shown payload) payload) ≡ min 36 (chars payload))
unfolding shown
shown-Part payload = go (char_offset 36 payload 0) (char_offset-Cut 36 payload 0)
  where
    go :
        (o : Option ℕ)
        → Cut 36 payload 0 o
        → (or_end o payload ≤ length payload)
          × (at_boundary (drop (or_end o payload) payload) ≡ true)
          × (chars (take (or_end o payload) payload) ≡ min 36 (chars payload))
    go none h = (
      omega arith,
      unfold at_boundary in ap at_boundary (drop_all payload),
      rw (take-length payload) (omega arith),
    )
    go (some i) (k, f, l, m, t, a) =
        let same : i ≡ k = omega arith in rw same (omega arith, a, omega arith)

-- What stands for the characters that are left out.
abbrev pub ellipsis : Text → Text
ellipsis [] = []
ellipsis (b ∷ rest) = codes "..."

ellipsis-drop :
    (s : Text) (k : ℕ)
    → k ≤ length s
    → (if ltb k (length s) then codes "..." else []) ≡ ellipsis (drop k s)
ellipsis-drop s k h = go (drop k s) (length-drop k s)
  where
    go :
        (rest : Text)
        → length rest ≡ length s - k
        → (if ltb k (length s) then codes "..." else []) ≡ ellipsis rest
    go [] e = let over : ltb k (length s) ≡ false = ground arith in rw over refl
    go (b ∷ rest) e = let left : ltb k (length s) ≡ true = ground arith in rw left refl

-- A rendering of a payload: as many of its characters as there are, but at most 36, the cut being
-- between two characters, and an ellipsis exactly if some are left out.
abbrev pub Abbreviates : Text → Text → Text → Text → Type 0
Abbreviates type id payload t =
    (front : Text) × (rest : Text) × (payload ≡ front ++ rest)
    × (at_boundary rest ≡ true)
    × (chars front ≡ min 36 (chars payload))
    × (t ≡ type ++ (codes "#" ++ (id ++ (codes ":" ++ (front ++ ellipsis rest)))))

abbrev pub Shows : Frame → Text → Type 0
Shows (heartbeat interval) t = t ≡ codes "HBT " ++ (to_string interval ++ codes "ms")
Shows (message id payload) t = Abbreviates (codes "MSG") id payload t
Shows (ack id none) t = t ≡ codes "ACK" ++ (codes "#" ++ id)
Shows (ack id (some payload)) t = Abbreviates (codes "ACK") id payload t
Shows (nak id none) t = t ≡ codes "NAK" ++ (codes "#" ++ id)
Shows (nak id (some payload)) t = Abbreviates (codes "NAK") id payload t

body-Abbreviates :
    (type id payload : Text) → Abbreviates type id payload (display_body type id (some payload))
unfolding display_body display_payload
body-Abbreviates type id payload =
    let (fits, cut, count) = shown-Part payload in
    (
      take (shown payload) payload,
      drop (shown payload) payload,
      sym (take-append-drop (shown payload) payload),
      cut,
      count,
      ap
          (λ dots.
            type ++ (codes "#" ++ (id ++ (codes ":" ++ (take (shown payload) payload ++ dots)))))
          (ellipsis-drop payload (shown payload) fits),
    )

-- A log line shows the kind of the frame and its id or interval, and of a payload the first 36
-- characters, or all if there are no more: it is cut between two characters, so that slicing there
-- does not panic, and an ellipsis stands exactly for what is left out.
pub display-Shows : (f : Frame) → Shows f (display f)
unfolding display display_body
display-Shows (heartbeat interval) = refl
display-Shows (message id payload) = body-Abbreviates (codes "MSG") id payload
display-Shows (ack id none) = refl
display-Shows (ack id (some payload)) = body-Abbreviates (codes "ACK") id payload
display-Shows (nak id none) = refl
display-Shows (nak id (some payload)) = body-Abbreviates (codes "NAK") id payload
