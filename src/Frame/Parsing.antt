-- ===== src/Frame/Parsing.antt =====
-- What `Frame::parse` accepts, and which error it reports for the rest.
use vcmp_rs.Base.{
  ◌≤◌, ◌≡◌, ◌≢◌, ◌⊎◌, inl, inr, refl, [], ◌∷◌, ◌++◌, none, some, true, false, arith, Result, ok,
  err, Text, codes, length, take, drop, get_to, get_range, get_range_split, get_to_split, sym,
  length-drop, length-take, take-drop-drop, ap, ◌∙◌, is_empty, text_eq, text_eq_iff, is_ascii,
  Option-cases, if◌then◌else◌, ◌||◌, text_ne_of_false as ne_of_false, Bool-cases,
}
use vcmp_rs.Decimal.{max_u64, parse_u64}
use vcmp_rs.Decimal.RoundTrip.{parse_u64_bound}
use vcmp_rs.Frame.{
  Frame, heartbeat, FrameError, too_short, invalid_type, incomplete_id, invalid_interval, build,
  parse_interval, parse_with_id, parse_type, parse, normalized, wire_payload, type_length,
  payload_index, id_length, serialize,
}
use vcmp_rs.Frame.RoundTrip.{IsWellFormed, IsId, IsStr, IsNormal}

-- What a parse may return: a message, an acknowledgement or a refusal that is well formed and
-- prints as the text, an interval of a u64 that parse_u64 reads from the text, or an error that
-- the text deserves.
abbrev pub Deserves : Text → Result Frame FrameError → Type 0
Deserves raw (ok (heartbeat n)) =
    (take type_length raw ≡ codes "HBT")
    × (parse_u64 (drop type_length raw) ≡ some n)
    × (n ≤ max_u64)
Deserves raw (ok f) = IsWellFormed f × (serialize f ≡ raw)
Deserves raw (err (too_short n)) = (n ≡ length raw) × (get_to raw type_length ≡ none)
Deserves raw (err (invalid_type t)) =
    (t ≡ take type_length raw)
    × (t ≢ codes "HBT")
    × (t ≢ codes "MSG")
    × (t ≢ codes "ACK")
    × (t ≢ codes "NAK")
Deserves raw (err incomplete_id) =
    ((take type_length raw ≡ codes "MSG")
      ⊎ ((take type_length raw ≡ codes "ACK") ⊎ (take type_length raw ≡ codes "NAK")))
    × ((id : Text) → get_range raw type_length payload_index ≡ some id → is_ascii id ≡ false)
Deserves raw (err (invalid_interval t)) =
    (take type_length raw ≡ codes "HBT") × (t ≡ drop type_length raw) × (parse_u64 t ≡ none)

normalized_lem :
    (payload : Text)
    → IsStr payload
    → IsNormal (normalized (some payload)) × (wire_payload (normalized (some payload)) ≡ payload)
unfolding is_empty
normalized_lem [] b = (tt, refl)
normalized_lem (c ∷ p) b = (((λ e. cc), b), refl)

module _ (raw id payload : Text) (v : IsId id) (b : IsStr payload) where
  message-Deserves :
      codes "MSG" ++ (id ++ payload) ≡ raw → Deserves raw (ok (build (codes "MSG") id payload))
  unfolding build text_eq serialize
  message-Deserves e = ((v, b), e)

  ack-Deserves :
      codes "ACK" ++ (id ++ payload) ≡ raw → Deserves raw (ok (build (codes "ACK") id payload))
  unfolding build text_eq serialize
  ack-Deserves e =
      let (n, w) = normalized_lem payload b in ((v, n), ap (λ p. codes "ACK" ++ (id ++ p)) w ∙ e)

  nak-Deserves :
      codes "NAK" ++ (id ++ payload) ≡ raw → Deserves raw (ok (build (codes "NAK") id payload))
  unfolding build text_eq serialize
  nak-Deserves e =
      let (n, w) = normalized_lem payload b in ((v, n), ap (λ p. codes "NAK" ++ (id ++ p)) w ∙ e)

module _ (raw type : Text) (t : type ≡ take type_length raw) where
  build-Deserves :
      (id payload : Text)
      → IsId id
      → IsStr payload
      → type ++ (id ++ payload) ≡ raw
      → (type ≡ codes "MSG") ⊎ ((type ≡ codes "ACK") ⊎ (type ≡ codes "NAK"))
      → Deserves raw (ok (build type id payload))
  build-Deserves id payload v b e (inl m) = rw m (message-Deserves raw id payload v b (rw m at e))
  build-Deserves id payload v b e (inr (inl m)) = rw m (ack-Deserves raw id payload v b (rw m at e))
  build-Deserves id payload v b e (inr (inr m)) = rw m (nak-Deserves raw id payload v b (rw m at e))

  cut-Deserves :
      (type ≡ codes "MSG") ⊎ ((type ≡ codes "ACK") ⊎ (type ≡ codes "NAK"))
      → (id : Text) → get_range raw type_length payload_index ≡ some id
      → is_ascii id ≡ true
      → Deserves raw (parse_with_id type raw)
  unfolding parse_with_id
  cut-Deserves m id e a =
      let (_, long, x, b, from) =
        get_range_split raw type_length payload_index (omega arith) id e in
      let size : length id ≡ id_length = rw x (
        omega (
          arith,
          length-drop type_length (take payload_index raw),
          length-take payload_index raw,
        )) in
      let whole : type ++ (id ++ drop payload_index raw) ≡ raw =
        rw (t, x) (take-drop-drop type_length payload_index raw (omega arith)) in
      rw (e, a, from) (build-Deserves id (drop payload_index raw) (size, a) b whole m)

  parse_with_id-Deserves :
      (type ≡ codes "MSG") ⊎ ((type ≡ codes "ACK") ⊎ (type ≡ codes "NAK"))
      → Deserves raw (parse_with_id type raw)
  unfolding parse_with_id
  parse_with_id-Deserves m = elim (Option-cases (get_range raw type_length payload_index)) [
    | inl e ↦ rw e (rw (← t) m, λ id f. cc)
    | inr (id, e) ↦ elim (Bool-cases (is_ascii id)) [
      | inl a ↦ cut-Deserves m id e a
      | inr a ↦ rw (e, a) (rw (← t) m, λ id' f. ground arith)
    ]
  ]

  parse_interval-Deserves :
      type ≡ codes "HBT" → Deserves raw (parse_interval (drop type_length raw))
  unfolding parse_interval
  parse_interval-Deserves h = elim (Option-cases (parse_u64 (drop type_length raw))) [
    | inl e ↦ rw (e, parse_interval) (sym t ∙ h, refl, e)
    | inr (n, e) ↦ rw (e, parse_interval) (sym t ∙ h, e, parse_u64_bound _ n e)
  ]

  other_type-Deserves :
      type ≢ codes "HBT"
      → Deserves raw (
          if text_eq type (codes "MSG") || text_eq type (codes "ACK") || text_eq type (codes "NAK")
          then parse_with_id type raw
          else err (invalid_type type))
  other_type-Deserves h = elim (Bool-cases (text_eq type (codes "MSG"))) [
    | inl m ↦ rw m (parse_with_id-Deserves (inl ((text_eq_iff _ _).0 m)))
    | inr m ↦ elim (Bool-cases (text_eq type (codes "ACK"))) [
      | inl a ↦ rw (m, a) (parse_with_id-Deserves (inr (inl ((text_eq_iff _ _).0 a))))
      | inr a ↦ elim (Bool-cases (text_eq type (codes "NAK"))) [
        | inl n ↦ rw (m, a, n) (parse_with_id-Deserves (inr (inr ((text_eq_iff _ _).0 n))))
        | inr n ↦ rw (m, a, n) (t, h, ne_of_false m, ne_of_false a, ne_of_false n)
      ]
    ]
  ]

  parse_type-Deserves : Deserves raw (parse_type type raw)
  unfolding parse_type
  parse_type-Deserves = elim (Bool-cases (text_eq type (codes "HBT"))) [
    | inl h ↦ rw h (parse_interval-Deserves ((text_eq_iff _ _).0 h))
    | inr h ↦ rw h (other_type-Deserves (ne_of_false h))
  ]

-- Parsing any text returns what the text deserves: a message, an acknowledgement or a refusal is
-- well formed and prints as the text, an interval is the u64 that parse_u64 reads from the rest of
-- the text, and each error is reported only for a text with that defect: an incomplete id only for
-- a message, an acknowledgement or a refusal.
pub parse-Deserves : (raw : Text) → Deserves raw (parse raw)
unfolding parse
parse-Deserves raw = elim (Option-cases (get_to raw type_length)) [
  | inl e ↦ rw e (refl, e)
  | inr (type, e) ↦
      let (long, t, b) = get_to_split raw type_length (omega arith) type e in
      rw e (parse_type-Deserves raw type t)
]
