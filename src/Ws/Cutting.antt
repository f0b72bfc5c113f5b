-- ===== src/Ws/Cutting.antt =====
-- src/ws.rs: the fragments of a text, described apart from the code that cuts them.
use vcmp_rs.Base.{
  ℕ, zero, suc, ◌+◌, ◌-◌, ◌≤◌, ◌<◌, ◌≡◌, refl, ap, sym, subst, ◌∙◌, ◌⊎◌, inl, inr, List, [], ◌∷◌,
  ◌++◌, Option, some, Bool, true, false, arith, Bool-cases, Text, length, take, drop,
  take-append-drop, append-nil, append_assoc, drop-drop, drop-take, length-drop, take-length, leb,
  ◌==◌, if◌then◌else◌, is_char_boundary,
}
use vcmp_rs.Ws.{
  Message, text_message, raw_frame, Opcode, text_data, continue_data, fragments, size_of,
  fragment_end, next_fragment, collect, flat_map, messages_of, outgoing,
}
use vcmp_rs.Ws.Pieces.{
  end-bounds, end-preferred, Split, last, more, boundary-drop, size_of-positive, collect-done,
  collect_step,
}

abbrev opcode_at : ℕ → Opcode
opcode_at start = if start == 0 then text_data else continue_data

opcode_at-later : (start : ℕ) → 0 < start → opcode_at start ≡ continue_data
opcode_at-later start h = ground arith

module _ (text : Text) (size start end : ℕ) (low : start < end) (short : end ≤ start + size)
    (op : Opcode) (final : Bool) where
  last_piece :
      final ≡ true
      → end ≡ length text
      → Split size op (drop start text) (raw_frame (drop start (take end text)) op final ∷ [])
  last_piece f h =
      rw (f, h, take-length text)
        (last op (drop start text) (omega (arith, length-drop start text))
          (omega (arith, length-drop start text)))

  more_pieces :
      (ms : List Message)
      → final ≡ false
      → end < length text
      → (is_char_boundary text end ≡ true)
        ⊎ ((i : ℕ)
            → start < i
            → i ≤ start + size
            → i ≤ length text
            → is_char_boundary text i ≡ false)
      → Split size continue_data (drop end text) ms
      → Split size op (drop start text) (raw_frame (drop start (take end text)) op final ∷ ms)
  more_pieces ms f h preferred rest =
      let n = end - start in
      rw (f, drop-take start n end text (omega arith))
        (more op (drop start text) n ms (omega arith) (omega arith)
          (omega (arith, length-drop start text))
          (elim preferred [
            | inl b ↦ inl (
                boundary-drop text start n (omega arith) (omega arith)
                ∙ subst (λ k. is_char_boundary text k ≡ true) (omega arith) b)
            | inr none_fits ↦ inr (λ i p q r.
                boundary-drop text start i p (omega arith)
                ∙ none_fits (start + i) (omega arith) (omega arith)
                    (omega (arith, length-drop start text)))
          ])
          (subst (λ t. Split size continue_data t ms)
            (sym (drop-drop start n end text (omega arith))) rest))

module _ (fragment_size : Option ℕ) (text : Text)
    (big : leb (length text) (size_of fragment_size) ≡ false) where
  -- What the closure returns on a text that is too long for one message.
  next_fragment_split :
      (start : ℕ)
      → next_fragment fragment_size (record { text = text; start = start; done = false }) ≡ (
        some (
            raw_frame
              (drop start (take (fragment_end text start (size_of fragment_size)) text))
              (opcode_at start)
              (fragment_end text start (size_of fragment_size) == length text)),
        record {
          text = text;
          start = fragment_end text start (size_of fragment_size);
          done = fragment_end text start (size_of fragment_size) == length text;
        },
      )
  unfolding next_fragment
  next_fragment_split start = rw big

  collect-Split :
      (fuel start : ℕ)
      → start < length text
      → length text - start < fuel
      → (ms : List Message) × (collect fuel fragment_size
            (record { text = text; start = start; done = false })
          ≡ some ms)
        × Split (size_of fragment_size) (opcode_at start) (drop start text) ms
  collect-Split zero start h p = absurd (omega arith)
  collect-Split (suc fuel) start h p =
      let size = size_of fragment_size in
      let pos = size_of-positive fragment_size in
      let (low, short, high) = end-bounds text start size pos h in
      let end = fragment_end text start size in
      let op = opcode_at start in
      elim (Bool-cases (end == length text)) [
        | inl e ↦ (
          raw_frame (drop start (take end text)) op (end == length text) ∷ [],
          collect_step fuel fragment_size _ _ _ _ (next_fragment_split start)
              (collect-done fuel fragment_size _ e (omega arith)),
          last_piece text size start end low short op (end == length text) e (ground arith),
        )
        | inr e ↦
            let (ms, run, split) = collect-Split fuel end (ground arith) (omega arith) in
            (
              raw_frame (drop start (take end text)) op (end == length text) ∷ ms,
              collect_step fuel fragment_size _ _ _ _ (next_fragment_split start) (rw e run),
              more_pieces text size start end low short op (end == length text) ms e (ground arith)
                  (end-preferred text start size pos h)
                  (rw (opcode_at-later end (omega arith)) at split),
            )
      ]

next_fragment_fits :
    (fragment_size : Option ℕ) (text : Text)
    → leb (length text) (size_of fragment_size) ≡ true
    → next_fragment fragment_size (fragments text)
      ≡ (some (text_message text), record { text = []; start = 0; done = true })
unfolding next_fragment
next_fragment_fits fragment_size text fits = rw fits

-- What the peer puts together from the messages of one text.
abbrev pub joined : List Message → Text
joined [] = []
joined (text_message text ∷ ms) = text ++ joined ms
joined (raw_frame payload opcode is_final ∷ ms) = payload ++ joined ms

Split-joined :
    {size : ℕ} {op : Opcode} {left : Text} {ms : List Message}
    → Split size op left ms
    → joined ms ≡ left
Split-joined (last op chunk p q) = append-nil chunk
Split-joined (more op left n ms p q r b rest) =
    ap (λ t. take n left ++ t) (Split-joined rest) ∙ take-append-drop n left

-- Any text is sent in one message if it fits the fragment size, and is otherwise split as Split
-- says; the pieces make up the text, and the iterator ends after at most one message per byte.
pub message_fragments-Split :
    (fragment_size : Option ℕ) (text : Text)
    → (ms : List Message) × (collect (suc (suc (length text))) fragment_size (fragments text)
        ≡ some ms)
      × (joined ms ≡ text)
      × ((length text ≤ size_of fragment_size) × (ms ≡ text_message text ∷ [])
          ⊎ (size_of fragment_size < length text) × Split (size_of fragment_size) text_data text ms)
message_fragments-Split fragment_size text =
    elim (Bool-cases (leb (length text) (size_of fragment_size))) [
      | inl fits ↦ (
        text_message text ∷ [],
        collect_step (suc (length text)) fragment_size (fragments text) _ _ _
            (next_fragment_fits fragment_size text fits)
            (collect-done (suc (length text)) fragment_size _ refl (omega arith)),
        append-nil text,
        inl (ground arith, refl),
      )
      | inr big ↦
          let (ms, run, split) =
            collect-Split fragment_size text big (suc (suc (length text))) 0 (ground arith)
              (omega arith) in
          (ms, run, Split-joined split, inr (ground arith, split))
    ]

joined-append : (ms ns : List Message) → joined (ms ++ ns) ≡ joined ms ++ joined ns
joined-append [] ns = refl
joined-append (text_message text ∷ ms) ns =
    ap (λ t. text ++ t) (joined-append ms ns) ∙ sym (append_assoc text (joined ms) (joined ns))
joined-append (raw_frame payload opcode is_final ∷ ms) ns =
    ap (λ t. payload ++ t) (joined-append ms ns)
    ∙ sym (append_assoc payload (joined ms) (joined ns))

messages_of-joined :
    (fragment_size : Option ℕ) (text : Text) → joined (messages_of fragment_size text) ≡ text
unfolding messages_of
messages_of-joined fragment_size text =
    let (ms, e, j, _) = message_fragments-Split fragment_size text in rw (e, messages_of) j

abbrev pub all_bytes : List Text → Text
all_bytes [] = []
all_bytes (text ∷ texts) = text ++ all_bytes texts

-- The messages that are sent carry the bytes of the texts, in their order, and no other.
pub outgoing-joined :
    (fragment_size : Option ℕ) (texts : List Text)
    → joined (outgoing fragment_size texts) ≡ all_bytes texts
unfolding outgoing flat_map
outgoing-joined fragment_size [] = refl
outgoing-joined fragment_size (text ∷ texts) =
    joined-append (messages_of fragment_size text) (flat_map (messages_of fragment_size) texts)
    ∙ ap (λ t. t ++ joined (flat_map (messages_of fragment_size) texts))
        (messages_of-joined fragment_size text)
    ∙ ap (λ t. text ++ t) (outgoing-joined fragment_size texts)
