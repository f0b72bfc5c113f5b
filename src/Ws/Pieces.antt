-- ===== src/Ws/Pieces.antt =====
-- src/ws.rs: where a text may be cut, and the lists of messages that make up a text.
use vcmp_rs.Base.{
  ℕ, zero, suc, ◌+◌, ◌-◌, ◌≤◌, ◌<◌, ◌≡◌, refl, ap, ◌⊎◌, inl, inr, List, [], ◌∷◌, Option, none, some,
  true, false, arith, min, Bool-cases, Text, length, take, drop, drop-drop, length-drop, ◌==◌,
  is_char_boundary,
}
use vcmp_rs.Ws.{
  Message, raw_frame, Opcode, continue_data, Fragments, size_of, retreat, fragment_end,
  next_fragment, collect,
}

module _ (text : Text) (start : ℕ) where
  retreat-low : (end : ℕ) → start ≤ end → start ≤ retreat text start end
  unfolding retreat
  retreat-low zero h = ground arith
  retreat-low (suc end) h = ground (arith, retreat-low end)

  retreat-high : (end : ℕ) → retreat text start end ≤ end
  unfolding retreat
  retreat-high zero = ground arith
  retreat-high (suc end) = ground (arith, retreat-high end)

  retreat-boundary :
      (end : ℕ)
      → start < retreat text start end
      → is_char_boundary text (retreat text start end) ≡ true
  unfolding retreat
  retreat-boundary zero h = ground arith
  retreat-boundary (suc end) h = ground (arith, retreat-boundary end)

  retreat-last :
      (end i : ℕ) → retreat text start end < i → i ≤ end → is_char_boundary text i ≡ false
  unfolding retreat
  retreat-last zero i h p = absurd (omega arith)
  retreat-last (suc end) i h p = ground (arith, retreat-last end i)

  module _ (size : ℕ) (pos : 0 < size) (low : start < length text) where
    -- What `fragment_end` promises: a fragment that is not empty, that fits, and whose end is a
    -- character boundary unless none fits.
    pub end-bounds :
        (start < fragment_end text start size)
        × (fragment_end text start size ≤ start + size)
        × (fragment_end text start size ≤ length text)
    unfolding fragment_end
    end-bounds =
        let limit = start + min (length text - start) size in
        let high = retreat-high limit in let least = retreat-low limit (omega arith) in ground arith

    pub end-preferred :
        (is_char_boundary text (fragment_end text start size) ≡ true)
        ⊎ ((i : ℕ)
            → start < i
            → i ≤ start + size
            → i ≤ length text
            → is_char_boundary text i ≡ false)
    unfolding fragment_end
    end-preferred =
        let limit = start + min (length text - start) size in
        elim (Bool-cases (retreat text start limit == start)) [
          | inl e ↦ inr (λ i h p q. retreat-last limit i (ground arith) (omega arith))
          | inr e ↦ inl (rw e (retreat-boundary limit (ground (arith, retreat-low limit))))
        ]

-- The frames of a text, or of what is left of it, for a size: the pieces in their order, none
-- empty and none too long; the opcode of a first frame or of a later one; the last frame final
-- and no other; each cut at a character boundary, or where no boundary comes within the size.
pub data Split (size : ℕ) : Opcode → Text → List Message → Type 0 where
  last :
      (op : Opcode) (chunk : Text)
      → 0 < length chunk
      → length chunk ≤ size
      → Split size op chunk (raw_frame chunk op true ∷ [])
  more :
      (op : Opcode) (left : Text) (n : ℕ) (ms : List Message)
      → 0 < n
      → n ≤ size
      → n < length left
      → (is_char_boundary left n ≡ true)
        ⊎ ((i : ℕ) → 0 < i → i ≤ size → i ≤ length left → is_char_boundary left i ≡ false)
      → Split size continue_data (drop n left) ms
      → Split size op left (raw_frame (take n left) op false ∷ ms)

-- A position inside what is left of a text is one of the text.
pub boundary-drop :
    (text : Text) (start n : ℕ)
    → 0 < n
    → start ≤ length text
    → is_char_boundary (drop start text) n ≡ is_char_boundary text (start + n)
unfolding is_char_boundary
boundary-drop text start n p h =
    rw (drop-drop start n (start + n) text refl, length-drop start text) (ground arith)

pub size_of-positive : (fragment_size : Option ℕ) → 0 < size_of fragment_size
size_of-positive none = omega arith
size_of-positive (some size) = ground arith

-- An iterator that is done has no more messages.
pub collect-done :
    (fuel : ℕ) (fragment_size : Option ℕ) (f : Fragments)
    → f.done ≡ true
    → 0 < fuel
    → collect fuel fragment_size f ≡ some []
unfolding collect next_fragment
collect-done zero fragment_size f d h = absurd (omega arith)
collect-done (suc fuel) fragment_size f d h = rw d

pub collect_step :
    (fuel : ℕ) (fragment_size : Option ℕ) (f g : Fragments) (m : Message) (ms : List Message)
    → next_fragment fragment_size f ≡ (some m, g)
    → collect fuel fragment_size g ≡ some ms
    → collect (suc fuel) fragment_size f ≡ some (m ∷ ms)
unfolding collect
collect_step fuel fragment_size f g m ms h e = rw (ap (λ t. t.0) h, ap (λ t. t.1) h, e, collect)
