-- ===== src/Base/Strings.antt =====
-- `str` and `String` as their bytes, with the standard library's operations on them.
use Prim.Native.Char.{code}
use Prim.Native.Nat.{ℕ, ◌+◌, ◌≤◌, ◌<◌}
use Prim.Native.String.{String}
use mathlib.Core.Path.{◌≡◌, refl, subst, ◌∙◌}
use mathlib.Core.Logic.{◌≢◌, ◌↔◌}
use mathlib.Core.Bool.{Bool, true, false, not, ◌&&◌, ◌||◌}
use mathlib.Core.List.{List, [], ◌∷◌, ◌++◌, append_assoc}
use mathlib.Core.Option.{Option, none, some}
use native.Mathlib.Omega.{arith}
use vcmp_rs.Base.Tests.{ltb, leb, le→leb, ◌==◌, if◌then◌else◌}
use vcmp_rs.Base.Lists.{length, take, drop, length-append, drop-length, take-append, drop-append}

abbrev pub Text : Type 0
Text = List ℕ

-- The bytes of an ASCII literal.
abbrev pub codes : String → Text
codes String.[] = []
codes (String.◌∷◌ c s) = code c ∷ codes s

unfoldable pub text_eq : Text → Text → Bool
text_eq [] [] = true
text_eq [] (_ ∷ _) = false
text_eq (_ ∷ _) [] = false
text_eq (a ∷ s) (b ∷ t) = a == b && text_eq s t

pub text_eq_iff : (s t : Text) → (text_eq s t ≡ true) ↔ (s ≡ t)
unfolding text_eq
text_eq_iff [] [] = ground arith
text_eq_iff [] (b ∷ t) = ground arith
text_eq_iff (a ∷ s) [] = ground arith
text_eq_iff (a ∷ s) (b ∷ t) = ground (arith, text_eq_iff s t)

pub text_eq_refl : (s : Text) → text_eq s s ≡ true
text_eq_refl s = (text_eq_iff s s).1 refl

pub text_eq_ne : (s t : Text) → s ≢ t → text_eq s t ≡ false
text_eq_ne s t h = ground (arith, text_eq_iff s t)

pub text_ne_of_false : {s t : Text} → text_eq s t ≡ false → s ≢ t
text_ne_of_false {s} {t} h e = ground (arith, text_eq_iff s t)

unfoldable pub is_empty : Text → Bool
is_empty [] = true
is_empty (_ ∷ _) = false

-- A UTF-8 continuation byte, 0b10xxxxxx.
abbrev pub is_continuation : ℕ → Bool
is_continuation b = leb 0x80 b && ltb b 0xc0

-- `u8::is_ascii` at every byte.
unfoldable pub is_ascii : Text → Bool
is_ascii [] = true
is_ascii (b ∷ s) = ltb b 0x80 && is_ascii s

-- Whether a text may be cut in front of its first byte.
unfoldable pub at_boundary : Text → Bool
at_boundary [] = true
at_boundary (b ∷ s) = not (is_continuation b)

-- `str::is_char_boundary`: the start, the end, or a place before a byte that begins a character.
unfoldable pub is_char_boundary : Text → ℕ → Bool
unfolding at_boundary
is_char_boundary s i = i == 0 || (leb i (length s) && at_boundary (drop i s))

-- `str::get(..end)`, `str::get(start..)` and `str::get(start..end)`.
unfoldable pub get_to : Text → ℕ → Option Text
unfolding is_char_boundary
get_to s end = if is_char_boundary s end then some (take end s) else none

unfoldable pub get_from : Text → ℕ → Option Text
unfolding is_char_boundary
get_from s start = if is_char_boundary s start then some (drop start s) else none

unfoldable pub get_range : Text → ℕ → ℕ → Option Text
unfolding is_char_boundary
get_range s start end = elim (get_to s end) [
  | none ↦ none
  | some front ↦ if leb start end && is_char_boundary s start then some (drop start front) else none
]

abbrev pub IsAscii : Text → Type 0
IsAscii s = is_ascii s ≡ true

-- Cutting a text where two parts meet.
module _ (xs ys : Text) (n : ℕ) (here : length xs ≡ n) where
  boundary-append : at_boundary ys ≡ true → is_char_boundary (xs ++ ys) n ≡ true
  unfolding is_char_boundary
  boundary-append b = rw (drop-append xs ys n here, length-append xs ys, b, here) (ground arith)

  pub get_to-append : at_boundary ys ≡ true → get_to (xs ++ ys) n ≡ some xs
  unfolding get_to
  get_to-append b = rw (boundary-append b, take-append xs ys n here)

  pub get_from-append : at_boundary ys ≡ true → get_from (xs ++ ys) n ≡ some ys
  unfolding get_from
  get_from-append b = rw (boundary-append b, drop-append xs ys n here)

pub get_range-append :
    (xs ys zs : Text) (a b : ℕ)
    → length xs ≡ a
    → length xs + length ys ≡ b
    → at_boundary (ys ++ zs) ≡ true
    → at_boundary zs ≡ true
    → get_range (xs ++ (ys ++ zs)) a b ≡ some ys
unfolding get_range
get_range-append xs ys zs a b ea eb hy hz =
    let whole : get_to (xs ++ (ys ++ zs)) b ≡ some (xs ++ ys) =
      subst (λ t. get_to t b ≡ some (xs ++ ys)) (append_assoc xs ys zs)
        (get_to-append (xs ++ ys) zs b (length-append xs ys ∙ eb) hz) in
    let fits : leb a b ≡ true = le→leb a b (omega arith) in
    rw (whole, get_range, fits, boundary-append xs (ys ++ zs) a ea hy, drop-append xs ys a ea)

pub at_boundary-append : (s t : Text) → IsAscii s → 0 < length s → at_boundary (s ++ t) ≡ true
unfolding at_boundary is_ascii
at_boundary-append [] t h p = absurd (omega arith)
at_boundary-append (c ∷ s) t h p = ground arith

-- What a successful cut says of the text.
module _ (s : Text) (n : ℕ) (p : 0 < n) where
  boundary_split : is_char_boundary s n ≡ true → (n ≤ length s) × (at_boundary (drop n s) ≡ true)
  unfolding is_char_boundary
  boundary_split e = ground arith

  pub get_to_split :
      (front : Text)
      → get_to s n ≡ some front
      → (n ≤ length s) × (front ≡ take n s) × (at_boundary (drop n s) ≡ true)
  unfolding get_to
  get_to_split front e = ground (arith, boundary_split)

  pub get_from_split :
      (back : Text)
      → get_from s n ≡ some back
      → (n ≤ length s) × (back ≡ drop n s) × (at_boundary (drop n s) ≡ true)
  unfolding get_from
  get_from_split back e = ground (arith, boundary_split)

module _ (s : Text) (a b : ℕ) (p : 0 < b) where
  pub get_range_split :
      (x : Text)
      → get_range s a b ≡ some x
      → (a ≤ b)
        × (b ≤ length s)
        × (x ≡ drop a (take b s))
        × (at_boundary (drop b s) ≡ true)
        × (get_from s b ≡ some (drop b s))
  unfolding get_range get_to get_from
  get_range_split x e = ground (arith, boundary_split s b p)

pub is_char_boundary_of :
    (s : Text) (n : ℕ) → n ≤ length s → at_boundary (drop n s) ≡ true → is_char_boundary s n ≡ true
unfolding is_char_boundary
is_char_boundary_of s n h b = ground arith

pub is_char_boundary-length : (s : Text) → is_char_boundary s (length s) ≡ true
is_char_boundary-length s =
    is_char_boundary_of s (length s) (omega arith) (rw (drop-length s) (unfold at_boundary in refl))
