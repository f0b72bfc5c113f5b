-- ===== src/Frame/Base64/Decoding.antt =====
-- A decoder stated from the positions in the alphabet undoes the encoder, so that distinct draws of
-- random bytes give distinct ids; an id is twelve ASCII characters.
use Prim.Native.Nat.{bit_or}
use vcmp_rs.Base.{
  ℕ, zero, suc, ◌+◌, ◌-◌, ◌*◌, ◌/◌, ◌%◌, ◌^◌, ◌≡◌, ◌<◌, refl, sym, ap, ◌∙◌, Bool, true, false, ◌&&◌,
  ◌==◌, ltb, List, [], ◌∷◌, ◌++◌, Text, get_or, All, arith, length, is_ascii, subst, append-nil,
  IsAscii, ==_iff,
}
use vcmp_rs.Base.Bits.{bit_and_six, bit_or_fields}
use vcmp_rs.Frame.{id_length}
use vcmp_rs.Frame.Base64.{
  alphabet, triple, symbol, symbols, encode_chunk, base64url_no_pad, generate_id, id_bytes,
}

-- The place of a character in the alphabet.
position : Text → ℕ → ℕ
position [] c = 0
position (a ∷ as_) c = elim (a == c) [ true ↦ 0 | false ↦ suc (position as_ c) ]

value_of : ℕ → ℕ
unfolding position
value_of = position alphabet

abbrev pub IsByte : ℕ → Type 0
IsByte b = b < 256

-- Four, three or two characters stand for three, two or one byte.
pub decode : Text → List ℕ
decode (c0 ∷ c1 ∷ c2 ∷ c3 ∷ rest) =
    let n = ((value_of c0 * 64 + value_of c1) * 64 + value_of c2) * 64 + value_of c3 in
    n / 65536 ∷ n / 256 % 256 ∷ n % 256 ∷ decode rest
decode (c0 ∷ c1 ∷ c2 ∷ []) =
    let n = (value_of c0 * 64 + value_of c1) * 64 + value_of c2 in n / 1024 ∷ n / 4 % 256 ∷ []
decode (c0 ∷ c1 ∷ []) = (value_of c0 * 64 + value_of c1) / 16 ∷ []
decode (c0 ∷ []) = []
decode [] = []

-- Whether every entry of a table of the given size passes a test.
passes : (ℕ → Bool) → ℕ → Bool
passes test zero = true
passes test (suc size) = passes test size && test size

passes-entry : (test : ℕ → Bool) (size k : ℕ) → k < size → passes test size ≡ true → test k ≡ true
unfolding passes
passes-entry test zero k below all = absurd (omega arith)
passes-entry test (suc size) k below all = ground (arith, passes-entry test size k)

value_table : passes (λ k. value_of (get_or alphabet k 0) == k) 64 ≡ true
unfolding passes value_of
value_table = refl

ascii_table : passes (λ k. ltb (get_or alphabet k 0) 0x80) 64 ≡ true
unfolding passes
ascii_table = refl

value_of-get_or : (k : ℕ) → k < 64 → value_of (get_or alphabet k 0) ≡ k
value_of-get_or k h =
    (==_iff _ k).0 (passes-entry (λ k. value_of (get_or alphabet k 0) == k) 64 k h value_table)

value_of-symbol : (t i : ℕ) → value_of (symbol t i) ≡ t / 2 ^ (18 - 6 * i) % 64
unfolding symbol
value_of-symbol t i =
    rw (bit_and_six (t / 2 ^ (18 - 6 * i)))
      (value_of-get_or (t / 2 ^ (18 - 6 * i) % 64) (omega arith))

triple_lem : (b0 b1 b2 : ℕ) → IsByte b1 → IsByte b2 → triple b0 b1 b2 ≡ b0 * 65536 + b1 * 256 + b2
unfolding triple
triple_lem b0 b1 b2 h1 h2 =
    let high : bit_or (b0 * 65536) (b1 * 256) ≡ b0 * 65536 + b1 * 256 =
      bit_or_fields 16 b0 (b1 * 256) (omega arith) in
    let joined : b0 * 65536 + b1 * 256 ≡ (b0 * 256 + b1) * 256 = omega arith in
    rw (high, joined) (bit_or_fields 8 (b0 * 256 + b1) b2 h2)

chunk_values :
    (t : ℕ)
    → (value_of (symbol t 0) ≡ t / 262144 % 64)
      × (value_of (symbol t 1) ≡ t / 4096 % 64)
      × (value_of (symbol t 2) ≡ t / 64 % 64)
      × (value_of (symbol t 3) ≡ t / 1 % 64)
chunk_values t =
    (value_of-symbol t 0, value_of-symbol t 1, value_of-symbol t 2, value_of-symbol t 3)

-- Four digits to the base 64 spell a number of 24 bits.
digits_spell :
    (t : ℕ)
    → t < 2 ^ 24
    → ((t / 262144 % 64 * 64 + t / 4096 % 64) * 64 + t / 64 % 64) * 64 + t / 1 % 64 ≡ t
digits_spell t h = omega arith

spelled :
    (t : ℕ)
    → t < 2 ^ 24
    → ((value_of (symbol t 0) * 64 + value_of (symbol t 1)) * 64 + value_of (symbol t 2)) * 64
        + value_of (symbol t 3)
      ≡ t
spelled t h = let (v0, v1, v2, v3) = chunk_values t in rw (v0, v1, v2, v3) (digits_spell t h)

module _ (b0 b1 b2 : ℕ) (h0 : IsByte b0) (h1 : IsByte b1) (h2 : IsByte b2) where
  t_lt : triple b0 b1 b2 < 2 ^ 24
  t_lt = omega (arith, triple_lem b0 b1 b2 h1 h2)

  decode_three :
      (rest : Text) → decode (encode_chunk 3 b0 b1 b2 ++ rest) ≡ b0 ∷ b1 ∷ b2 ∷ decode rest
  unfolding decode encode_chunk symbols
  decode_three rest = rw (spelled (triple b0 b1 b2) t_lt, triple_lem b0 b1 b2 h1 h2) (ground arith)

decode_two : (b0 b1 : ℕ) → IsByte b0 → IsByte b1 → decode (encode_chunk 2 b0 b1 0) ≡ b0 ∷ b1 ∷ []
unfolding decode encode_chunk symbols
decode_two b0 b1 h0 h1 =
    let (v0, v1, v2, v3) = chunk_values (triple b0 b1 0) in
    rw (v0, v1, v2, triple_lem b0 b1 0 h1 (omega arith)) (ground arith)

decode_one : (b0 : ℕ) → IsByte b0 → decode (encode_chunk 1 b0 0 0) ≡ b0 ∷ []
unfolding decode encode_chunk symbols
decode_one b0 h0 =
    let (v0, v1, v2, v3) = chunk_values (triple b0 0 0) in
    rw (v0, v1, triple_lem b0 0 0 (omega arith) (omega arith)) (ground arith)

-- Decoding undoes the encoding of any bytes, chunks of one and two bytes at the end included.
pub decode-base64url_no_pad :
    (bytes : List ℕ) → All IsByte bytes → decode (base64url_no_pad bytes) ≡ bytes
unfolding base64url_no_pad
decode-base64url_no_pad [] h = unfold decode in refl
decode-base64url_no_pad (b0 ∷ []) h = decode_one b0 h.0
decode-base64url_no_pad (b0 ∷ b1 ∷ []) h = decode_two b0 b1 h.0 h.1.0
decode-base64url_no_pad (b0 ∷ b1 ∷ b2 ∷ rest) (h0, (h1, (h2, h))) =
    decode_three b0 b1 b2 h0 h1 h2 (base64url_no_pad rest)
    ∙ ap (λ l. b0 ∷ b1 ∷ b2 ∷ l) (decode-base64url_no_pad rest h)

-- Two ids are equal only if the random bytes behind them are.
pub generate_id_injective :
    (bs cs : List ℕ) → All IsByte bs → All IsByte cs → generate_id bs ≡ generate_id cs → bs ≡ cs
unfolding generate_id
generate_id_injective bs cs hb hc e =
    sym (decode-base64url_no_pad bs hb) ∙ ap decode e ∙ decode-base64url_no_pad cs hc

letter : (k : ℕ) → k < 64 → ltb (get_or alphabet k 0) 0x80 ≡ true
letter k h = passes-entry (λ k. ltb (get_or alphabet k 0) 0x80) 64 k h ascii_table

symbols-IsAscii : (n i t : ℕ) (s : Text) → IsAscii s → IsAscii (symbols n i t ++ s)
unfolding symbols symbol is_ascii
symbols-IsAscii zero i t s h = h
symbols-IsAscii (suc n) i t s h = rw (
  bit_and_six (t / 2 ^ (18 - 6 * i)),
  letter (t / 2 ^ (18 - 6 * i) % 64) (omega arith),
  symbols-IsAscii n (suc i) t s h,
)

length-base64url_no_pad :
    (k : ℕ) (bytes : List ℕ) → length bytes ≡ 3 * k → length (base64url_no_pad bytes) ≡ 4 * k
unfolding base64url_no_pad encode_chunk symbols
length-base64url_no_pad zero [] e = refl
length-base64url_no_pad (suc k) (b0 ∷ b1 ∷ b2 ∷ rest) e =
    omega (arith, length-base64url_no_pad k rest (omega arith))
length-base64url_no_pad zero (b0 ∷ rest) e = absurd (omega arith)
length-base64url_no_pad (suc k) [] e = absurd (omega arith)
length-base64url_no_pad (suc k) (b0 ∷ []) e = absurd (omega arith)
length-base64url_no_pad (suc k) (b0 ∷ b1 ∷ []) e = absurd (omega arith)

base64url_no_pad-IsAscii : (bytes : List ℕ) → IsAscii (base64url_no_pad bytes)
unfolding base64url_no_pad encode_chunk
base64url_no_pad-IsAscii [] = unfold is_ascii in refl
base64url_no_pad-IsAscii (b0 ∷ []) =
    subst IsAscii (append-nil _) (symbols-IsAscii 2 0 (triple b0 0 0) [] (unfold is_ascii in refl))
base64url_no_pad-IsAscii (b0 ∷ b1 ∷ []) =
    subst IsAscii (append-nil _) (symbols-IsAscii 3 0 (triple b0 b1 0) [] (unfold is_ascii in refl))
base64url_no_pad-IsAscii (b0 ∷ b1 ∷ b2 ∷ rest) =
    symbols-IsAscii 4 0 (triple b0 b1 b2) (base64url_no_pad rest) (base64url_no_pad-IsAscii rest)

-- An id is twelve ASCII characters, as the codec wants it.
pub generate_id-IsId :
    (bytes : List ℕ)
    → length bytes ≡ id_bytes
    → (length (generate_id bytes) ≡ id_length) × IsAscii (generate_id bytes)
unfolding generate_id
generate_id-IsId bytes e = (length-base64url_no_pad 3 bytes e, base64url_no_pad-IsAscii bytes)
