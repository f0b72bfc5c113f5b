-- ===== src/Decimal/RoundTrip.antt =====
-- Every u64 is read back from its print, and what is read is a u64.
use vcmp_rs.Base.{
  at_boundary, true, ◌∙◌, ℕ, zero, suc, ◌+◌, ◌-◌, ◌*◌, ◌/◌, ◌≤◌, ◌<◌, ◌≡◌, ◌≢◌, refl, [], ◌∷◌, some,
  arith, Text, All,
}
use vcmp_rs.Decimal.{max_u64, digit, emit, to_string, scan, scan_digits, parse_u64}

pow10 : ℕ → ℕ
pow10 zero = 1
pow10 (suc f) = 10 * pow10 f

abbrev pub IsDigit : ℕ → Type 0
IsDigit c = (b'0' ≤ c) × (c ≤ b'9')

-- Reading the last digit of `n` behind the others gives `n`.
scan_last : (n : ℕ) (out : Text) → n ≤ max_u64 → scan (digit n ∷ out) (n / 10) ≡ scan out n
unfolding scan
scan_last n out h = ground arith

scan_one : (n : ℕ) (out : Text) → n / 10 ≡ 0 → scan (digit n ∷ out) 0 ≡ scan out n
unfolding scan
scan_one n out h = ground arith

scan-emit :
    (f n : ℕ) (out : Text) → n < pow10 f → 0 < f → n ≤ max_u64 → scan (emit f n out) 0 ≡ scan out n
unfolding emit pow10
scan-emit zero n out h p fits = absurd (omega arith)
scan-emit (suc zero) n out h p fits = ground (arith, scan_one n out)
scan-emit (suc (suc f)) n out h p fits =
    ground (arith, scan_one n out, scan_last n out, scan-emit (suc f) (n / 10) (digit n ∷ out))

emit-All : (f n : ℕ) (out : Text) → All IsDigit out → All IsDigit (emit f n out)
unfolding emit
emit-All zero n out h = h
emit-All (suc f) n out h = ground (arith, emit-All f (n / 10) (digit n ∷ out))

emit-ne-nil : (f n : ℕ) (out : Text) → out ≢ [] → emit f n out ≢ []
unfolding emit
emit-ne-nil zero n out h = h
emit-ne-nil (suc f) n out h = ground (arith, emit-ne-nil f (n / 10) (digit n ∷ out))

to_string-ne-nil : (n : ℕ) → to_string n ≢ []
unfolding to_string emit
to_string-ne-nil n = ground (arith, emit-ne-nil 19 (n / 10) (digit n ∷ []))

to_string-All : (n : ℕ) → All IsDigit (to_string n)
unfolding to_string
to_string-All n = emit-All 20 n [] tt

at_boundary-digits : (s : Text) → All IsDigit s → at_boundary s ≡ true
unfolding at_boundary
at_boundary-digits [] d = refl
at_boundary-digits (c ∷ s) d = ground arith

parse_u64-scan : (s : Text) → s ≢ [] → All IsDigit s → parse_u64 s ≡ scan s 0
unfolding parse_u64
parse_u64-scan [] h d = absurd (h refl)
parse_u64-scan (c ∷ s) h d = ground arith

scan-to_string : (n : ℕ) → n ≤ max_u64 → scan (to_string n) 0 ≡ some n
unfolding to_string
scan-to_string n h =
    scan-emit 20 n [] (unfold pow10 in omega arith) (omega arith) h ∙ (unfold scan in refl)

-- Every u64 is read back from its decimal print.
pub parse_u64-to_string : (n : ℕ) → n ≤ max_u64 → parse_u64 (to_string n) ≡ some n
parse_u64-to_string n h =
    parse_u64-scan (to_string n) (to_string-ne-nil n) (to_string-All n) ∙ scan-to_string n h

scan_bound : (s : Text) (n r : ℕ) → n ≤ max_u64 → scan s n ≡ some r → r ≤ max_u64
unfolding scan
scan_bound [] n r h e = ground arith
scan_bound (c ∷ s) n r h e = ground (arith, scan_bound s (n * 10 + (c - b'0')) r)

scan_digits_bound : (s : Text) (r : ℕ) → scan_digits s ≡ some r → r ≤ max_u64
unfolding scan_digits
scan_digits_bound [] r e = cc
scan_digits_bound (c ∷ s) r e = scan_bound (c ∷ s) 0 r (omega arith) e

-- What is read fits in a u64: nothing wrapped around.
pub parse_u64_bound : (s : Text) (r : ℕ) → parse_u64 s ≡ some r → r ≤ max_u64
unfolding parse_u64
parse_u64_bound [] r e = cc
parse_u64_bound (c ∷ s) r e = ground (arith, scan_digits_bound s r, scan_digits_bound (c ∷ s) r)

pub to_string-at_boundary : (n : ℕ) → at_boundary (to_string n) ≡ true
to_string-at_boundary n = at_boundary-digits (to_string n) (to_string-All n)
