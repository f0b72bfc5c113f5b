-- ===== src/Decimal.antt =====
-- `u64::to_string` and `str::parse::<u64>`, which the heartbeat frames rest on.
pub mod RoundTrip
use vcmp_rs.Base.{
  ℕ, zero, suc, ◌+◌, ◌-◌, ◌*◌, ◌/◌, ◌%◌, ◌^◌, ◌≤◌, ◌≡◌, refl, [], ◌∷◌, Option, none, some, ◌||◌,
  ◌==◌, ltb, if◌then◌else◌, Text, codes,
}

abbrev pub max_u64 : ℕ
max_u64 = 2 ^ 64 - 1

abbrev pub digit : ℕ → ℕ
digit n = b'0' + n % 10

-- The digits of `n` in front of `out`, at least one of them; the fuel bounds their number.
emit : ℕ → ℕ → Text → Text
emit zero n out = out
emit (suc fuel) n out =
    let rest = emit fuel (n / 10) (digit n ∷ out) in if n / 10 == 0 then digit n ∷ out else rest

-- A u64 has at most twenty decimal digits.
pub to_string : ℕ → Text
to_string n = emit 20 n []

-- The digits of a number behind the value read so far, with the checked multiplication and sum.
scan : Text → ℕ → Option ℕ
scan [] n = some n
scan (c ∷ s) n =
    let m = n * 10 + (c - b'0') in
    if ltb c b'0' || ltb b'9' c then none else if ltb max_u64 m then none else scan s m

scan_digits : Text → Option ℕ
unfolding scan
scan_digits [] = none
scan_digits (c ∷ s) = scan (c ∷ s) 0

-- One leading plus sign is allowed, and at least one digit is wanted.
unfoldable pub parse_u64 : Text → Option ℕ
unfolding scan_digits
parse_u64 [] = none
parse_u64 (c ∷ s) = if c == b'+' then scan_digits s else scan_digits (c ∷ s)

prints : to_string 1000 ≡ codes "1000"
unfolding to_string emit
prints = refl

prints_max : to_string max_u64 ≡ codes "18446744073709551615"
unfolding to_string emit
prints_max = refl

parses_plus : parse_u64 (codes "+007") ≡ some 7
unfolding parse_u64
parses_plus = refl

overflows : parse_u64 (codes "18446744073709551616") ≡ none
unfolding parse_u64
overflows = refl
