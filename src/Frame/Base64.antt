-- ===== src/Frame/Base64.antt =====
-- src/frame.rs: `generate_id` and `base64url_no_pad`. The random bytes are an argument.
pub mod Decoding
use Prim.Native.Nat.{bit_and, bit_or}
use vcmp_rs.Base.{
  ℕ, zero, suc, ◌+◌, ◌-◌, ◌*◌, ◌/◌, ◌^◌, ◌≡◌, refl, List, [], ◌∷◌, ◌++◌, Text, codes, get_or,
}

abbrev pub id_bytes : ℕ
id_bytes = 9

abbrev pub alphabet : Text
alphabet = codes "ABCDEFGHIJKLMNOPQRSTUVWXYZabcdefghijklmnopqrstuvwxyz0123456789-_"

-- `(b0 << 16) | (b1 << 8) | b2`.
pub triple : ℕ → ℕ → ℕ → ℕ
triple b0 b1 b2 = bit_or (bit_or (b0 * 2 ^ 16) (b1 * 2 ^ 8)) b2

-- `BASE64URL[(triple >> (18 - 6 * i)) & 0x3f]`.
symbol : ℕ → ℕ → ℕ
symbol t i = get_or alphabet (bit_and (t / 2 ^ (18 - 6 * i)) 0x3f) 0

-- `for i in 0..chars`, with the rounds left and the round.
symbols : ℕ → ℕ → ℕ → Text
symbols zero i t = []
symbols (suc n) i t = symbol t i ∷ symbols n (suc i) t

-- One chunk of one, two or three bytes gives one character more than it has bytes.
encode_chunk : ℕ → ℕ → ℕ → ℕ → Text
encode_chunk len b0 b1 b2 = symbols (len + 1) 0 (triple b0 b1 b2)

-- `base64url_no_pad`.
pub base64url_no_pad : List ℕ → Text
base64url_no_pad [] = []
base64url_no_pad (b0 ∷ []) = encode_chunk 1 b0 0 0
base64url_no_pad (b0 ∷ b1 ∷ []) = encode_chunk 2 b0 b1 0
base64url_no_pad (b0 ∷ b1 ∷ b2 ∷ rest) = encode_chunk 3 b0 b1 b2 ++ base64url_no_pad rest

-- `generate_id` on the bytes that the operating system's generator filled in.
pub generate_id : List ℕ → Text
generate_id bytes = base64url_no_pad bytes

reference_vectors :
    (base64url_no_pad [] ≡ codes "")
    × (base64url_no_pad (codes "f") ≡ codes "Zg")
    × (base64url_no_pad (codes "fo") ≡ codes "Zm8")
    × (base64url_no_pad (codes "foo") ≡ codes "Zm9v")
    × (base64url_no_pad (codes "foobar") ≡ codes "Zm9vYmFy")
unfolding base64url_no_pad encode_chunk symbols symbol triple
reference_vectors = (refl, refl, refl, refl, refl)
