-- ===== src/Frame/Examples.antt =====
-- src/frame.rs: the theorems on the codec at concrete frames and texts.
use vcmp_rs.Base.{
  ℕ, All, arith, ◌≡◌, refl, List, [], ◌∷◌, ok, Text, codes, length, IsAscii, is_ascii, at_boundary,
}
use vcmp_rs.Frame.{message, parse, serialize, id_length}
use vcmp_rs.Frame.RoundTrip.{parse-serialize}
use vcmp_rs.Frame.Parsing.{Deserves, parse-Deserves}
use vcmp_rs.Frame.Base64.{base64url_no_pad, generate_id}
use vcmp_rs.Frame.Base64.Decoding.{
  IsByte, decode, decode-base64url_no_pad, generate_id_injective, generate_id-IsId,
}
use vcmp_rs.Frame.Display.{display, Shows, display-Shows}

abbrev some_id : Text
some_id = codes "Zm9vYmFyYmF6"

parse-serialize_example :
    parse (serialize (message some_id (codes "{}"))) ≡ ok (message some_id (codes "{}"))
parse-serialize_example =
    parse-serialize (message some_id (codes "{}"))
      ((refl, unfold is_ascii in refl), unfold at_boundary in refl)

parse-Deserves_example : Deserves (codes "MSGshort") (parse (codes "MSGshort"))
parse-Deserves_example = parse-Deserves (codes "MSGshort")

decode-base64url_no_pad_example :
    decode (base64url_no_pad (255 ∷ 0 ∷ 7 ∷ 1 ∷ [])) ≡ 255 ∷ 0 ∷ 7 ∷ 1 ∷ []
decode-base64url_no_pad_example =
    decode-base64url_no_pad (255 ∷ 0 ∷ 7 ∷ 1 ∷ [])
      (omega arith, (omega arith, (omega arith, (omega arith, tt))))

abbrev nine_bytes : List ℕ
nine_bytes = codes "foobarbaz"

nine_bytes-IsByte : All IsByte nine_bytes
nine_bytes-IsByte = (
  omega arith,
  (
    omega arith,
    (
      omega arith,
      (omega arith, (omega arith, (omega arith, (omega arith, (omega arith, (omega arith, tt)))))),
    ),
  ),
)

generate_id_injective_example : nine_bytes ≡ nine_bytes
generate_id_injective_example =
    generate_id_injective nine_bytes nine_bytes nine_bytes-IsByte nine_bytes-IsByte refl

generate_id-IsId_example :
    (length (generate_id nine_bytes) ≡ id_length) × IsAscii (generate_id nine_bytes)
generate_id-IsId_example = generate_id-IsId nine_bytes refl

display-Shows_example :
    Shows
      (message (codes "Zm9vYmFyYmF6") (codes "hello"))
      (display (message (codes "Zm9vYmFyYmF6") (codes "hello")))
display-Shows_example = display-Shows (message (codes "Zm9vYmFyYmF6") (codes "hello"))
