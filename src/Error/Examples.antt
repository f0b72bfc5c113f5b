-- ===== src/Error/Examples.antt =====
-- src/error.rs: the theorems on errors at concrete ones.
use vcmp_rs.Base.{
  ℕ, ◌≡◌, refl, true, codes, Text, Option, none, some, Result, ok, err, [], ◌∷◌, text_eq, arith,
}
use vcmp_rs.Error.Problem.{ProblemDetail}
use vcmp_rs.Error.Members.{Values, ValueLaws, to_members, from_members}
use vcmp_rs.Error.Reading.{from_members-to_members, from_members-duplicate}
use vcmp_rs.Error.{is_transport, clone, with_detail, transport_overloaded}
use vcmp_rs.Error.Origin.{is_transport_iff, cloned, detailed, full}

is_transport_iff_example :
    is_transport (clone (with_detail (transport_overloaded {V = ℕ}) (codes "busy"))) ≡ true
is_transport_iff_example = is_transport_iff (cloned (detailed (codes "busy") full))

-- JSON values without anything but texts, numbers and null.
data Value : Type 0 where
  text : Text → Value
  number : ℕ → Value
  null : Value

text_of : Value → Result (Option Text) Text
text_of (text t) = ok (some t)
text_of (number n) = err (codes "invalid type")
text_of null = ok none

number_of : Value → Result (Option ℕ) Text
number_of (number n) = ok (some n)
number_of (text t) = err (codes "invalid type")
number_of null = ok none

abbrev plain_values : Values Value
plain_values = record { of_text = text; of_number = number; as_text = text_of; as_u16 = number_of }

plain_values-ValueLaws : ValueLaws plain_values
unfolding text_of number_of
plain_values-ValueLaws = record { text_back = λ t. refl; number_back = λ n h. refl }

abbrev not_available : ProblemDetail Value
not_available = record {
  title = codes "Not available";
  status = 409;
  type_uri = none;
  instance_uri = none;
  detail = some (codes "The lock is blocked.");
  extra = (codes "lock", number 7) ∷ [];
}

from_members-to_members_example :
    from_members plain_values (to_members plain_values not_available) ≡ ok not_available
unfolding text_eq
from_members-to_members_example =
    from_members-to_members plain_values plain_values-ValueLaws not_available (omega arith)
      ((refl, refl, refl, refl, refl), tt, tt)

abbrev two_titles : ProblemDetail Value
two_titles = record not_available { extra = (codes "title", text []) ∷ [] }

from_members-duplicate_example :
    from_members plain_values (to_members plain_values two_titles) ≡ err (codes "duplicate field")
from_members-duplicate_example =
    from_members-duplicate plain_values plain_values-ValueLaws two_titles (text []) [] (omega arith)
      refl
