-- ===== src/Error/Problem.antt =====
-- src/error.rs: `ProblemDetail`, the RFC 7807 shape that a `NAK` carries.
use vcmp_rs.Base.{ℕ, List, [], ◌++◌, Option, none, some, Text, codes}
use vcmp_rs.Base.Assoc.{insert}
use vcmp_rs.Decimal.{to_string}

pub record ProblemDetail (V : Type 0) : Type 0 where
  pub title : Text
  pub status : ℕ
  pub type_uri : Option Text
  pub instance_uri : Option Text
  pub detail : Option Text
  pub extra : List (Text × V)

display_detail : Option Text → Text
display_detail none = []
display_detail (some detail) = codes ": " ++ detail

module _ {V : Type 0} where
  -- `ProblemDetail::new`.
  unfoldable pub create : ℕ → Text → ProblemDetail V
  create status title = record {
    title = title;
    status = status;
    type_uri = none;
    instance_uri = none;
    detail = none;
    extra = [];
  }

  unfoldable pub with_detail : ProblemDetail V → Text → ProblemDetail V
  with_detail p detail = record p { detail = some detail }

  unfoldable pub with_type : ProblemDetail V → Text → ProblemDetail V
  with_type p uri = record p { type_uri = some uri }

  unfoldable pub with_instance : ProblemDetail V → Text → ProblemDetail V
  with_instance p uri = record p { instance_uri = some uri }

  unfoldable pub with_extra : ProblemDetail V → Text → V → ProblemDetail V
  with_extra p key value = record p { extra = insert key value p.extra }

  -- `Display for ProblemDetail`.
  unfoldable pub display : ProblemDetail V → Text
  unfolding display_detail
  display p =
      p.title ++ (codes " (" ++ (to_string p.status ++ (codes ")" ++ display_detail p.detail)))
