-- ===== src/Error/Conversions.antt =====
-- src/error.rs: the serde implementations of `VcmpError`, its getters, and its conversions from the
-- errors of serde_json and of I/O.
use vcmp_rs.Base.{◌<◌, ◌^◌, ◌≡◌, ap, List, [], Option, Result, ok, Text, ◌>>=◌}
use vcmp_rs.Error.Problem.{ProblemDetail}
use vcmp_rs.Error.{StdError, VcmpError, foreign, from_problem, from_error, from_string, other}
use vcmp_rs.Error.Members.{Values, ValueLaws, to_members, from_members}
use vcmp_rs.Error.Reading.{Separate, from_members-to_members}

module _ {V : Type 0} where
  unfoldable pub problem : VcmpError V → ProblemDetail V
  problem e = e.problem

  unfoldable pub title : VcmpError V → Text
  title e = e.problem.title

  unfoldable pub detail : VcmpError V → Option Text
  detail e = e.problem.detail

  -- `StdError::source`.
  unfoldable pub source : VcmpError V → Option StdError
  source e = e.source

  -- `From<&str>`.
  unfoldable pub from_str : Text → VcmpError V
  unfolding from_string
  from_str detail = from_string detail

  -- `From<serde_json::Error>` and `From<std::io::Error>`.
  unfoldable pub from_serde_json : StdError → VcmpError V
  unfolding from_error
  from_serde_json e = from_error (foreign e)

  unfoldable pub from_io : StdError → VcmpError V
  unfolding from_error
  from_io e = from_error (foreign e)

  -- `From<std::convert::Infallible>`.
  unfoldable pub from_infallible : ⊥ → VcmpError V
  from_infallible never = absurd never

module _ {V : Type 0} (json : Values V) where
  -- `Serialize` and `Deserialize`, over the members of an object.
  unfoldable pub serialize_error : VcmpError V → List (Text × V)
  serialize_error e = to_members json e.problem

  unfoldable pub deserialize_error : List (Text × V) → Result (VcmpError V) Text
  deserialize_error ms = from_members json ms >>= λ p. ok (from_problem p)

  -- An error that is written and read again keeps its problem detail, and nothing else: it has no
  -- source and does not count as a local transport failure.
  pub deserialize-serialize :
      ValueLaws json
      → (e : VcmpError V) → e.problem.status < 2 ^ 16
      → Separate [] e.problem.extra
      → deserialize_error (serialize_error e)
        ≡ ok (record { problem = e.problem; source = Option.none; kind = other })
  unfolding serialize_error deserialize_error from_problem
  deserialize-serialize laws e h k =
      ap (λ r. r >>= λ p. ok (from_problem p)) (from_members-to_members json laws e.problem h k)
