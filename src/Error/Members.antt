-- ===== src/Error/Members.antt =====
-- src/error.rs: `ProblemDetail` to and from the members of a JSON object, as its serde attributes
-- say. JSON values are those of serde_json, the parameter `Values`. The members are written in
-- order, and read one after the other.
use vcmp_rs.Base.{
  ℕ, ◌<◌, ◌^◌, ◌≡◌, List, [], ◌∷◌, ◌++◌, Option, none, some, Result, ok, err, Text, codes, text_eq,
  if◌then◌else◌, ◌>>=◌,
}
use vcmp_rs.Base.Assoc.{insert}
use vcmp_rs.Error.Problem.{ProblemDetail}

pub record Values (V : Type 0) : Type 0 where
  pub of_text : Text → V
  pub of_number : ℕ → V
  -- `Option<String>` and `Option<u16>` of a value: `ok none` is null.
  pub as_text : V → Result (Option Text) Text
  pub as_u16 : V → Result (Option ℕ) Text

pub record ValueLaws {V : Type 0} (json : Values V) : Type 0 where
  pub text_back : (t : Text) → json.as_text (json.of_text t) ≡ ok (some t)
  pub number_back : (n : ℕ) → n < 2 ^ 16 → json.as_u16 (json.of_number n) ≡ ok (some n)

-- The fields that the reader has met; `extra` is the flattened map.
pub record Partial (V : Type 0) : Type 0 where
  pub title : Option Text
  pub status : Option ℕ
  pub type_uri : Option (Option Text)
  pub instance_uri : Option (Option Text)
  pub detail : Option (Option Text)
  pub extra : List (Text × V)

abbrev pub nothing_read : {V : Type 0} → Partial V
nothing_read = record {
  title = none;
  status = none;
  type_uri = none;
  instance_uri = none;
  detail = none;
  extra = [];
}

abbrev pub unwrap_or : {A : Type 0} → A → Option A → A
unwrap_or a none = a
unwrap_or a (some b) = b

-- A field that is met a second time is an error.
unfoldable pub fill : {A B : Type 0} → Option A → Result A Text → (A → B) → Result B Text
fill none r set = r >>= λ a. ok (set a)
fill (some a) r set = err (codes "duplicate field")

module _ {V : Type 0} (json : Values V) where
  -- `null_to_default` and `null_to_status`.
  unfoldable pub null_to_default : V → Result Text Text
  null_to_default v = json.as_text v >>= λ t. ok (unwrap_or [] t)

  unfoldable pub null_to_status : V → Result ℕ Text
  null_to_status v = json.as_u16 v >>= λ n. ok (unwrap_or 500 n)

  -- One member: a field by its name, or one more of the extra members.
  unfoldable pub read_member : Text × V → Partial V → Result (Partial V) Text
  unfolding fill null_to_default null_to_status
  read_member (k, v) p =
      if text_eq k (codes "title")
      then fill p.title (null_to_default v) (λ t. record p { title = some t })
      else if text_eq k (codes "status")
      then fill p.status (null_to_status v) (λ n. record p { status = some n })
      else if text_eq k (codes "type")
      then fill p.type_uri (json.as_text v) (λ t. record p { type_uri = some t })
      else if text_eq k (codes "instance")
      then fill p.instance_uri (json.as_text v) (λ t. record p { instance_uri = some t })
      else if text_eq k (codes "detail")
      then fill p.detail (json.as_text v) (λ t. record p { detail = some t })
      else ok (record p { extra = insert k v p.extra })

  unfoldable pub read_members : List (Text × V) → Partial V → Result (Partial V) Text
  unfolding read_member
  read_members [] p = ok p
  read_members (m ∷ ms) p = read_member m p >>= λ p'. read_members ms p'

  -- The fields that were not met have their defaults.
  unfoldable pub complete : Partial V → ProblemDetail V
  complete p = record {
    title = unwrap_or [] p.title;
    status = unwrap_or 500 p.status;
    type_uri = unwrap_or none p.type_uri;
    instance_uri = unwrap_or none p.instance_uri;
    detail = unwrap_or none p.detail;
    extra = p.extra;
  }

  -- `Deserialize for ProblemDetail`.
  unfoldable pub from_members : List (Text × V) → Result (ProblemDetail V) Text
  unfolding read_members complete
  from_members ms = read_members ms nothing_read >>= λ p. ok (complete p)

  -- `skip_serializing_if = "Option::is_none"`.
  unfoldable pub optional : Text → Option Text → List (Text × V)
  optional name none = []
  optional name (some t) = (name, json.of_text t) ∷ []

  -- `Serialize for ProblemDetail`.
  unfoldable pub to_members : ProblemDetail V → List (Text × V)
  unfolding optional
  to_members p =
      (codes "title", json.of_text p.title)
      ∷ (codes "status", json.of_number p.status)
      ∷ (optional (codes "type") p.type_uri
          ++ (optional (codes "instance") p.instance_uri
              ++ (optional (codes "detail") p.detail ++ p.extra)))
