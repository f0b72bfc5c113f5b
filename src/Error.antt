-- ===== src/Error.antt =====
-- src/error.rs: the problem detail of a `NAK`, the error of every fallible operation with its
-- private origin, and the conversions. `V` stands for `serde_json::Value`.
pub mod Problem
pub mod Members
pub mod Reading
pub mod Origin
pub mod Conversions
mod Examples
use vcmp_rs.Base.{
  ℕ, ◌≡◌, refl, List, [], ◌∷◌, ◌++◌, Option, none, some, Bool, true, false, ◌&&◌, Result, ok, err,
  Text, codes, ◌==◌, if◌then◌else◌,
}
use Problem.{ProblemDetail}

pub data ErrorKind : Type 0 where
  other local_transport peer_nak : ErrorKind

-- What can be observed of a `dyn StdError`: the name of its type and its message.
pub record StdError : Type 0 where
  pub type_name : Text
  pub message : Text

pub record VcmpError (V : Type 0) : Type 0 where
  pub problem : ProblemDetail V
  pub source : Option StdError
  pub kind : ErrorKind

-- An error of some type, as `downcast::<VcmpError>` tells them apart.
pub data DynError (V : Type 0) : Type 0 where
  vcmp : VcmpError V → DynError V
  foreign : StdError → DynError V

module _ {V : Type 0} where
  -- `From<ProblemDetail> for VcmpError`.
  unfoldable pub from_problem : ProblemDetail V → VcmpError V
  from_problem p = record { problem = p; source = none; kind = other }

  -- `VcmpError::new`.
  unfoldable pub new_error : ℕ → Text → VcmpError V
  unfolding from_problem Problem.create
  new_error status title = from_problem (Problem.create status title)

  unfoldable pub bad_request : Text → VcmpError V
  unfolding new_error
  bad_request title = new_error 400 title

  unfoldable pub internal : Text → VcmpError V
  unfolding new_error
  internal title = new_error 500 title

  unfoldable pub with_detail : VcmpError V → Text → VcmpError V
  unfolding Problem.with_detail
  with_detail e detail = record e { problem = Problem.with_detail e.problem detail }

  unfoldable pub with_type : VcmpError V → Text → VcmpError V
  unfolding Problem.with_type
  with_type e uri = record e { problem = Problem.with_type e.problem uri }

  unfoldable pub with_instance : VcmpError V → Text → VcmpError V
  unfolding Problem.with_instance
  with_instance e uri = record e { problem = Problem.with_instance e.problem uri }

  unfoldable pub with_extra : VcmpError V → Text → V → VcmpError V
  unfolding Problem.with_extra
  with_extra e key value = record e { problem = Problem.with_extra e.problem key value }

  unfoldable pub with_source : VcmpError V → StdError → VcmpError V
  with_source e source = record e { source = some source }

  unfoldable pub status : VcmpError V → ℕ
  status e = e.problem.status

  unfoldable pub is_transport : VcmpError V → Bool
  is_transport e = elim e.kind [ local_transport ↦ true | _ ↦ false ]

  -- `VcmpError::transport`.
  transport : ℕ → Text → VcmpError V
  unfolding new_error
  transport status title = record (new_error status title) { kind = local_transport }

  unfoldable pub into_peer_error : VcmpError V → VcmpError V
  into_peer_error e = record e { kind = peer_nak }

  unfoldable pub session_not_open : Text → VcmpError V
  unfolding transport with_detail
  session_not_open detail = with_detail (transport 503 (codes "Session not open")) detail

  unfoldable pub session_closed : Text → VcmpError V
  unfolding transport with_detail
  session_closed detail = with_detail (transport 503 (codes "Session closed")) detail

  unfoldable pub not_connected : Text → VcmpError V
  unfolding transport with_detail
  not_connected detail = with_detail (transport 503 (codes "Not connected")) detail

  unfoldable pub transport_overloaded : VcmpError V
  unfolding transport
  transport_overloaded = transport 503 (codes "Transport overloaded")

  unfoldable pub acknowledgement_timeout : VcmpError V
  unfolding transport with_detail
  acknowledgement_timeout =
      with_detail (transport 504 (codes "Acknowledgement timed out"))
        (codes "Delivery or mutation outcome is unknown; do not automatically replay.")

-- `name.split('<').next()`: the name without its generic arguments.
before_generics : Text → Text
before_generics [] = []
before_generics (c ∷ s) = if c == b'<' then [] else c ∷ before_generics s

-- What follows two colons that a text begins with.
after_colons : Text → Option Text
after_colons (c ∷ d ∷ s) = if c == b':' && d == b':' then some s else none
after_colons _ = none

-- What follows the last `::`, if there is one.
after_path : Text → Option Text
after_path [] = none
after_path (c ∷ s) = elim (after_path s) [ some t ↦ some t | none ↦ after_colons (c ∷ s) ]

-- `short_type_name`, on the name that `std::any::type_name` gives.
pub short_type_name : Text → Text
short_type_name name = elim (after_path (before_generics name)) [
  | some last ↦ last
  | none ↦ before_generics name
]

module _ {V : Type 0} where
  -- What is left of an error that becomes the source of another.
  unfoldable pub as_source : DynError V → StdError
  unfolding Problem.display
  as_source (vcmp e) = record {
    type_name = codes "vcmp::error::VcmpError";
    message = Problem.display e.problem;
  }
  as_source (foreign e) = e

  -- `VcmpError::from_error`.
  unfoldable pub from_error : DynError V → VcmpError V
  unfolding internal with_detail with_source
  from_error (vcmp e) = e
  from_error (foreign e) =
      with_source (with_detail (internal (short_type_name e.type_name)) e.message) e

  -- `From<Box<dyn StdError + Send + Sync>>`.
  unfoldable pub from_boxed : DynError V → VcmpError V
  unfolding Problem.create Problem.with_detail
  from_boxed (vcmp e) = e
  from_boxed (foreign e) = record {
    problem = Problem.with_detail (Problem.create 500 (codes "Error")) e.message;
    source = some e;
    kind = other;
  }

  -- `From<String>` and `From<&str>`.
  unfoldable pub from_string : Text → VcmpError V
  unfolding internal with_detail
  from_string detail = with_detail (internal (codes "Error")) detail

  -- `ResultExt::or_problem`.
  unfoldable pub or_problem {ℓ} :
      {T : Type ℓ} → Result T (DynError V) → ℕ → Text → Result T (VcmpError V)
  unfolding new_error with_detail with_source as_source
  or_problem (ok t) status title = ok t
  or_problem (err e) status title =
      err (with_source (with_detail (new_error status title) (as_source e).message) (as_source e))

  -- `Clone for VcmpError`: the source is dropped.
  unfoldable pub clone : VcmpError V → VcmpError V
  clone e = record e { source = none }

  -- `From<VcmpError> for ProblemDetail`, `into_problem`.
  unfoldable pub into_problem : VcmpError V → ProblemDetail V
  into_problem e = e.problem

  -- `PartialEq for VcmpError`.
  abbrev pub ◌≈◌ : VcmpError V → VcmpError V → Type 0
  ◌≈◌ d e = d.problem ≡ e.problem

names :
    (short_type_name (codes "std::io::error::Error") ≡ codes "Error")
    × (short_type_name (codes "a::Wrapper<b::Inner>") ≡ codes "Wrapper")
    × (short_type_name (codes "Plain") ≡ codes "Plain")
unfolding short_type_name before_generics after_path after_colons
names = (refl, refl, refl)
