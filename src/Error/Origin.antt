-- ===== src/Error/Origin.antt =====
-- Which errors count as local transport failures.
use vcmp_rs.Base.{err, ℕ, ◌≡◌, refl, Bool, true, false, Text, arith}
use vcmp_rs.Error
use vcmp_rs.Error.Problem.{ProblemDetail}
use vcmp_rs.Error.{StdError, VcmpError, DynError, vcmp, foreign, is_transport}

module _ {V : Type 0} where
  -- Every way to come by an error, with whether it started from one of the failures that the
  -- crate detects itself.
  pub data Derived : Bool → VcmpError V → Type 0 where
    not_open : (d : Text) → Derived true (Error.session_not_open d)
    closed : (d : Text) → Derived true (Error.session_closed d)
    not_connected : (d : Text) → Derived true (Error.not_connected d)
    full : Derived true Error.transport_overloaded
    timed_out : Derived true Error.acknowledgement_timeout
    created : (status : ℕ) (title : Text) → Derived false (Error.new_error status title)
    bad_request : (title : Text) → Derived false (Error.bad_request title)
    internal : (title : Text) → Derived false (Error.internal title)
    wrapped : (p : ProblemDetail V) → Derived false (Error.from_problem p)
    from_message : (d : Text) → Derived false (Error.from_string d)
    from_foreign : (f : StdError) → Derived false (Error.from_error (foreign f))
    boxed_foreign : (f : StdError) → Derived false (Error.from_boxed (foreign f))
    remapped :
        {e : VcmpError V} (d : DynError V) (status : ℕ) (title : Text)
        → Error.or_problem {T = ℕ} (err d) status title ≡ err e
        → Derived false e
    from_peer : {b : Bool} {e : VcmpError V} → Derived b e → Derived false (Error.into_peer_error e)
    forwarded :
        {b : Bool} {e : VcmpError V}
        → Derived b e
        → Derived false (Error.from_problem (Error.into_problem e))
    detailed :
        {b : Bool} {e : VcmpError V} (d : Text) → Derived b e → Derived b (Error.with_detail e d)
    typed : {b : Bool} {e : VcmpError V} (d : Text) → Derived b e → Derived b (Error.with_type e d)
    located :
        {b : Bool} {e : VcmpError V} (d : Text) → Derived b e → Derived b (Error.with_instance e d)
    extended :
        {b : Bool} {e : VcmpError V} (k : Text) (v : V)
        → Derived b e
        → Derived b (Error.with_extra e k v)
    caused :
        {b : Bool} {e : VcmpError V} (s : StdError)
        → Derived b e
        → Derived b (Error.with_source e s)
    cloned : {b : Bool} {e : VcmpError V} → Derived b e → Derived b (Error.clone e)
    converted : {b : Bool} {e : VcmpError V} → Derived b e → Derived b (Error.from_error (vcmp e))
    unboxed : {b : Bool} {e : VcmpError V} → Derived b e → Derived b (Error.from_boxed (vcmp e))

  -- An error counts as a local transport failure exactly if it started from one: however it was
  -- decorated, cloned or converted on the way, and whatever status, title or members a peer or the
  -- application chose. A peer's `NAK`, a problem detail and a remapped error never count.
  pub is_transport_iff : {b : Bool} {e : VcmpError V} → Derived b e → is_transport e ≡ b
  unfolding is_transport Error.acknowledgement_timeout Error.bad_request Error.clone
      Error.from_boxed Error.from_error Error.from_problem Error.from_string Error.internal
      Error.into_peer_error Error.new_error Error.not_connected Error.or_problem
      Error.session_closed Error.session_not_open Error.transport_overloaded Error.with_detail
      Error.with_extra Error.with_instance Error.with_source Error.with_type
  is_transport_iff (not_open d) = refl
  is_transport_iff (closed d) = refl
  is_transport_iff (not_connected d) = refl
  is_transport_iff full = refl
  is_transport_iff timed_out = refl
  is_transport_iff (created status title) = refl
  is_transport_iff (bad_request title) = refl
  is_transport_iff (internal title) = refl
  is_transport_iff (wrapped p) = refl
  is_transport_iff (from_message d) = refl
  is_transport_iff (from_foreign f) = refl
  is_transport_iff (boxed_foreign f) = refl
  is_transport_iff (remapped d status title h) = ground arith
  is_transport_iff (from_peer h) = refl
  is_transport_iff (forwarded h) = refl
  is_transport_iff (detailed d h) = is_transport_iff h
  is_transport_iff (typed d h) = is_transport_iff h
  is_transport_iff (located d h) = is_transport_iff h
  is_transport_iff (extended k v h) = is_transport_iff h
  is_transport_iff (caused s h) = is_transport_iff h
  is_transport_iff (cloned h) = is_transport_iff h
  is_transport_iff (converted h) = is_transport_iff h
  is_transport_iff (unboxed h) = is_transport_iff h
