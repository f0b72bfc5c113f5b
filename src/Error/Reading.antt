-- ===== src/Error/Reading.antt =====
-- src/error.rs: what becomes of a `ProblemDetail` that is written as JSON members and read again.
use vcmp_rs.Base.{
  ℕ, ◌<◌, ◌^◌, ◌≡◌, refl, sym, ◌∙◌, ap, List, [], ◌∷◌, ◌++◌, append_assoc, append-nil, Option, none,
  some, false, ok, err, Text, codes, text_eq, if◌then◌else◌, ◌>>=◌,
}
use vcmp_rs.Base.Assoc.{insert}
use vcmp_rs.Error.Problem.{ProblemDetail}
use vcmp_rs.Error.Members.{
  Values, ValueLaws, Partial, fill, null_to_default, null_to_status, read_member, read_members,
  complete, from_members, optional, to_members, unwrap_or, nothing_read,
}

-- A name that is none of the fields'.
abbrev pub NotField : Text → Type 0
NotField k =
    (text_eq k (codes "title") ≡ false)
    × (text_eq k (codes "status") ≡ false)
    × (text_eq k (codes "type") ≡ false)
    × (text_eq k (codes "instance") ≡ false)
    × (text_eq k (codes "detail") ≡ false)

module _ {V : Type 0} where
  abbrev pub Fresh : Text → List (Text × V) → Type 0
  Fresh k [] = Unit
  Fresh k (m ∷ ms) = (text_eq m.0 k ≡ false) × Fresh k ms

  -- Each member's name is no field's, and differs from those before it.
  abbrev pub Separate : List (Text × V) → List (Text × V) → Type 0
  Separate before [] = Unit
  Separate before (m ∷ ms) = NotField m.0 × Fresh m.0 before × Separate (before ++ (m ∷ [])) ms

  insert-Fresh :
      (k : Text) (v : V) (ms : List (Text × V)) → Fresh k ms → insert k v ms ≡ ms ++ ((k, v) ∷ [])
  unfolding insert
  insert-Fresh k v [] h = refl
  insert-Fresh k v ((j, w) ∷ ms) (h, hs) =
      ap (λ b. if b then (k, v) ∷ ms else (j, w) ∷ insert k v ms) h
      ∙ ap (λ l. (j, w) ∷ l) (insert-Fresh k v ms hs)

-- What reading an optional field leaves.
abbrev met : Option Text → Option (Option Text)
met none = none
met (some t) = some (some t)

unwrap_or-met : (o : Option Text) → unwrap_or none (met o) ≡ o
unwrap_or-met none = refl
unwrap_or-met (some t) = refl

module _ {V : Type 0} (json : Values V) (laws : ValueLaws json) where
  abbrev so_far :
      Option Text
      → Option ℕ
      → Option (Option Text)
      → Option (Option Text)
      → Option (Option Text)
      → List (Text × V)
      → Partial V
  so_far a b c d e x = record {
    title = a;
    status = b;
    type_uri = c;
    instance_uri = d;
    detail = e;
    extra = x;
  }

  onward :
      (m : Text × V) (ms : List (Text × V)) (p q : Partial V)
      → read_member json m p ≡ ok q
      → read_members json (m ∷ ms) p ≡ read_members json ms q
  unfolding read_members
  onward m ms p q h = ap (λ r. r >>= λ p'. read_members json ms p') h

  title_read :
      (t : Text) (ms : List (Text × V)) (b : Option ℕ) (c d e : Option (Option Text))
      (x : List (Text × V))
      → read_members json ((codes "title", json.of_text t) ∷ ms) (so_far none b c d e x)
        ≡ read_members json ms (so_far (some t) b c d e x)
  unfolding read_member fill null_to_default text_eq
  title_read t ms b c d e x =
      onward (codes "title", json.of_text t) ms (so_far none b c d e x) (so_far (some t) b c d e x)
        (ap (λ r. (r >>= λ o. ok (unwrap_or [] o)) >>= λ a. ok (so_far (some a) b c d e x))
          (laws.text_back t))

  status_read :
      (n : ℕ) (ms : List (Text × V)) (a : Option Text) (c d e : Option (Option Text))
      (x : List (Text × V))
      → n < 2 ^ 16
      → read_members json ((codes "status", json.of_number n) ∷ ms) (so_far a none c d e x)
        ≡ read_members json ms (so_far a (some n) c d e x)
  unfolding read_member fill null_to_status text_eq
  status_read n ms a c d e x h =
      onward (codes "status", json.of_number n) ms (so_far a none c d e x)
        (so_far a (some n) c d e x)
        (ap (λ r. (r >>= λ o. ok (unwrap_or 500 o)) >>= λ m. ok (so_far a (some m) c d e x))
          (laws.number_back n h))

  type_read :
      (o : Option Text) (ms : List (Text × V)) (a : Option Text) (b : Option ℕ)
      (d e : Option (Option Text)) (x : List (Text × V))
      → read_members json (optional json (codes "type") o ++ ms) (so_far a b none d e x)
        ≡ read_members json ms (so_far a b (met o) d e x)
  unfolding read_member fill optional text_eq
  type_read none ms a b d e x = refl
  type_read (some t) ms a b d e x =
      onward (codes "type", json.of_text t) ms (so_far a b none d e x)
        (so_far a b (some (some t)) d e x)
        (ap (λ r. r >>= λ o. ok (so_far a b (some o) d e x)) (laws.text_back t))

  instance_read :
      (o : Option Text) (ms : List (Text × V)) (a : Option Text) (b : Option ℕ)
      (c e : Option (Option Text)) (x : List (Text × V))
      → read_members json (optional json (codes "instance") o ++ ms) (so_far a b c none e x)
        ≡ read_members json ms (so_far a b c (met o) e x)
  unfolding read_member fill optional text_eq
  instance_read none ms a b c e x = refl
  instance_read (some t) ms a b c e x =
      onward (codes "instance", json.of_text t) ms (so_far a b c none e x)
        (so_far a b c (some (some t)) e x)
        (ap (λ r. r >>= λ o. ok (so_far a b c (some o) e x)) (laws.text_back t))

  detail_read :
      (o : Option Text) (ms : List (Text × V)) (a : Option Text) (b : Option ℕ)
      (c d : Option (Option Text)) (x : List (Text × V))
      → read_members json (optional json (codes "detail") o ++ ms) (so_far a b c d none x)
        ≡ read_members json ms (so_far a b c d (met o) x)
  unfolding read_member fill optional text_eq
  detail_read none ms a b c d x = refl
  detail_read (some t) ms a b c d x =
      onward (codes "detail", json.of_text t) ms (so_far a b c d none x)
        (so_far a b c d (some (some t)) x)
        (ap (λ r. r >>= λ o. ok (so_far a b c d (some o) x)) (laws.text_back t))

  -- An extra member is read as one.
  extra_read :
      (k : Text) (v : V) (p : Partial V)
      → NotField k
      → read_member json (k, v) p ≡ ok (record p { extra = insert k v p.extra })
  unfolding read_member
  extra_read k v p (h1, h2, h3, h4, h5) = rw (h1, h2, h3, h4, h5)

  extras_read :
      (ms before : List (Text × V)) (a : Option Text) (b : Option ℕ) (c d e : Option (Option Text))
      → Separate before ms
      → read_members json ms (so_far a b c d e before) ≡ ok (so_far a b c d e (before ++ ms))
  unfolding read_members
  extras_read [] before a b c d e h = ap (λ x. ok (so_far a b c d e x)) (sym (append-nil before))
  extras_read ((k, v) ∷ ms) before a b c d e (n, f, h) =
      onward (k, v) ms (so_far a b c d e before) (so_far a b c d e (before ++ ((k, v) ∷ [])))
        (extra_read k v (so_far a b c d e before) n
          ∙ ap (λ x. ok (so_far a b c d e x)) (insert-Fresh k v before f))
      ∙ extras_read ms (before ++ ((k, v) ∷ [])) a b c d e h
      ∙ ap (λ x. ok (so_far a b c d e x)) (append_assoc before ((k, v) ∷ []) ms)

  -- What is read of a problem detail that was written, up to its extra members.
  fields_read :
      (p : ProblemDetail V)
      → p.status < 2 ^ 16
      → read_members json (to_members json p) nothing_read
        ≡ read_members json p.extra (
            so_far
              (some p.title)
              (some p.status)
              (met p.type_uri)
              (met p.instance_uri)
              (met p.detail)
              [])
  unfolding to_members
  fields_read p h =
      title_read p.title ((codes "status", json.of_number p.status) ∷ onwards) none none none none
        []
      ∙ status_read p.status onwards (some p.title) none none none [] h
      ∙ type_read p.type_uri later (some p.title) (some p.status) none none []
      ∙ instance_read p.instance_uri last (some p.title) (some p.status) (met p.type_uri) none []
      ∙ detail_read p.detail p.extra (some p.title) (some p.status) (met p.type_uri)
          (met p.instance_uri) []
    where
      last : List (Text × V)
      last = optional json (codes "detail") p.detail ++ p.extra

      later : List (Text × V)
      later = optional json (codes "instance") p.instance_uri ++ last

      onwards : List (Text × V)
      onwards = optional json (codes "type") p.type_uri ++ later

  -- A problem detail whose status is a u16 and whose extra members have names of their own is read
  -- back as it was.
  pub from_members-to_members :
      (p : ProblemDetail V)
      → p.status < 2 ^ 16
      → Separate [] p.extra
      → from_members json (to_members json p) ≡ ok p
  unfolding from_members complete
  from_members-to_members p h k =
      ap (λ r. r >>= λ q. ok (complete json q))
        (fields_read p h
          ∙ extras_read p.extra [] (some p.title) (some p.status) (met p.type_uri)
              (met p.instance_uri) (met p.detail) k)
      ∙ ap (λ x. ok (with_options x back_instance back_detail)) (unwrap_or-met p.type_uri)
      ∙ ap (λ y. ok (with_options p.type_uri y back_detail)) (unwrap_or-met p.instance_uri)
      ∙ ap (λ z. ok (with_options p.type_uri p.instance_uri z)) (unwrap_or-met p.detail)
    where
      with_options : Option Text → Option Text → Option Text → ProblemDetail V
      with_options x y z = record p { type_uri = x; instance_uri = y; detail = z }

      back_instance : Option Text
      back_instance = unwrap_or none (met p.instance_uri)

      back_detail : Option Text
      back_detail = unwrap_or none (met p.detail)

  -- A problem detail whose first extra member is named like the title is written with two titles,
  -- which the reader refuses.
  pub from_members-duplicate :
      (p : ProblemDetail V) (v : V) (ms : List (Text × V))
      → p.status < 2 ^ 16
      → p.extra ≡ (codes "title", v) ∷ ms
      → from_members json (to_members json p) ≡ err (codes "duplicate field")
  unfolding from_members complete read_members read_member fill text_eq
  from_members-duplicate p v ms h e =
      ap (λ r. r >>= λ q. ok (complete json q))
        (fields_read p h
          ∙ ap
              (λ x. read_members json x (
                so_far (some p.title) (some p.status) (met p.type_uri) (met p.instance_uri)
                  (met p.detail) []))
              e)
