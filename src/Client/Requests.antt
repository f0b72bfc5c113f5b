-- ===== src/Client/Requests.antt =====
-- src/client.rs: requests whose headers are a list, for the concrete runs of `connect`.
use vcmp_rs.Base.{
  ℕ, ◌≡◌, refl, ap, ◌∙◌, List, [], ◌∷◌, ◌++◌, some, false, ok, err, Text, codes, text_eq,
  text_eq_refl, text_eq_iff, Bool-cases, inl, inr, if◌then◌else◌,
}
use vcmp_rs.Client.Connect.{Http, HttpLaws}

-- Header maps as lists of names and values, with names as they are given.
pub get_list : Text → List (Text × Text) → List Text
get_list name [] = []
get_list name ((n, v) ∷ q) = let rest = get_list name q in if text_eq n name then v ∷ rest else rest

unfoldable pub without_name : Text → List (Text × Text) → List (Text × Text)
without_name name [] = []
without_name name ((n, v) ∷ q) =
    let rest = without_name name q in if text_eq n name then rest else (n, v) ∷ rest

abbrev pub plain_http : Http (List (Text × Text)) ℕ ℕ
plain_http = record {
  into_request = λ url. ok ((codes "authorization", codes "none") ∷ []);
  header_name = λ n. some n;
  header_value = λ v. some v;
  append = λ n v q. q ++ ((n, v) ∷ []);
  insert = λ n v q. (n, v) ∷ without_name n q;
  get_all = get_list;
  handshake = λ q sizes. err 404;
}

get_list-without_same :
    (name : Text) (q : List (Text × Text)) → get_list name (without_name name q) ≡ []
unfolding get_list without_name
get_list-without_same name [] = refl
get_list-without_same name ((n, v) ∷ q) = elim (Bool-cases (text_eq n name)) [
  | inl e ↦ rw e (get_list-without_same name q)
  | inr e ↦ rw (e, e) (get_list-without_same name q)
]

get_list-without_other :
    (name other : Text) (q : List (Text × Text))
    → text_eq name other ≡ false
    → get_list other (without_name name q) ≡ get_list other q
unfolding get_list without_name
get_list-without_other name other [] h = refl
get_list-without_other name other ((n, v) ∷ q) h = elim (Bool-cases (text_eq n name)) [
  | inl e ↦
      rw (e, ap (λ x. text_eq x other) ((text_eq_iff n name).0 e) ∙ h)
        (get_list-without_other name other q h)
  | inr e ↦ elim (Bool-cases (text_eq n other)) [
    | inl k ↦ rw (e, k) (ap (λ xs. v ∷ xs) (get_list-without_other name other q h))
    | inr k ↦ rw (e, k) (get_list-without_other name other q h)
  ]
]

get_list-append_same :
    (name value : Text) (q : List (Text × Text))
    → get_list name (q ++ ((name, value) ∷ [])) ≡ get_list name q ++ (value ∷ [])
unfolding get_list
get_list-append_same name value [] = rw (text_eq_refl name) refl
get_list-append_same name value ((n, v) ∷ q) = elim (Bool-cases (text_eq n name)) [
  | inl e ↦ rw e (ap (λ xs. v ∷ xs) (get_list-append_same name value q))
  | inr e ↦ rw e (get_list-append_same name value q)
]

get_list-append_other :
    (name other value : Text) (q : List (Text × Text))
    → text_eq name other ≡ false
    → get_list other (q ++ ((name, value) ∷ [])) ≡ get_list other q
unfolding get_list
get_list-append_other name other value [] h = rw h refl
get_list-append_other name other value ((n, v) ∷ q) h = elim (Bool-cases (text_eq n other)) [
  | inl e ↦ rw e (ap (λ xs. v ∷ xs) (get_list-append_other name other value q h))
  | inr e ↦ rw e (get_list-append_other name other value q h)
]

pub plain_http-HttpLaws : HttpLaws plain_http
unfolding get_list
plain_http-HttpLaws = record {
  insert_same =
      λ name value q. rw (text_eq_refl name) (ap (λ xs. value ∷ xs) (get_list-without_same name q));
  insert_other = λ name other value q h. rw h (get_list-without_other name other q h);
  append_same = λ name value q. get_list-append_same name value q;
  append_other = λ name other value q h. get_list-append_other name other value q h;
}
