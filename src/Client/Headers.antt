-- ===== src/Client/Headers.antt =====
-- src/client.rs: the headers that `connect` sends, by what they are set from.
use vcmp_rs.Base.{
  ◌≡◌, refl, sym, ◌∙◌, ap, ap₂, List, [], ◌∷◌, Option, none, some, Bool, ok, Text, text_eq,
  if◌then◌else◌, ◌>>=◌, ◌++◌, append_assoc, append-nil, Result, err, text_eq_iff, bind-ok,
  ok_injective, err-ne-ok, Bool-cases, inl, inr,
}
use vcmp_rs.Error.{VcmpError}
use vcmp_rs.Client.Builder.{ClientBuilder}
use vcmp_rs.Client.Connect.{
  Http, HttpLaws, ConnectError, credentials, from_websocket, checked, put_header, put_headers,
  generated, prepare,
}

-- The value of a header, where that has the name.
abbrev own_value : Text → Option Text → Option Text → Option Text
own_value name none value = none
own_value name (some other) value = if text_eq other name then value else none

abbrev or_own : Option Text → Option Text → Option Text
or_own (some value) own = some value
or_own none own = own

abbrev pub listed : Option Text → List Text
listed none = []
listed (some value) = value ∷ []

-- The value that a list of headers gives a name last.
pub last_value : {Q W E : Type 0} → Http Q W E → Text → List (Text × Text) → Option Text
last_value http name [] = none
last_value http name ((n, v) ∷ hs) =
    or_own (last_value http name hs) (own_value name (http.header_name n) (http.header_value v))

-- The values that a list of headers gives a name, in order.
pub values_of : {Q W E : Type 0} → Http Q W E → Text → List (Text × Text) → List Text
values_of http name [] = []
values_of http name ((n, v) ∷ hs) =
    listed (own_value name (http.header_name n) (http.header_value v)) ++ values_of http name hs

-- What the factory of a builder gives: nothing, if there is none.
abbrev pub Gives :
    {G V : Type 0}
    → (G → Result (List (Text × Text)) (VcmpError V))
    → Option G
    → List (Text × Text)
    → Type 0
Gives generate none hs = hs ≡ []
Gives generate (some factory) hs = generate factory ≡ ok hs

abbrev pub replaced_by : Option Text → List Text → List Text
replaced_by none values = values
replaced_by (some value) values = value ∷ []

replaced-twice :
    (o own : Option Text) (values : List Text)
    → replaced_by o (replaced_by own values) ≡ replaced_by (or_own o own) values
replaced-twice none own values = refl
replaced-twice (some v) none values = refl
replaced-twice (some v) (some w) values = refl

module _ {Q W E : Type 0} (http : Http Q W E) (laws : HttpLaws http) where
  -- A header that was put had a valid name and a valid value.
  put_header-ok :
      (put : Text → Text → Q → Q) (n v : Text) (q q' : Q)
      → put_header http put (n, v) q ≡ ok q'
      → (name : Text) × (value : Text) × (http.header_name n ≡ some name)
        × (http.header_value v ≡ some value)
        × (q' ≡ put name value q)
  unfolding put_header checked
  put_header-ok put n v q q' h = go (http.header_name n) (http.header_value v) h
    where
      go :
          (o p : Option Text)
          → (checked http n o >>= λ name. checked http name p >>= λ value. ok (put name value q))
            ≡ ok q'
          → (name : Text) × (value : Text) × (o ≡ some name)
            × (p ≡ some value)
            × (q' ≡ put name value q)
      go none p h = absurd (err-ne-ok h)
      go (some a) none h = absurd (err-ne-ok h)
      go (some a) (some b) h = (a, b, refl, refl, sym (ok_injective h))

  inserted :
      (name other value : Text) (q : Q)
      → http.get_all name (http.insert other value q)
        ≡ replaced_by (own_value name (some other) (some value)) (http.get_all name q)
  inserted name other value q = elim (Bool-cases (text_eq other name)) [
    | inl k ↦
        ap (λ x. http.get_all x (http.insert other value q)) (sym ((text_eq_iff other name).0 k))
        ∙ laws.insert_same other value q
        ∙ ap when (sym k)
    | inr k ↦ laws.insert_other other name value q k ∙ ap when (sym k)
  ]
    where
      when : Bool → List Text
      when b = replaced_by (if b then some value else none) (http.get_all name q)

  appended :
      (name other value : Text) (q : Q)
      → http.get_all name (http.append other value q)
        ≡ http.get_all name q ++ listed (own_value name (some other) (some value))
  appended name other value q = elim (Bool-cases (text_eq other name)) [
    | inl k ↦
        let same : other ≡ name = (text_eq_iff other name).0 k in
        ap (λ x. http.get_all x (http.append other value q)) (sym same)
        ∙ laws.append_same other value q
        ∙ ap (λ x. http.get_all x q ++ (value ∷ [])) same
        ∙ ap when (sym k)
    | inr k ↦
        laws.append_other other name value q k
        ∙ sym (append-nil (http.get_all name q))
        ∙ ap when (sym k)
  ]
    where
      when : Bool → List Text
      when b = http.get_all name q ++ listed (if b then some value else none)

  -- A header that was appended comes after the values that its name had.
  put_headers-appends :
      (hs : List (Text × Text)) (q q' : Q) (name : Text)
      → put_headers http http.append hs q ≡ ok q'
      → http.get_all name q' ≡ http.get_all name q ++ values_of http name hs
  unfolding put_headers values_of
  put_headers-appends [] q q' name h =
      ap (http.get_all name) (sym (ok_injective h)) ∙ sym (append-nil (http.get_all name q))
  put_headers-appends ((n, v) ∷ hs) q q' name h =
      let (q1, first, rest) = bind-ok (put_header http http.append (n, v) q) _ q' h in
      let (other, value, e, f, p) = put_header-ok http.append n v q q1 first in
      let one : http.get_all name q1
          ≡ http.get_all name q
            ++ listed (own_value name (http.header_name n) (http.header_value v)) =
        ap (http.get_all name) p
        ∙ appended name other value q
        ∙ ap₂ (λ x y. http.get_all name q ++ listed (own_value name x y)) (sym e) (sym f) in
      put_headers-appends hs q1 q' name rest
      ∙ ap (λ xs. xs ++ values_of http name hs) one
      ∙ append_assoc (http.get_all name q) _ _

  -- Each name that a list of headers gives has the value it gives it last, once they are inserted.
  put_headers-replaces :
      (hs : List (Text × Text)) (q q' : Q) (name : Text)
      → put_headers http http.insert hs q ≡ ok q'
      → http.get_all name q' ≡ replaced_by (last_value http name hs) (http.get_all name q)
  unfolding put_headers last_value
  put_headers-replaces [] q q' name h = ap (http.get_all name) (sym (ok_injective h))
  put_headers-replaces ((n, v) ∷ hs) q q' name h =
      let (q1, first, rest) = bind-ok (put_header http http.insert (n, v) q) _ q' h in
      let (other, value, e, f, p) = put_header-ok http.insert n v q q1 first in
      let own = own_value name (http.header_name n) (http.header_value v) in
      let one : http.get_all name q1 ≡ replaced_by own (http.get_all name q) =
        ap (http.get_all name) p
        ∙ inserted name other value q
        ∙ ap₂ (λ x y. replaced_by (own_value name x y) (http.get_all name q)) (sym e) (sym f) in
      put_headers-replaces hs q1 q' name rest
      ∙ ap (replaced_by (last_value http name hs)) one
      ∙ replaced-twice (last_value http name hs) own (http.get_all name q)

module _ {E G V : Type 0} (generate : G → Result (List (Text × Text)) (VcmpError V)) where
  generated-Gives :
      (g : Option G) (hs : List (Text × Text))
      → generated {E = E} generate g ≡ ok hs
      → Gives generate g hs
  unfolding generated
  generated-Gives none hs h = sym (ok_injective h)
  generated-Gives (some factory) hs h = go (generate factory) h
    where
      go :
          (r : Result (List (Text × Text)) (VcmpError V))
          → ◌≡◌ {A = Result (List (Text × Text)) (ConnectError E)}
              (elim r [ ok xs ↦ ok xs | err e ↦ err credentials ])
              (ok hs)
          → r ≡ ok hs
      go (ok xs) k = ap ok (ok_injective k)
      go (err e) k = absurd (err-ne-ok k)

from_websocket-ok : {Q E : Type 0} (r : Result Q E) (q : Q) → from_websocket r ≡ ok q → r ≡ ok q
unfolding from_websocket
from_websocket-ok (ok x) q h = ap ok (ok_injective h)
from_websocket-ok (err e) q h = absurd (err-ne-ok h)

module _ {Q W E F G V : Type 0} (http : Http Q W E) (laws : HttpLaws http)
    (generate : G → Result (List (Text × Text)) (VcmpError V)) where
  -- A request that is sent carries, for each name, the value that the factory of this attempt gives
  -- it last and no other; where the factory gives none, it carries the values of the library's own
  -- request for the address, followed by all those of the builder in order.
  pub prepare-replaces :
      (config : ClientBuilder F G) (sent : Q) (name : Text)
      → prepare http generate config ≡ ok sent
      → (q : Q) × (hs : List (Text × Text)) × (http.into_request config.url ≡ ok q)
        × Gives generate config.headers_per_attempt hs
        × (http.get_all name sent
            ≡ replaced_by
                (last_value http name hs)
                (http.get_all name q ++ values_of http name config.headers))
  unfolding prepare
  prepare-replaces config sent name h =
      let (q, own, h1) = bind-ok (from_websocket (http.into_request config.url)) _ sent h in
      let (q', built, h2) = bind-ok (put_headers http http.append config.headers q) _ sent h1 in
      let (hs, fresh, put) = bind-ok (generated generate config.headers_per_attempt) _ sent h2 in
      (
        q,
        hs,
        from_websocket-ok _ q own,
        generated-Gives {E = E} generate config.headers_per_attempt hs fresh,
        put_headers-replaces http laws hs q' sent name put
            ∙ ap (replaced_by (last_value http name hs))
                (put_headers-appends http laws config.headers q q' name built),
      )
