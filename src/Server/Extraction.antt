-- ===== src/Server/Extraction.antt =====
-- src/axum.rs: `VcmpUpgrade`, its extraction from the parts of a request, and the route of an
-- endpoint. What axum, hyper and tungstenite do with a request is the parameter `Web`.
use vcmp_rs.Base.{
  ◌≡◌, ◌≢◌, ap, map, refl, sym, List, [], ◌∷◌, Option, none, some, Result, ok, err, ◌⊎◌, inl, inr,
  Text, ℕ, codes, both-ways, Bool, true, false,
}
use vcmp_rs.Session.Info.{ConnectInfo}

-- `http::Version`.
pub data Version : Type 0 where
  http_09 http_10 http_11 http_2 http_3 : Version

-- The parts of a request: the URI that a nested router was given and the original one, the address
-- of the peer and the pending upgrade among its extensions.
pub record Parts (Upgrade : Type 0) : Type 0 where
  pub method : Text
  pub version : Version
  pub uri : Text
  pub headers : List (Text × Text)
  pub original_uri : Option Text
  pub peer_addr : Option Text
  pub on_upgrade : Option Upgrade

-- The request without a body that the handshake is checked on.
pub record Request : Type 0 where
  pub method : Text
  pub version : Version
  pub uri : Text
  pub headers : List (Text × Text)

pub record Web (Upgrade Response Handshake : Type 0) : Type 0 where
  -- `(StatusCode, text).into_response()`.
  pub into_response : ℕ → Text → Response
  -- `create_response`, with the message of its error, and `map(|()| Body::empty())`.
  pub create_response : Request → Result Handshake Text
  pub with_empty_body : Handshake → Response
  -- `Path::<HashMap<String, String>>::from_request_parts`, with its rejection as a response.
  pub path_params : Parts Upgrade → Result (List (Text × Text)) Response
  -- `Uri::path`.
  pub path_of : Text → Text
  -- The name in lower case, and `from_utf8_lossy` of the value.
  pub header_text : Text × Text → Text × Text

pub record VcmpUpgrade (Upgrade Response : Type 0) : Type 0 where
  pub on_upgrade : Upgrade
  pub response : Response
  pub connect_info : ConnectInfo

abbrev pub is_http_11 : Version → Bool
is_http_11 http_11 = true
is_http_11 _ = false

-- `map_or(&parts.uri, |original| &original.0)`.
abbrev pub or_uri : Text → Option Text → Text
or_uri uri none = uri
or_uri uri (some original) = original

module _ {U R S : Type 0} (web : Web U R S) where
  abbrev pub bad_request : Text → R
  bad_request text = web.into_response 400 text

  -- `Headers::to_vec`.
  unfoldable pub to_vec : List (Text × Text) → List (Text × Text)
  to_vec [] = []
  to_vec (h ∷ hs) = web.header_text h ∷ to_vec hs

  abbrev pub request_of : Parts U → Request
  request_of parts = record {
    method = parts.method;
    version = parts.version;
    uri = parts.uri;
    headers = parts.headers;
  }

  unfoldable pub info_of : Parts U → List (Text × Text) → ConnectInfo
  unfolding to_vec
  info_of parts params = record {
    path = web.path_of (or_uri parts.uri parts.original_uri);
    params = params;
    headers = to_vec parts.headers;
    remote_addr = parts.peer_addr;
  }

  unfoldable pub handshake : Parts U → Result R R
  handshake parts = elim (web.create_response (request_of parts)) [
    | ok s ↦ ok (web.with_empty_body s)
    | err e ↦ err (bad_request e)
  ]

  -- The end of the extraction: the upgrade is taken out of the extensions.
  unfoldable pub take_upgrade : R → ConnectInfo → Parts U → Result (VcmpUpgrade U R) R × Parts U
  take_upgrade response info parts = (
    elim parts.on_upgrade [
      | some u ↦ ok (record { on_upgrade = u; response = response; connect_info = info })
      | none ↦ err (bad_request (codes "WebSocket upgrade is not available on this connection"))
    ],
    record parts { on_upgrade = none },
  )

  unfoldable pub with_params :
      R → Result (List (Text × Text)) R → Parts U → Result (VcmpUpgrade U R) R × Parts U
  unfolding take_upgrade info_of
  with_params response (err r) parts = (err r, parts)
  with_params response (ok params) parts = take_upgrade response (info_of parts params) parts

  unfoldable pub with_handshake : Result R R → Parts U → Result (VcmpUpgrade U R) R × Parts U
  unfolding with_params
  with_handshake (err r) parts = (err r, parts)
  with_handshake (ok response) parts = with_params response (web.path_params parts) parts

  -- `from_request_parts`: its result, and what it leaves of the parts.
  unfoldable pub from_request_parts : Parts U → Result (VcmpUpgrade U R) R × Parts U
  unfolding with_handshake handshake
  from_request_parts parts = elim (is_http_11 parts.version) [
    | true ↦ with_handshake (handshake parts) parts
    | false ↦ (err (bad_request (codes "VCMP requires an HTTP/1.1 WebSocket upgrade")), parts)
  ]

  -- The request that the handshake is checked on is that of the parts.
  abbrev pub Asks : Parts U → Request → Type 0
  Asks parts request =
      (request.method ≡ parts.method)
      × (request.version ≡ parts.version)
      × (request.uri ≡ parts.uri)
      × (request.headers ≡ parts.headers)

  -- What a hook and a handler learn of the request: the path of the original address, where a
  -- nested router kept it, and of the address otherwise; the parameters; every header in order;
  -- the peer's address.
  abbrev pub Describes : Parts U → List (Text × Text) → ConnectInfo → Type 0
  Describes parts params info =
      ((original : Text) → parts.original_uri ≡ some original → info.path ≡ web.path_of original)
      × (parts.original_uri ≡ none → info.path ≡ web.path_of parts.uri)
      × (info.params ≡ params)
      × (info.headers ≡ map web.header_text parts.headers)
      × (info.remote_addr ≡ parts.peer_addr)

  -- What a request needs to be upgraded.
  abbrev pub Upgradable : Parts U → Request → U → S → List (Text × Text) → Type 0
  Upgradable parts request u s params =
      (parts.version ≡ http_11)
      × (web.create_response request ≡ ok s)
      × (web.path_params parts ≡ ok params)
      × (parts.on_upgrade ≡ some u)

  -- The response of the first check that fails.
  abbrev pub Rejected : Parts U → Request → R → Type 0
  Rejected parts request r =
      ((parts.version ≢ http_11)
        × (r ≡ web.into_response 400 (codes "VCMP requires an HTTP/1.1 WebSocket upgrade")))
      ⊎ ((parts.version ≡ http_11)
          × (((e : Text) × (web.create_response request ≡ err e) × (r ≡ web.into_response 400 e))
              ⊎ ((s : S) × (web.create_response request ≡ ok s)
                  × ((web.path_params parts ≡ err r)
                      ⊎ ((params : List (Text × Text)) × (web.path_params parts ≡ ok params)
                          × (parts.on_upgrade ≡ none)
                          × (r
                              ≡ web.into_response 400 (
                                  codes
                                    "WebSocket upgrade is not available on this connection")))))))

  to_vec-map : (hs : List (Text × Text)) → to_vec hs ≡ map web.header_text hs
  unfolding to_vec
  to_vec-map [] = refl
  to_vec-map (h ∷ hs) = ap (λ xs. web.header_text h ∷ xs) (to_vec-map hs)

  info_of-Describes :
      (parts : Parts U) (params : List (Text × Text))
      → Describes parts params (info_of parts params)
  unfolding info_of
  info_of-Describes parts params = (
    λ original e. ap (λ o. web.path_of (or_uri parts.uri o)) e,
    λ e. ap (λ o. web.path_of (or_uri parts.uri o)) e,
    refl,
    to_vec-map parts.headers,
    refl,
  )

is_http_11_iff : (v : Version) → is_http_11 v ≡ true → v ≡ http_11
is_http_11_iff http_11 h = refl
is_http_11_iff http_09 h = absurd (both-ways h refl)
is_http_11_iff http_10 h = absurd (both-ways h refl)
is_http_11_iff http_2 h = absurd (both-ways h refl)
is_http_11_iff http_3 h = absurd (both-ways h refl)

other_version : (v : Version) → is_http_11 v ≡ false → v ≢ http_11
other_version v e h = both-ways (ap is_http_11 h) e

module _ {U R S : Type 0} (web : Web U R S) (parts : Parts U) where
  abbrev Outcome : Type 0
  Outcome = Result (VcmpUpgrade U R) R × Parts U

  -- An upgrade that is taken out of the parts, or a rejection that leaves the upgrade there.
  abbrev pub ExtractsBy : Request → Outcome → Type 0
  ExtractsBy request o =
      ((u : U) × (s : S) × (params : List (Text × Text)) × (info : ConnectInfo) × Upgradable web
          parts request u s params
        × Describes web parts params info
        × (o.0
            ≡ ok (record { on_upgrade = u; response = web.with_empty_body s; connect_info = info }))
        × (o.1 ≡ record parts { on_upgrade = none }))
      ⊎ ((r : R) × Rejected web parts request r
          × (o.0 ≡ err r)
          × (o.1.on_upgrade ≡ parts.on_upgrade))

  abbrev pub Extracts : Outcome → Type 0
  Extracts o = (request : Request) × Asks web parts request × ExtractsBy request o

  takes :
      (s : S) (params : List (Text × Text))
      → parts.version ≡ http_11
      → web.create_response (request_of web parts) ≡ ok s
      → web.path_params parts ≡ ok params
      → ExtractsBy
          (request_of web parts)
          (take_upgrade web (web.with_empty_body s) (info_of web parts params) parts)
  unfolding take_upgrade
  takes s params v c p = go parts.on_upgrade refl
    where
      taken : Option U → Outcome
      taken o = (
        elim o [
          | some u ↦ ok (record {
            on_upgrade = u;
            response = web.with_empty_body s;
            connect_info = info_of web parts params;
          })
          | none ↦
              err (bad_request web (codes "WebSocket upgrade is not available on this connection"))
        ],
        record parts { on_upgrade = none },
      )

      go : (o : Option U) → parts.on_upgrade ≡ o → ExtractsBy (request_of web parts) (taken o)
      go (some u) e = inl (
        u,
        s,
        params,
        info_of web parts params,
        (v, c, p, e),
        info_of-Describes web parts params,
        refl,
        refl,
      )
      go none e = inr (
        bad_request web (codes "WebSocket upgrade is not available on this connection"),
        inr (v, inr (s, c, inr (params, p, e, refl))),
        refl,
        sym e,
      )

  finds_params :
      (s : S)
      → parts.version ≡ http_11
      → web.create_response (request_of web parts) ≡ ok s
      → ExtractsBy
          (request_of web parts)
          (with_params web (web.with_empty_body s) (web.path_params parts) parts)
  unfolding with_params
  finds_params s v c = go (web.path_params parts) refl
    where
      go :
          (q : Result (List (Text × Text)) R)
          → web.path_params parts ≡ q
          → ExtractsBy (request_of web parts) (with_params web (web.with_empty_body s) q parts)
      go (ok params) p = takes s params v c p
      go (err r) p = inr (r, inr (v, inr (s, c, inl p)), refl, refl)

  shakes_hands :
      parts.version ≡ http_11
      → ExtractsBy (request_of web parts) (with_handshake web (handshake web parts) parts)
  unfolding with_handshake handshake
  shakes_hands v = go (web.create_response (request_of web parts)) refl
    where
      shaken : Result S Text → Result R R
      shaken q = elim q [ ok s ↦ ok (web.with_empty_body s) | err e ↦ err (bad_request web e) ]

      go :
          (q : Result S Text)
          → web.create_response (request_of web parts) ≡ q
          → ExtractsBy (request_of web parts) (with_handshake web (shaken q) parts)
      go (ok s) c = finds_params s v c
      go (err e) c = inr (bad_request web e, inr (v, inl (e, c, refl)), refl, refl)

  -- An upgrade is extracted exactly from an HTTP/1.1 request that makes a valid handshake with its
  -- method, version, address and headers, has readable path parameters and a pending upgrade, which
  -- is then taken out of the request. What it tells of the connection is the path of the original
  -- address (of the address, if there is no original one), the parameters, each header in order and
  -- the peer's address. Any other request is rejected with the response of the first of these
  -- checks that fails, and keeps its upgrade.
  pub from_request_parts-Extracts : Extracts (from_request_parts web parts)
  unfolding from_request_parts
  from_request_parts-Extracts =
      (request_of web parts, (refl, refl, refl, refl), go (is_http_11 parts.version) refl)
    where
      chosen : Bool → Outcome
      chosen b = elim b [
        | true ↦ with_handshake web (handshake web parts) parts
        | false ↦
            (err (bad_request web (codes "VCMP requires an HTTP/1.1 WebSocket upgrade")), parts)
      ]

      go : (b : Bool) → is_http_11 parts.version ≡ b → ExtractsBy (request_of web parts) (chosen b)
      go true e = shakes_hands (is_http_11_iff parts.version e)
      go false e = inr (
        bad_request web (codes "VCMP requires an HTTP/1.1 WebSocket upgrade"),
        inl (other_version parts.version e, refl),
        refl,
        refl,
      )
