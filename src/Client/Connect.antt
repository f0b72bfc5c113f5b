-- ===== src/Client/Connect.antt =====
-- src/client.rs: `connect`. The request and its headers, the checks of header names and values and
-- the WebSocket handshake are those of the http and tungstenite crates, the parameter `Http`; a
-- factory of headers is the parameter `generate`.
use vcmp_rs.Base.{
  ℕ, ◌≡◌, refl, ap, List, [], ◌∷◌, ◌++◌, Option, none, some, false, Result, ok, err, Text, text_eq,
  ◌>>=◌, arith, pick, ◌⊎◌, inl, inr,
}
use vcmp_rs.Error.{VcmpError}
use vcmp_rs.Resources.{
  ResourceBudget, connection, Permit, reserve, release, charge, overloaded, admitted, discharge,
}
use vcmp_rs.Session.{Session}
use vcmp_rs.Ws.Transport.{WebSocketSizes, websocket_config, spawn_session, set_resource_budget}
use vcmp_rs.Client.Builder.{ClientBuilder}

pub record Http (Q W E : Type 0) : Type 0 where
  -- `into_client_request`.
  pub into_request : Text → Result Q E
  -- `HeaderName::from_bytes` and `HeaderValue::from_str`.
  pub header_name : Text → Option Text
  pub header_value : Text → Option Text
  -- `HeaderMap::append`, `HeaderMap::insert` and `HeaderMap::get_all`.
  pub append : Text → Text → Q → Q
  pub insert : Text → Text → Q → Q
  pub get_all : Text → Q → List Text
  -- `connect_async_with_config`.
  pub handshake : Q → WebSocketSizes → Result W E

-- What `HeaderMap` documents of `insert` and `append`.
pub record HttpLaws {Q W E : Type 0} (http : Http Q W E) : Type 0 where
  pub insert_same :
      (name value : Text) (q : Q) → http.get_all name (http.insert name value q) ≡ value ∷ []
  pub insert_other :
      (name other value : Text) (q : Q)
      → text_eq name other ≡ false
      → http.get_all other (http.insert name value q) ≡ http.get_all other q
  pub append_same :
      (name value : Text) (q : Q)
      → http.get_all name (http.append name value q) ≡ http.get_all name q ++ (value ∷ [])
  pub append_other :
      (name other value : Text) (q : Q)
      → text_eq name other ≡ false
      → http.get_all other (http.append name value q) ≡ http.get_all other q

pub data ConnectError (E : Type 0) : Type 0 where
  overloaded_transport credentials : ConnectError E
  invalid_header : Text → ConnectError E
  websocket : E → ConnectError E

-- `?` on an error of the WebSocket library.
unfoldable pub from_websocket : {A E : Type 0} → Result A E → Result A (ConnectError E)
from_websocket (ok a) = ok a
from_websocket (err e) = err (websocket e)

module _ {Q W E : Type 0} (http : Http Q W E) where
  unfoldable pub checked : Text → Option Text → Result Text (ConnectError E)
  checked name none = err (invalid_header name)
  checked name (some text) = ok text

  -- The body of both loops over headers, with the call that puts a header.
  unfoldable pub put_header : (Text → Text → Q → Q) → Text × Text → Q → Result Q (ConnectError E)
  unfolding checked
  put_header put (n, v) q = checked n (http.header_name n) >>= λ name.
      checked name (http.header_value v) >>= λ value. ok (put name value q)

  unfoldable pub put_headers :
      (Text → Text → Q → Q) → List (Text × Text) → Q → Result Q (ConnectError E)
  unfolding put_header
  put_headers put [] q = ok q
  put_headers put (h ∷ hs) q = put_header put h q >>= λ q'. put_headers put hs q'

module _ {E G V : Type 0} (generate : G → Result (List (Text × Text)) (VcmpError V)) where
  unfoldable pub generated : Option G → Result (List (Text × Text)) (ConnectError E)
  generated none = ok []
  generated (some factory) = elim (generate factory) [ ok hs ↦ ok hs | err e ↦ err credentials ]

module _ {Q W E F G V : Type 0} (http : Http Q W E)
    (generate : G → Result (List (Text × Text)) (VcmpError V)) where
  -- The request, its own headers, those of the builder and those of the factory.
  unfoldable pub prepare : ClientBuilder F G → Result Q (ConnectError E)
  unfolding from_websocket put_headers generated
  prepare config = from_websocket (http.into_request config.url) >>= λ q.
      put_headers http http.append config.headers q >>= λ q'.
      generated generate config.headers_per_attempt >>= λ hs. put_headers http http.insert hs q'

  unfoldable pub negotiate : ClientBuilder F G → Result W (ConnectError E)
  unfolding prepare from_websocket websocket_config
  negotiate config =
      prepare config >>= λ q. from_websocket (http.handshake q (websocket_config config.transport))

module _ {W E F G V H : Type 0} where
  -- A session over the socket, which keeps the permit; an error drops it.
  unfoldable pub conclude :
      ℕ
      → List (Text × H)
      → ClientBuilder F G
      → Permit
      → ResourceBudget
      → Result W (ConnectError E)
      → Result (W × Session V H) (ConnectError E) × ResourceBudget
  unfolding spawn_session set_resource_budget
  conclude id handlers config p b (ok ws) =
      (ok (ws, spawn_session id handlers (set_resource_budget b config.transport)), b)
  conclude id handlers config p b (err e) = (err e, release p b)

module _ {Q W E F G V H : Type 0} (http : Http Q W E)
    (generate : G → Result (List (Text × Text)) (VcmpError V)) where
  unfoldable pub reserved :
      ℕ
      → List (Text × H)
      → ClientBuilder F G
      → Result Permit (VcmpError V) × ResourceBudget
      → Result (W × Session V H) (ConnectError E) × ResourceBudget
  unfolding conclude negotiate
  reserved id handlers config (err e, b) = (err overloaded_transport, b)
  reserved id handlers config (ok p, b) =
      conclude id handlers config p b (negotiate http generate config)

  -- `connect`, with the budget as the transport's is when it begins.
  unfoldable pub connect :
      ℕ
      → List (Text × H)
      → ClientBuilder F G
      → ResourceBudget
      → Result (W × Session V H) (ConnectError E) × ResourceBudget
  unfolding reserved
  connect id handlers config b = reserved id handlers config (reserve b connection 0)

-- A connection's permit that is dropped again leaves no trace.
release-charge :
    (b : ResourceBudget)
    → release
        (record { resource = connection; bytes = 0 })
        (record b { usage = charge b.usage connection 0 })
      ≡ b
unfolding release charge discharge
release-charge b = ap with_connections (omega arith)
  where
    with_connections : ℕ → ResourceBudget
    with_connections n = record { limits = b.limits; usage = record u { connections = n } }
      where
        open b use {usage as u}

-- The budget that an outcome leaves: a connection of a socket is charged, and one that failed is
-- not, but for the count of the overloads.
abbrev pub Settled :
    {S E : Type 0} → ResourceBudget → Result S (ConnectError E) × ResourceBudget → Type 0
Settled b (ok x, after) = after ≡ record b { usage = charge b.usage connection 0 }
Settled b (err e, after) =
    (after ≡ b)
    ⊎ ((admitted b.limits b.usage connection 0 ≡ false)
        × (e ≡ overloaded_transport)
        × (after ≡ record b { usage = overloaded b.usage }))

module _ {Q W E F G V H : Type 0} (http : Http Q W E)
    (generate : G → Result (List (Text × Text)) (VcmpError V)) where
  -- An attempt that fails leaves the budget as it was, or counts an overload where the budget had
  -- no connection left; one that succeeds holds one connection.
  pub connect-Settled :
      (id : ℕ) (handlers : List (Text × H)) (config : ClientBuilder F G) (b : ResourceBudget)
      → Settled b (connect http generate id handlers config b)
  unfolding connect reserve reserved conclude
  connect-Settled id handlers config b =
      pick {A = Result Permit (VcmpError V) × ResourceBudget}
        (λ r. Settled b (reserved http generate id handlers config r))
        (admitted b.limits b.usage connection 0) (λ _. concludes (negotiate http generate config))
        (λ q. inr (q, refl, refl))
    where
      p : Permit
      p = record { resource = connection; bytes = 0 }

      held : ResourceBudget
      held = record b { usage = charge b.usage connection 0 }

      concludes :
          (r : Result W (ConnectError E)) → Settled b (conclude {V = V} id handlers config p held r)
      concludes (ok ws) = refl
      concludes (err e) = inl (release-charge b)
