-- ===== src/Client/Builder.antt =====
-- src/client.rs: `ClientBuilder`. `F` are the floating-point numbers of the backoff, and `G` the
-- factories of headers.
use vcmp_rs.Base.{ℕ, ◌*◌, refl, List, [], ◌∷◌, ◌++◌, Option, none, some, Text}
use vcmp_rs.Resources.{ResourceBudget}
use vcmp_rs.Session.{SessionLimits}
use vcmp_rs.Ws.Transport.{
  TransportOptions, default_transport, set_fragment_size, set_max_message_size, set_session_limits,
  set_resource_budget, Agrees, BoundsAlike, Agrees-BoundsAlike, websocket_config, spawn_session,
}
use vcmp_rs.Client.Backoff.{Floats, Backoff, second, default_backoff}

pub record ClientBuilder (F G : Type 0) : Type 0 where
  pub url : Text
  pub headers : List (Text × Text)
  pub headers_per_attempt : Option G
  pub backoff : Backoff F
  pub initial_heartbeat_timeout : ℕ
  pub connect_timeout : ℕ
  pub transport : TransportOptions

-- `VcmpClient::builder`, for the arithmetic of the backoff.
unfoldable pub builder : {F G : Type 0} → Floats F → Text → ClientBuilder F G
builder floats url = record {
  url = url;
  headers = [];
  headers_per_attempt = none;
  backoff = default_backoff floats;
  initial_heartbeat_timeout = 60 * second;
  connect_timeout = 30 * second;
  transport = default_transport;
}

module _ {F G : Type 0} where
  unfoldable header : Text → Text → ClientBuilder F G → ClientBuilder F G
  header name value b = record b { headers = b.headers ++ ((name, value) ∷ []) }

  unfoldable headers_per_attempt : G → ClientBuilder F G → ClientBuilder F G
  headers_per_attempt factory b = record b { headers_per_attempt = some factory }

  unfoldable reconnect : Backoff F → ClientBuilder F G → ClientBuilder F G
  reconnect backoff b = record b { backoff = backoff }

  unfoldable initial_heartbeat_timeout : ℕ → ClientBuilder F G → ClientBuilder F G
  initial_heartbeat_timeout timeout b = record b { initial_heartbeat_timeout = timeout }

  unfoldable connect_timeout : ℕ → ClientBuilder F G → ClientBuilder F G
  connect_timeout timeout b = record b { connect_timeout = timeout }

  unfoldable fragment_size : Option ℕ → ClientBuilder F G → ClientBuilder F G
  unfolding set_fragment_size
  fragment_size size b = record b { transport = set_fragment_size size b.transport }

  unfoldable max_message_size : ℕ → ClientBuilder F G → ClientBuilder F G
  unfolding set_max_message_size
  max_message_size size b = record b { transport = set_max_message_size size b.transport }

  unfoldable session_limits : SessionLimits → ClientBuilder F G → ClientBuilder F G
  unfolding set_session_limits
  session_limits limits b = record b { transport = set_session_limits limits b.transport }

  unfoldable resource_budget : ResourceBudget → ClientBuilder F G → ClientBuilder F G
  unfolding set_resource_budget
  resource_budget budget b = record b { transport = set_resource_budget budget b.transport }

-- A call of a builder's method.
pub data Setting (F G : Type 0) : Type 0 where
  adds_header : Text → Text → Setting F G
  generates_headers : G → Setting F G
  reconnects : Backoff F → Setting F G
  expects_heartbeat connects_within : ℕ → Setting F G
  fragments_at : Option ℕ → Setting F G
  bounds_message : ℕ → Setting F G
  limits_session : SessionLimits → Setting F G
  shares_budget : ResourceBudget → Setting F G

module _ {F G : Type 0} where
  unfoldable pub set : Setting F G → ClientBuilder F G → ClientBuilder F G
  unfolding header headers_per_attempt reconnect initial_heartbeat_timeout connect_timeout
      fragment_size max_message_size session_limits resource_budget
  set (adds_header name value) b = header name value b
  set (generates_headers factory) b = headers_per_attempt factory b
  set (reconnects backoff) b = reconnect backoff b
  set (expects_heartbeat timeout) b = initial_heartbeat_timeout timeout b
  set (connects_within timeout) b = connect_timeout timeout b
  set (fragments_at size) b = fragment_size size b
  set (bounds_message size) b = max_message_size size b
  set (limits_session limits) b = session_limits limits b
  set (shares_budget budget) b = resource_budget budget b

  unfoldable pub set_all : List (Setting F G) → ClientBuilder F G → ClientBuilder F G
  unfolding set
  set_all [] b = b
  set_all (x ∷ xs) b = set_all xs (set x b)

  set-Agrees :
      (x : Setting F G) (b : ClientBuilder F G) → Agrees b.transport → Agrees (set x b).transport
  unfolding set
  set-Agrees (bounds_message size) b h = refl
  set-Agrees (limits_session limits) b h = refl
  set-Agrees _ b h = h

  set_all-Agrees :
      (xs : List (Setting F G)) (b : ClientBuilder F G)
      → Agrees b.transport
      → Agrees (set_all xs b).transport
  unfolding set_all
  set_all-Agrees [] b h = h
  set_all-Agrees (x ∷ xs) b h = set_all-Agrees xs (set x b) (set-Agrees x b h)

  -- However a client is configured, the size that the WebSocket library is told to hold each message
  -- and each frame to is the one that the session which is spawned over the socket holds its
  -- messages to.
  pub builder-BoundsAlike :
      {H : Type 0} (V : Type 0) (floats : Floats F) (url : Text) (xs : List (Setting F G)) (id : ℕ)
      (handlers : List (Text × H))
      → BoundsAlike (websocket_config (set_all xs (builder {F = F} {G = G} floats url)).transport) (
          spawn_session {V = V} id handlers
            (set_all xs (builder {F = F} {G = G} floats url)).transport)
  unfolding builder
  builder-BoundsAlike V floats url xs id handlers =
      Agrees-BoundsAlike V id handlers _ (set_all-Agrees xs (builder floats url) refl)
