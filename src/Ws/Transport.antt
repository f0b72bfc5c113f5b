-- ===== src/Ws/Transport.antt =====
-- src/ws.rs: the transport settings that the client and the server share, and the session that is
-- spawned over a socket with them.
use vcmp_rs.Base.{ℕ, ◌≡◌, ◌*◌, ◌^◌, Option, none, some, List, Text}
use vcmp_rs.Resources.{ResourceBudget, default_limits, new_budget}
use vcmp_rs.Session.{Session, SessionLimits, default_session_limits, spawn_admitted}

pub record TransportOptions : Type 0 where
  pub fragment_size : Option ℕ
  pub max_message_size : Option ℕ
  pub limits : SessionLimits
  pub budget : ResourceBudget

-- `TransportOptions::default`.
abbrev pub default_transport : TransportOptions
default_transport = record {
  fragment_size = none;
  max_message_size = some (2 * 2 ^ 20);
  limits = default_session_limits;
  budget = new_budget default_limits;
}

-- The sizes that the WebSocket library is configured with; the rest is its default.
pub record WebSocketSizes : Type 0 where
  pub max_message_size : Option ℕ
  pub max_frame_size : Option ℕ

-- `TransportOptions::websocket_config`.
unfoldable pub websocket_config : TransportOptions → WebSocketSizes
websocket_config t = record {
  max_message_size = t.max_message_size;
  max_frame_size = t.max_message_size;
}

-- `spawn_session`: the limits and the budget of the options are those of the transport.
unfoldable pub spawn_session : {V H : Type 0} → ℕ → List (Text × H) → TransportOptions → Session V H
unfolding spawn_admitted
spawn_session id handlers t = spawn_admitted id handlers t.limits t.budget

-- The two limits on a message, the socket's and the session's, are the same number.
abbrev pub Agrees : TransportOptions → Type 0
Agrees t = t.max_message_size ≡ some t.limits.max_message_bytes

-- The sizes hold a message, and each frame of it, to the bound that the session holds it to.
abbrev pub BoundsAlike : {V H : Type 0} → WebSocketSizes → Session V H → Type 0
BoundsAlike sizes s =
    (sizes.max_message_size ≡ some s.limits.max_message_bytes)
    × (sizes.max_frame_size ≡ some s.limits.max_message_bytes)

-- What the socket and the session of agreeing options are given.
pub Agrees-BoundsAlike :
    {H : Type 0} (V : Type 0) (id : ℕ) (handlers : List (Text × H)) (t : TransportOptions)
    → Agrees t
    → BoundsAlike (websocket_config t) (spawn_session {V = V} id handlers t)
unfolding websocket_config spawn_session spawn_admitted
Agrees-BoundsAlike V id handlers t h = (h, h)

-- The setters that the builders of the client and of the server share.
unfoldable pub set_fragment_size : Option ℕ → TransportOptions → TransportOptions
set_fragment_size size t = record t { fragment_size = size }

unfoldable pub set_max_message_size : ℕ → TransportOptions → TransportOptions
set_max_message_size size t = record t {
  max_message_size = some size;
  limits = record l { max_message_bytes = size };
}
  where
    open t use {limits as l}

unfoldable pub set_session_limits : SessionLimits → TransportOptions → TransportOptions
set_session_limits limits t = record t {
  max_message_size = some limits.max_message_bytes;
  limits = limits;
}

unfoldable pub set_resource_budget : ResourceBudget → TransportOptions → TransportOptions
set_resource_budget budget t = record t { budget = budget }
