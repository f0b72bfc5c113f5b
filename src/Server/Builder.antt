-- ===== src/Server/Builder.antt =====
-- src/server.rs: `ServerBuilder`.
use vcmp_rs.Base.{ℕ, ◌*◌, refl, List, [], ◌∷◌, Option}
use vcmp_rs.Resources.{ResourceBudget}
use vcmp_rs.Session.{SessionLimits}
use vcmp_rs.Ws.Transport.{
  TransportOptions, default_transport, set_fragment_size, set_max_message_size, set_session_limits,
  set_resource_budget, Agrees,
}
use vcmp_rs.Client.Backoff.{second}

pub record ServerBuilder : Type 0 where
  pub heartbeat_interval : ℕ
  pub transport : TransportOptions

-- `VcmpServer::builder`.
abbrev pub server_builder : ServerBuilder
server_builder = record { heartbeat_interval = 20 * second; transport = default_transport }

-- A call of a builder's method.
pub data ServerSetting : Type 0 where
  beats_every : ℕ → ServerSetting
  splits_at : Option ℕ → ServerSetting
  bounds_message : ℕ → ServerSetting
  limits_session : SessionLimits → ServerSetting
  shares_budget : ResourceBudget → ServerSetting

unfoldable pub configure : ServerSetting → ServerBuilder → ServerBuilder
unfolding set_fragment_size set_max_message_size set_session_limits set_resource_budget
configure (beats_every interval) b = record b { heartbeat_interval = interval }
configure (splits_at size) b = record b { transport = set_fragment_size size b.transport }
configure (bounds_message size) b = record b { transport = set_max_message_size size b.transport }
configure (limits_session limits) b = record b { transport = set_session_limits limits b.transport }
configure (shares_budget budget) b = record b { transport = set_resource_budget budget b.transport }

pub configure_all : List ServerSetting → ServerBuilder → ServerBuilder
configure_all [] b = b
configure_all (x ∷ xs) b = configure_all xs (configure x b)

configure-Agrees :
    (x : ServerSetting) (b : ServerBuilder) → Agrees b.transport → Agrees (configure x b).transport
unfolding configure
configure-Agrees (bounds_message size) b h = refl
configure-Agrees (limits_session limits) b h = refl
configure-Agrees _ b h = h

keeps-Agrees :
    (xs : List ServerSetting) (b : ServerBuilder)
    → Agrees b.transport
    → Agrees (configure_all xs b).transport
unfolding configure_all
keeps-Agrees [] b h = h
keeps-Agrees (x ∷ xs) b h = keeps-Agrees xs (configure x b) (configure-Agrees x b h)

-- However a server is configured, the two limits on a message of its transport are the same.
pub configure_all-Agrees :
    (xs : List ServerSetting) → Agrees (configure_all xs server_builder).transport
configure_all-Agrees xs = keeps-Agrees xs server_builder refl
