-- ===== src/Start.antt =====
-- The construction of a node from its configuration: `P2PConfig` and its constants in
-- crates/p2p/src/swarm/mod.rs. A keypair is its public key; durations and sizes are numbers.
pub mod Behaviours
pub mod Swarms
pub mod Nodes
pub mod Begun
pub mod Reached
pub mod Configured
use Prim.Native.String.{String}
use strata_p2p.Common.{ℕ, ◌*◌, Option, List}
use strata_p2p.Ids.{PeerId, PublicKey, Multiaddr}
use strata_p2p.Time.{Duration, from_secs}

-- `MAX_TRANSMIT_SIZE`, and the default sizes of the channels.
abbrev pub max_transmit_size : ℕ
max_transmit_size = 512 * 1024

abbrev pub default_gossip_event_buffer_size : ℕ
default_gossip_event_buffer_size = 256

abbrev pub default_command_event_buffer_size : ℕ
default_command_event_buffer_size = 256

abbrev pub default_command_buffer_size : ℕ
default_command_buffer_size = 64

abbrev pub default_req_resp_event_buffer_size : ℕ
default_req_resp_event_buffer_size = 64

abbrev pub default_req_resp_command_buffer_size : ℕ
default_req_resp_command_buffer_size = 64

abbrev pub default_gossip_command_buffer_size : ℕ
default_gossip_command_buffer_size = 64

-- The default of `gossipsub_topic`.
abbrev pub default_topic : String
default_topic = "strata"

pub data KadProtocol : Type 0 where
  v1 : KadProtocol

-- The types `A` and `B` are libp2p's score parameters and score thresholds, `L` its connection limits.
pub record P2PConfig (A : Type 0) (B : Type 0) (L : Type 0) : Type 0 where
  -- only with the feature `byos`
  pub app_public_key : PublicKey
  pub transport_keypair : PublicKey
  pub idle_connection_timeout : Duration
  pub max_retries : Option ℕ
  pub dial_timeout : Option Duration
  pub general_timeout : Option Duration
  pub connection_check_interval : Option Duration
  pub listening_addrs : List Multiaddr
  pub connect_to : List Multiaddr
  -- only without the feature `byos`
  pub transport_allowlist : Option (List PeerId)
  pub protocol_name : Option String
  pub channel_timeout : Option Duration
  pub gossipsub_topic : Option String
  pub gossipsub_max_transmit_size : Option ℕ
  pub gossipsub_score_params : Option A
  pub gossipsub_score_thresholds : Option B
  pub gossipsub_mesh_n : Option ℕ
  pub gossipsub_mesh_n_low : Option ℕ
  pub gossipsub_mesh_n_high : Option ℕ
  pub gossip_event_buffer_size : Option ℕ
  pub gossipsub_heartbeat_initial_delay : Option Duration
  pub gossipsub_publish_queue_duration : Option Duration
  pub gossipsub_forward_queue_duration : Option Duration
  pub commands_event_buffer_size : Option ℕ
  pub command_buffer_size : Option ℕ
  pub handle_default_timeout : Option Duration
  pub req_resp_event_buffer_size : Option ℕ
  pub req_resp_command_buffer_size : Option ℕ
  pub request_max_bytes : Option ℕ
  pub response_max_bytes : Option ℕ
  pub gossip_command_buffer_size : Option ℕ
  pub envelope_max_age : Option Duration
  pub max_clock_skew : Option Duration
  pub kad_protocol_name : Option KadProtocol
  pub kad_record_ttl : Option Duration
  pub kad_timer_putrecorderror : Option Duration
  pub conn_limits : L
