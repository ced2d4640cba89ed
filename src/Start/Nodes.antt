-- ===== src/Start/Nodes.antt =====
-- `P2P::from_config` of crates/p2p/src/swarm/mod.rs, without and with the feature `byos`.
use strata_p2p.Common.{
  ℕ, Bool, true, ◌&&◌, Option, none, some, List, [], ◌∷◌, if◌then◌else◌, unwrap_or,
}
use strata_p2p.Ids.{PublicKey, Multiaddr}
use strata_p2p.Float.{Float}
use strata_p2p.Score
use strata_p2p.Validator
use strata_p2p.Validator.{Validator}
use strata_p2p.Message.Signed.{ApplicationSigner, transport_sign}
use strata_p2p.P2p.{Swarm, ProtocolError, listen}
use strata_p2p.P2p.Node
use strata_p2p.Setup.Behaviour.{SetupBehaviour}
use strata_p2p.Byos
use strata_p2p.Byos.DialManager
use strata_p2p.Handle.{TimeoutMs, set_handle_default_timeout}
use strata_p2p.Start.{
  P2PConfig, default_gossip_event_buffer_size, default_command_event_buffer_size,
  default_command_buffer_size, default_req_resp_event_buffer_size,
  default_req_resp_command_buffer_size, default_gossip_command_buffer_size,
}

-- The sizes of the channels.
pub record Buffers : Type 0 where
  pub commands_events : ℕ
  pub commands : ℕ
  pub req_resp_commands : ℕ
  pub req_resp_events : ℕ
  pub gossip_events : ℕ
  pub gossip_commands : ℕ

-- `channel_size` takes precedence over the size in the configuration.
unfoldable pub buffers_of : {A B L : Type 0} → P2PConfig A B L → (channel_size : Option ℕ) → Buffers
buffers_of cfg channel_size = record {
  commands_events = unwrap_or cfg.commands_event_buffer_size default_command_event_buffer_size;
  commands = unwrap_or cfg.command_buffer_size default_command_buffer_size;
  req_resp_commands =
      unwrap_or cfg.req_resp_command_buffer_size default_req_resp_command_buffer_size;
  req_resp_events = unwrap_or cfg.req_resp_event_buffer_size default_req_resp_event_buffer_size;
  gossip_events =
      unwrap_or channel_size
        (unwrap_or cfg.gossip_event_buffer_size default_gossip_event_buffer_size);
  gossip_commands = unwrap_or cfg.gossip_command_buffer_size default_gossip_command_buffer_size;
}

-- The sizes that tokio's channels accept; they panic on others.
pub record Channels : Type 0 where
  pub takes_broadcast : ℕ → Bool
  pub takes_mpsc : ℕ → Bool

abbrev pub are_taken : Channels → Buffers → Bool
are_taken c b =
    c.takes_broadcast b.commands_events
    && (c.takes_mpsc b.commands
        && (c.takes_mpsc b.req_resp_commands
            && (c.takes_mpsc b.req_resp_events
                && (c.takes_broadcast b.gossip_events && c.takes_mpsc b.gossip_commands))))

pub data Started (N : Type 0) : Type 0 where
  started : N → Buffers → Started N
  failed : ProtocolError → Started N
  panicked : Started N

-- `swarm.listen_on(addr)` for each address, up to the first error.
unfoldable pub listens_on_all : (listens_on : Multiaddr → Bool) → List Multiaddr → Bool
listens_on_all listens_on [] = true
listens_on_all listens_on (addr ∷ addrs) = listens_on addr && listens_on_all listens_on addrs

module _ {A B L : Type 0} where
  -- The default timeout of the handles, which is set before anything can fail.
  unfoldable pub timeout_after : P2PConfig A B L → TimeoutMs → TimeoutMs
  unfolding set_handle_default_timeout
  timeout_after cfg ms = elim cfg.handle_default_timeout [
    | none ↦ ms
    | some dur ↦ set_handle_default_timeout dur
  ]

  -- The part that is the same for both kinds of nodes.
  unfoldable pub start :
      {N : Type 0}
      → Channels
      → (listens_on : Multiaddr → Bool) → P2PConfig A B L
      → (channel_size : Option ℕ) → N
      → Started N
  unfolding listens_on_all buffers_of
  start channels listens_on cfg channel_size node =
      if listens_on_all listens_on cfg.listening_addrs
      then (if are_taken channels (buffers_of cfg channel_size)
          then started node (buffers_of cfg channel_size)
          else panicked)
      else failed listen

  -- Without the feature `byos`; `keypair_sign` is the `sign` of the transport keypair.
  unfoldable pub from_config :
      {S : Type 0}
      → Float S
      → Channels
      → (listens_on : Multiaddr → Bool) → P2PConfig A B L
      → Swarm S
      → (channel_size : Option ℕ) (keypair_sign : ApplicationSigner) → Option (Validator S)
      → TimeoutMs
      → Started (Node.Node S) × TimeoutMs
  unfolding start timeout_after transport_sign
  from_config {S} f channels listens_on cfg swarm channel_size keypair_sign validator ms = (
    start channels listens_on cfg channel_size (record {
      swarm = swarm;
      config = record {
        limits = record {
          envelope_max_age = cfg.envelope_max_age;
          max_clock_skew = cfg.max_clock_skew;
        };
        transport_public_key = cfg.transport_keypair;
        kad_record_ttl = cfg.kad_record_ttl;
        kad_timer_putrecorderror = cfg.kad_timer_putrecorderror;
      };
      signer = transport_sign keypair_sign;
      score_manager = Score.new S;
      peer_penalty_storage = Validator.new;
      validator = unwrap_or validator (Validator.default_validator f);
      kademlia_map_received_records = [];
      kademlia_is_routing_updated_first_time = true;
    }),
    timeout_after cfg ms,
  )

  -- With the feature `byos`; `setup` is the setup behaviour of the swarm.
  unfoldable pub byos_from_config :
      {S Q : Type 0}
      → Channels
      → (listens_on : Multiaddr → Bool) → P2PConfig A B L
      → Swarm S
      → SetupBehaviour
      → (app_allowlist : List PublicKey) (channel_size : Option ℕ) → ApplicationSigner
      → TimeoutMs
      → Started (Byos.Node S Q) × TimeoutMs
  unfolding DialManager.new start timeout_after
  byos_from_config channels listens_on cfg swarm setup app_allowlist channel_size signer ms = (
    start channels listens_on cfg channel_size (record {
      swarm = swarm;
      config = record {
        limits = record {
          envelope_max_age = cfg.envelope_max_age;
          max_clock_skew = cfg.max_clock_skew;
        };
        app_public_key = cfg.app_public_key;
        connect_to = cfg.connect_to;
        kad_record_ttl = cfg.kad_record_ttl;
        kad_timer_putrecorderror = cfg.kad_timer_putrecorderror;
      };
      signer = signer;
      app_allowlist = app_allowlist;
      setup = setup;
      dial_manager = DialManager.new;
      kademlia_map_received_records = [];
      kademlia_is_routing_updated_first_time = true;
    }),
    timeout_after cfg ms,
  )
