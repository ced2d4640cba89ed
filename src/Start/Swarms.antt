-- ===== src/Start/Swarms.antt =====
-- `finish_swarm!`, `with_inmemory_transport` and `with_default_transport` of
-- crates/p2p/src/swarm/mod.rs: the swarm of a configuration, or the error.
use strata_p2p.Common.{Bool, true, Option, none, some, List, if◌then◌else◌, unwrap_or}
use strata_p2p.Ids.{PeerId}
use strata_p2p.Time.{Duration, from_secs}
use strata_p2p.Message.Signed.{ApplicationSigner}
use strata_p2p.Envelope.{default_envelope_max_age}
use strata_p2p.P2p.{ProtocolError, transport_initialization, behaviour_initialization}
use strata_p2p.P2p.Connection.{protocol_name_default}
use strata_p2p.P2p.Kademlia.{default_kad_record_ttl}
use strata_p2p.P2p.RawCodec.{Maxima, set_request_max_bytes, set_response_max_bytes}
use strata_p2p.Setup.Behaviour.{SetupBehaviour}
use strata_p2p.Start.{P2PConfig, default_topic, max_transmit_size}
use strata_p2p.Start.Behaviours.{
  Libp2p, GossipsubOptions, Behaviour, Built, built, not_built, panicked, new_behaviour,
  new_setup_behaviour,
}

-- The swarm with its behaviour and its idle timeout.
pub data SwarmResult (Y : Type 0) : Type 0 where
  swarm_built : Y → (idle_connection_timeout : Duration) → SwarmResult Y
  swarm_failed : ProtocolError → SwarmResult Y
  swarm_panicked : SwarmResult Y

-- `if let Some(max) = ... { set_..._max_bytes(max) }`
unfoldable pub set_maxima : {A B L : Type 0} → P2PConfig A B L → Maxima → Maxima
unfolding set_request_max_bytes set_response_max_bytes
set_maxima config m =
    let m' = elim config.request_max_bytes as (λ _. Maxima) [
      | none ↦ m
      | some max ↦ set_request_max_bytes m max
    ] in
    elim config.response_max_bytes as (λ _. Maxima) [
      | none ↦ m'
      | some max ↦ set_response_max_bytes m' max
    ]

module _ {A B L : Type 0} where
  abbrev pub gossipsub_options : P2PConfig A B L → GossipsubOptions A B
  gossipsub_options config = record {
    score_params = config.gossipsub_score_params;
    score_thresholds = config.gossipsub_score_thresholds;
    max_transmit_size = unwrap_or config.gossipsub_max_transmit_size max_transmit_size;
    mesh_n = config.gossipsub_mesh_n;
    mesh_n_low = config.gossipsub_mesh_n_low;
    mesh_n_high = config.gossipsub_mesh_n_high;
    heartbeat_initial_delay = config.gossipsub_heartbeat_initial_delay;
    publish_queue_duration = config.gossipsub_publish_queue_duration;
    forward_queue_duration = config.gossipsub_forward_queue_duration;
  }

  -- The closure of `with_behaviour`, without and with the feature `byos`.
  unfoldable pub behaviour_of :
      Libp2p A B → P2PConfig A B L → Built (Behaviour A B L (Option (List PeerId)))
  unfolding new_behaviour
  behaviour_of libp2p config =
      new_behaviour libp2p (unwrap_or config.protocol_name protocol_name_default)
        config.transport_keypair config.transport_allowlist
        (unwrap_or config.gossipsub_topic default_topic) (gossipsub_options config)
        config.kad_protocol_name (unwrap_or config.kad_record_ttl default_kad_record_ttl)
        config.conn_limits

  unfoldable pub setup_behaviour_of :
      Libp2p A B → P2PConfig A B L → ApplicationSigner → Built (Behaviour A B L SetupBehaviour)
  unfolding new_setup_behaviour
  setup_behaviour_of libp2p config signer =
      new_setup_behaviour libp2p (unwrap_or config.protocol_name protocol_name_default)
        config.transport_keypair config.app_public_key signer
        (unwrap_or config.envelope_max_age default_envelope_max_age)
        (unwrap_or config.max_clock_skew (from_secs 0))
        (unwrap_or config.gossipsub_topic default_topic) (gossipsub_options config)
        config.kad_protocol_name (unwrap_or config.kad_record_ttl default_kad_record_ttl)
        config.conn_limits

  -- `.map_err(...)?` on the behaviour, and the end of the builder.
  abbrev with_behaviour : {Y : Type 0} → P2PConfig A B L → Built Y → SwarmResult Y
  with_behaviour config (built behaviour) = swarm_built behaviour config.idle_connection_timeout
  with_behaviour config not_built = swarm_failed behaviour_initialization
  with_behaviour config panicked = swarm_panicked

  -- `finish_swarm!` on a transport that is there, or not. The maxima are set before the behaviour is
  -- constructed.
  unfoldable pub finish_swarm :
      {Y : Type 0}
      → (has_transport : Bool) → P2PConfig A B L
      → Built Y
      → Maxima
      → SwarmResult Y × Maxima
  unfolding set_maxima
  finish_swarm has_transport config behaviour m =
      if has_transport
      then (with_behaviour config behaviour, set_maxima config m)
      else (swarm_failed transport_initialization, m)

  -- The noise configuration is unwrapped; a transport in memory has no error.
  unfoldable pub with_inmemory_transport :
      {Y : Type 0}
      → (has_noise : Bool) → P2PConfig A B L
      → Built Y
      → Maxima
      → SwarmResult Y × Maxima
  unfolding finish_swarm
  with_inmemory_transport has_noise config behaviour m =
      if has_noise then finish_swarm true config behaviour m else (swarm_panicked, m)

  -- With the feature `quic`: an error of TCP is unwrapped.
  unfoldable pub with_quic_transport :
      {Y : Type 0}
      → (has_tcp has_dns : Bool) → P2PConfig A B L
      → Built Y
      → Maxima
      → SwarmResult Y × Maxima
  unfolding set_maxima
  with_quic_transport has_tcp has_dns config behaviour m =
      if has_tcp
      then (if has_dns
          then (with_behaviour config behaviour, set_maxima config m)
          else (swarm_failed transport_initialization, m))
      else (swarm_panicked, m)

  -- Without the feature `quic`.
  unfoldable pub with_tcp_transport :
      {Y : Type 0}
      → (has_tcp has_dns : Bool) → P2PConfig A B L
      → Built Y
      → Maxima
      → SwarmResult Y × Maxima
  unfolding finish_swarm
  with_tcp_transport has_tcp has_dns config behaviour m =
      if has_tcp
      then finish_swarm has_dns config behaviour m
      else (swarm_failed transport_initialization, m)
