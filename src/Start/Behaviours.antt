-- ===== src/Start/Behaviours.antt =====
-- crates/p2p/src/swarm/behavior.rs: what libp2p's behaviours are configured with.
use Prim.Native.String.{String}
use strata_p2p.Common.{
  ℕ, ◌+◌, Bool, true, Option, none, some, List, [], ◌∷◌, ◌++◌, if◌then◌else◌, unwrap_or,
}
use strata_p2p.Ids.{PeerId, PublicKey}
use strata_p2p.Time.{Duration, from_secs}
use strata_p2p.Message.Signed.{ApplicationSigner}
use strata_p2p.Setup.Behaviour as Setups
use strata_p2p.Setup.Behaviour.{SetupBehaviour}
use strata_p2p.Start.{KadProtocol, v1}

pub data ValidationMode : Type 0 where
  permissive : ValidationMode

-- The configuration of gossipsub. `none` leaves libp2p's default.
pub record GossipsubSettings (A : Type 0) (B : Type 0) : Type 0 where
  pub author : PeerId
  pub subscription_filter : List String
  pub validation_mode : ValidationMode
  pub validate_messages : Bool
  pub max_transmit_size : ℕ
  pub idontwant_on_publish : Bool
  pub mesh_n : Option ℕ
  pub mesh_n_low : Option ℕ
  pub mesh_n_high : Option ℕ
  pub heartbeat_initial_delay : Option Duration
  pub publish_queue_duration : Option Duration
  pub forward_queue_duration : Option Duration
  pub peer_score_params : A
  pub peer_score_thresholds : B

-- What libp2p decides: the default parameters with the default parameters of one topic, the default
-- thresholds, whether `ConfigBuilder::build` accepts a configuration, and whether
-- `new_with_subscription_filter` accepts it.
pub record Libp2p (A : Type 0) (B : Type 0) : Type 0 where
  pub to_peer_id : PublicKey → PeerId
  pub score_params_of_topic : String → A
  pub default_thresholds : B
  pub config_is_valid : GossipsubSettings A B → Bool
  pub gossipsub_is_valid : GossipsubSettings A B → Bool

-- The result of a construction; `expect` and `unwrap` panic.
pub data Built (X : Type 0) : Type 0 where
  built : X → Built X
  not_built panicked : Built X

-- The options of `create_gossipsub`.
pub record GossipsubOptions (A : Type 0) (B : Type 0) : Type 0 where
  pub score_params : Option A
  pub score_thresholds : Option B
  pub max_transmit_size : ℕ
  pub mesh_n : Option ℕ
  pub mesh_n_low : Option ℕ
  pub mesh_n_high : Option ℕ
  pub heartbeat_initial_delay : Option Duration
  pub publish_queue_duration : Option Duration
  pub forward_queue_duration : Option Duration

pub record KademliaSettings : Type 0 where
  pub local_peer_id : PeerId
  pub protocol : KadProtocol
  -- `StoreInserts::FilterBoth`
  pub filters_both : Bool
  pub record_ttl : Option Duration
  -- `BucketInserts::OnConnected`
  pub inserts_on_connected : Bool
  -- `Mode::Server`
  pub is_server : Bool

-- `behaviour.allow_peer(*peer)` for each peer.
allow_all : (allowed peers : List PeerId) → List PeerId
allow_all allowed [] = allowed
allow_all allowed (peer ∷ rest) = allow_all (allowed ++ (peer ∷ [])) rest

-- The allowlist of transport peers, where there is one.
unfoldable pub create_transport_allowlist : Option (List PeerId) → Option (List PeerId)
unfolding allow_all
create_transport_allowlist none = none
create_transport_allowlist (some peers) = some (allow_all [] peers)

module _ {A B : Type 0} (libp2p : Libp2p A B) where
  abbrev pub gossipsub_settings : PublicKey → String → GossipsubOptions A B → GossipsubSettings A B
  gossipsub_settings keypair topic o = record {
    author = libp2p.to_peer_id keypair;
    subscription_filter = topic ∷ [];
    validation_mode = permissive;
    validate_messages = true;
    max_transmit_size = o.max_transmit_size;
    idontwant_on_publish = true;
    mesh_n = o.mesh_n;
    mesh_n_low = o.mesh_n_low;
    mesh_n_high = o.mesh_n_high;
    heartbeat_initial_delay = o.heartbeat_initial_delay;
    publish_queue_duration = o.publish_queue_duration;
    forward_queue_duration = o.forward_queue_duration;
    peer_score_params = unwrap_or o.score_params (libp2p.score_params_of_topic topic);
    peer_score_thresholds = unwrap_or o.score_thresholds libp2p.default_thresholds;
  }

  -- A configuration that `build` refuses panics.
  unfoldable pub create_gossipsub :
      PublicKey → String → GossipsubOptions A B → Built (GossipsubSettings A B)
  create_gossipsub keypair topic o =
      let settings = gossipsub_settings keypair topic o in
      if libp2p.config_is_valid settings
      then (if libp2p.gossipsub_is_valid settings then built settings else not_built)
      else panicked

  unfoldable pub create_kademlia_behaviour :
      PublicKey → Option KadProtocol → Duration → KademliaSettings
  create_kademlia_behaviour keypair kad_protocol_name kad_record_ttl = record {
    local_peer_id = libp2p.to_peer_id keypair;
    protocol = unwrap_or kad_protocol_name v1;
    filters_both = true;
    record_ttl = some (kad_record_ttl + from_secs 300);
    inserts_on_connected = true;
    is_server = true;
  }

-- `Behaviour`. `X` is what the kinds of nodes do not share: the allowlist of transport peers, or the
-- setup behaviour. The limits on memory are left out.
pub record Behaviour (A : Type 0) (B : Type 0) (L : Type 0) (X : Type 0) : Type 0 where
  pub own : X
  pub identify_protocol : String
  pub identify_key : PublicKey
  pub request_response_protocol : String
  pub gossipsub : GossipsubSettings A B
  pub kademlia : KademliaSettings
  pub conn_limits : L

module _ {A B L : Type 0} (libp2p : Libp2p A B) where
  abbrev pub assemble :
      {X : Type 0}
      → X
      → String
      → PublicKey
      → KademliaSettings
      → L
      → Built (GossipsubSettings A B)
      → Built (Behaviour A B L X)
  assemble own protocol_name keypair kademlia conn_limits (built gossipsub) = built (record {
    own = own;
    identify_protocol = protocol_name;
    identify_key = keypair;
    request_response_protocol = protocol_name;
    gossipsub = gossipsub;
    kademlia = kademlia;
    conn_limits = conn_limits;
  })
  assemble own protocol_name keypair kademlia conn_limits not_built = not_built
  assemble own protocol_name keypair kademlia conn_limits panicked = panicked

  -- `Behaviour::new` without the feature `byos`.
  unfoldable pub new_behaviour :
      String
      → PublicKey
      → Option (List PeerId)
      → (topic : String) → GossipsubOptions A B
      → Option KadProtocol
      → (kad_record_ttl : Duration) → L
      → Built (Behaviour A B L (Option (List PeerId)))
  unfolding create_transport_allowlist create_kademlia_behaviour create_gossipsub
  new_behaviour protocol_name keypair transport_allowlist topic o kad_protocol_name kad_record_ttl
        conn_limits =
      assemble (create_transport_allowlist transport_allowlist) protocol_name keypair
        (create_kademlia_behaviour libp2p keypair kad_protocol_name kad_record_ttl) conn_limits
        (create_gossipsub libp2p keypair topic o)

  -- `Behaviour::new` with the feature `byos`.
  unfoldable pub new_setup_behaviour :
      String
      → PublicKey
      → (app_public_key : PublicKey) → ApplicationSigner
      → (envelope_max_age max_clock_skew : Duration) (topic : String) → GossipsubOptions A B
      → Option KadProtocol
      → (kad_record_ttl : Duration) → L
      → Built (Behaviour A B L SetupBehaviour)
  unfolding create_kademlia_behaviour create_gossipsub Setups.new
  new_setup_behaviour protocol_name keypair app_public_key signer envelope_max_age max_clock_skew
        topic o kad_protocol_name kad_record_ttl conn_limits =
      assemble
        (Setups.new app_public_key (libp2p.to_peer_id keypair) signer envelope_max_age
          max_clock_skew)
        protocol_name keypair
        (create_kademlia_behaviour libp2p keypair kad_protocol_name kad_record_ttl) conn_limits
        (create_gossipsub libp2p keypair topic o)
