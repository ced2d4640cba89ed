-- ===== src/Byos.antt =====
-- crates/p2p/src/swarm/mod.rs with the feature `byos`: the state `P2P` without scores and penalties,
-- with an allowlist, the setup behaviour and the dial manager.
pub mod DialManager
pub mod Dialing
pub mod Messages
pub mod Kademlia
pub mod Control
pub mod Run
use strata_p2p.Common.{Bool, Option, List, contains}
use strata_p2p.Ids.{PeerId, PublicKey, Multiaddr}
use strata_p2p.Map.{Map}
use strata_p2p.Time.{Duration}
use strata_p2p.Message.{RecordData}
use strata_p2p.Message.Signed.{SignedMessage, ApplicationSigner}
use strata_p2p.Envelope.{Limits}
use strata_p2p.P2p.{Swarm}
use strata_p2p.Setup.Behaviour.{SetupBehaviour}

pub record Config : Type 0 where
  pub limits : Limits
  pub app_public_key : PublicKey
  pub connect_to : List Multiaddr
  pub kad_record_ttl : Option Duration
  pub kad_timer_putrecorderror : Option Duration

-- `S` are gossipsub's own scores, which this feature does not read; `Q` are the queues of addresses.
pub record Node (S : Type 0) (Q : Type 0) : Type 0 where
  pub swarm : Swarm S
  pub config : Config
  pub signer : ApplicationSigner
  pub app_allowlist : List PublicKey
  pub setup : SetupBehaviour
  pub dial_manager : DialManager.DialManager Q
  pub kademlia_map_received_records : Map (List (SignedMessage RecordData))
  pub kademlia_is_routing_updated_first_time : Bool

pub data Reply : Type 0 where
  connected : Bool → Reply
  connected_peers : List PublicKey → Reply
  listening_addresses : List Multiaddr → Reply

-- `self.app_allowlist.contains(key)`
abbrev pub is_allowed : {S Q : Type 0} → Node S Q → PublicKey → Bool
is_allowed n key = contains n.app_allowlist key
