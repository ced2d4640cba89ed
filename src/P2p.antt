-- ===== src/P2p.antt =====
-- crates/p2p/src/swarm/mod.rs: the state of a node, what its handlers ask of libp2p, and the
-- effects that they have on the swarm and on the channels. This part is the same with and without
-- the feature `byos`.
pub mod Node
pub mod Penalty
pub mod Gossip
pub mod RawCodec
pub mod ReqResp
pub mod Request
pub mod Response
pub mod Records
pub mod Kademlia
pub mod Connection
pub mod Publish
pub mod Dial
pub mod Establish
pub mod Command
pub mod Run
use strata_p2p.Common.{ℕ, Bool, Option, List, [], ◌∷◌, ◌++◌, contains}
use strata_p2p.Ids.{PeerId, PublicKey, QueryId, MessageId, Multiaddr, Bytes}
use strata_p2p.Time.{SystemTime, Duration}
use strata_p2p.Message.{GossipMessage, RequestMessage, ResponseMessage, RecordData}
use strata_p2p.Message.Signed.{Wire, SignedMessage, Verifier, ApplicationSigner}
use strata_p2p.Envelope.{Limits}

-- What a handler reads from the libp2p swarm.
pub record Swarm (S : Type 0) : Type 0 where
  pub local_peer_id : PeerId
  pub connected_peers : List PeerId
  pub peer_score : PeerId → Option S
  pub listeners : List Multiaddr
  pub external_addresses : List Multiaddr

abbrev pub is_connected : {S : Type 0} → Swarm S → PeerId → Bool
is_connected swarm peer_id = contains swarm.connected_peers peer_id

pub data MessageAcceptance : Type 0 where
  accept reject : MessageAcceptance

-- The errors of crates/p2p/src/swarm/errors.rs, without the boxed causes.
pub data ProtocolError : Type 0 where
  listen gossip_events_channel_closed req_resp_event_channel_closed : ProtocolError
  transport_initialization behaviour_initialization response_error : ProtocolError

-- `panicked` stands for an `unwrap` of an error.
pub data P2PResult : Type 0 where
  ok : P2PResult
  err : ProtocolError → P2PResult
  panicked : P2PResult

-- Calls on the swarm and sends on the channels, in order. `R` are the replies to commands.
pub data Effect (R : Type 0) : Type 0 where
  disconnect_peer_id : PeerId → Effect R
  report_message_validation_result : MessageId → PeerId → MessageAcceptance → Effect R
  gossip_received_message : Bytes → Effect R
  publish : Bytes → Effect R
  send_request : PeerId → Bytes → Effect R
  received_request : Bytes → Effect R
  received_response : Bytes → Effect R
  send_response : Bytes → Effect R
  dial_peer : PeerId → List Multiaddr → Effect R
  dial_address : Multiaddr → Effect R
  get_record : Bytes → Effect R
  put_record : Bytes → Bytes → Effect R
  store_put : Bytes → Bytes → Effect R
  result_find_multiaddress : Option (List Multiaddr) → Effect R
  republish_now : Effect R
  republish_after : Duration → Effect R
  reply : R → Effect R

-- What a handler leaves: the state, the effects and the result.
pub record Step (P : Type 0) (R : Type 0) : Type 0 where
  pub state : P
  pub effects : List (Effect R)
  pub result : P2PResult

module _ {P : Type 0} {R : Type 0} where
  abbrev pub return_ok : P → List (Effect R) → Step P R
  return_ok p es = record { state = p; effects = es; result = ok }

  abbrev pub return_err : P → List (Effect R) → ProtocolError → Step P R
  return_err p es e = record { state = p; effects = es; result = err e }

-- What libp2p and flexbuffers compute for the handlers.
pub record Deps : Type 0 where
  pub verify : Verifier
  pub to_peer_id : PublicKey → PeerId
  pub encode_protobuf : PublicKey → Bytes
  pub try_decode_protobuf : Bytes → Option PublicKey
  pub peer_id_to_bytes : PeerId → Bytes
  pub peer_id_from_bytes : Bytes → Option PeerId
  pub is_quic : Multiaddr → Bool
  pub gossip_to_vec : GossipMessage → Option Bytes
  pub request_to_vec : RequestMessage → Option Bytes
  pub response_to_vec : ResponseMessage → Option Bytes
  pub record_to_vec : RecordData → Option Bytes
  pub gossip_wire : Wire (SignedMessage GossipMessage)
  pub request_wire : Wire (SignedMessage RequestMessage)
  pub response_wire : Wire (SignedMessage ResponseMessage)
  pub record_wire : Wire (SignedMessage RecordData)
