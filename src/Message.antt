-- ===== src/Message.antt =====
-- crates/p2p/src/swarm/message: the envelopes of the protocols, their constructors, and signing.
-- The serializer and the cryptography are libp2p's and flexbuffers': parameters.
pub mod Serde
pub mod Signed
pub mod Protocol
use strata_p2p.Common.{ℕ, ◌==◌, Bool, true, false, Option, none, some, if◌then◌else◌, List}
use strata_p2p.Ids.{PeerId, PublicKey, Multiaddr, Bytes}
use strata_p2p.Time.{SystemTime, as_secs}

pub data ProtocolId : Type 0 where
  setup gossip request_response : ProtocolId

-- `impl From<ProtocolId> for u8`
pub to_u8 : ProtocolId → ℕ
to_u8 setup = 1
to_u8 gossip = 2
to_u8 request_response = 3

-- `impl TryFrom<u8> for ProtocolId`, the one error as `none`
pub try_from : ℕ → Option ProtocolId
try_from value =
    if value == 1
    then some setup
    else if value == 2
    then some gossip
    else if value == 3
    then some request_response
    else none

-- The derived `PartialEq`.
unfoldable pub protocol_eq : ProtocolId → ProtocolId → Bool
unfolding to_u8
protocol_eq a b = to_u8 a == to_u8 b

unfoldable pub get_timestamp : SystemTime → ℕ
get_timestamp now = as_secs now

pub data Version : Type 0 where
  v1 v2 : Version

abbrev pub is_v2 : Version → Bool
is_v2 v1 = false
is_v2 v2 = true

pub record GossipMessage : Type 0 where
  pub version : Version
  pub protocol : ProtocolId
  pub message : Bytes
  pub public_key : PublicKey
  pub date : ℕ

pub record RequestMessage : Type 0 where
  pub version : Version
  pub protocol : ProtocolId
  pub message : Bytes
  pub public_key : PublicKey
  pub date : ℕ
  pub destination_peer_id : PeerId

pub record ResponseMessage : Type 0 where
  pub version : Version
  pub protocol : ProtocolId
  pub message : Bytes
  pub app_public_key : PublicKey
  pub date : ℕ

-- The setup and DHT versions have the one value V1.
pub record SetupMessage : Type 0 where
  pub app_public_key : PublicKey
  pub local_transport_id : PeerId
  pub remote_transport_id : PeerId
  pub date : ℕ

pub record RecordData : Type 0 where
  pub public_key : PublicKey
  pub multiaddresses : List Multiaddr
  pub date : ℕ

module _ (now : SystemTime) where
  unfoldable pub new_gossip : PublicKey → Bytes → GossipMessage
  unfolding get_timestamp
  new_gossip app_public_key message = record {
    version = v2;
    protocol = gossip;
    message = message;
    public_key = app_public_key;
    date = get_timestamp now;
  }

  unfoldable pub new_request : PublicKey → Bytes → PeerId → RequestMessage
  unfolding get_timestamp
  new_request app_public_key message destination_peer_id = record {
    version = v2;
    protocol = request_response;
    message = message;
    public_key = app_public_key;
    date = get_timestamp now;
    destination_peer_id = destination_peer_id;
  }

  unfoldable pub new_response : PublicKey → Bytes → ResponseMessage
  unfolding get_timestamp
  new_response app_public_key message = record {
    version = v2;
    protocol = request_response;
    message = message;
    app_public_key = app_public_key;
    date = get_timestamp now;
  }

  unfoldable pub new_setup : PublicKey → PeerId → PeerId → SetupMessage
  unfolding get_timestamp
  new_setup app_public_key local_transport_id remote_transport_id = record {
    app_public_key = app_public_key;
    local_transport_id = local_transport_id;
    remote_transport_id = remote_transport_id;
    date = get_timestamp now;
  }

  unfoldable pub new_record : PublicKey → List Multiaddr → RecordData
  unfolding get_timestamp
  new_record public_key multiaddresses = record {
    public_key = public_key;
    multiaddresses = multiaddresses;
    date = get_timestamp now;
  }
