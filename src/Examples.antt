-- ===== src/Examples.antt =====
-- Concrete nodes, messages and peers, with a toy serializer and a toy signature scheme, and the
-- theorems of the development at these inputs.
mod Gossips
mod Requests
mod Penalties
mod Records
mod Handshakes
mod Dials
mod Runs
mod Basics
mod Loops
mod Starts
mod Paths
mod Travels
mod Asked
mod Begins
use strata_p2p.Common.{ℕ, ◌+◌, ◌==◌, Bool, true, false, Option, none, some, List, [], ◌∷◌, ltb}
use strata_p2p.Ids.{PublicKey, Bytes}
use strata_p2p.Time.{SystemTime, from_secs}
use strata_p2p.Float.Decimal.{Decimal, decimal}
use strata_p2p.Validator
use strata_p2p.Message.{
  GossipMessage, RequestMessage, ResponseMessage, RecordData, gossip, request_response, v2,
}
use strata_p2p.Message.Signed.{SignedMessage, Wire, ApplicationSigner}
use strata_p2p.Envelope.{Limits}
use strata_p2p.P2p.{Swarm, Deps}
use strata_p2p.P2p.Node.{Node}

-- A signature is the number of the key.
abbrev pub toy_verify : PublicKey → Bytes → Bytes → Bool
toy_verify key bytes [] = false
toy_verify key bytes (s ∷ _) = s == key

abbrev pub signer_of : PublicKey → ApplicationSigner
signer_of key = λ bytes. some (key ∷ [])

abbrev pub head_or_zero : Bytes → ℕ
head_or_zero [] = 0
head_or_zero (b ∷ _) = b

-- Envelopes of the second version, as lists of their fields.
abbrev pub gossip_of : Bytes → Option (SignedMessage GossipMessage)
gossip_of (key ∷ date ∷ s ∷ message) = some (record {
  message = record {
    version = v2;
    protocol = gossip;
    message = message;
    public_key = key;
    date = date;
  };
  signature = s ∷ [];
})
gossip_of _ = none

abbrev pub request_of : Bytes → Option (SignedMessage RequestMessage)
request_of (key ∷ date ∷ destination ∷ s ∷ message) = some (record {
  message = record {
    version = v2;
    protocol = request_response;
    message = message;
    public_key = key;
    date = date;
    destination_peer_id = destination;
  };
  signature = s ∷ [];
})
request_of _ = none

abbrev pub response_of : Bytes → Option (SignedMessage ResponseMessage)
response_of (key ∷ date ∷ s ∷ message) = some (record {
  message = record {
    version = v2;
    protocol = request_response;
    message = message;
    app_public_key = key;
    date = date;
  };
  signature = s ∷ [];
})
response_of _ = none

abbrev pub record_of : Bytes → Option (SignedMessage RecordData)
record_of (key ∷ date ∷ s ∷ addresses) = some (record {
  message = record { public_key = key; multiaddresses = addresses; date = date };
  signature = s ∷ [];
})
record_of _ = none

abbrev pub toy_deps : Deps
toy_deps = record {
  verify = toy_verify;
  to_peer_id = λ key. key + 100;
  encode_protobuf = λ key. key ∷ [];
  try_decode_protobuf = λ bytes. some (head_or_zero bytes);
  peer_id_to_bytes = λ peer. peer ∷ [];
  peer_id_from_bytes = λ bytes. some (head_or_zero bytes);
  is_quic = λ address. ltb address 10;
  gossip_to_vec = λ m. some (m.public_key ∷ m.date ∷ m.message);
  request_to_vec = λ m. some (m.public_key ∷ m.date ∷ m.destination_peer_id ∷ m.message);
  response_to_vec = λ m. some (m.app_public_key ∷ m.date ∷ m.message);
  record_to_vec = λ m. some (m.public_key ∷ m.date ∷ m.multiaddresses);
  gossip_wire = record {
    to_vec = λ e.
        some (e.message.public_key ∷ e.message.date ∷ head_or_zero e.signature ∷ e.message.message);
    from_slice = gossip_of;
  };
  request_wire = record {
    to_vec = λ e. some (
        e.message.public_key
        ∷ e.message.date
        ∷ e.message.destination_peer_id
        ∷ head_or_zero e.signature
        ∷ e.message.message);
    from_slice = request_of;
  };
  response_wire = record {
    to_vec = λ e.
        some (
          e.message.app_public_key ∷ e.message.date ∷ head_or_zero e.signature ∷ e.message.message);
    from_slice = response_of;
  };
  record_wire = record {
    to_vec = λ e. some (
        e.message.public_key
        ∷ e.message.date
        ∷ head_or_zero e.signature
        ∷ e.message.multiaddresses);
    from_slice = record_of;
  };
}

abbrev pub limits : Limits
limits = record { envelope_max_age = some (from_secs 60); max_clock_skew = some (from_secs 5) }

abbrev pub now : SystemTime
now = from_secs 1000

abbrev pub swarm : Swarm Decimal
swarm = record {
  local_peer_id = 105;
  connected_peers = 107 ∷ 108 ∷ [];
  peer_score = λ peer. none;
  listeners = [];
  external_addresses = 20 ∷ [];
}

-- A node with the key 5 that has seen no message yet.
abbrev pub node : Node Decimal
node = record {
  swarm = swarm;
  config = record {
    limits = limits;
    transport_public_key = 5;
    kad_record_ttl = none;
    kad_timer_putrecorderror = none;
  };
  signer = signer_of 5;
  score_manager = record {
    gossipsub_app_score = [];
    req_resp_app_score = [];
    last_scoring_decay_time = [];
  };
  peer_penalty_storage = Validator.new;
  validator = Validator.default_validator decimal;
  kademlia_map_received_records = [];
  kademlia_is_routing_updated_first_time = true;
}
