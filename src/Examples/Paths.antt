-- ===== src/Examples/Paths.antt =====
-- The theorems on the raw codec, and a request on its way from the node 105 with the key 5 to the node
-- 107 with the key 7.
use strata_p2p.Common.{◌≡◌, refl, true, Option, none, some, List, [], ◌∷◌, arith}
use strata_p2p.Ids.{Bytes, PeerId, PublicKey, Multiaddr}
use strata_p2p.Map
use strata_p2p.Time.{from_secs}
use strata_p2p.Float.Decimal.{Decimal}
use strata_p2p.Message.{
  GossipMessage, RequestMessage, ResponseMessage, RecordData, gossip, ProtocolId, Version, v2,
  request_response, new_request, get_timestamp,
}
use strata_p2p.Message.Signed
use strata_p2p.Message.Signed.{SignedMessage}
use strata_p2p.Envelope.{is_future, is_stale}
use strata_p2p.P2p.{Deps}
use strata_p2p.P2p.RawCodec.{Maxima, io_ok, all_written, read_request, write_request}
use strata_p2p.P2p.RawCodec.Sizes.{read-write_iff}
use strata_p2p.P2p.ReqResp.{sent, dropped, send_request_to}
use strata_p2p.P2p.Request.RequestDelivery
use strata_p2p.Setup.{app_key_received}
use strata_p2p.Setup.Behaviour
use strata_p2p.Setup.Behaviour.{
  SetupBehaviour, get_app_public_key_by_transport_id, get_transport_id_by_application_key,
}
use strata_p2p.Byos.{Node}
use strata_p2p.Byos.Messages.{ReqRespClock, handle_request, handle_request_response_command}
use strata_p2p.Byos.Messages.Allowed.{IsAdmitted}
use strata_p2p.Byos.Messages.Arrives.{request_arrives}
use strata_p2p.Byos.Messages.Reliable.{IsReliable}
use strata_p2p.Examples.{
  toy_deps, gossip_of, request_of, response_of, record_of, limits, now, swarm, signer_of,
}

abbrev pub maxima : Maxima
maxima = record { request_size_maximum = 5; response_size_maximum = 2 }

read-write_iff_example :
    read_request maxima (write_request (1 ∷ 2 ∷ []) all_written).1 ≡ io_ok (1 ∷ 2 ∷ [])
read-write_iff_example = (read-write_iff maxima (1 ∷ 2 ∷ [])).0.1 (omega arith)

-- Only the messages that nodes create, with signatures of one byte, are written.
abbrev strict_parts : Version → ProtocolId → Bytes → RequestMessage → Option Bytes
strict_parts v2 request_response (s ∷ []) m =
    some (m.public_key ∷ m.date ∷ m.destination_peer_id ∷ s ∷ m.message)
strict_parts v p s m = none

abbrev strict_response : Version → ProtocolId → Bytes → ResponseMessage → Option Bytes
strict_response v2 request_response (s ∷ []) m = some (m.app_public_key ∷ m.date ∷ s ∷ m.message)
strict_response v p s m = none

abbrev strict_gossip : Version → ProtocolId → Bytes → GossipMessage → Option Bytes
strict_gossip v2 gossip (s ∷ []) m = some (m.public_key ∷ m.date ∷ s ∷ m.message)
strict_gossip v p s m = none

abbrev strict_record : Bytes → RecordData → Option Bytes
strict_record (s ∷ []) m = some (m.public_key ∷ m.date ∷ s ∷ m.multiaddresses)
strict_record s m = none

abbrev pub deps : Deps
deps = record toy_deps {
  request_wire = record {
    to_vec = λ e. strict_parts e.message.version e.message.protocol e.signature e.message;
    from_slice = request_of;
  };
  response_wire = record {
    to_vec = λ e. strict_response e.message.version e.message.protocol e.signature e.message;
    from_slice = response_of;
  };
  gossip_wire = record {
    to_vec = λ e. strict_gossip e.message.version e.message.protocol e.signature e.message;
    from_slice = gossip_of;
  };
  record_wire = record {
    to_vec = λ e. strict_record e.signature e.message;
    from_slice = record_of;
  };
}

deps-IsReliable : IsReliable deps deps.request_wire (signer_of 5) 5
deps-IsReliable = record {
  signs = λ bytes signature e. ground arith;
  reads_back = λ signed bytes e. ground arith;
}

abbrev knows : SetupBehaviour → PeerId → PublicKey → SetupBehaviour
knows b peer key = Behaviour.on_connection_handler_event b peer 1 (app_key_received key)

abbrev node : PublicKey → PeerId → SetupBehaviour → List PublicKey → Node Decimal (List Multiaddr)
node key id behaviour allowed = record {
  swarm = record swarm { local_peer_id = id };
  config = record {
    limits = limits;
    app_public_key = key;
    connect_to = [];
    kad_record_ttl = none;
    kad_timer_putrecorderror = none;
  };
  signer = signer_of key;
  app_allowlist = allowed;
  setup = behaviour;
  dial_manager = record { dial_queues = []; conn_to_dial = [] };
  kademlia_map_received_records = [];
  kademlia_is_routing_updated_first_time = true;
}

abbrev pub sender : Node Decimal (List Multiaddr)
sender =
    node 5 105 (knows (Behaviour.new 5 105 (signer_of 5) (from_secs 60) (from_secs 5)) 107 7)
      (7 ∷ [])

abbrev pub receiver : Node Decimal (List Multiaddr)
receiver =
    node 7 107 (knows (Behaviour.new 7 107 (signer_of 7) (from_secs 60) (from_secs 5)) 105 5)
      (5 ∷ [])

abbrev pub clock : ReqRespClock
clock = record { envelope = now; age = now; answer = now }

five-IsAdmitted : IsAdmitted deps receiver 105 5
unfolding get_app_public_key_by_transport_id Behaviour.on_connection_handler_event Behaviour.new
    Map.insert Map.get
five-IsAdmitted = record { allowed = refl; mapped = refl }

request_arrives_example :
    (arrived : Bytes) × (read_request maxima
        (write_request (5 ∷ 1000 ∷ 107 ∷ 5 ∷ 42 ∷ []) all_written).1
      ≡ io_ok arrived)
    × (RequestDelivery.requested
          (handle_request deps receiver 105 arrived clock sent dropped).effects
        ≡ (42 ∷ []) ∷ [])
unfolding handle_request_response_command send_request_to Signed.new new_request get_timestamp
    get_transport_id_by_application_key Behaviour.on_connection_handler_event Behaviour.new
    Map.insert Map.get is_future is_stale
request_arrives_example =
    request_arrives deps sender receiver maxima 7 105 now clock (42 ∷ [])
      (5 ∷ 1000 ∷ 107 ∷ 5 ∷ 42 ∷ []) dropped deps-IsReliable refl (omega arith) five-IsAdmitted refl
      refl
