-- ===== src/Examples/Dials.antt =====
-- The theorems on a node with the feature `byos` that allows the key 7, which the handshake has mapped
-- to the peer 107.
use strata_p2p.Common.{
  ℕ, ◌≡◌, ◌↔◌, refl, Bool, true, none, List, [], ◌∷◌, ◌++◌, map, arith, contains,
}
use strata_p2p.Ids.{Multiaddr}
use strata_p2p.Map
use strata_p2p.Time.{from_secs}
use strata_p2p.Float.Decimal.{Decimal}
use strata_p2p.Envelope.{is_stale}
use strata_p2p.P2p.{dial_address, reply}
use strata_p2p.P2p.Dial.{sort_addresses}
use strata_p2p.P2p.Gossip.Delivery
use strata_p2p.P2p.ReqResp.{sent}
use strata_p2p.P2p.Response.ResponseDelivery
use strata_p2p.Setup.{app_key_received}
use strata_p2p.Setup.Behaviour
use strata_p2p.Setup.Behaviour.{
  get_app_public_key_by_transport_id, get_transport_id_by_application_key,
}
use strata_p2p.Setup.Behaviour.Mapping.{IsBimap, received-IsBimap, IsFresh}
use strata_p2p.Byos.{Node, connected, connected_peers}
use strata_p2p.Byos.DialManager
use strata_p2p.Byos.DialManager.Fifo.{list_queue, list_queue-IsFifo}
use strata_p2p.Byos.Dialing.{connect_to_peer}
use strata_p2p.Byos.Dialing.Attempts.{refused, fails, tried, try_all, connect-dials}
use strata_p2p.Byos.Messages.{ReqRespClock, handle_gossip_msg, handle_response}
use strata_p2p.Byos.Messages.Allowed.{
  IsAdmitted, handle_response-IsAdmitted, handle_gossip_msg-is_allowed,
}
use strata_p2p.Byos.Control.{handle_command, query_connected_peers, query_is_connected}
use strata_p2p.Byos.Control.Targets.{queries_agree}
use strata_p2p.Examples.{toy_deps, limits, now, swarm, signer_of}
use strata_p2p.Examples.Requests.{tell, tell_signed, tell-IsAuthentic}
use strata_p2p.Examples.Gossips.{hello, hello_signed, hello-IsAuthentic}

abbrev started : Behaviour.SetupBehaviour
started = Behaviour.new 5 105 (signer_of 5) (from_secs 60) (from_secs 5)

abbrev acquainted : Behaviour.SetupBehaviour
acquainted = Behaviour.on_connection_handler_event started 107 1 (app_key_received 7)

abbrev node : Node Decimal (List Multiaddr)
node = record {
  swarm = swarm;
  config = record {
    limits = limits;
    app_public_key = 5;
    connect_to = [];
    kad_record_ttl = none;
    kad_timer_putrecorderror = none;
  };
  signer = signer_of 5;
  app_allowlist = 7 ∷ [];
  setup = acquainted;
  dial_manager = DialManager.new;
  kademlia_map_received_records = [];
  kademlia_is_routing_updated_first_time = true;
}

-- Three addresses, of which the second one is over QUIC, and the second dial is refused: the last
-- address is never dialed.
connect-dials_example :
    (let step = connect_to_peer list_queue toy_deps node 8 (20 ∷ 3 ∷ 21 ∷ []) 1 in
      step.effects ++ (try_all list_queue step.state 1 (fails 2 ∷ refused ∷ fails 4 ∷ [])).1)
    ≡ map dial_address (
        tried
          (sort_addresses toy_deps.is_quic (20 ∷ 3 ∷ 21 ∷ []))
          (fails 2 ∷ refused ∷ fails 4 ∷ []))
unfolding DialManager.new DialManager.has_app_public_key Map.get
connect-dials_example =
    (connect-dials list_queue list_queue-IsFifo 8 toy_deps node (20 ∷ 3 ∷ 21 ∷ []) 1
      (fails 2 ∷ refused ∷ fails 4 ∷ []) refl (omega arith) refl).1

abbrev dialing : Node Decimal (List Multiaddr)
dialing = record node {
  dial_manager = record { dial_queues = (8, []) ∷ []; conn_to_dial = (1, 8) ∷ [] };
}

abbrev clock : ReqRespClock
clock = record { envelope = now; age = now; answer = now }

seven-IsAdmitted : IsAdmitted toy_deps node 107 7
unfolding get_app_public_key_by_transport_id Behaviour.on_connection_handler_event Behaviour.new
    Map.insert Map.get
seven-IsAdmitted = record { allowed = refl; mapped = refl }

handle_response-IsAdmitted_example :
    ResponseDelivery.responses (handle_response toy_deps node 107 tell clock sent).effects
    ≡ (43 ∷ []) ∷ []
unfolding is_stale
handle_response-IsAdmitted_example =
    (handle_response-IsAdmitted toy_deps node 107 tell clock (43 ∷ [])).1
      (tell_signed, tell-IsAuthentic, seven-IsAdmitted, refl, refl)

handle_gossip_msg-is_allowed_example :
    Delivery.received (handle_gossip_msg toy_deps node 109 1 hello now true).effects
    ≡ (42 ∷ []) ∷ []
handle_gossip_msg-is_allowed_example =
    (handle_gossip_msg-is_allowed toy_deps node 109 1 hello now (42 ∷ [])).1
      (hello_signed, hello-IsAuthentic, refl, refl)

started-IsBimap : IsBimap started
unfolding IsBimap Behaviour.new get_app_public_key_by_transport_id
    get_transport_id_by_application_key Map.get
started-IsBimap t k = (λ e. cc e, λ e. cc e)

started-IsFresh : IsFresh started 107 7
unfolding Behaviour.new get_app_public_key_by_transport_id get_transport_id_by_application_key
    Map.get
started-IsFresh = record { only_key = λ j e. cc e; only_peer = λ s e. cc e }

queries_agree_example :
    (keys : List ℕ) × (is_there : Bool) × ((handle_command list_queue toy_deps node
        query_connected_peers 1 1).effects
      ≡ reply (connected_peers keys) ∷ [])
    × ((handle_command list_queue toy_deps node (query_is_connected 7) 1 1).effects
        ≡ reply (connected is_there) ∷ [])
    × ((contains keys 7 ≡ true) ↔ (is_there ≡ true))
queries_agree_example =
    queries_agree list_queue toy_deps node 1 1 7
      (received-IsBimap started 107 1 7 started-IsBimap started-IsFresh)
