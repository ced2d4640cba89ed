-- ===== src/Examples/Begins.antt =====
-- The theorems on nodes that have just been constructed, with the key 5 and the peer id 105.
use strata_p2p.Common.{
  ◌⊎◌, ℕ, Bool, ◌+◌, ◌≤◌, ◌≡◌, refl, true, none, some, List, [], ◌∷◌, arith, ltb,
}
use strata_p2p.Ids.{Multiaddr}
use strata_p2p.Time.{Duration, from_secs}
use strata_p2p.Float.Decimal.{Decimal, decimal}
use strata_p2p.Score
use strata_p2p.Validator
use strata_p2p.Message.Signed.{transport_sign}
use strata_p2p.Envelope.{is_stale}
use strata_p2p.P2p.{republish_after, reply, ok}
use strata_p2p.P2p.Command.{Reply}
use strata_p2p.P2p.Kademlia.{handle_kademlia_event, put_record_ok, put_record_failed}
use strata_p2p.P2p.Node as Plain
use strata_p2p.P2p.ReqResp.{sent, dropped}
use strata_p2p.P2p.Request.RequestDelivery
use strata_p2p.Setup.{app_key_received}
use strata_p2p.Setup.Behaviour as Setups
use strata_p2p.Setup.Behaviour.{SetupBehaviour, get_app_public_key_by_transport_id}
use strata_p2p.Byos
use strata_p2p.Byos.DialManager
use strata_p2p.Byos.DialManager.Fifo.{list_queue}
use strata_p2p.Byos.Messages.{ReqRespClock, handle_request}
use strata_p2p.Byos.Run.{Event, setup_handler, setup_poll, disconnected, poll_setup, listen}
use strata_p2p.Byos.Run.Keys.{note, announced}
use strata_p2p.Byos.Run.Owners.{IsOwned}
use strata_p2p.Byos.Control.{handle_setup_event}
use strata_p2p.Byos.Dialing.{handle_connection_event}
use strata_p2p.Start.{P2PConfig}
use strata_p2p.Start.Behaviours.{
  Libp2p, Behaviour, built, new_behaviour, new_setup_behaviour, create_gossipsub,
  create_kademlia_behaviour, create_transport_allowlist, gossipsub_settings,
}
use strata_p2p.Start.Swarms.{behaviour_of, setup_behaviour_of, gossipsub_options}
use strata_p2p.Start.Nodes.{
  Channels, started, start, listens_on_all, buffers_of, from_config, byos_from_config,
}
use strata_p2p.Start.Begun.{heard_from_start, begun-listen-IsOwned, ttl_outlives_republish}
use strata_p2p.Start.Reached.{disconnects_iff}
use strata_p2p.Byos.{connected}
use strata_p2p.Byos.Control.{handle_command, query_is_connected}
use strata_p2p.Examples.{toy_deps, limits, now, swarm, signer_of}
use strata_p2p.Examples.Requests.{ask, ask_signed, ask-IsAuthentic}

abbrev libp2p : Libp2p ℕ ℕ
libp2p = record {
  to_peer_id = λ key. key + 100;
  score_params_of_topic = λ topic. 1;
  default_thresholds = 2;
  config_is_valid = λ settings. true;
  gossipsub_is_valid = λ settings. true;
}

abbrev channels : Channels
channels = record { takes_broadcast = λ n. ltb 0 n; takes_mpsc = λ n. ltb 0 n }

abbrev config : P2PConfig ℕ ℕ ℕ
config = record {
  app_public_key = 5;
  transport_keypair = 5;
  idle_connection_timeout = from_secs 30;
  max_retries = none;
  dial_timeout = none;
  general_timeout = none;
  connection_check_interval = none;
  listening_addrs = 20 ∷ [];
  connect_to = [];
  transport_allowlist = none;
  protocol_name = none;
  channel_timeout = none;
  gossipsub_topic = none;
  gossipsub_max_transmit_size = none;
  gossipsub_score_params = none;
  gossipsub_score_thresholds = none;
  gossipsub_mesh_n = none;
  gossipsub_mesh_n_low = none;
  gossipsub_mesh_n_high = none;
  gossip_event_buffer_size = none;
  gossipsub_heartbeat_initial_delay = none;
  gossipsub_publish_queue_duration = none;
  gossipsub_forward_queue_duration = none;
  commands_event_buffer_size = none;
  command_buffer_size = none;
  handle_default_timeout = none;
  req_resp_event_buffer_size = none;
  req_resp_command_buffer_size = none;
  request_max_bytes = some 3;
  response_max_bytes = none;
  gossip_command_buffer_size = none;
  envelope_max_age = some (from_secs 60);
  max_clock_skew = some (from_secs 5);
  kad_protocol_name = none;
  kad_record_ttl = none;
  kad_timer_putrecorderror = none;
  conn_limits = 8;
}

abbrev started_setup : SetupBehaviour
started_setup = Setups.new 5 105 (signer_of 5) (from_secs 60) (from_secs 5)

abbrev behaviour_with : {X : Type 0} → X → Behaviour ℕ ℕ ℕ X
behaviour_with own = record {
  own = own;
  identify_protocol = "/strata";
  identify_key = 5;
  request_response_protocol = "/strata";
  gossipsub = gossipsub_settings libp2p 5 "strata" (gossipsub_options config);
  kademlia = create_kademlia_behaviour libp2p 5 none (from_secs 3600);
  conn_limits = 8;
}

abbrev listens_on : Multiaddr → Bool
listens_on addr = true

abbrev node : Byos.Node Decimal (List Multiaddr)
node = record {
  swarm = swarm;
  config = record {
    limits = limits;
    app_public_key = 5;
    connect_to = [];
    kad_record_ttl = none;
    kad_timer_putrecorderror = none;
  };
  signer = signer_of 5;
  app_allowlist = 7 ∷ [];
  setup = started_setup;
  dial_manager = record { dial_queues = []; conn_to_dial = [] };
  kademlia_map_received_records = [];
  kademlia_is_routing_updated_first_time = true;
}

made : setup_behaviour_of libp2p config (signer_of 5) ≡ built (behaviour_with started_setup)
unfolding setup_behaviour_of new_setup_behaviour create_gossipsub Setups.new
    create_kademlia_behaviour
made = refl

begun :
    (byos_from_config channels listens_on config swarm started_setup
      (7 ∷ [])
      none
      (signer_of 5)
      1000).0
    ≡ started node (buffers_of config none)
unfolding byos_from_config start listens_on_all buffers_of DialManager.new
begun = refl

abbrev events : List (Event Decimal)
events =
    setup_handler 108 1 (app_key_received 9)
    ∷ setup_handler 107 2 (app_key_received 7)
    ∷ setup_poll
    ∷ disconnected 108 0
    ∷ []

events_fine : (listen list_queue toy_deps none node events).result ≡ ok
unfolding listen poll_setup Setups.new Setups.poll Setups.on_connection_handler_event
    handle_setup_event handle_connection_event
events_fine = refl

abbrev clock : ReqRespClock
clock = record { envelope = now; age = now; answer = now }

heard_from_start_example :
    RequestDelivery.requested
      (handle_request toy_deps
        (listen list_queue toy_deps none node events).state
        107
        ask
        clock
        sent
        dropped).effects
    ≡ (42 ∷ []) ∷ []
unfolding listen poll_setup Setups.new Setups.poll Setups.on_connection_handler_event
    handle_setup_event handle_connection_event announced note is_stale
heard_from_start_example =
    (heard_from_start libp2p config channels listens_on swarm none 1000 (7 ∷ []) (signer_of 5)
        (behaviour_with started_setup) node (buffers_of config none) made begun list_queue toy_deps
        events 107 ask clock dropped (42 ∷ []) events_fine).1
      (ask_signed, ask-IsAuthentic, refl, refl, refl, refl)

-- A world in which the peer `t` owns the key `t + 1`.
abbrev owned_events : List (Event Decimal)
owned_events =
    setup_handler 108 1 (app_key_received 109)
    ∷ setup_handler 107 2 (app_key_received 108)
    ∷ disconnected 108 0
    ∷ []

begun-listen-IsOwned_example :
    IsOwned (λ t. t + 1) (listen list_queue toy_deps none node owned_events).state.setup
begun-listen-IsOwned_example =
    begun-listen-IsOwned libp2p config channels listens_on swarm none 1000 (7 ∷ []) (signer_of 5)
      (behaviour_with started_setup) node (buffers_of config none) made begun (λ t. t + 1)
      (λ s t e. omega arith) list_queue toy_deps owned_events (refl, (refl, (tt, tt)))

owned_fine : (listen list_queue toy_deps none node owned_events).result ≡ ok
unfolding listen poll_setup Setups.new Setups.poll Setups.on_connection_handler_event
    handle_setup_event handle_connection_event
owned_fine = refl

-- The peer 107 has announced the key 108, from which libp2p would derive the id 208.
disconnects_iff_example :
    (handle_command list_queue toy_deps
      (listen list_queue toy_deps none node owned_events).state
      (query_is_connected 108)
      1
      1).effects
    ≡ reply (connected true) ∷ []
unfolding listen poll_setup Setups.new Setups.poll Setups.on_connection_handler_event
    handle_setup_event handle_connection_event announced note
disconnects_iff_example =
    (disconnects_iff libp2p config channels listens_on swarm none 1000 (7 ∷ []) (signer_of 5)
      (behaviour_with started_setup) node (buffers_of config none) made begun (λ t. t + 1)
      (λ s t e. omega arith) list_queue toy_deps owned_events 107 108 1 1 (refl, (refl, (tt, tt)))
      owned_fine refl refl).0

abbrev plain : Plain.Node Decimal
plain = record {
  swarm = swarm;
  config = record {
    limits = limits;
    transport_public_key = 5;
    kad_record_ttl = none;
    kad_timer_putrecorderror = none;
  };
  signer = transport_sign (signer_of 5);
  score_manager = Score.new Decimal;
  peer_penalty_storage = Validator.new;
  validator = Validator.default_validator decimal;
  kademlia_map_received_records = [];
  kademlia_is_routing_updated_first_time = true;
}

ttl_outlives_republish_example :
    (published failed : Duration) × ((handle_kademlia_event {R = Reply Decimal} toy_deps plain none
        put_record_ok now).effects
      ≡ republish_after published ∷ [])
    × ((handle_kademlia_event {R = Reply Decimal} toy_deps plain none put_record_failed now).effects
        ≡ republish_after failed ∷ [])
    × (some (from_secs 3900) ≡ some (published + from_secs 300))
    × ((failed ≤ published + from_secs 300) ⊎ (none ≡ some failed))
unfolding behaviour_of new_behaviour create_gossipsub create_kademlia_behaviour
    create_transport_allowlist from_config start listens_on_all buffers_of
ttl_outlives_republish_example =
    ttl_outlives_republish libp2p config channels listens_on swarm none 1000 decimal (signer_of 5)
      none (behaviour_with none) plain (buffers_of config none) toy_deps none now refl refl

-- An earlier swarm has set the maximum of responses to 2.
abbrev small : P2PConfig ℕ ℕ ℕ
small = record config { response_max_bytes = some 2 }
