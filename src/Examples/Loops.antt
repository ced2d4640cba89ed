-- ===== src/Examples/Loops.antt =====
-- The theorems on the loop of a node with the feature `byos`: the peers 107 and 108 announce the keys 7
-- and 9, of which only the first is allowed.
use strata_p2p.Common.{◌≡◌, refl, true, none, List, [], ◌∷◌}
use strata_p2p.Ids.{Multiaddr}
use strata_p2p.Time.{from_secs}
use strata_p2p.Float.Decimal.{Decimal}
use strata_p2p.P2p.{ok}
use strata_p2p.Setup.{app_key_received}
use strata_p2p.Setup.Behaviour
use strata_p2p.Setup.Behaviour.{
  SetupBehaviour, get_app_public_key_by_transport_id, get_transport_id_by_application_key,
}
use strata_p2p.Byos.{Node}
use strata_p2p.Byos.DialManager.Fifo.{list_queue}
use strata_p2p.Byos.Run.{Event, setup_handler, setup_poll, disconnected, poll_setup, listen}
use strata_p2p.Byos.Control.{handle_setup_event}
use strata_p2p.Byos.Dialing.{handle_connection_event}
use strata_p2p.Byos.Run.Keys.{announced, keys-announced}
use strata_p2p.Byos.Run.Polls.{polls, disconnects, polls-drained}
use strata_p2p.Examples.{toy_deps, limits, swarm, signer_of}

abbrev started : SetupBehaviour
started = Behaviour.new 5 105 (signer_of 5) (from_secs 60) (from_secs 5)

abbrev node : Node Decimal (List Multiaddr)
node = record {
  swarm = swarm;
  config = record {
    limits = limits;
    app_public_key = 5;
    connect_to = [];
    kad_record_ttl = none;
    kad_timer_putrecorderror = none;
  };
  signer = signer_of 5;
  app_allowlist = 7 ∷ [];
  setup = started;
  dial_manager = record { dial_queues = []; conn_to_dial = [] };
  kademlia_map_received_records = [];
  kademlia_is_routing_updated_first_time = true;
}

abbrev events : List (Event Decimal)
events =
    setup_handler 108 1 (app_key_received 9)
    ∷ setup_handler 107 2 (app_key_received 7)
    ∷ setup_poll
    ∷ disconnected 108 0
    ∷ []

events_fine : (listen list_queue toy_deps none node events).result ≡ ok
unfolding listen Behaviour.new poll_setup Behaviour.poll Behaviour.on_connection_handler_event
    handle_setup_event handle_connection_event
events_fine = refl

keys-announced_example :
    get_app_public_key_by_transport_id (listen list_queue toy_deps none node events).state.setup 108
    ≡ announced (get_app_public_key_by_transport_id started) events 108
keys-announced_example = keys-announced list_queue toy_deps none node events events_fine 108

-- The node when both peers have announced their keys.
abbrev waiting : Node Decimal (List Multiaddr)
waiting = record node {
  setup =
      Behaviour.on_connection_handler_event
        (Behaviour.on_connection_handler_event started 108 1 (app_key_received 9)) 107 2
        (app_key_received 7);
}

polls-drained_example :
    disconnects (listen list_queue toy_deps none waiting (polls 2)).effects ≡ 108 ∷ []
unfolding Behaviour.on_connection_handler_event Behaviour.new
polls-drained_example = (polls-drained list_queue toy_deps none waiting).2
