-- ===== src/Setup/Behaviour.antt =====
-- crates/p2p/src/swarm/setup/behavior.rs: the keys of all peers.
pub mod Mapping
use strata_p2p.Common.{ℕ, Option, none, some, List, [], ◌∷◌, ◌==◌, if◌then◌else◌}
use strata_p2p.Ids.{PeerId, PublicKey, ConnectionId}
use strata_p2p.Map
use strata_p2p.Map.{Map}
use strata_p2p.Time.{Duration}
use strata_p2p.Message.Signed.{ApplicationSigner}
use strata_p2p.Setup.{
  SetupBehaviourEvent, SetupHandlerEvent, app_key_received, negotiation_failed,
  error_during_setup_handshake,
}
use strata_p2p.Setup.Handler
use strata_p2p.Setup.Handler.{SetupHandler}

pub record SetupBehaviour : Type 0 where
  pub app_public_key : PublicKey
  pub local_transport_id : PeerId
  pub signer : ApplicationSigner
  pub transport_ids : Map PublicKey
  pub app_public_keys : Map PeerId
  pub events : List SetupBehaviourEvent
  pub envelope_max_age : Duration
  pub max_clock_skew : Duration

unfoldable pub new : PublicKey → PeerId → ApplicationSigner → Duration → Duration → SetupBehaviour
new app_public_key transport_id signer envelope_max_age max_clock_skew = record {
  app_public_key = app_public_key;
  local_transport_id = transport_id;
  signer = signer;
  transport_ids = [];
  app_public_keys = [];
  events = [];
  envelope_max_age = envelope_max_age;
  max_clock_skew = max_clock_skew;
}

unfoldable pub get_app_public_key_by_transport_id : SetupBehaviour → PeerId → Option PublicKey
get_app_public_key_by_transport_id b peer_id = Map.get b.transport_ids peer_id

unfoldable pub get_transport_id_by_application_key : SetupBehaviour → PublicKey → Option PeerId
get_transport_id_by_application_key b app_pk = Map.get b.app_public_keys app_pk

-- Inbound and outbound connections get the same handler.
unfoldable handle_established_connection : SetupBehaviour → PeerId → SetupHandler
handle_established_connection b remote_transport_id =
    Handler.new b.app_public_key b.local_transport_id remote_transport_id b.signer
      b.envelope_max_age b.max_clock_skew

-- `FromSwarm::ConnectionClosed`; no other event of the swarm changes anything.
pub on_connection_closed : SetupBehaviour → PeerId → (remaining_established : ℕ) → SetupBehaviour
on_connection_closed b peer_id remaining_established =
    if remaining_established == 0
    then elim (Map.get b.transport_ids peer_id) [
      | none ↦ b
      | some app_public_key ↦ record b {
        transport_ids = Map.remove b.transport_ids peer_id;
        app_public_keys = Map.remove b.app_public_keys app_public_key;
      }
    ]
    else b

abbrev pub push_event : SetupBehaviour → PeerId → ConnectionId → SetupHandlerEvent → SetupBehaviour
push_event b peer_id conn_id event = record b {
  events = record { transport_id = peer_id; conn_id = conn_id; event = event } ∷ b.events;
}

unfoldable pub on_connection_handler_event :
    SetupBehaviour → PeerId → ConnectionId → SetupHandlerEvent → SetupBehaviour
on_connection_handler_event b peer_id conn_id (app_key_received app_public_key) =
    push_event
      (record b {
        transport_ids = Map.insert b.transport_ids peer_id app_public_key;
        app_public_keys = Map.insert b.app_public_keys app_public_key peer_id;
      })
      peer_id conn_id (app_key_received app_public_key)
on_connection_handler_event b peer_id conn_id negotiation_failed =
    push_event b peer_id conn_id negotiation_failed
on_connection_handler_event b peer_id conn_id (error_during_setup_handshake error) =
    push_event b peer_id conn_id (error_during_setup_handshake error)

-- `poll`: the next event for the swarm, if there is one.
unfoldable pub poll : SetupBehaviour → Option SetupBehaviourEvent × SetupBehaviour
poll b = elim b.events [ [] ↦ (none, b) | event ∷ rest ↦ (some event, record b { events = rest }) ]
