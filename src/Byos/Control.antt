-- ===== src/Byos/Control.antt =====
-- `handle_command` and `handle_setup_event` of crates/p2p/src/swarm/mod.rs with the feature `byos`.
pub mod Targets
use strata_p2p.Common.{Option, none, some, List, [], ◌∷◌, if◌then◌else◌, Bool, false}
use strata_p2p.Ids.{PeerId, PublicKey, ConnectionId, QueryId, Multiaddr}
use strata_p2p.P2p.{Step, Effect, Deps, is_connected, disconnect_peer_id, reply, return_ok}
use strata_p2p.Setup.{
  SetupBehaviourEvent, SetupHandlerEvent, app_key_received, negotiation_failed,
  error_during_setup_handshake,
}
use strata_p2p.Setup.Behaviour
use strata_p2p.Byos.{Node, Reply, connected, connected_peers, listening_addresses, is_allowed}
use strata_p2p.Byos.DialManager.{Queue}
use strata_p2p.Byos.Kademlia.{ask_kademlia_get_record}
use strata_p2p.Byos.Dialing.{connect_to_peer as dial_peer}

pub data Command : Type 0 where
  connect_to_peer : PublicKey → List Multiaddr → Command
  disconnect_from_peer : PublicKey → Command
  query_is_connected : PublicKey → Command
  query_connected_peers query_listening_addresses : Command
  find_multiaddr : PublicKey → Command

-- `filter_map` of Rust's iterators
abbrev pub filter_map : {A B : Type 0} → (A → Option B) → List A → List B
filter_map f [] = []
filter_map f (x ∷ xs) = elim (f x) [ some y ↦ y ∷ filter_map f xs | none ↦ filter_map f xs ]

module _ {S Q : Type 0} where
  pub is_connected_key : Node S Q → PublicKey → Bool
  unfolding Behaviour.get_transport_id_by_application_key
  is_connected_key n app_public_key =
      elim (Behaviour.get_transport_id_by_application_key n.setup app_public_key) [
        | some transport_id ↦ is_connected n.swarm transport_id
        | none ↦ false
      ]

  -- `conn_id` is the identifier of the dial that the command starts, if it starts one.
  unfoldable pub handle_command :
      Queue Q
      → Deps
      → Node S Q
      → Command
      → (conn_id : ConnectionId) → QueryId
      → Step (Node S Q) Reply
  unfolding is_connected_key Behaviour.get_app_public_key_by_transport_id
  handle_command q deps n (connect_to_peer app_public_key addresses) conn_id query_id =
      dial_peer q deps n app_public_key addresses conn_id
  handle_command q deps n (disconnect_from_peer target_app_public_key) conn_id query_id =
      let peer_id = deps.to_peer_id target_app_public_key in
      if is_connected n.swarm peer_id
      then return_ok n (disconnect_peer_id peer_id ∷ [])
      else return_ok n []
  handle_command q deps n (query_is_connected app_public_key) conn_id query_id =
      return_ok n (reply (connected (is_connected_key n app_public_key)) ∷ [])
  handle_command q deps n query_connected_peers conn_id query_id =
      let public_keys =
        filter_map (λ peer_id. Behaviour.get_app_public_key_by_transport_id n.setup peer_id)
          n.swarm.connected_peers in
      return_ok n (reply (connected_peers public_keys) ∷ [])
  handle_command q deps n query_listening_addresses conn_id query_id =
      return_ok n (reply (listening_addresses n.swarm.listeners) ∷ [])
  handle_command q deps n (find_multiaddr app_public_key) conn_id query_id =
      ask_kademlia_get_record deps n app_public_key query_id

  unfoldable pub handle_setup_event : Node S Q → SetupBehaviourEvent → Step (Node S Q) Reply
  handle_setup_event n e = elim e.event [
    | app_key_received app_public_key ↦
        if is_allowed n app_public_key
        then return_ok n []
        else return_ok n (disconnect_peer_id e.transport_id ∷ [])
    | error_during_setup_handshake error ↦ return_ok n (disconnect_peer_id e.transport_id ∷ [])
    | negotiation_failed ↦ return_ok n (disconnect_peer_id e.transport_id ∷ [])
  ]
