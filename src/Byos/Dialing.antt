-- ===== src/Byos/Dialing.antt =====
-- The dialing of crates/p2p/src/swarm/mod.rs with the feature `byos`: `dial_and_map`, the command
-- `ConnectToPeer`, and `handle_connection_event`.
pub mod Attempts
pub mod Established
use strata_p2p.Common.{Option, none, some, List, [], ◌∷◌, ◌++◌, ◌==◌, if◌then◌else◌}
use strata_p2p.Ids.{PeerId, PublicKey, ConnectionId, Multiaddr}
use strata_p2p.P2p.{Step, Effect, Deps, dial_address, return_ok, panicked}
use strata_p2p.P2p.Dial.{sort_addresses}
use strata_p2p.Setup.Behaviour.{on_connection_closed}
use strata_p2p.Byos.{Node, Reply}
use strata_p2p.Byos.DialManager
use strata_p2p.Byos.DialManager.{Queue}

pub data ConnectionEvent : Type 0 where
  connection_established : ConnectionId → ConnectionEvent
  outgoing_connection_error : ConnectionId → ConnectionEvent
  incoming_connection_error : ConnectionEvent
  connection_closed : ConnectionEvent

module _ {S Q : Type 0} where
  -- `conn_id` is the identifier that libp2p chooses for the dial. What `swarm.dial` returns is only
  -- logged: the connection is mapped to the key before, and stays so when libp2p refuses the dial.
  unfoldable pub dial_and_map :
      Node S Q → Multiaddr → PublicKey → (conn_id : ConnectionId) → Step (Node S Q) Reply
  unfolding DialManager.map_connid
  dial_and_map n addr app_public_key conn_id =
      return_ok
        (record n { dial_manager = DialManager.map_connid n.dial_manager conn_id app_public_key })
        (dial_address addr ∷ [])

  -- The part of `ConnectToPeer` after `queue.pop_front()`, whose `unwrap` panics on an empty queue.
  unfoldable pub dial_first :
      Node S Q → PublicKey → (conn_id : ConnectionId) → Option Multiaddr × Q → Step (Node S Q) Reply
  unfolding DialManager.insert_queue dial_and_map
  dial_first n app_public_key conn_id (none, queue) = record {
    state = n;
    effects = [];
    result = panicked;
  }
  dial_first n app_public_key conn_id (some first_addr, queue) =
      dial_and_map
        (record n {
          config = record n.config { connect_to = n.config.connect_to ++ (first_addr ∷ []) };
          dial_manager = DialManager.insert_queue n.dial_manager app_public_key queue;
        })
        first_addr app_public_key conn_id

  unfoldable pub connect_to_peer :
      Queue Q
      → Deps
      → Node S Q
      → PublicKey
      → List Multiaddr
      → (conn_id : ConnectionId) → Step (Node S Q) Reply
  unfolding DialManager.has_app_public_key
  connect_to_peer q deps n app_public_key [] conn_id = return_ok n []
  connect_to_peer q deps n app_public_key (a ∷ addresses) conn_id =
      if DialManager.has_app_public_key n.dial_manager app_public_key
      then return_ok n []
      else dial_first n app_public_key conn_id
          (q.pop_front (q.from_iter (sort_addresses deps.is_quic (a ∷ addresses))))

  -- The dial of the next address after a failure, or the end of the queue.
  unfoldable pub dial_next :
      Node S Q
      → PublicKey
      → (conn_id : ConnectionId) → Option Multiaddr × DialManager.DialManager Q
      → Step (Node S Q) Reply
  unfolding DialManager.remove_queue dial_and_map
  dial_next n app_public_key conn_id (some next_addr, dial_manager) =
      dial_and_map (record n { dial_manager = dial_manager }) next_addr app_public_key conn_id
  dial_next n app_public_key conn_id (none, dial_manager) =
      return_ok (record n { dial_manager = DialManager.remove_queue dial_manager app_public_key })
        []

  -- `next_conn_id` is the identifier of the dial that follows a failure.
  unfoldable pub handle_connection_event :
      Queue Q → Node S Q → ConnectionEvent → (next_conn_id : ConnectionId) → Step (Node S Q) Reply
  unfolding DialManager.get_app_public_key_by_connection_id DialManager.remove_queue
      DialManager.remove_connid DialManager.pop_next_addr dial_next
  handle_connection_event q n (connection_established connection_id) next_conn_id =
      elim (DialManager.get_app_public_key_by_connection_id n.dial_manager connection_id) [
        | none ↦ return_ok n []
        | some app_public_key ↦
            let removed = DialManager.remove_queue n.dial_manager app_public_key in
            return_ok
              (record n { dial_manager = (DialManager.remove_connid removed connection_id).1 }) []
      ]
  handle_connection_event q n (outgoing_connection_error connection_id) next_conn_id =
      elim (DialManager.get_app_public_key_by_connection_id n.dial_manager connection_id) [
        | none ↦ return_ok n []
        | some app_public_key ↦
            let removed = (DialManager.remove_connid n.dial_manager connection_id).1 in
            dial_next n app_public_key next_conn_id
              (DialManager.pop_next_addr q removed app_public_key)
      ]
  handle_connection_event q n incoming_connection_error next_conn_id = return_ok n []
  handle_connection_event q n connection_closed next_conn_id = return_ok n []
