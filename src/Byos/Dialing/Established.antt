-- ===== src/Byos/Dialing/Established.antt =====
-- The end of the dialing of a peer when a dial connects.
use strata_p2p.Common.{◌≡◌, refl, false, none, some, [], arith}
use strata_p2p.Ids.{PublicKey, ConnectionId}
use strata_p2p.Map
use strata_p2p.P2p.{return_ok}
use strata_p2p.Byos.{Node}
use strata_p2p.Byos.DialManager
use strata_p2p.Byos.DialManager.{Queue, has_app_public_key, get_app_public_key_by_connection_id}
use strata_p2p.Byos.Dialing.{
  handle_connection_event, outgoing_connection_error, connection_established,
}
use strata_p2p.Byos.Dialing.Attempts.{not_in-remove}

module _ {S Q : Type 0} (q : Queue Q) where
  established_lem :
      (n : Node S Q) (key : PublicKey) (current next : ConnectionId)
      → get_app_public_key_by_connection_id n.dial_manager current ≡ some key
      → handle_connection_event q n (connection_established current) next
        ≡ return_ok
            (record n {
              dial_manager =
                  (DialManager.remove_connid
                    (DialManager.remove_queue n.dial_manager key)
                    current).1;
            })
            []
  unfolding get_app_public_key_by_connection_id handle_connection_event DialManager.remove_connid
  established_lem n key current next on = rw (handle_connection_event, on) refl

  unmapped_failure :
      (n : Node S Q) (current next : ConnectionId)
      → get_app_public_key_by_connection_id n.dial_manager current ≡ none
      → handle_connection_event q n (outgoing_connection_error current) next ≡ return_ok n []
  unfolding get_app_public_key_by_connection_id handle_connection_event
  unmapped_failure n current next off = rw (handle_connection_event, off) refl

  -- When the dial of a key succeeds on its connection, the key is not being dialed any more, and a
  -- failure that is reported later for the same connection changes and dials nothing.
  established-ends :
      (n : Node S Q) (key : PublicKey) (current next : ConnectionId)
      → get_app_public_key_by_connection_id n.dial_manager current ≡ some key
      → let step = handle_connection_event q n (connection_established current) next in
        (has_app_public_key step.state.dial_manager key ≡ false)
        × (handle_connection_event q step.state (outgoing_connection_error current) next
            ≡ return_ok step.state [])
  unfolding get_app_public_key_by_connection_id has_app_public_key DialManager.remove_queue
      DialManager.remove_connid
  established-ends n key current next on =
      let forgotten : Map.get (Map.remove n.dial_manager.conn_to_dial current) current ≡ none =
        ground (arith, Map.get-remove n.dial_manager.conn_to_dial current current) in
      rw (established_lem n key current next on)
        (not_in-remove _ key, unmapped_failure _ current next forgotten)
