-- ===== src/Byos/Run/Setups.antt =====
-- What one event does to the setup behaviour of the node: only the swarm's calls on it change it.
use Prim.Native.String.{String}
use strata_p2p.Common.{
  ◌≡◌, refl, ap, Option, none, some, inl, inr, List, [], ◌∷◌, arith, Option-cases, Bool-cases,
}
use strata_p2p.Ids.{PublicKey, ConnectionId, QueryId, Multiaddr, Bytes}
use strata_p2p.Time.{SystemTime}
use strata_p2p.Message.Signed.{ApplicationSigner}
use strata_p2p.Envelope.{Limits}
use strata_p2p.P2p.{Deps}
use strata_p2p.P2p.Records.{record_to_store}
use strata_p2p.P2p.Kademlia.{
  KademliaEvent, inbound_put_record, found_record, get_record_finished, put_record_ok,
  put_record_failed, routing_updated,
}
use strata_p2p.Setup.Behaviour
use strata_p2p.Setup.Behaviour.{SetupBehaviour}
use strata_p2p.Byos.{Node, Reply}
use strata_p2p.Byos.DialManager
use strata_p2p.Byos.DialManager.{Queue}
use strata_p2p.Byos.Dialing.{
  ConnectionEvent, connection_established, outgoing_connection_error, incoming_connection_error,
  connection_closed, handle_connection_event, connect_to_peer, dial_first, dial_next, dial_and_map,
}
use strata_p2p.Byos.Kademlia
use strata_p2p.Byos.Kademlia.{handle_kademlia_event, ask_kademlia_get_record}
use strata_p2p.Byos.Control.{Command, handle_command, handle_setup_event}
use strata_p2p.Byos.Run.Quiet.{
  gossip-state, req_resp-state, request_command-state, put_record-state, identify-state,
  publish-state,
}
use strata_p2p.Byos.Run.{Event, handle, poll_setup}

-- The calls of the swarm on the setup behaviour.
unfoldable pub setup_after : {S : Type 0} → SetupBehaviour → Event S → SetupBehaviour
setup_after b (Event.setup_handler peer conn_id event) =
    Behaviour.on_connection_handler_event b peer conn_id event
setup_after b Event.setup_poll = (Behaviour.poll b).1
setup_after b (Event.disconnected peer remaining) = Behaviour.on_connection_closed b peer remaining
setup_after b event = b

-- What no handler changes.
abbrev pub settings :
    {S Q : Type 0} → Node S Q → Limits × PublicKey × List PublicKey × ApplicationSigner
settings n = (n.config.limits, n.config.app_public_key, n.app_allowlist, n.signer)

abbrev frame :
    {S Q : Type 0}
    → Node S Q
    → SetupBehaviour × Limits × PublicKey × List PublicKey × ApplicationSigner
frame n = (n.setup, n.config.limits, n.config.app_public_key, n.app_allowlist, n.signer)

module _ {S Q : Type 0} (deps : Deps) (n : Node S Q) where
  kademlia-frame :
      (existing : Option Bytes) (event : KademliaEvent) (now : SystemTime)
      → frame (handle_kademlia_event deps n existing event now).state ≡ frame n
  unfolding handle_kademlia_event
  kademlia-frame existing (inbound_put_record r) now =
      elim (Option-cases
        (record_to_store deps n.config.limits (Kademlia.key_matches deps) now existing r)) [
          | inl e ↦ rw (e, handle_kademlia_event) refl
          | inr (kv, e) ↦ rw (e, handle_kademlia_event) refl
        ]
  kademlia-frame existing (found_record id key value) now = refl
  kademlia-frame existing (get_record_finished id) now = refl
  kademlia-frame existing put_record_ok now = refl
  kademlia-frame existing put_record_failed now = refl
  kademlia-frame existing routing_updated now = ground arith

module _ {S Q : Type 0} (q : Queue Q) where
  dial_first-frame :
      (n : Node S Q) (key : PublicKey) (conn_id : ConnectionId) (popped : Option Multiaddr × Q)
      → frame (dial_first n key conn_id popped).state ≡ frame n
  unfolding dial_first dial_and_map
  dial_first-frame n key conn_id (none, queue) = refl
  dial_first-frame n key conn_id (some addr, queue) = refl

  connect-frame :
      (deps : Deps) (n : Node S Q) (key : PublicKey) (addresses : List Multiaddr)
      (conn_id : ConnectionId)
      → frame (connect_to_peer q deps n key addresses conn_id).state ≡ frame n
  unfolding connect_to_peer
  connect-frame deps n key [] conn_id = refl
  connect-frame deps n key (a ∷ addresses) conn_id =
      elim (Bool-cases (DialManager.has_app_public_key n.dial_manager key)) [
        | inl e ↦ rw e
        | inr e ↦ rw e (dial_first-frame n key conn_id _)
      ]

  dial_next-frame :
      (n : Node S Q) (key : PublicKey) (conn_id : ConnectionId)
      (popped : Option Multiaddr × DialManager.DialManager Q)
      → frame (dial_next n key conn_id popped).state ≡ frame n
  unfolding dial_next dial_and_map
  dial_next-frame n key conn_id (none, d) = refl
  dial_next-frame n key conn_id (some addr, d) = refl

  connection-frame :
      (n : Node S Q) (event : ConnectionEvent) (next : ConnectionId)
      → frame (handle_connection_event q n event next).state ≡ frame n
  unfolding handle_connection_event
  connection-frame n (connection_established c) next =
      elim (Option-cases (DialManager.get_app_public_key_by_connection_id n.dial_manager c)) [
        | inl e ↦ rw (e, handle_connection_event) refl
        | inr (key, e) ↦ rw (e, handle_connection_event) refl
      ]
  connection-frame n (outgoing_connection_error c) next =
      elim (Option-cases (DialManager.get_app_public_key_by_connection_id n.dial_manager c)) [
        | inl e ↦ rw (e, handle_connection_event) refl
        | inr (key, e) ↦ rw (e, handle_connection_event) (dial_next-frame n key next _)
      ]
  connection-frame n incoming_connection_error next = refl
  connection-frame n connection_closed next = refl

  command-frame :
      (deps : Deps) (n : Node S Q) (cmd : Command) (conn_id : ConnectionId) (id : QueryId)
      → frame (handle_command q deps n cmd conn_id id).state ≡ frame n
  unfolding handle_command
  command-frame deps n (Command.connect_to_peer key addresses) conn_id id =
      connect-frame deps n key addresses conn_id
  command-frame deps n (Command.disconnect_from_peer key) conn_id id = ground arith
  command-frame deps n (Command.query_is_connected key) conn_id id = refl
  command-frame deps n Command.query_connected_peers conn_id id = refl
  command-frame deps n Command.query_listening_addresses conn_id id = refl
  command-frame deps n (Command.find_multiaddr key) conn_id id =
      unfold ask_kademlia_get_record in refl

module _ {S Q : Type 0} (q : Queue Q) (deps : Deps) (name : Option String) (n : Node S Q) where
  poll-frame : frame (poll_setup n).state ≡ frame (record n { setup = (Behaviour.poll n.setup).1 })
  unfolding poll_setup Behaviour.poll handle_setup_event
  poll-frame = ground arith

  handle-frame :
      (event : Event S)
      → frame (handle q deps name n event).state
        ≡ frame (record n { setup = setup_after n.setup event })
  unfolding handle setup_after
  handle-frame (Event.gossip_message source id bytes now receivers) =
      ap frame (gossip-state deps n source id bytes now receivers)
  handle-frame (Event.gossipsub_not_supported peer) = refl
  handle-frame (Event.request_response event at outcome answer) =
      ap frame (req_resp-state deps n event at outcome answer)
  handle-frame (Event.setup_handler peer conn_id event) = refl
  handle-frame Event.setup_poll = poll-frame
  handle-frame (Event.kademlia existing event now) = kademlia-frame deps n existing event now
  handle-frame (Event.identify_received peer protocols) =
      ap frame (identify-state deps n name peer protocols)
  handle-frame (Event.connection event next) = connection-frame q n event next
  handle-frame (Event.disconnected peer remaining) = connection-frame q _ connection_closed 0
  handle-frame (Event.command cmd conn_id id) = command-frame q deps n cmd conn_id id
  handle-frame (Event.gossip_command message now) =
      ap frame (publish-state Reply deps n.signer n.config.app_public_key n now message)
  handle-frame (Event.request_response_command message target now) =
      ap frame (request_command-state deps n now message target)
  handle-frame (Event.kademlia_republish now) = ap frame (put_record-state deps n now)
  handle-frame (Event.swarm_changed swarm) = refl
  handle-frame Event.other = refl

  -- Each event leaves the setup behaviour as the swarm's calls on it leave it.
  pub handle-setup :
      (event : Event S) → (handle q deps name n event).state.setup ≡ setup_after n.setup event
  handle-setup event = ap (λ p. p.0) (handle-frame event)

  -- No event changes the node's settings.
  pub handle-settings : (event : Event S) → settings (handle q deps name n event).state ≡ settings n
  handle-settings event = ap (λ p. (p.1, p.2, p.3, p.4)) (handle-frame event)
