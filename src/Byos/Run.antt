-- ===== src/Byos/Run.antt =====
-- `listen`, `handle_swarm_event`, `handle_behaviour_event` and `handle_request_response_event` of
-- crates/p2p/src/swarm/mod.rs with the feature `byos`, and the calls that the swarm makes on the setup
-- behaviour of crates/p2p/src/swarm/setup/behavior.rs while the loop waits for an event.
pub mod Quiet
pub mod Setups
pub mod Settled
pub mod Keys
pub mod Owners
pub mod Heard
pub mod Polls
use text.Mathlib.Text.{◌==◌ as str_eq}
use Prim.Native.String.{String}
use strata_p2p.Common.{
  ℕ, Bool, not, Option, none, some, List, [], ◌∷◌, ◌++◌, any, if◌then◌else◌, unwrap_or,
}
use strata_p2p.Ids.{PeerId, PublicKey, ConnectionId, QueryId, MessageId, Bytes}
use strata_p2p.Time.{SystemTime}
use strata_p2p.P2p.{Swarm, Step, Deps, P2PResult, ok, err, panicked, disconnect_peer_id, return_ok}
use strata_p2p.P2p.ReqResp.{SendOutcome, Answer}
use strata_p2p.P2p.Response.{
  ReqRespEvent, request_message, response_message, outbound_failure, inbound_failure, response_sent,
}
use strata_p2p.P2p.Kademlia.{KademliaEvent}
use strata_p2p.P2p.Connection.{is_gossipsub_version, protocol_name_default}
use strata_p2p.P2p.Publish.{handle_gossip_command}
use strata_p2p.Setup.{SetupHandlerEvent}
use strata_p2p.Setup.Behaviour
use strata_p2p.Byos.{Node, Reply}
use strata_p2p.Byos.DialManager.{Queue}
use strata_p2p.Byos.Dialing.{ConnectionEvent, connection_closed, handle_connection_event}
use strata_p2p.Byos.Messages.{
  ReqRespClock, handle_gossip_msg, handle_request, handle_response, handle_request_response_command,
}
use strata_p2p.Byos.Kademlia.{handle_kademlia_event, ask_kademlia_put_record}
use strata_p2p.Byos.Control.{Command, handle_command, handle_setup_event}

-- `SETUP_PROTOCOL_NAME`
abbrev pub setup_protocol_name : String
setup_protocol_name = "/handshake/1.0.0"

-- What happens to the node, with what the environment decides meanwhile. `setup_handler` and
-- `disconnected` are the calls of the swarm on the setup behaviour; a `disconnected` is also an event
-- of the loop, and names how many connections to the peer are left. `setup_poll` is the swarm's
-- `poll` of the setup behaviour, whose event goes to the loop. `swarm_changed` is any other change
-- inside libp2p, such as a peer that connects.
pub data Event (S : Type 0) : Type 0 where
  gossip_message : PeerId → MessageId → Bytes → SystemTime → (receivers : Bool) → Event S
  gossipsub_not_supported : PeerId → Event S
  request_response : ReqRespEvent → ReqRespClock → SendOutcome → Answer → Event S
  setup_handler : PeerId → ConnectionId → SetupHandlerEvent → Event S
  setup_poll : Event S
  kademlia : (existing : Option Bytes) → KademliaEvent → SystemTime → Event S
  identify_received : PeerId → (protocols : List String) → Event S
  connection : ConnectionEvent → (next_conn_id : ConnectionId) → Event S
  disconnected : PeerId → (remaining_established : ℕ) → Event S
  command : Command → (conn_id : ConnectionId) → QueryId → Event S
  gossip_command : Bytes → SystemTime → Event S
  request_response_command : Bytes → PublicKey → SystemTime → Event S
  kademlia_republish : SystemTime → Event S
  swarm_changed : Swarm S → Event S
  other : Event S

module _ {S Q : Type 0} where
  unfoldable pub handle_identify :
      Option String → Node S Q → PeerId → (protocols : List String) → Step (Node S Q) Reply
  handle_identify protocol_name n peer_id protocols =
      if not (any is_gossipsub_version protocols)
      then return_ok n (disconnect_peer_id peer_id ∷ [])
      else if not (any (λ p. str_eq p (unwrap_or protocol_name protocol_name_default)) protocols)
      then return_ok n (disconnect_peer_id peer_id ∷ [])
      else if not (any (λ p. str_eq p setup_protocol_name) protocols)
      then return_ok n (disconnect_peer_id peer_id ∷ [])
      else return_ok n []

  unfoldable pub handle_request_response_event :
      Deps → Node S Q → ReqRespEvent → ReqRespClock → SendOutcome → Answer → Step (Node S Q) Reply
  handle_request_response_event deps n (request_message peer bytes) at outcome answer =
      handle_request deps n peer bytes at outcome answer
  handle_request_response_event deps n (response_message peer bytes) at outcome answer =
      handle_response deps n peer bytes at outcome
  handle_request_response_event deps n (outbound_failure peer unsupported) at outcome answer =
      if unsupported then return_ok n (disconnect_peer_id peer ∷ []) else return_ok n []
  handle_request_response_event deps n (inbound_failure peer) at outcome answer = return_ok n []
  handle_request_response_event deps n (response_sent peer) at outcome answer = return_ok n []

  -- The setup behaviour's next event, if there is one.
  unfoldable pub poll_setup : Node S Q → Step (Node S Q) Reply
  poll_setup n =
      let (event, setup) = Behaviour.poll n.setup in
      let n' = record n { setup = setup } in
      elim event [ none ↦ return_ok n' [] | some e ↦ handle_setup_event n' e ]

  module _ (q : Queue Q) (deps : Deps) (protocol_name : Option String) where
    unfoldable pub handle : Node S Q → Event S → Step (Node S Q) Reply
    handle n (gossip_message source id bytes now receivers) =
        handle_gossip_msg deps n source id bytes now receivers
    handle n (gossipsub_not_supported peer) = return_ok n (disconnect_peer_id peer ∷ [])
    handle n (request_response event at outcome answer) =
        handle_request_response_event deps n event at outcome answer
    handle n (setup_handler peer conn_id event) =
        return_ok
          (record n { setup = Behaviour.on_connection_handler_event n.setup peer conn_id event }) []
    handle n setup_poll = poll_setup n
    handle n (kademlia existing event now) = handle_kademlia_event deps n existing event now
    handle n (identify_received peer protocols) = handle_identify protocol_name n peer protocols
    handle n (connection event next_conn_id) = handle_connection_event q n event next_conn_id
    handle n (disconnected peer remaining) =
        handle_connection_event q
          (record n { setup = Behaviour.on_connection_closed n.setup peer remaining })
          connection_closed 0
    handle n (command cmd conn_id query_id) = handle_command q deps n cmd conn_id query_id
    handle n (gossip_command message now) =
        handle_gossip_command deps n.signer n.config.app_public_key n now message
    handle n (request_response_command message target now) =
        handle_request_response_command deps n now message target
    handle n (kademlia_republish now) = ask_kademlia_put_record deps n now
    handle n (swarm_changed swarm) = return_ok (record n { swarm = swarm }) []
    handle n other = return_ok n []

    -- A handler that fails ends the loop.
    pub proceed : P2PResult → (first rest : Step (Node S Q) Reply) → Step (Node S Q) Reply
    proceed ok first rest = record rest { effects = first.effects ++ rest.effects }
    proceed (err e) first rest = first
    proceed panicked first rest = first

    unfoldable pub listen : Node S Q → List (Event S) → Step (Node S Q) Reply
    unfolding handle proceed
    listen n [] = return_ok n []
    listen n (event ∷ events) =
        let step = handle n event in proceed step.result step (listen step.state events)
