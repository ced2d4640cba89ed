-- ===== src/P2p/Run.antt =====
-- `listen`, `handle_swarm_event` and `handle_behaviour_event` of crates/p2p/src/swarm/mod.rs without the
-- feature `byos`: one event after the other, until a handler fails.
pub mod Kept
pub mod KeptMessages
pub mod KeptEvents
pub mod Terms
use Prim.Native.String.{String}
use strata_p2p.Common.{Bool, Option, List, [], ◌∷◌}
use strata_p2p.Ids.{PeerId, QueryId, MessageId, Bytes}
use strata_p2p.Time.{SystemTime}
use strata_p2p.Float.{Float}
use strata_p2p.P2p.{Swarm, Step, Deps, P2PResult, ok, err, panicked}
use strata_p2p.P2p.Node.{Node}
use strata_p2p.P2p.Penalty.{PenaltyClock}
use strata_p2p.P2p.Gossip.{GossipClock, handle_gossip_msg, handle_gossip_not_supported}
use strata_p2p.P2p.ReqResp.{SendOutcome, Answer}
use strata_p2p.P2p.Request.{ReqRespClock, handle_request_response_command}
use strata_p2p.P2p.Response.{ReqRespEvent, handle_request_response_event}
use strata_p2p.P2p.Kademlia.{KademliaEvent, handle_kademlia_event, ask_kademlia_put_record}
use strata_p2p.P2p.Connection.{
  ConnectionEvent, ConnectionClock, handle_connection_event, handle_identify,
}
use strata_p2p.P2p.Publish.{handle_gossip_command}
use strata_p2p.P2p.Command.{Command, Reply, handle_command}

-- What the loop's `select!` takes, with what the environment decides while it is handled. The
-- cancellation is the end of the events. `swarm_changed` is any change inside libp2p, such as a peer
-- that connects or a new score of gossipsub's own.
pub data Event (S : Type 0) : Type 0 where
  gossip_message : PeerId → MessageId → Bytes → GossipClock → (receivers : Bool) → Event S
  gossipsub_not_supported : PeerId → Event S
  request_response : ReqRespEvent → ReqRespClock → SendOutcome → Answer → Event S
  kademlia : (existing : Option Bytes) → KademliaEvent → SystemTime → Event S
  identify_received : PeerId → (protocols : List String) → Event S
  connection : ConnectionEvent → ConnectionClock → Event S
  command : Command S → SystemTime → PenaltyClock → QueryId → Event S
  gossip_command : Bytes → SystemTime → Event S
  request_response_command : Bytes → PeerId → SystemTime → Event S
  kademlia_republish : SystemTime → Event S
  swarm_changed : Swarm S → Event S
  other : Event S

module _ {S : Type 0} (f : Float S) (deps : Deps) (protocol_name : Option String) where
  unfoldable pub handle : Node S → Event S → Step (Node S) (Reply S)
  handle n (gossip_message source id bytes at receivers) =
      handle_gossip_msg f deps n source id bytes at receivers
  handle n (gossipsub_not_supported peer) = handle_gossip_not_supported n peer
  handle n (request_response event at outcome answer) =
      handle_request_response_event f deps n event at outcome answer
  handle n (kademlia existing event now) = handle_kademlia_event deps n existing event now
  handle n (identify_received peer protocols) = handle_identify protocol_name n peer protocols
  handle n (connection event at) = handle_connection_event n event at
  handle n (command cmd now at id) = handle_command f deps n cmd now at id
  handle n (gossip_command message now) =
      handle_gossip_command deps n.signer n.config.transport_public_key n now message
  handle n (request_response_command message target now) =
      handle_request_response_command deps n now message target
  handle n (kademlia_republish now) = ask_kademlia_put_record deps n now
  handle n (swarm_changed swarm) = record {
    state = record n { swarm = swarm };
    effects = [];
    result = ok;
  }
  handle n other = record { state = n; effects = []; result = ok }

  -- The state when the loop ends: with the events, or with the first that fails.
  unfoldable pub listen : Node S → List (Event S) → Node S
  unfolding handle
  listen n [] = n
  listen n (event ∷ events) =
      let step = handle n event in
      let rest = listen step.state events in
      elim step.result [ ok ↦ rest | err _ ↦ step.state | panicked ↦ step.state ]
