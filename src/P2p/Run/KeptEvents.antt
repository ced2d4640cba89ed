-- ===== src/P2p/Run/KeptEvents.antt =====
-- Every event of the loop keeps every mute and every ban, except for the command that removes them.
use Prim.Native.String.{String}
use strata_p2p.Common.{◌≤◌, ◌≡◌, ◌≢◌, refl, Option, none, some, List, [], ◌∷◌, arith}
use strata_p2p.Ids.{PeerId, QueryId, Bytes}
use strata_p2p.Time.{SystemTime}
use strata_p2p.Float.{Float}
use strata_p2p.Validator.{Action, apply_penalty, remove_penalty}
use strata_p2p.P2p.{Deps}
use strata_p2p.P2p.Node.{Node}
use strata_p2p.P2p.Penalty
use strata_p2p.P2p.Penalty.{PenaltyClock}
use strata_p2p.P2p.Penalty.Answered.{answers-remove_penalty}
use strata_p2p.P2p.Connection.{
  ConnectionEvent, ConnectionClock, handle_connection_event, handle_identify,
}
use strata_p2p.Score.{AppPeerScore}
use strata_p2p.P2p.Connection.Forgets.{answers-connection_event}
use strata_p2p.P2p.Gossip.{handle_gossip_not_supported}
use strata_p2p.P2p.ReqResp.{SendOutcome, Answer, send_request_to}
use strata_p2p.P2p.Request.{ReqRespClock, handle_request_response_command}
use strata_p2p.P2p.Response.{
  ReqRespEvent, request_message, response_message, outbound_failure, inbound_failure, response_sent,
  handle_request_response_event,
}
use strata_p2p.P2p.Kademlia.{
  KademliaEvent, inbound_put_record, found_record, get_record_finished, put_record_ok,
  put_record_failed, routing_updated, handle_kademlia_event, ask_kademlia_put_record,
  ask_kademlia_get_record,
}
use strata_p2p.P2p.Records.{publish_record}
use strata_p2p.P2p.Publish.{handle_gossip_command}
use strata_p2p.P2p.Command.{
  Command, Reply, connect_to_peer, disconnect_from_peer, get_peer_score, set_score,
  query_is_connected, query_connected_peers, query_listening_addresses, find_multiaddr,
  connect_to_peer_step, get_peer_score_step, moderate, rescore, handle_command,
}
use strata_p2p.P2p.Run.{
  Event, gossip_message, gossipsub_not_supported, request_response, kademlia, identify_received,
  connection, command, gossip_command, request_response_command, kademlia_republish, swarm_changed,
  other, handle,
}
use strata_p2p.P2p.Run.Kept.{Lasts, Lasts-refl, Lasts-apply_penalty, answers_of, Kept, Kept-same}
use strata_p2p.P2p.Run.KeptMessages.{
  Kept-handle_gossip_msg, Kept-handle_request, Kept-handle_response,
}

-- The action on the peer `p` does not take a penalty from `q`.
abbrev pub IsSparing : (q p : PeerId) → Option Action → Type 0
IsSparing q p (some (remove_penalty _)) = p ≢ q
IsSparing q p _ = Unit {0}

-- The command does not take a penalty from the peer.
abbrev pub IsNoPardon : {S : Type 0} → PeerId → Command S → Type 0
IsNoPardon q (set_score p action _) = IsSparing q p action
IsNoPardon q _ = Unit {0}

-- The event is handled before the time `t`, and does not take a penalty from the peer.
abbrev pub IsBefore : {S : Type 0} → PeerId → SystemTime → Event S → Type 0
IsBefore q t (gossip_message _ _ _ at _) = (at.penalty.first ≤ t) × (at.penalty.second ≤ t)
IsBefore q t (request_response _ at _ _) = (at.penalty.first ≤ t) × (at.penalty.second ≤ t)
IsBefore q t (connection _ at) = (at.ban ≤ t) × (at.gossip ≤ t) × (at.req_resp ≤ t)
IsBefore q t (command c _ at _) = (at.first ≤ t) × (at.second ≤ t) × IsNoPardon q c
IsBefore q t _ = Unit {0}

abbrev pub AllBefore : {S : Type 0} → PeerId → SystemTime → List (Event S) → Type 0
AllBefore q t [] = Unit {0}
AllBefore q t (event ∷ events) = IsBefore q t event × AllBefore q t events

module _ {S : Type 0} (q : PeerId) (t : SystemTime) (f : Float S) (deps : Deps) where
  Kept-request_response :
      (n : Node S) (event : ReqRespEvent) (at : ReqRespClock) (outcome : SendOutcome)
      (answer : Answer)
      → at.penalty.first ≤ t
      → at.penalty.second ≤ t
      → Kept q t (answers_of q t n) (handle_request_response_event f deps n event at outcome answer)
  unfolding handle_request_response_event
  Kept-request_response n (request_message peer bytes) at outcome answer h₁ h₂ =
      Kept-handle_request q t f n peer at h₁ h₂ deps bytes outcome answer
  Kept-request_response n (response_message peer bytes) at outcome answer h₁ h₂ =
      Kept-handle_response q t f n peer at h₁ h₂ deps bytes outcome
  Kept-request_response n (outbound_failure peer unsupported) at outcome answer h₁ h₂ =
      Kept-same q t n _ (ground arith)
  Kept-request_response n (inbound_failure peer) at outcome answer h₁ h₂ = Kept-same q t n _ refl
  Kept-request_response n (response_sent peer) at outcome answer h₁ h₂ = Kept-same q t n _ refl

  Kept-moderate :
      (n : Node S) (p : PeerId) (action : Option Action) (at : PenaltyClock)
      → at.first ≤ t
      → at.second ≤ t
      → IsSparing q p action
      → Lasts (answers_of q t n) (answers_of q t (moderate n p action at).0)
  unfolding moderate
  Kept-moderate n p none at h₁ h₂ spared = Lasts-refl (answers_of q t n)
  Kept-moderate n p (some (apply_penalty penalty)) at h₁ h₂ spared =
      Lasts-apply_penalty q t n p penalty at h₁ h₂
  Kept-moderate n p (some (remove_penalty pardon)) at h₁ h₂ spared =
      let e : answers_of q t (Penalty.remove_penalty n p pardon) ≡ answers_of q t n =
        ground (arith, answers-remove_penalty (Reply S) n p q pardon t) in
      rw e (Lasts-refl (answers_of q t n))

  storage-rescore :
      (n : Node S) (p : PeerId) (callback : Option (AppPeerScore S → AppPeerScore S))
      → (rescore f n p callback).peer_penalty_storage ≡ n.peer_penalty_storage
  unfolding rescore
  storage-rescore n p none = refl
  storage-rescore n p (some callback) = refl

  Kept-set_score :
      (n : Node S) (p : PeerId) (action : Option Action)
      (callback : Option (AppPeerScore S → AppPeerScore S)) (now : SystemTime) (at : PenaltyClock)
      (id : QueryId)
      → at.first ≤ t
      → at.second ≤ t
      → IsSparing q p action
      → Kept q t
          (answers_of q t n)
          (handle_command f deps n (set_score p action callback) now at id)
  unfolding handle_command Kept
  Kept-set_score n p action callback now at id h₁ h₂ spared =
      rw (storage-rescore (moderate n p action at).0 p callback)
        (Kept-moderate n p action at h₁ h₂ spared)

  Kept-command :
      (n : Node S) (c : Command S) (now : SystemTime) (at : PenaltyClock) (id : QueryId)
      → at.first ≤ t
      → at.second ≤ t
      → IsNoPardon q c
      → Kept q t (answers_of q t n) (handle_command f deps n c now at id)
  unfolding handle_command connect_to_peer_step get_peer_score_step ask_kademlia_get_record
  Kept-command n (connect_to_peer p []) now at id h₁ h₂ spared = Kept-same q t n _ refl
  Kept-command n (connect_to_peer p (_ ∷ _)) now at id h₁ h₂ spared =
      Kept-same q t n _ (ground arith)
  Kept-command n (disconnect_from_peer p) now at id h₁ h₂ spared = Kept-same q t n _ (ground arith)
  Kept-command n (get_peer_score p) now at id h₁ h₂ spared = Kept-same q t n _ (ground arith)
  Kept-command n (set_score p action callback) now at id h₁ h₂ spared =
      Kept-set_score n p action callback now at id h₁ h₂ spared
  Kept-command n (query_is_connected p) now at id h₁ h₂ spared = Kept-same q t n _ refl
  Kept-command n query_connected_peers now at id h₁ h₂ spared = Kept-same q t n _ refl
  Kept-command n query_listening_addresses now at id h₁ h₂ spared = Kept-same q t n _ refl
  Kept-command n (find_multiaddr p) now at id h₁ h₂ spared = Kept-same q t n _ refl

  Kept-kademlia :
      (n : Node S) (existing : Option Bytes) (event : KademliaEvent) (now : SystemTime)
      → Kept q t (answers_of q t n) (handle_kademlia_event deps n existing event now)
  unfolding handle_kademlia_event
  Kept-kademlia n existing (inbound_put_record r) now = Kept-same q t n _ (ground arith)
  Kept-kademlia n existing (found_record id key value) now = Kept-same q t n _ refl
  Kept-kademlia n existing (get_record_finished id) now = Kept-same q t n _ refl
  Kept-kademlia n existing put_record_ok now = Kept-same q t n _ refl
  Kept-kademlia n existing put_record_failed now = Kept-same q t n _ refl
  Kept-kademlia n existing routing_updated now = Kept-same q t n _ (ground arith)

  Kept-connection :
      (n : Node S) (event : ConnectionEvent) (at : ConnectionClock)
      → at.ban ≤ t
      → at.gossip ≤ t
      → at.req_resp ≤ t
      → Kept q t (answers_of q t n) (handle_connection_event n event at)
  unfolding Kept
  Kept-connection n event at h₁ h₂ h₃ =
      rw (answers-connection_event (Reply S) n event at q t h₁ h₂ h₃)
        (Lasts-refl (answers_of q t n))

  pub Kept-handle :
      (name : Option String) (n : Node S) (event : Event S)
      → IsBefore q t event
      → Kept q t (answers_of q t n) (handle f deps name n event)
  unfolding handle handle_gossip_not_supported handle_identify handle_gossip_command
      handle_request_response_command send_request_to ask_kademlia_put_record publish_record
  Kept-handle name n (gossip_message p id bytes at receivers) h =
      Kept-handle_gossip_msg q t f n p deps id bytes at receivers h.0 h.1
  Kept-handle name n (gossipsub_not_supported p) h = Kept-same q t n _ refl
  Kept-handle name n (request_response event at outcome answer) h =
      Kept-request_response n event at outcome answer h.0 h.1
  Kept-handle name n (kademlia existing event now) h = Kept-kademlia n existing event now
  Kept-handle name n (identify_received p protocols) h = Kept-same q t n _ (ground arith)
  Kept-handle name n (connection event at) h = Kept-connection n event at h.0 h.1 h.2
  Kept-handle name n (command c now at id) h = Kept-command n c now at id h.0 h.1 h.2
  Kept-handle name n (gossip_command message now) h = Kept-same q t n _ (ground arith)
  Kept-handle name n (request_response_command message p now) h = Kept-same q t n _ (ground arith)
  Kept-handle name n (kademlia_republish now) h = Kept-same q t n _ (ground arith)
  Kept-handle name n (swarm_changed swarm) h = Kept-same q t n _ refl
  Kept-handle name n other h = Kept-same q t n _ refl
