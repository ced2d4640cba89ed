-- ===== src/Byos/Run/Quiet.antt =====
-- The handlers of the byos loop that leave the node as it is.
use Prim.Native.String.{String}
use strata_p2p.Common.{◌≡◌, refl, Bool, true, false, Option, inl, inr, List, arith, Option-cases}
use strata_p2p.Ids.{PeerId, PublicKey, Bytes}
use strata_p2p.Time.{SystemTime}
use strata_p2p.Message.Signed.{ApplicationSigner}
use strata_p2p.P2p.{Deps, is_connected}
use strata_p2p.P2p.Gossip.{deliver_gossip}
use strata_p2p.P2p.ReqResp.{
  SendOutcome, sent, channel_closed, send_timed_out, Answer, answered, dropped, answer_timed_out,
  open_request, answer_request, deliver_request, deliver_response, send_request_to,
}
use strata_p2p.P2p.Response.{
  ReqRespEvent, request_message, response_message, outbound_failure, inbound_failure, response_sent,
}
use strata_p2p.P2p.Records.{publish_record}
use strata_p2p.P2p.Publish.{handle_gossip_command}
use strata_p2p.Setup.{SetupBehaviourEvent}
use strata_p2p.Setup.Behaviour.{get_transport_id_by_application_key}
use strata_p2p.Byos.{Node, Reply}
use strata_p2p.Byos.Messages.{
  ReqRespClock, handle_gossip_msg, handle_request, handle_response, handle_request_response_command,
}
use strata_p2p.Byos.Kademlia.{ask_kademlia_put_record}
use strata_p2p.Byos.Control.{handle_setup_event}
use strata_p2p.Byos.Run.{handle_identify, handle_request_response_event}

module _ (R : Type 0) {P : Type 0} (deps : Deps) (signer : ApplicationSigner) (key : PublicKey)
    (p : P) where
  answer-state :
      (now : SystemTime) (answer : Answer)
      → (answer_request {R = R} deps signer key p now answer).state ≡ p
  unfolding answer_request
  answer-state now (answered r) = ground arith
  answer-state now dropped = refl
  answer-state now answer_timed_out = refl

  deliver-state :
      (m : Bytes) (now : SystemTime) (outcome : SendOutcome) (answer : Answer)
      → (deliver_request {R = R} deps signer key p m now outcome answer).state ≡ p
  unfolding deliver_request
  deliver-state m now sent answer = answer-state now answer
  deliver-state m now channel_closed answer = refl
  deliver-state m now send_timed_out answer = refl

  send-state :
      (connected : Bool) (now : SystemTime) (m : Bytes) (peer : PeerId)
      → (send_request_to {R = R} deps signer key p connected now m peer).state ≡ p
  unfolding send_request_to
  send-state connected now m peer = ground arith

  pub publish-state :
      (now : SystemTime) (m : Bytes)
      → (handle_gossip_command {R = R} deps signer key p now m).state ≡ p
  unfolding handle_gossip_command
  publish-state now m = ground arith

module _ {S Q : Type 0} (deps : Deps) (n : Node S Q) where
  pub gossip-state :
      (source id : PeerId) (bytes : Bytes) (now : SystemTime) (receivers : Bool)
      → (handle_gossip_msg deps n source id bytes now receivers).state ≡ n
  unfolding handle_gossip_msg deliver_gossip
  gossip-state source id bytes now receivers = ground arith

  response-state :
      (peer : PeerId) (bytes : Bytes) (at : ReqRespClock) (outcome : SendOutcome)
      → (handle_response deps n peer bytes at outcome).state ≡ n
  unfolding handle_response deliver_response
  response-state peer bytes at sent = ground arith
  response-state peer bytes at channel_closed = ground arith
  response-state peer bytes at send_timed_out = ground arith

  request-state :
      (peer : PeerId) (bytes : Bytes) (at : ReqRespClock) (outcome : SendOutcome) (answer : Answer)
      → (handle_request deps n peer bytes at outcome answer).state ≡ n
  unfolding handle_request
  request-state peer bytes at outcome answer =
      elim (Option-cases (open_request deps n.swarm.local_peer_id bytes)) [
        | inl closed ↦ ground arith
        | inr (signed, e) ↦ ground (
          arith,
          e,
          deliver-state Reply deps n.signer n.config.app_public_key n signed.message.message
              at.answer outcome answer,
        )
      ]

  pub req_resp-state :
      (event : ReqRespEvent) (at : ReqRespClock) (outcome : SendOutcome) (answer : Answer)
      → (handle_request_response_event deps n event at outcome answer).state ≡ n
  unfolding handle_request_response_event
  req_resp-state (request_message peer bytes) at outcome answer =
      request-state peer bytes at outcome answer
  req_resp-state (response_message peer bytes) at outcome answer =
      response-state peer bytes at outcome
  req_resp-state (outbound_failure peer true) at outcome answer = refl
  req_resp-state (outbound_failure peer false) at outcome answer = refl
  req_resp-state (inbound_failure peer) at outcome answer = refl
  req_resp-state (response_sent peer) at outcome answer = refl

  pub request_command-state :
      (now : SystemTime) (m : Bytes) (target : PublicKey)
      → (handle_request_response_command deps n now m target).state ≡ n
  unfolding handle_request_response_command
  request_command-state now m target =
      elim (Option-cases (get_transport_id_by_application_key n.setup target)) [
        | inl e ↦ ground arith
        | inr (peer, e) ↦ ground (
          arith,
          e,
          send-state Reply deps n.signer n.config.app_public_key n (is_connected n.swarm peer) now m
              peer,
        )
      ]

  pub put_record-state : (now : SystemTime) → (ask_kademlia_put_record deps n now).state ≡ n
  unfolding ask_kademlia_put_record publish_record
  put_record-state now = ground arith

  setup_event-state : (e : SetupBehaviourEvent) → (handle_setup_event n e).state ≡ n
  unfolding handle_setup_event
  setup_event-state e = ground arith

  pub identify-state :
      (name : Option String) (peer : PeerId) (protocols : List String)
      → (handle_identify name n peer protocols).state ≡ n
  unfolding handle_identify
  identify-state name peer protocols = ground arith
