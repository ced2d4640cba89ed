-- ===== src/P2p/ReqResp.antt =====
-- The parts of `handle_message_event` and `handle_request_response_command` of
-- crates/p2p/src/swarm/mod.rs that are the same with and without the feature `byos`.
use strata_p2p.Common.{ℕ, Bool, not, ◌||◌, Option, none, some, [], ◌∷◌, ◌==◌, if◌then◌else◌}
use strata_p2p.Ids.{PeerId, PublicKey, Bytes}
use strata_p2p.Time.{SystemTime}
use strata_p2p.Message.{
  RequestMessage, ResponseMessage, ProtocolId, Version, request_response, is_v2, protocol_eq,
  new_request, new_response,
}
use strata_p2p.Message.Signed
use strata_p2p.Message.Signed.{SignedMessage, ApplicationSigner}
use strata_p2p.Envelope.{Limits, is_future}
use strata_p2p.P2p.{
  Step, Deps, received_request, received_response, send_response, send_request,
  req_resp_event_channel_closed, return_ok, return_err,
}

-- The early returns of both messages: future date, protocol and version.
unfoldable pub is_wrong_envelope : Limits → SystemTime → (date : ℕ) → ProtocolId → Version → Bool
is_wrong_envelope limits now date protocol version =
    is_future limits now date
    || (not (protocol_eq protocol request_response) || not (is_v2 version))

-- A request that decodes, with a valid signature, that is meant for this node.
unfoldable pub open_request : Deps → PeerId → Bytes → Option (SignedMessage RequestMessage)
unfolding Signed.verify
open_request deps local_peer_id bytes = elim (deps.request_wire.from_slice bytes) [
  | none ↦ none
  | some signed ↦ elim (Signed.verify deps.request_to_vec deps.verify (λ m. m.public_key) signed) [
    | none ↦ none
    | some is_valid ↦
        if not is_valid
        then none
        else if not (signed.message.destination_peer_id == local_peer_id)
        then none
        else some signed
  ]
]

-- A response that is not empty and decodes, with a valid signature.
unfoldable pub open_response : Deps → Bytes → Option (SignedMessage ResponseMessage)
unfolding Signed.verify
open_response deps [] = none
open_response deps (b ∷ bytes) = elim (deps.response_wire.from_slice (b ∷ bytes)) [
  | none ↦ none
  | some signed ↦
      elim (Signed.verify deps.response_to_vec deps.verify (λ m. m.app_public_key) signed) [
        | none ↦ none
        | some is_valid ↦ if is_valid then some signed else none
      ]
]

-- `timeout(channel_timeout, self.req_resp_events.send(event)).await`
pub data SendOutcome : Type 0 where
  sent channel_closed send_timed_out : SendOutcome

-- `timeout(channel_timeout, rx).await`
pub data Answer : Type 0 where
  answered : Bytes → Answer
  dropped answer_timed_out : Answer

module _ {P : Type 0} {R : Type 0} where
  -- Signs the application's answer and sends it back.
  unfoldable pub answer_request :
      Deps → ApplicationSigner → PublicKey → P → SystemTime → Answer → Step P R
  unfolding Signed.new new_response
  answer_request deps signer public_key p now (answered response) =
      elim (Signed.new deps.response_to_vec signer (new_response now public_key response)) [
        | none ↦ return_ok p []
        | some signed ↦ elim (deps.response_wire.to_vec signed) [
          | none ↦ return_ok p []
          | some bytes ↦ return_ok p (send_response bytes ∷ [])
        ]
      ]
  answer_request deps signer public_key p now dropped = return_ok p []
  answer_request deps signer public_key p now answer_timed_out = return_ok p []

  -- Hands the request to the application and waits for its answer. A send that times out drops the
  -- event, and with it the answer's sender.
  unfoldable pub deliver_request :
      Deps
      → ApplicationSigner
      → PublicKey
      → P
      → Bytes
      → SystemTime
      → SendOutcome
      → Answer
      → Step P R
  unfolding answer_request
  deliver_request deps signer public_key p message now sent answer =
      let step = answer_request deps signer public_key p now answer in
      record step { effects = received_request message ∷ step.effects }
  deliver_request deps signer public_key p message now channel_closed answer =
      return_err p [] req_resp_event_channel_closed
  deliver_request deps signer public_key p message now send_timed_out answer =
      answer_request deps signer public_key p now dropped

  unfoldable pub deliver_response : P → Bytes → SendOutcome → Step P R
  deliver_response p message sent = return_ok p (received_response message ∷ [])
  deliver_response p message channel_closed = return_err p [] req_resp_event_channel_closed
  deliver_response p message send_timed_out = return_ok p []

  -- `handle_request_response_command` once the target's peer id is known.
  unfoldable pub send_request_to :
      Deps
      → ApplicationSigner
      → PublicKey
      → P
      → (connected : Bool) → SystemTime
      → Bytes
      → PeerId
      → Step P R
  unfolding Signed.new new_request
  send_request_to deps signer public_key p connected now message peer_id =
      elim (Signed.new deps.request_to_vec signer (new_request now public_key message peer_id)) [
        | none ↦ return_ok p []
        | some signed ↦ elim (deps.request_wire.to_vec signed) [
          | none ↦ return_ok p []
          | some bytes ↦
              if connected then return_ok p (send_request peer_id bytes ∷ []) else return_ok p []
        ]
      ]
