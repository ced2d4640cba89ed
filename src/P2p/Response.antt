-- ===== src/P2p/Response.antt =====
-- Responses without the feature `byos`: the `Response` branch of `handle_message_event`, and the
-- other cases of `handle_request_response_event`, of crates/p2p/src/swarm/mod.rs.
pub mod ResponseDelivery
use strata_p2p.Common.{Bool, none, some, [], ◌∷◌, if◌then◌else◌}
use strata_p2p.Ids.{PeerId, Bytes}
use strata_p2p.Float.{Float}
use strata_p2p.Validator.{response, is_req_resp_muted}
use strata_p2p.Message.{ResponseMessage}
use strata_p2p.Envelope.{is_stale}
use strata_p2p.P2p.{Step, Deps, disconnect_peer_id, return_ok}
use strata_p2p.P2p.Node.{Node}
use strata_p2p.P2p.Penalty.{apply_penalty}
use strata_p2p.P2p.ReqResp.{SendOutcome, Answer, is_wrong_envelope, open_response, deliver_response}
use strata_p2p.P2p.Request.{ReqRespClock, charge_req_resp, handle_request}

-- The events of libp2p's request-response behaviour.
pub data ReqRespEvent : Type 0 where
  request_message : PeerId → Bytes → ReqRespEvent
  response_message : PeerId → Bytes → ReqRespEvent
  outbound_failure : PeerId → (unsupported_protocols : Bool) → ReqRespEvent
  inbound_failure : PeerId → ReqRespEvent
  response_sent : PeerId → ReqRespEvent

module _ {S : Type 0} {R : Type 0} where
  unfoldable pub score_response :
      Float S → Node S → PeerId → ResponseMessage → ReqRespClock → SendOutcome → Step (Node S) R
  score_response f n peer_id m at outcome =
      let (n', verdict) = charge_req_resp f n peer_id (response m.message) at.decay in
      elim verdict [
        | some penalty ↦
            let (n'', effects) = apply_penalty R n' peer_id penalty at.penalty in
            return_ok n'' effects
        | none ↦
            if is_stale n'.config.limits at.age m.date
            then return_ok n' []
            else deliver_response n' m.message outcome
      ]

  unfoldable pub handle_response :
      Float S → Deps → Node S → PeerId → Bytes → ReqRespClock → SendOutcome → Step (Node S) R
  handle_response f deps n peer_id bytes at outcome =
      if is_req_resp_muted n.peer_penalty_storage peer_id at.muted
      then return_ok n []
      else elim (open_response deps bytes) [
        | none ↦ return_ok n []
        | some signed ↦
            let m = signed.message in
            if is_wrong_envelope n.config.limits at.envelope m.date m.protocol m.version
            then return_ok n []
            else score_response f n peer_id m at outcome
      ]

  unfoldable pub handle_request_response_event :
      Float S → Deps → Node S → ReqRespEvent → ReqRespClock → SendOutcome → Answer → Step (Node S) R
  handle_request_response_event f deps n (request_message peer bytes) at outcome answer =
      handle_request f deps n peer bytes at outcome answer
  handle_request_response_event f deps n (response_message peer bytes) at outcome answer =
      handle_response f deps n peer bytes at outcome
  handle_request_response_event f deps n (outbound_failure peer unsupported) at outcome answer =
      if unsupported then return_ok n (disconnect_peer_id peer ∷ []) else return_ok n []
  handle_request_response_event f deps n (inbound_failure peer) at outcome answer = return_ok n []
  handle_request_response_event f deps n (response_sent peer) at outcome answer = return_ok n []
