-- ===== src/P2p/Request.antt =====
-- Requests without the feature `byos`: the `Request` branch of `handle_message_event`, and
-- `handle_request_response_command`, of crates/p2p/src/swarm/mod.rs.
pub mod Charge
pub mod RequestDelivery
use strata_p2p.Common.{Option, none, some, [], if◌then◌else◌, unwrap_or}
use strata_p2p.Ids.{PeerId, Bytes}
use strata_p2p.Time.{SystemTime}
use strata_p2p.Float.{Float}
use strata_p2p.Score
use strata_p2p.Validator.{Message, request, is_req_resp_muted, PenaltyType}
use strata_p2p.Message.{RequestMessage}
use strata_p2p.Envelope.{is_stale}
use strata_p2p.P2p.{Step, Deps, is_connected, return_ok}
use strata_p2p.P2p.Node.{Node, get_all_scores, decay_request_response_score}
use strata_p2p.P2p.Penalty.{PenaltyClock, apply_penalty}
use strata_p2p.P2p.ReqResp.{
  SendOutcome, Answer, is_wrong_envelope, open_request, deliver_request, send_request_to,
}

-- The clock reads of the handler, in the order of the code.
pub record ReqRespClock : Type 0 where
  pub muted : SystemTime
  pub envelope : SystemTime
  pub decay : SystemTime
  pub penalty : PenaltyClock
  pub age : SystemTime
  pub answer : SystemTime

module _ {S : Type 0} where
  -- Decay, cost, and the penalty that the new score brings: the block before the age test, the same
  -- for requests and responses.
  unfoldable pub charge_req_resp :
      Float S → Node S → PeerId → Message → SystemTime → Node S × Option PenaltyType
  unfolding get_all_scores Score.get_req_resp_score Score.update_req_resp_app_score
  charge_req_resp f n peer_id msg now =
      let n' = decay_request_response_score f n peer_id now in
      let old_app_score =
        unwrap_or (Score.get_req_resp_score n'.score_manager peer_id)
          (Score.default_req_resp_app_score f) in
      let updated_score = n'.validator.validate_msg msg old_app_score in
      let n'' = record n' {
        score_manager = Score.update_req_resp_app_score n'.score_manager peer_id updated_score;
      } in
      (n'', n''.validator.get_penalty msg (get_all_scores f n'' peer_id))

module _ {S : Type 0} {R : Type 0} where
  -- From the charge on.
  unfoldable pub score_request :
      Float S
      → Deps
      → Node S
      → PeerId
      → RequestMessage
      → ReqRespClock
      → SendOutcome
      → Answer
      → Step (Node S) R
  score_request f deps n peer_id m at outcome answer =
      let (n', verdict) = charge_req_resp f n peer_id (request m.message) at.decay in
      elim verdict [
        | some penalty ↦
            let (n'', effects) = apply_penalty R n' peer_id penalty at.penalty in
            return_ok n'' effects
        | none ↦
            if is_stale n'.config.limits at.age m.date
            then return_ok n' []
            else deliver_request deps n'.signer n'.config.transport_public_key n' m.message
                at.answer outcome answer
      ]

  unfoldable pub handle_request :
      Float S
      → Deps
      → Node S
      → PeerId
      → Bytes
      → ReqRespClock
      → SendOutcome
      → Answer
      → Step (Node S) R
  handle_request f deps n peer_id bytes at outcome answer =
      if is_req_resp_muted n.peer_penalty_storage peer_id at.muted
      then return_ok n []
      else elim (open_request deps n.swarm.local_peer_id bytes) [
        | none ↦ return_ok n []
        | some signed ↦
            let m = signed.message in
            if is_wrong_envelope n.config.limits at.envelope m.date m.protocol m.version
            then return_ok n []
            else score_request f deps n peer_id m at outcome answer
      ]

  unfoldable pub handle_request_response_command :
      Deps → Node S → SystemTime → Bytes → PeerId → Step (Node S) R
  handle_request_response_command deps n now message target_transport_id =
      send_request_to deps n.signer n.config.transport_public_key n
        (is_connected n.swarm target_transport_id) now message target_transport_id
