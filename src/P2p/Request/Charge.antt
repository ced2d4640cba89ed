-- ===== src/P2p/Request/Charge.antt =====
-- What a request or a response costs its sender.
use strata_p2p.Common.{◌≡◌, Option, some, arith, ◌==◌, if◌then◌else◌, unwrap_or}
use strata_p2p.Ids.{PeerId}
use strata_p2p.Map
use strata_p2p.Time.{SystemTime}
use strata_p2p.Float.{Float}
use strata_p2p.Score.{update_req_resp_app_score}
use strata_p2p.Validator.{Message, PenaltyType}
use strata_p2p.P2p.Node.{Node, get_all_scores, decay_request_response_score}
use strata_p2p.P2p.Node.Decay.{
  Keeps, gossip_score, req_resp_score, decayed, req_resp_score-decay_request_response_score,
  gossip_score-decay_request_response_score, decay_request_response_score-Keeps,
}
use strata_p2p.P2p.Request.{charge_req_resp}

module _ {S : Type 0} (f : Float S) (n : Node S) (p : PeerId) (msg : Message)
    (now : SystemTime) where
  -- The sender's score after the decay and the cost of the message.
  abbrev pub charged : S
  charged = n.validator.validate_msg msg (unwrap_or (decayed f n p now (req_resp_score n p)) f.zero)

  -- The penalty that the validator sees fit for that score.
  unfoldable pub verdict : Option PenaltyType
  verdict = n.validator.get_penalty msg (record {
    app_score = record {
      gossipsub_app_score = unwrap_or (gossip_score n p) f.zero;
      req_resp_app_score = charged;
    };
    gossipsub_internal_score = unwrap_or (n.swarm.peer_score p) f.zero;
  })

  decayed_score :
      req_resp_score (decay_request_response_score f n p now) p
      ≡ decayed f n p now (req_resp_score n p)
  decayed_score = ground (arith, req_resp_score-decay_request_response_score f n p p now)

  pub charge-Keeps : Keeps n (charge_req_resp f n p msg now).0
  unfolding charge_req_resp
  charge-Keeps =
      let k = decay_request_response_score-Keeps f n p p now in
      record {
        swarm = k.swarm;
        config = k.config;
        signer = k.signer;
        peer_penalty_storage = k.peer_penalty_storage;
        validator = k.validator;
        records = k.records;
        first_time = k.first_time;
      }

  -- The sender's request-response score is charged, and no other score changes.
  scores-charge :
      (q : PeerId)
      → (req_resp_score (charge_req_resp f n p msg now).0 q
          ≡ (if p == q then some charged else req_resp_score n q))
        × (gossip_score (charge_req_resp f n p msg now).0 q ≡ gossip_score n q)
  unfolding charge_req_resp
  scores-charge q =
      let k = decay_request_response_score-Keeps f n p p now in
      let n' = decay_request_response_score f n p now in
      (
        ground (
          arith,
          k.validator,
          decayed_score,
          req_resp_score-decay_request_response_score f n p q now,
          Map.get-insert n'.score_manager.req_resp_app_score p q
              (n'.validator.validate_msg msg (unwrap_or (req_resp_score n' p) f.zero)),
        ),
        gossip_score-decay_request_response_score f n p q now,
      )

  module _ (n' : Node S) (x : S) where
    abbrev scored : Node S
    scored = record n' { score_manager = update_req_resp_app_score n'.score_manager p x }

    verdict-scored :
        n'.validator ≡ n.validator
        → n'.swarm ≡ n.swarm
        → gossip_score n' p ≡ gossip_score n p
        → x ≡ charged
        → scored.validator.get_penalty msg (get_all_scores f scored p) ≡ verdict
    unfolding verdict get_all_scores update_req_resp_app_score
    verdict-scored v w g e =
        rw (Map.get-insert_self n'.score_manager.req_resp_app_score p x, v, w, g, e)

  pub verdict-charge : (charge_req_resp f n p msg now).1 ≡ verdict
  unfolding charge_req_resp
  verdict-charge =
      let k = decay_request_response_score-Keeps f n p p now in
      verdict-scored (decay_request_response_score f n p now) _ k.validator k.swarm
        (gossip_score-decay_request_response_score f n p p now) (rw (k.validator, decayed_score))
