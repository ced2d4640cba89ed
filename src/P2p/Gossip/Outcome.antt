-- ===== src/P2p/Gossip/Outcome.antt =====
-- Rejections, errors and scores after a gossip message, and what it leaves alone.
use strata_p2p.Common.{
  ◌≡◌, ◌≢◌, ◌↔◌, ◌⊎◌, refl, Bool, true, false, some, inl, inr, [], ◌∷◌, arith, Option-cases,
}
use strata_p2p.Ids.{PeerId, MessageId, Bytes}
use strata_p2p.Float.{Float}
use strata_p2p.Validator.{is_gossip_muted, PenaltyType, mute_gossip, mute_reqresp, mute_both, ban}
use strata_p2p.Message.{GossipMessage}
use strata_p2p.Message.Signed.{SignedMessage}
use strata_p2p.P2p.{
  Step, Deps, report_message_validation_result, reject, gossip_events_channel_closed, ok, err,
  return_ok,
}
use strata_p2p.P2p.Node.{Node, decay_gossip_score, decay_request_response_score}
use strata_p2p.P2p.Node.Decay.{
  req_resp_score, last_decay, req_resp_score-decay_gossip_score, last_decay-decay_gossip_score,
  decay_gossip_score-Keeps, req_resp_score-decay_request_response_score,
}
use strata_p2p.P2p.Penalty.{PenaltyClock, apply_penalty}
use strata_p2p.P2p.Gossip.{
  GossipClock, Rejection, check_gossip_envelope, open_gossip, score_gossip, deliver_gossip,
  handle_gossip_msg,
}
use strata_p2p.P2p.Gossip.Delivery.{IsAuthentic, IsAuthentic-of_checks, received}

module _ {S : Type 0} (f : Float S) (R : Type 0) (deps : Deps) (n : Node S) (source : PeerId) where
  module _ (id : MessageId) (bytes : Bytes) (at : GossipClock) (receivers : Bool) where
    abbrev step : Step (Node S) R
    step = handle_gossip_msg f deps n source id bytes at receivers

    -- A message from a sender that is not muted, which is no authentic envelope, is reported to
    -- gossipsub as rejected and does nothing else but the decay of the sender's gossip score.
    forged_rejected :
        is_gossip_muted n.peer_penalty_storage source at.muted ≡ false
        → ((signed : SignedMessage GossipMessage)
            → ¬ IsAuthentic deps n.config.limits bytes at.envelope signed)
        → step
          ≡ return_ok
              (decay_gossip_score f n source at.decay)
              (report_message_validation_result id source reject ∷ [])
    unfolding handle_gossip_msg
    forged_rejected heard forged = from_open (open_gossip deps bytes) refl
      where
        config : (decay_gossip_score f n source at.decay).config ≡ n.config
        config = (decay_gossip_score-Keeps f n source source at.decay).config

        from_open :
            (o : Rejection ⊎ SignedMessage GossipMessage)
            → open_gossip deps bytes ≡ o
            → step
              ≡ return_ok
                  (decay_gossip_score f n source at.decay)
                  (report_message_validation_result id source reject ∷ [])
        from_open (inl r) e = ground arith
        from_open (inr signed) e =
            elim (Option-cases (check_gossip_envelope n.config.limits at.envelope signed.message)) [
              | inl passed ↦ absurd (
                  forged signed
                    (IsAuthentic-of_checks deps n.config.limits bytes at.envelope signed e passed))
              | inr (r, failed) ↦ ground (arith, config)
            ]

    -- The penalties that a message may bring never touch scores.
    scores_after_penalty :
        (m : Node S) (penalty : PenaltyType) (clock : PenaltyClock)
        → (apply_penalty R m source penalty clock).0.score_manager ≡ m.score_manager
    unfolding apply_penalty
    scores_after_penalty m (mute_gossip d) clock = refl
    scores_after_penalty m (mute_reqresp d) clock = refl
    scores_after_penalty m (mute_both d) clock = refl
    scores_after_penalty m (ban d) clock = refl

    -- A gossip message from a sender that is not muted restarts the sender's decay clock and leaves
    -- its request-response score as it is.
    gossip_restarts_decay :
        is_gossip_muted n.peer_penalty_storage source at.muted ≡ false
        → (last_decay step.state source ≡ some at.decay)
          × (req_resp_score step.state source ≡ req_resp_score n source)
    unfolding handle_gossip_msg score_gossip deliver_gossip
    gossip_restarts_decay heard = (
      ground (arith, last_decay-decay_gossip_score f n source source at.decay),
      ground (arith, req_resp_score-decay_gossip_score f n source source at.decay),
    )

    -- After a gossip message from a sender that is not muted, a request-response decay at the time
    -- of that message's decay leaves the sender's request-response score as it was before the
    -- message, however long ago the last decay was.
    pub gossip_erases_decay :
        is_gossip_muted n.peer_penalty_storage source at.muted ≡ false
        → req_resp_score (decay_request_response_score f step.state source at.decay) source
          ≡ req_resp_score n source
    gossip_erases_decay heard =
        let (restarted, kept) = gossip_restarts_decay heard in
        ground (
          arith,
          restarted,
          kept,
          req_resp_score-decay_request_response_score f step.state source source at.decay,
        )

  module _ (id : MessageId) (bytes : Bytes) (at : GossipClock) where
    -- With a listener the handler never fails. Without one its only error is that the channel is
    -- closed, and it succeeds exactly on the messages that a listener would not have received.
    pub error_iff :
        ((handle_gossip_msg {R = R} f deps n source id bytes at true).result ≡ ok)
        × (((handle_gossip_msg {R = R} f deps n source id bytes at false).result
              ≡ err gossip_events_channel_closed)
            ↔ ((handle_gossip_msg {R = R} f deps n source id bytes at false).result ≢ ok))
        × (((handle_gossip_msg {R = R} f deps n source id bytes at false).result ≡ ok)
            ↔ (received (handle_gossip_msg {R = R} f deps n source id bytes at true).effects ≡ []))
    unfolding handle_gossip_msg score_gossip deliver_gossip
    error_iff = (ground arith, (ground arith, ground arith), (ground arith, ground arith))
