-- ===== src/P2p/Gossip.antt =====
-- `handle_gossip_event` and `handle_gossip_msg` of crates/p2p/src/swarm/mod.rs without `byos`.
pub mod Delivery
pub mod Outcome
use strata_p2p.Common.{
  Bool, false, not, Option, none, some, ◌⊎◌, inl, inr, [], ◌∷◌, if◌then◌else◌, unwrap_or,
}
use strata_p2p.Ids.{PeerId, MessageId, Bytes}
use strata_p2p.Time.{SystemTime}
use strata_p2p.Float.{Float}
use strata_p2p.Score
use strata_p2p.Validator.{gossipsub, is_gossip_muted}
use strata_p2p.Message.{GossipMessage, gossip, is_v2, protocol_eq}
use strata_p2p.Message.Signed.{SignedMessage}
use strata_p2p.Message.Signed
use strata_p2p.Envelope.{Limits, is_future, is_stale}
use strata_p2p.P2p.{
  Step, Deps, disconnect_peer_id, report_message_validation_result, accept, reject,
  gossip_received_message, gossip_events_channel_closed, return_ok, return_err,
}
use strata_p2p.P2p.Node.{Node, get_all_scores, decay_gossip_score}
use strata_p2p.P2p.Penalty.{PenaltyClock, apply_penalty}

-- The clock reads of the handler, in the order of the code.
pub record GossipClock : Type 0 where
  pub muted : SystemTime
  pub decay : SystemTime
  pub envelope : SystemTime
  pub penalty : PenaltyClock

pub data Rejection : Type 0 where
  undecodable invalid_signature not_allowed from_the_future stale : Rejection
  wrong_protocol unsupported_version : Rejection

-- The early returns that follow the decoding and the signature: dates, protocol and version.
pub check_gossip_envelope : Limits → SystemTime → GossipMessage → Option Rejection
check_gossip_envelope limits now m =
    if is_future limits now m.date
    then some from_the_future
    else if is_stale limits now m.date
    then some stale
    else if not (protocol_eq m.protocol gossip)
    then some wrong_protocol
    else if not (is_v2 m.version)
    then some unsupported_version
    else none

-- From the received bytes to a verified envelope.
pub open_gossip : Deps → Bytes → Rejection ⊎ SignedMessage GossipMessage
unfolding Signed.verify
open_gossip deps bytes = elim (deps.gossip_wire.from_slice bytes) [
  | none ↦ inl undecodable
  | some signed ↦
      if unwrap_or (Signed.verify deps.gossip_to_vec deps.verify (λ m. m.public_key) signed) false
      then inr signed
      else inl invalid_signature
]

module _ {P : Type 0} {R : Type 0} where
  -- Every rejection is reported to gossipsub in the same way.
  abbrev pub reject_message : P → MessageId → PeerId → Step P R
  reject_message p message_id source =
      return_ok p (report_message_validation_result message_id source reject ∷ [])

  -- Hands the message on; `receivers` says whether the event channel has one.
  unfoldable pub deliver_gossip : P → MessageId → PeerId → Bytes → (receivers : Bool) → Step P R
  deliver_gossip p message_id source message receivers =
      let report = report_message_validation_result message_id source accept in
      if receivers
      then return_ok p (report ∷ gossip_received_message message ∷ [])
      else return_err p (report ∷ []) gossip_events_channel_closed

module _ {S : Type 0} {R : Type 0} where
  -- The cost of the message, the penalty that it may bring, and the delivery.
  unfoldable pub score_gossip :
      Float S → Node S → PeerId → MessageId → Bytes → PenaltyClock → Bool → Step (Node S) R
  unfolding deliver_gossip get_all_scores Score.get_gossipsub_app_score
      Score.update_gossipsub_app_score apply_penalty
  score_gossip f n source message_id message at receivers =
      let old_app_score =
        unwrap_or (Score.get_gossipsub_app_score n.score_manager source)
          (Score.default_gossip_app_score f) in
      let updated_score = n.validator.validate_msg (gossipsub message) old_app_score in
      let n' = record n {
        score_manager = Score.update_gossipsub_app_score n.score_manager source updated_score;
      } in
      let peer_score = get_all_scores f n' source in
      elim (n'.validator.get_penalty (gossipsub message) peer_score) [
        | some penalty ↦
            let (n'', effects) = apply_penalty R n' source penalty at in return_ok n'' effects
        | none ↦ deliver_gossip n' message_id source message receivers
      ]

  unfoldable pub handle_gossip_msg :
      Float S
      → Deps
      → Node S
      → PeerId
      → MessageId
      → Bytes
      → GossipClock
      → (receivers : Bool) → Step (Node S) R
  handle_gossip_msg f deps n source message_id bytes at receivers =
      if is_gossip_muted n.peer_penalty_storage source at.muted
      then return_ok n []
      else (let n' = decay_gossip_score f n source at.decay in
          elim (open_gossip deps bytes) [
            | inl _ ↦ reject_message n' message_id source
            | inr signed ↦
                elim (check_gossip_envelope n'.config.limits at.envelope signed.message) [
                  | some _ ↦ reject_message n' message_id source
                  | none ↦
                      score_gossip f n' source message_id signed.message.message at.penalty
                        receivers
                ]
          ])

  -- `handle_gossip_event` on `GossipsubNotSupported`.
  unfoldable pub handle_gossip_not_supported : Node S → PeerId → Step (Node S) R
  handle_gossip_not_supported n peer_id = return_ok n (disconnect_peer_id peer_id ∷ [])
