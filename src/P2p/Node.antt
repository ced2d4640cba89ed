-- ===== src/P2p/Node.antt =====
-- crates/p2p/src/swarm/mod.rs without the feature `byos`: the state `P2P`, and the scores and decay
-- that its handlers share.
pub mod Decay
use strata_p2p.Common.{◌==◌, Bool, Option, List, if◌then◌else◌, unwrap_or, and_then}
use strata_p2p.Ids.{PeerId, PublicKey}
use strata_p2p.Map.{Map}
use strata_p2p.Time.{SystemTime, Duration, duration_since}
use strata_p2p.Float.{Float}
use strata_p2p.Score
use strata_p2p.Score.{ScoreManager, AppPeerScore, PeerScore}
use strata_p2p.Validator.{Validator, PenaltyPeerStorage}
use strata_p2p.Message.{RecordData}
use strata_p2p.Message.Signed.{SignedMessage, ApplicationSigner}
use strata_p2p.Envelope.{Limits}
use strata_p2p.P2p.{Swarm}

-- The fields of `P2PConfig` that the handlers read, without `channel_timeout`, whose expiry is an
-- outcome that the environment chooses.
pub record Config : Type 0 where
  pub limits : Limits
  pub transport_public_key : PublicKey
  pub kad_record_ttl : Option Duration
  pub kad_timer_putrecorderror : Option Duration

pub record Node (S : Type 0) : Type 0 where
  pub swarm : Swarm S
  pub config : Config
  pub signer : ApplicationSigner
  pub score_manager : ScoreManager S
  pub peer_penalty_storage : PenaltyPeerStorage
  pub validator : Validator S
  pub kademlia_map_received_records : Map (List (SignedMessage RecordData))
  pub kademlia_is_routing_updated_first_time : Bool

module _ {S : Type 0} where
  unfoldable pub get_all_scores : Float S → Node S → PeerId → PeerScore S
  unfolding Score.get_gossipsub_app_score Score.get_req_resp_score
  get_all_scores f n peer_id = record {
    app_score = record {
      gossipsub_app_score =
          unwrap_or (Score.get_gossipsub_app_score n.score_manager peer_id)
            (Score.default_gossip_app_score f);
      req_resp_app_score =
          unwrap_or (Score.get_req_resp_score n.score_manager peer_id)
            (Score.default_req_resp_app_score f);
    };
    gossipsub_internal_score = unwrap_or (n.swarm.peer_score peer_id) f.zero;
  }

  -- The time since the peer's last decay, which it sets to `now`.
  unfoldable pub get_elapsed_decay_time : Node S → PeerId → SystemTime → Duration × Node S
  unfolding Score.update_last_scoring_decay_time
  get_elapsed_decay_time n peer_id now =
      let (last_time, scores) = Score.update_last_scoring_decay_time n.score_manager peer_id now in
      (
        unwrap_or (and_then last_time (λ last. duration_since now last)) 0,
        record n { score_manager = scores },
      )

  -- The first block of `handle_gossip_msg`.
  pub decay_gossip_score : Float S → Node S → PeerId → SystemTime → Node S
  unfolding get_all_scores get_elapsed_decay_time Score.update_gossipsub_app_score
  decay_gossip_score f n peer_id now =
      let (elapsed, n') = get_elapsed_decay_time n peer_id now in
      if elapsed == 0
      then n'
      else (let current_score = (get_all_scores f n' peer_id).app_score.gossipsub_app_score in
          let new_score = n'.validator.apply_decay current_score elapsed in
          record n' {
            score_manager = Score.update_gossipsub_app_score n'.score_manager peer_id new_score;
          })

  unfoldable pub decay_request_response_score : Float S → Node S → PeerId → SystemTime → Node S
  unfolding get_all_scores get_elapsed_decay_time Score.update_req_resp_app_score
  decay_request_response_score f n peer_id now =
      let (elapsed, n') = get_elapsed_decay_time n peer_id now in
      if elapsed == 0
      then n'
      else (let current_score = (get_all_scores f n' peer_id).app_score.req_resp_app_score in
          let updated_score = n'.validator.apply_decay current_score elapsed in
          record n' {
            score_manager = Score.update_req_resp_app_score n'.score_manager peer_id updated_score;
          })
