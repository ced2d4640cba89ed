-- ===== src/Score.antt =====
-- crates/p2p/src/score_manager.rs: the application scores of the peers, one map for each protocol,
-- and the time of each peer's last decay.
use strata_p2p.Common.{[], Option}
use strata_p2p.Ids.{PeerId}
use strata_p2p.Map
use strata_p2p.Map.{Map}
use strata_p2p.Time.{SystemTime}
use strata_p2p.Float.{Float}

pub record ScoreManager (S : Type 0) : Type 0 where
  pub gossipsub_app_score : Map S
  pub req_resp_app_score : Map S
  pub last_scoring_decay_time : Map SystemTime

-- All of a peer's application scores.
pub record AppPeerScore (S : Type 0) : Type 0 where
  pub gossipsub_app_score : S
  pub req_resp_app_score : S

pub record PeerScore (S : Type 0) : Type 0 where
  pub app_score : AppPeerScore S
  pub gossipsub_internal_score : S

module _ {S : Type 0} where
  abbrev pub default_req_resp_app_score : Float S → S
  default_req_resp_app_score f = f.zero

  abbrev pub default_gossip_app_score : Float S → S
  default_gossip_app_score f = f.zero

  unfoldable pub get_gossipsub_app_score : ScoreManager S → PeerId → Option S
  get_gossipsub_app_score m peer_id = Map.get m.gossipsub_app_score peer_id

  unfoldable pub get_req_resp_score : ScoreManager S → PeerId → Option S
  get_req_resp_score m peer_id = Map.get m.req_resp_app_score peer_id

  unfoldable pub update_gossipsub_app_score : ScoreManager S → PeerId → S → ScoreManager S
  update_gossipsub_app_score m peer_id new_score = record m {
    gossipsub_app_score = Map.insert m.gossipsub_app_score peer_id new_score;
  }

  unfoldable pub update_req_resp_app_score : ScoreManager S → PeerId → S → ScoreManager S
  update_req_resp_app_score m peer_id new_score = record m {
    req_resp_app_score = Map.insert m.req_resp_app_score peer_id new_score;
  }

  -- The previous decay time, and the map with the new one.
  unfoldable pub update_last_scoring_decay_time :
      ScoreManager S → PeerId → SystemTime → Option SystemTime × ScoreManager S
  update_last_scoring_decay_time m peer_id time = (
    Map.get m.last_scoring_decay_time peer_id,
    record m { last_scoring_decay_time = Map.insert m.last_scoring_decay_time peer_id time },
  )

  unfoldable pub remove_peer : ScoreManager S → PeerId → ScoreManager S
  remove_peer m peer_id = record {
    gossipsub_app_score = Map.remove m.gossipsub_app_score peer_id;
    req_resp_app_score = Map.remove m.req_resp_app_score peer_id;
    last_scoring_decay_time = Map.remove m.last_scoring_decay_time peer_id;
  }

-- `ScoreManager::new`
unfoldable pub new : (S : Type 0) → ScoreManager S
new S = record { gossipsub_app_score = []; req_resp_app_score = []; last_scoring_decay_time = [] }
