-- ===== src/P2p/Node/Decay.antt =====
-- The scores of a peer and what a decay does to them.
use strata_p2p.Common.{◌-◌, ◌≡◌, Option, none, some, arith, leb, ◌==◌, if◌then◌else◌, unwrap_or}
use strata_p2p.Ids.{PeerId}
use strata_p2p.Map
use strata_p2p.Time.{SystemTime, Duration}
use strata_p2p.Float.{Float}
use strata_p2p.P2p.Node.{Node, decay_gossip_score, decay_request_response_score}

-- The time since a peer's last decay; none passes for a new peer, or when the clock went back.
abbrev pub elapsed : Option SystemTime → SystemTime → Duration
elapsed none now = 0
elapsed (some last) now = if leb last now then now - last else 0

module _ {S : Type 0} where
  abbrev pub last_decay : Node S → PeerId → Option SystemTime
  last_decay n p = Map.get n.score_manager.last_scoring_decay_time p

  abbrev pub gossip_score : Node S → PeerId → Option S
  gossip_score n p = Map.get n.score_manager.gossipsub_app_score p

  abbrev pub req_resp_score : Node S → PeerId → Option S
  req_resp_score n p = Map.get n.score_manager.req_resp_app_score p

  -- A score after the decay at `now`.
  abbrev pub decayed : Float S → Node S → PeerId → SystemTime → Option S → Option S
  decayed f n p now score =
      let d = elapsed (last_decay n p) now in
      if d == 0 then score else some (n.validator.apply_decay (unwrap_or score f.zero) d)

-- What a decay keeps besides the scores.
pub record Keeps {S : Type 0} (n m : Node S) : Type 0 where
  pub swarm : m.swarm ≡ n.swarm
  pub config : m.config ≡ n.config
  pub signer : m.signer ≡ n.signer
  pub peer_penalty_storage : m.peer_penalty_storage ≡ n.peer_penalty_storage
  pub validator : m.validator ≡ n.validator
  pub records : m.kademlia_map_received_records ≡ n.kademlia_map_received_records
  pub first_time :
      m.kademlia_is_routing_updated_first_time ≡ n.kademlia_is_routing_updated_first_time

module _ {S : Type 0} (f : Float S) (n : Node S) (p q : PeerId) (now : SystemTime) where
  pub gossip_score-decay_gossip_score :
      gossip_score (decay_gossip_score f n p now) q
      ≡ (if p == q then decayed f n p now (gossip_score n p) else gossip_score n q)
  unfolding decay_gossip_score
  gossip_score-decay_gossip_score = ground (
    arith,
    Map.get-insert n.score_manager.gossipsub_app_score p q (
        n.validator.apply_decay (unwrap_or (gossip_score n p) f.zero)
          (elapsed (last_decay n p) now)),
  )

  pub req_resp_score-decay_gossip_score :
      req_resp_score (decay_gossip_score f n p now) q ≡ req_resp_score n q
  unfolding decay_gossip_score
  req_resp_score-decay_gossip_score = ground arith

  pub last_decay-decay_gossip_score :
      last_decay (decay_gossip_score f n p now) q ≡ (if p == q then some now else last_decay n q)
  unfolding decay_gossip_score
  last_decay-decay_gossip_score =
      ground (arith, Map.get-insert n.score_manager.last_scoring_decay_time p q now)

  pub decay_gossip_score-Keeps : Keeps n (decay_gossip_score f n p now)
  unfolding decay_gossip_score
  decay_gossip_score-Keeps = ground arith

  pub req_resp_score-decay_request_response_score :
      req_resp_score (decay_request_response_score f n p now) q
      ≡ (if p == q then decayed f n p now (req_resp_score n p) else req_resp_score n q)
  unfolding decay_request_response_score
  req_resp_score-decay_request_response_score = ground (
    arith,
    Map.get-insert n.score_manager.req_resp_app_score p q (
        n.validator.apply_decay (unwrap_or (req_resp_score n p) f.zero)
          (elapsed (last_decay n p) now)),
  )

  pub gossip_score-decay_request_response_score :
      gossip_score (decay_request_response_score f n p now) q ≡ gossip_score n q
  unfolding decay_request_response_score
  gossip_score-decay_request_response_score = ground arith

  last_decay-decay_request_response_score :
      last_decay (decay_request_response_score f n p now) q
      ≡ (if p == q then some now else last_decay n q)
  unfolding decay_request_response_score
  last_decay-decay_request_response_score =
      ground (arith, Map.get-insert n.score_manager.last_scoring_decay_time p q now)

  pub decay_request_response_score-Keeps : Keeps n (decay_request_response_score f n p now)
  unfolding decay_request_response_score
  decay_request_response_score-Keeps = ground arith
