-- ===== src/P2p/Penalty.antt =====
-- `apply_penalty` and `remove_penalty` of crates/p2p/src/swarm/mod.rs.
pub mod Answered
use strata_p2p.Common.{◌+◌, List, [], ◌∷◌, unwrap_or}
use strata_p2p.Ids.{PeerId}
use strata_p2p.Time.{SystemTime}
use strata_p2p.Validator.{
  PenaltyType, mute_gossip, mute_reqresp, mute_both, ban, UnpenaltyType, unban, unmute_gossipsub,
  unmute_request_response, unmute_both, default_ban_period, mute_peer_gossip, mute_peer_req_resp,
  ban_peer, unban_peer, unmute_peer_gossip, unmute_peer_req_resp,
}
use strata_p2p.P2p.{Effect, disconnect_peer_id}
use strata_p2p.P2p.Node.{Node}

-- The clock reads of `apply_penalty`: for `until`, in the first and in the second storage call.
pub record PenaltyClock : Type 0 where
  pub start : SystemTime
  pub first : SystemTime
  pub second : SystemTime

module _ {S : Type 0} (R : Type 0) where
  -- The addition of a time and a duration does not overflow here; Rust's would panic.
  unfoldable pub apply_penalty :
      Node S → PeerId → PenaltyType → PenaltyClock → Node S × List (Effect R)
  apply_penalty n peer_id (mute_gossip time_amount) at =
      let until = at.start + time_amount in
      (
        record n {
          peer_penalty_storage = mute_peer_gossip n.peer_penalty_storage peer_id until at.first;
        },
        [],
      )
  apply_penalty n peer_id (mute_reqresp time_amount) at =
      let until = at.start + time_amount in
      (
        record n {
          peer_penalty_storage = mute_peer_req_resp n.peer_penalty_storage peer_id until at.first;
        },
        [],
      )
  apply_penalty n peer_id (mute_both time_amount) at =
      let until = at.start + time_amount in
      let muted = mute_peer_gossip n.peer_penalty_storage peer_id until at.first in
      (record n { peer_penalty_storage = mute_peer_req_resp muted peer_id until at.second }, [])
  apply_penalty n peer_id (ban opt_time_amount) at =
      let until = at.start + unwrap_or opt_time_amount default_ban_period in
      (
        record n { peer_penalty_storage = ban_peer n.peer_penalty_storage peer_id until at.first },
        disconnect_peer_id peer_id ∷ [],
      )

module _ {S : Type 0} where
  unfoldable pub remove_penalty : Node S → PeerId → UnpenaltyType → Node S
  remove_penalty n target unban = record n {
    peer_penalty_storage = unban_peer n.peer_penalty_storage target;
  }
  remove_penalty n target unmute_both = record n {
    peer_penalty_storage =
        unmute_peer_req_resp (unmute_peer_gossip n.peer_penalty_storage target) target;
  }
  remove_penalty n target unmute_gossipsub = record n {
    peer_penalty_storage = unmute_peer_gossip n.peer_penalty_storage target;
  }
  remove_penalty n target unmute_request_response = record n {
    peer_penalty_storage = unmute_peer_req_resp n.peer_penalty_storage target;
  }
