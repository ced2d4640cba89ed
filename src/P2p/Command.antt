-- ===== src/P2p/Command.antt =====
-- `handle_command` of crates/p2p/src/swarm/mod.rs without the feature `byos`.
pub mod Scores
use strata_p2p.Common.{Bool, Option, none, some, List, [], ◌∷◌, ◌==◌, if◌then◌else◌}
use strata_p2p.Ids.{PeerId, QueryId, Multiaddr}
use strata_p2p.Time.{SystemTime}
use strata_p2p.Float.{Float}
use strata_p2p.Score
use strata_p2p.Score.{AppPeerScore, PeerScore}
use strata_p2p.Validator.{Action, apply_penalty, remove_penalty}
use strata_p2p.P2p.{
  Step, Effect, Deps, is_connected, disconnect_peer_id, dial_peer, reply, return_ok,
}
use strata_p2p.P2p.Node.{Node, get_all_scores, get_elapsed_decay_time}
use strata_p2p.P2p.Penalty
use strata_p2p.P2p.Penalty.{PenaltyClock}
use strata_p2p.P2p.Dial.{sort_addresses}
use strata_p2p.P2p.Kademlia.{ask_kademlia_get_record}

-- commands.rs; the response senders are the `reply` effects.
pub data Command (S : Type 0) : Type 0 where
  connect_to_peer : PeerId → List Multiaddr → Command S
  disconnect_from_peer : PeerId → Command S
  get_peer_score : PeerId → Command S
  set_score : PeerId → Option Action → Option (AppPeerScore S → AppPeerScore S) → Command S
  query_is_connected : PeerId → Command S
  query_connected_peers : Command S
  query_listening_addresses : Command S
  find_multiaddr : PeerId → Command S

pub data Reply (S : Type 0) : Type 0 where
  peer_score : PeerScore S → Reply S
  connected : Bool → Reply S
  connected_peers : List PeerId → Reply S
  listening_addresses : List Multiaddr → Reply S

module _ {S : Type 0} where
  unfoldable pub connect_to_peer_step :
      Deps → Node S → PeerId → List Multiaddr → Step (Node S) (Reply S)
  connect_to_peer_step deps n transport_id [] = return_ok n []
  connect_to_peer_step deps n transport_id (a ∷ addresses) =
      if is_connected n.swarm transport_id
      then return_ok n []
      else return_ok n (dial_peer transport_id (sort_addresses deps.is_quic (a ∷ addresses)) ∷ [])

  -- The decay of both scores, by the time since the last decay of either.
  unfoldable pub get_peer_score_step :
      Float S → Node S → PeerId → SystemTime → Step (Node S) (Reply S)
  unfolding get_all_scores get_elapsed_decay_time Score.update_gossipsub_app_score
      Score.update_req_resp_app_score
  get_peer_score_step f n peer_id now =
      let score = get_all_scores f n peer_id in
      let (elapsed, n') = get_elapsed_decay_time n peer_id now in
      if elapsed == 0
      then return_ok n' (reply (peer_score score) ∷ [])
      else (let new_score = n'.validator.apply_decay score.app_score.gossipsub_app_score elapsed in
          let updated_score = n'.validator.apply_decay score.app_score.req_resp_app_score elapsed in
          return_ok
            (record n' {
              score_manager =
                  Score.update_req_resp_app_score
                    (Score.update_gossipsub_app_score n'.score_manager peer_id new_score) peer_id
                    updated_score;
            })
            (reply (
                peer_score (record score {
                  app_score = record {
                    gossipsub_app_score = new_score;
                    req_resp_app_score = updated_score;
                  };
                }))
              ∷ []))

  unfoldable pub moderate :
      Node S → PeerId → Option Action → PenaltyClock → Node S × List (Effect (Reply S))
  unfolding Penalty.apply_penalty Penalty.remove_penalty
  moderate n target none at = (n, [])
  moderate n target (some (apply_penalty penalty)) at =
      Penalty.apply_penalty (Reply S) n target penalty at
  moderate n target (some (remove_penalty unpenalty)) at =
      (Penalty.remove_penalty n target unpenalty, [])

  unfoldable pub rescore :
      Float S → Node S → PeerId → Option (AppPeerScore S → AppPeerScore S) → Node S
  unfolding get_all_scores Score.update_gossipsub_app_score Score.update_req_resp_app_score
  rescore f n target none = n
  rescore f n target (some callback) =
      let new_scores = callback (get_all_scores f n target).app_score in
      record n {
        score_manager =
            Score.update_req_resp_app_score
              (Score.update_gossipsub_app_score n.score_manager target
                new_scores.gossipsub_app_score)
              target new_scores.req_resp_app_score;
      }

  unfoldable pub handle_command :
      Float S
      → Deps
      → Node S
      → Command S
      → (now : SystemTime) → PenaltyClock
      → QueryId
      → Step (Node S) (Reply S)
  handle_command f deps n (connect_to_peer transport_id addresses) now at id =
      connect_to_peer_step deps n transport_id addresses
  handle_command f deps n (disconnect_from_peer target) now at id =
      if is_connected n.swarm target
      then return_ok n (disconnect_peer_id target ∷ [])
      else return_ok n []
  handle_command f deps n (get_peer_score peer_id) now at id = get_peer_score_step f n peer_id now
  handle_command f deps n (set_score target action callback) now at id =
      let (n', effects) = moderate n target action at in
      return_ok (rescore f n' target callback) effects
  handle_command f deps n (query_is_connected transport_id) now at id =
      return_ok n (reply (connected (is_connected n.swarm transport_id)) ∷ [])
  handle_command f deps n query_connected_peers now at id =
      return_ok n (reply (connected_peers n.swarm.connected_peers) ∷ [])
  handle_command f deps n query_listening_addresses now at id =
      return_ok n (reply (listening_addresses n.swarm.listeners) ∷ [])
  handle_command f deps n (find_multiaddr transport_id) now at id =
      ask_kademlia_get_record deps n transport_id id
