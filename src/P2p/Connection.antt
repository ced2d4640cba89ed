-- ===== src/P2p/Connection.antt =====
-- `handle_connection_event`, and the `Identify` event, of crates/p2p/src/swarm/mod.rs without `byos`.
pub mod Forgets
use text.Mathlib.Text.{◌==◌ as str_eq}
use Prim.Native.String.{String}
use strata_p2p.Common.{
  ℕ, not, ◌||◌, Bool, false, Option, List, [], ◌∷◌, ◌==◌, any, if◌then◌else◌, unwrap_or,
}
use strata_p2p.Ids.{PeerId}
use strata_p2p.Time.{SystemTime}
use strata_p2p.Score
use strata_p2p.Validator.{is_banned, has_active_penalties, remove_peer}
use strata_p2p.P2p.{Step, disconnect_peer_id, return_ok}
use strata_p2p.P2p.Node.{Node}

pub data ConnectionEvent : Type 0 where
  connection_established : PeerId → ConnectionEvent
  outgoing_connection_error : ConnectionEvent
  incoming_connection_error : ConnectionEvent
  connection_closed : PeerId → (num_established : ℕ) → ConnectionEvent

-- The clock reads: of `is_banned`, or of `has_active_penalties`.
pub record ConnectionClock : Type 0 where
  pub ban : SystemTime
  pub gossip : SystemTime
  pub req_resp : SystemTime

-- `supported.contains(p)` for the three gossipsub versions
abbrev pub is_gossipsub_version : String → Bool
is_gossipsub_version p =
    str_eq p "/meshsub/1.2.0" || (str_eq p "/meshsub/1.1.0" || str_eq p "/meshsub/1.0.0")

-- The default of `protocol_name`.
abbrev pub protocol_name_default : String
protocol_name_default = "/strata"

module _ {S : Type 0} where
  pub forget_peer : Node S → PeerId → ConnectionClock → Node S
  forget_peer n peer_id at = record n {
    score_manager = Score.remove_peer n.score_manager peer_id;
    peer_penalty_storage =
        if not (has_active_penalties n.peer_penalty_storage peer_id at.ban at.gossip at.req_resp)
        then remove_peer n.peer_penalty_storage peer_id
        else n.peer_penalty_storage;
  }

module _ {S : Type 0} {R : Type 0} where
  unfoldable pub handle_connection_event :
      Node S → ConnectionEvent → ConnectionClock → Step (Node S) R
  unfolding forget_peer
  handle_connection_event n (connection_established peer_id) at =
      if not (is_banned n.peer_penalty_storage peer_id at.ban)
      then return_ok n []
      else return_ok n (disconnect_peer_id peer_id ∷ [])
  handle_connection_event n outgoing_connection_error at = return_ok n []
  handle_connection_event n incoming_connection_error at = return_ok n []
  handle_connection_event n (connection_closed peer_id num_established) at =
      if num_established == 0 then return_ok (forget_peer n peer_id at) [] else return_ok n []

-- `Identify`'s `Received`, with the peer's protocols.
unfoldable pub handle_identify :
    {P R : Type 0} → Option String → P → PeerId → (protocols : List String) → Step P R
handle_identify protocol_name n peer_id protocols =
    if not (any is_gossipsub_version protocols)
    then return_ok n (disconnect_peer_id peer_id ∷ [])
    else if not (any (λ p. str_eq p (unwrap_or protocol_name protocol_name_default)) protocols)
    then return_ok n (disconnect_peer_id peer_id ∷ [])
    else return_ok n []
