-- ===== src/Examples/Penalties.antt =====
-- The theorems on penalties, scores and closed connections.
use strata_p2p.Common.{◌≡◌, some, [], ◌∷◌, arith}
use strata_p2p.Time.{SystemTime, from_secs}
use strata_p2p.Float.Decimal.{Decimal, tenths}
use strata_p2p.Validator.{ban, unban}
use strata_p2p.Validator.Penalties.{answers}
use strata_p2p.P2p.Node.{Node}
use strata_p2p.P2p.Penalty.{PenaltyClock, apply_penalty, remove_penalty}
use strata_p2p.P2p.Penalty.Answered.{
  answers-apply_penalty, answers-remove_penalty, penalized, pardoned,
}
use strata_p2p.P2p.Connection.{ConnectionClock, connection_closed, handle_connection_event}
use strata_p2p.P2p.Connection.Forgets.{answers-connection_event}
use strata_p2p.P2p.Command.{Reply}
use strata_p2p.Examples.{node, now}

abbrev clock : PenaltyClock
clock = record { start = now; first = now; second = now }

abbrev closed_at : ConnectionClock
closed_at = record { ban = now; gossip = now; req_resp = now }

-- A minute into a ban of an hour.
abbrev later : SystemTime
later = from_secs 1060

abbrev banned : Node Decimal
banned = (apply_penalty (Reply Decimal) node 107 (ban (some (from_secs 3600))) clock).0

answers-apply_penalty_example :
    answers banned.peer_penalty_storage 107 later
    ≡ penalized
        (ban (some (from_secs 3600)))
        now
        later
        (answers node.peer_penalty_storage 107 later)
answers-apply_penalty_example =
    (answers-apply_penalty (Reply Decimal) node 107 107 (ban (some (from_secs 3600))) clock later
      (omega arith) (omega arith)).0

answers-remove_penalty_example :
    answers (remove_penalty banned 107 unban).peer_penalty_storage 107 later
    ≡ pardoned unban (answers banned.peer_penalty_storage 107 later)
answers-remove_penalty_example = answers-remove_penalty (Reply Decimal) banned 107 107 unban later

answers-connection_event_example :
    answers
      (handle_connection_event {R = Reply Decimal} banned
        (connection_closed 107 0)
        closed_at).state.peer_penalty_storage
      107
      later
    ≡ answers banned.peer_penalty_storage 107 later
answers-connection_event_example =
    answers-connection_event (Reply Decimal) banned (connection_closed 107 0) closed_at 107 later
      (omega arith) (omega arith) (omega arith)

abbrev scored : Node Decimal
scored = record node {
  score_manager = record {
    gossipsub_app_score = (107, tenths 0 50) ∷ [];
    req_resp_app_score = [];
    last_scoring_decay_time = (107, now) ∷ [];
  };
}
