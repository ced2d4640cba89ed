-- ===== src/Examples/Asked.antt =====
-- The theorem on the queries of a handle, behind a ban, a new connection and an event of gossipsub.
use strata_p2p.Common.{◌≡◌, true, none, some, List, [], ◌∷◌}
use strata_p2p.Float.Decimal.{Decimal, decimal}
use strata_p2p.Validator.{ban, apply_penalty}
use strata_p2p.P2p.Penalty.{PenaltyClock}
use strata_p2p.P2p.Command.{set_score}
use strata_p2p.P2p.Run.{Event, command, gossipsub_not_supported, swarm_changed, handle, listen}
use strata_p2p.P2p.Penalty
use strata_p2p.P2p.Command.{handle_command, moderate, rescore}
use strata_p2p.P2p.Gossip.{handle_gossip_not_supported}
use strata_p2p.Handle.{initial_timeout_ms, is_connected}
use strata_p2p.Handle.Turns.{Turn, asked, bool_reply, all_served, answered_in_turn}
use strata_p2p.Examples.{toy_deps, node, now, swarm}

abbrev clock : PenaltyClock
clock = record { start = now; first = now; second = now }

-- The peer 110 connects while the query waits, and another one turns out not to speak gossipsub.
abbrev ahead : List (Event Decimal)
ahead =
    command (set_score 109 (some (apply_penalty (ban none))) none) now clock 1
    ∷ swarm_changed (record swarm { connected_peers = 110 ∷ 107 ∷ [] })
    ∷ gossipsub_not_supported 108
    ∷ []

abbrev turn : Turn
turn = record { now = now; at = clock; query_id = 3; in_time = true }

answered_in_turn_example :
    asked decimal toy_deps none bool_reply node ahead
      (is_connected initial_timeout_ms none 110)
      turn
      true
    ≡ true
unfolding all_served listen handle handle_command moderate rescore Penalty.apply_penalty
    handle_gossip_not_supported
answered_in_turn_example =
    (answered_in_turn decimal toy_deps none node ahead 110 initial_timeout_ms none turn true).0
