-- ===== src/Examples/Runs.antt =====
-- A muted peer that sends, disconnects and comes back.
use strata_p2p.Common.{◌≡◌, refl, true, none, some, List, [], ◌∷◌, arith}
use strata_p2p.Time.{SystemTime, from_secs}
use strata_p2p.Float.Decimal.{Decimal, decimal}
use strata_p2p.Validator.{mute_both, mute_gossip, apply_penalty as apply_action}
use strata_p2p.Validator.Penalties.{answers}
use strata_p2p.P2p.{return_ok}
use strata_p2p.P2p.Node.{Node}
use strata_p2p.P2p.Penalty.{PenaltyClock, apply_penalty}
use strata_p2p.P2p.Gossip.{GossipClock, handle_gossip_msg}
use strata_p2p.P2p.ReqResp.{sent, dropped}
use strata_p2p.P2p.Request.{ReqRespClock}
use strata_p2p.P2p.Connection.{connection_closed, connection_established, ConnectionClock}
use strata_p2p.P2p.Command.{Reply, set_score}
use strata_p2p.P2p.Run.{Event, gossip_message, connection, command, listen}
use strata_p2p.P2p.Run.Kept.{Lasts}
use strata_p2p.P2p.Run.KeptEvents.{AllBefore}
use strata_p2p.P2p.Run.Terms.{Lasts-listen, muted_is_silent}
use strata_p2p.Examples.{toy_deps, node, now}
use strata_p2p.Examples.Gossips.{hello}

abbrev start : PenaltyClock
start = record { start = now; first = now; second = now }

-- Half a minute later.
abbrev later : SystemTime
later = from_secs 1030

abbrev gossip_clock : GossipClock
gossip_clock = record { muted = later; decay = later; envelope = later; penalty = start }

abbrev clock : ReqRespClock
clock = record {
  muted = later;
  envelope = later;
  decay = later;
  penalty = start;
  age = later;
  answer = later;
}

abbrev connection_clock : ConnectionClock
connection_clock = record { ban = now; gossip = now; req_resp = now }

abbrev events : List (Event Decimal)
events =
    gossip_message 107 1 hello gossip_clock true
    ∷ connection (connection_closed 107 0) connection_clock
    ∷ connection (connection_established 107) connection_clock
    ∷ command (set_score 107 (some (apply_action (mute_gossip (from_secs 1)))) none) now start 1
    ∷ []

events-AllBefore : AllBefore 107 later events
events-AllBefore = (
  (omega arith, omega arith),
  (
    (omega arith, omega arith, omega arith),
    ((omega arith, omega arith, omega arith), ((omega arith, omega arith, tt), tt)),
  ),
)

Lasts-listen_example :
    Lasts
      (answers node.peer_penalty_storage 107 later)
      (answers (listen decimal toy_deps none node events).peer_penalty_storage 107 later)
Lasts-listen_example = Lasts-listen 107 later decimal toy_deps none node events events-AllBefore

abbrev after : Node Decimal
after =
    listen decimal toy_deps none
      (apply_penalty (Reply Decimal) node 107 (mute_both (from_secs 60)) start).0 events

muted_is_silent_example :
    handle_gossip_msg {R = Reply Decimal} decimal toy_deps after 107 2 hello gossip_clock true
    ≡ return_ok after []
muted_is_silent_example =
    (muted_is_silent 107 later decimal toy_deps none node (from_secs 60) start events gossip_clock
      clock 2 hello true sent dropped (omega arith) (omega arith) (omega arith) events-AllBefore
      refl refl).0
