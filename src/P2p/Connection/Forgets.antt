-- ===== src/P2p/Connection/Forgets.antt =====
-- A closed connection and the penalties of its peer.
use strata_p2p.Common.{
  ℕ, ◌≤◌, ◌≡◌, refl, ◌&&◌, none, arith, ◌==◌, if◌then◌else◌, Bool-cases, inl, inr,
}
use strata_p2p.Ids.{PeerId}
use strata_p2p.Map
use strata_p2p.Time.{SystemTime}
use strata_p2p.Score.{remove_peer}
use strata_p2p.Validator.{is_banned, has_active_penalties}
use strata_p2p.Validator.Penalties.{answers, answers-remove_peer}
use strata_p2p.P2p.{Step}
use strata_p2p.P2p.Node.{Node}
use strata_p2p.P2p.Node.Decay.{gossip_score, req_resp_score, last_decay}
use strata_p2p.P2p.Connection.{
  ConnectionEvent, connection_closed, connection_established, outgoing_connection_error,
  incoming_connection_error, ConnectionClock, forget_peer, handle_connection_event,
}

module _ {S : Type 0} (R : Type 0) (n : Node S) (event : ConnectionEvent)
    (at : ConnectionClock) where
  abbrev step : Step (Node S) R
  step = handle_connection_event n event at

  answers-forget :
      (p q : PeerId) (t : SystemTime)
      → at.ban ≤ t
      → at.gossip ≤ t
      → at.req_resp ≤ t
      → answers (forget_peer n p at).peer_penalty_storage q t ≡ answers n.peer_penalty_storage q t
  unfolding forget_peer
  answers-forget p q t h₁ h₂ h₃ =
      elim (Bool-cases
        (has_active_penalties n.peer_penalty_storage p at.ban at.gossip at.req_resp)) [
          | inl active ↦ rw active
          | inr idle ↦ rw idle (
              answers-remove_peer n.peer_penalty_storage p q at.ban at.gossip at.req_resp t h₁ h₂ h₃
                idle)
        ]

  -- No connection event changes whether a peer is muted or banned, at any time from the event's
  -- clock reads on.
  pub answers-connection_event :
      (q : PeerId) (t : SystemTime)
      → at.ban ≤ t
      → at.gossip ≤ t
      → at.req_resp ≤ t
      → answers step.state.peer_penalty_storage q t ≡ answers n.peer_penalty_storage q t
  unfolding handle_connection_event
  answers-connection_event q t h₁ h₂ h₃ = by_event event
    where
      by_event :
          (e : ConnectionEvent)
          → answers (handle_connection_event {R = R} n e at).state.peer_penalty_storage q t
            ≡ answers n.peer_penalty_storage q t
      by_event (connection_established p) =
          elim (Bool-cases (is_banned n.peer_penalty_storage p at.ban)) [
            | inl banned ↦ rw banned
            | inr free ↦ rw free
          ]
      by_event outgoing_connection_error = refl
      by_event incoming_connection_error = refl
      by_event (connection_closed p num) = elim (Bool-cases (num == 0)) [
        | inl last ↦ rw last (answers-forget p q t h₁ h₂ h₃)
        | inr more ↦ rw more
      ]

-- The last connection of a peer takes its scores and its decay time with it; every other peer, and
-- every earlier closing, keeps them.
scores-closed :
    {S : Type 0} (R : Type 0) (n : Node S) (p q : PeerId) (num : ℕ) (at : ConnectionClock)
    → let after = (handle_connection_event {R = R} n (connection_closed p num) at).state in
      let gone = num == 0 && p == q in
      (gossip_score after q ≡ (if gone then none else gossip_score n q))
      × (req_resp_score after q ≡ (if gone then none else req_resp_score n q))
      × (last_decay after q ≡ (if gone then none else last_decay n q))
unfolding handle_connection_event forget_peer remove_peer
scores-closed R n p q num at = (
  ground (arith, Map.get-remove n.score_manager.gossipsub_app_score p q),
  ground (arith, Map.get-remove n.score_manager.req_resp_app_score p q),
  ground (arith, Map.get-remove n.score_manager.last_scoring_decay_time p q),
)
