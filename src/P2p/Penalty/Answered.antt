-- ===== src/P2p/Penalty/Answered.antt =====
-- What penalties and their removal do to the mute and ban answers, whatever was stored before.
use strata_p2p.Common.{
  ◌+◌, ◌≤◌, ◌≡◌, refl, false, ◌||◌, [], ◌∷◌, arith, ltb, ◌==◌, if◌then◌else◌, unwrap_or,
}
use strata_p2p.Ids.{PeerId}
use strata_p2p.Time.{SystemTime}
use strata_p2p.Validator.{
  PenaltyType, mute_gossip, mute_reqresp, mute_both, ban, UnpenaltyType, unban, unmute_gossipsub,
  unmute_request_response, unmute_both, default_ban_period, mute_peer_gossip, unmute_peer_gossip,
}
use strata_p2p.Validator.Penalties.{
  Answers, answers, answers-ban_peer, answers-mute_peer_gossip, answers-mute_peer_req_resp,
  answers-unban_peer, answers-unmute_peer_gossip, answers-unmute_peer_req_resp,
}
use strata_p2p.P2p.{disconnect_peer_id}
use strata_p2p.P2p.Node.{Node}
use strata_p2p.P2p.Penalty.{PenaltyClock, apply_penalty, remove_penalty}

-- What a penalty that starts at `start` means for the answers at a time `t`.
abbrev pub penalized : PenaltyType → SystemTime → SystemTime → Answers → Answers
penalized (mute_gossip d) start t a = record a {
  gossip_muted = a.gossip_muted || ltb t (start + d);
}
penalized (mute_reqresp d) start t a = record a {
  req_resp_muted = a.req_resp_muted || ltb t (start + d);
}
penalized (mute_both d) start t a = record a {
  gossip_muted = a.gossip_muted || ltb t (start + d);
  req_resp_muted = a.req_resp_muted || ltb t (start + d);
}
penalized (ban d) start t a = record a {
  banned = a.banned || ltb t (start + unwrap_or d default_ban_period);
}

abbrev pub pardoned : UnpenaltyType → Answers → Answers
pardoned unban a = record a { banned = false }
pardoned unmute_gossipsub a = record a { gossip_muted = false }
pardoned unmute_request_response a = record a { req_resp_muted = false }
pardoned unmute_both a = record a { gossip_muted = false; req_resp_muted = false }

module _ {S : Type 0} (R : Type 0) (n : Node S) (p q : PeerId) where
  -- From the clock reads of `apply_penalty` on, the penalised peer is muted or banned for the
  -- penalty's term and for as long as it already was, no other answer changes, also about other
  -- peers, and the swarm is asked to disconnect the peer exactly on a ban.
  pub answers-apply_penalty :
      (penalty : PenaltyType) (at : PenaltyClock) (t : SystemTime)
      → at.first ≤ t
      → at.second ≤ t
      → let after = apply_penalty R n p penalty at in
        (answers after.0.peer_penalty_storage q t ≡ (
          let a = answers n.peer_penalty_storage q t in
          if p == q then penalized penalty at.start t a else a))
        × (after.1 ≡ elim penalty [ ban _ ↦ disconnect_peer_id p ∷ [] | _ ↦ [] ])
  unfolding apply_penalty
  answers-apply_penalty (mute_gossip d) at t h₁ h₂ =
      (answers-mute_peer_gossip n.peer_penalty_storage p q _ at.first t h₁, refl)
  answers-apply_penalty (mute_reqresp d) at t h₁ h₂ =
      (answers-mute_peer_req_resp n.peer_penalty_storage p q _ at.first t h₁, refl)
  answers-apply_penalty (mute_both d) at t h₁ h₂ = (
    ground (
      arith,
      answers-mute_peer_gossip n.peer_penalty_storage p q (at.start + d) at.first t h₁,
      answers-mute_peer_req_resp (mute_peer_gossip n.peer_penalty_storage p (at.start + d) at.first)
          p q (at.start + d) at.second t h₂,
    ),
    refl,
  )
  answers-apply_penalty (ban d) at t h₁ h₂ =
      (answers-ban_peer n.peer_penalty_storage p q _ at.first t h₁, refl)

  -- Removing a penalty ends it at once for that peer, and changes no other answer.
  pub answers-remove_penalty :
      (unpenalty : UnpenaltyType) (t : SystemTime)
      → answers (remove_penalty n p unpenalty).peer_penalty_storage q t
        ≡ (let a = answers n.peer_penalty_storage q t in if p == q then pardoned unpenalty a else a)
  unfolding remove_penalty
  answers-remove_penalty unban t = answers-unban_peer n.peer_penalty_storage p q t
  answers-remove_penalty unmute_gossipsub t =
      answers-unmute_peer_gossip n.peer_penalty_storage p q t
  answers-remove_penalty unmute_request_response t =
      answers-unmute_peer_req_resp n.peer_penalty_storage p q t
  answers-remove_penalty unmute_both t = ground (
    arith,
    answers-unmute_peer_gossip n.peer_penalty_storage p q t,
    answers-unmute_peer_req_resp (unmute_peer_gossip n.peer_penalty_storage p) p q t,
  )
