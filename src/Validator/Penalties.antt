-- ===== src/Validator/Penalties.antt =====
-- What the penalty storage of crates/p2p/src/validator.rs answers after each of its operations.
use strata_p2p.Common.{
  ◌≤◌, ◌≡◌, Bool, false, ◌||◌, inl, inr, arith, ltb, ◌==◌, if◌then◌else◌, Option-cases,
}
use mathlib.Core.Option
use strata_p2p.Ids.{PeerId}
use strata_p2p.Map
use strata_p2p.Time.{SystemTime}
use strata_p2p.Validator.{
  PenaltyInfo, PenaltyPeerStorage, get_mut, is_gossip_muted, is_req_resp_muted, is_banned,
  mute_peer_gossip, mute_peer_req_resp, ban_peer, unban_peer, unmute_peer_gossip,
  unmute_peer_req_resp, has_active_penalties, remove_peer,
}

-- The three answers about a peer.
pub record Answers : Type 0 where
  pub gossip_muted : Bool
  pub req_resp_muted : Bool
  pub banned : Bool

abbrev pub answers : PenaltyPeerStorage → PeerId → SystemTime → Answers
answers s p t = record {
  gossip_muted = is_gossip_muted s p t;
  req_resp_muted = is_req_resp_muted s p t;
  banned = is_banned s p t;
}

get-get_mut :
    (s : PenaltyPeerStorage) (p q : PeerId) (change : PenaltyInfo → PenaltyInfo)
    → Map.get (get_mut s p change).penalties q
      ≡ (if p == q then Option.map change (Map.get s.penalties q) else Map.get s.penalties q)
unfolding get_mut
get-get_mut s p q change = elim (Option-cases (Map.get s.penalties p)) [
  | inl e ↦ ground arith
  | inr (i, e) ↦ ground (arith, Map.get-insert s.penalties p q (change i))
]

module _ (s : PenaltyPeerStorage) (p q : PeerId) where
  module _ (until now t : SystemTime) (later : now ≤ t) where
    -- From the time of the call on, banning a peer adds the term `until` to its ban and changes no
    -- other answer.
    pub answers-ban_peer : answers (ban_peer s p until now) q t ≡ (
        if p == q
        then (let a = answers s q t in record a { banned = a.banned || ltb t until })
        else answers s q t)
    unfolding ban_peer is_gossip_muted is_req_resp_muted is_banned
    answers-ban_peer = simp Map.get-insert (ground arith)

    pub answers-mute_peer_gossip : answers (mute_peer_gossip s p until now) q t ≡ (
        if p == q
        then (let a = answers s q t in record a { gossip_muted = a.gossip_muted || ltb t until })
        else answers s q t)
    unfolding mute_peer_gossip is_gossip_muted is_req_resp_muted is_banned
    answers-mute_peer_gossip = simp Map.get-insert (ground arith)

    pub answers-mute_peer_req_resp : answers (mute_peer_req_resp s p until now) q t ≡ (
        if p == q
        then (let a = answers s q t in
            record a { req_resp_muted = a.req_resp_muted || ltb t until })
        else answers s q t)
    unfolding mute_peer_req_resp is_gossip_muted is_req_resp_muted is_banned
    answers-mute_peer_req_resp = simp Map.get-insert (ground arith)

  module _ (t : SystemTime) where
    pub answers-unban_peer :
        answers (unban_peer s p) q t
        ≡ (if p == q then (let a = answers s q t in record a { banned = false }) else answers s q t)
    unfolding unban_peer is_gossip_muted is_req_resp_muted is_banned
    answers-unban_peer = simp get-get_mut (ground arith)

    pub answers-unmute_peer_gossip : answers (unmute_peer_gossip s p) q t ≡ (
        if p == q
        then (let a = answers s q t in record a { gossip_muted = false })
        else answers s q t)
    unfolding unmute_peer_gossip is_gossip_muted is_req_resp_muted is_banned
    answers-unmute_peer_gossip = simp get-get_mut (ground arith)

    pub answers-unmute_peer_req_resp : answers (unmute_peer_req_resp s p) q t ≡ (
        if p == q
        then (let a = answers s q t in record a { req_resp_muted = false })
        else answers s q t)
    unfolding unmute_peer_req_resp is_gossip_muted is_req_resp_muted is_banned
    answers-unmute_peer_req_resp = simp get-get_mut (ground arith)

-- A peer without active penalties can be forgotten: no answer about it or about another peer
-- changes from the last of the three clock reads on.
pub answers-remove_peer :
    (s : PenaltyPeerStorage) (p q : PeerId) (now₁ now₂ now₃ t : SystemTime)
    → now₁ ≤ t
    → now₂ ≤ t
    → now₃ ≤ t
    → has_active_penalties s p now₁ now₂ now₃ ≡ false
    → answers (remove_peer s p) q t ≡ answers s q t
unfolding remove_peer has_active_penalties is_gossip_muted is_req_resp_muted is_banned
answers-remove_peer s p q now₁ now₂ now₃ t h₁ h₂ h₃ idle = simp Map.get-remove (ground arith)
