-- ===== src/P2p/Run/Terms.antt =====
-- Penalties last for their terms, whatever happens meanwhile.
use Prim.Native.String.{String}
use strata_p2p.Common.{◌≤◌, ◌<◌, ◌+◌, ◌≡◌, refl, ap, ◌∙◌, true, Option, List, [], ◌∷◌, arith, Bool}
use strata_p2p.Ids.{PeerId, MessageId, Bytes}
use strata_p2p.Time.{SystemTime, Duration}
use strata_p2p.Float.{Float}
use strata_p2p.Validator.{mute_both, is_gossip_muted, is_req_resp_muted}
use strata_p2p.Validator.Penalties.{Answers, answers}
use strata_p2p.P2p.{Deps, P2PResult, ok, err, panicked, return_ok}
use strata_p2p.P2p.Node.{Node}
use strata_p2p.P2p.Penalty.{PenaltyClock, apply_penalty}
use strata_p2p.P2p.Penalty.Answered.{answers-apply_penalty}
use strata_p2p.P2p.Gossip.{GossipClock, handle_gossip_msg}
use strata_p2p.P2p.ReqResp.{SendOutcome, Answer}
use strata_p2p.P2p.Request.{ReqRespClock, handle_request}
use strata_p2p.P2p.Response.{handle_response}
use strata_p2p.P2p.Command.{Reply}
use strata_p2p.P2p.Run.{Event, handle, listen}
use strata_p2p.P2p.Run.Kept.{Lasts, Lasts-refl, answers_of, Kept}
use strata_p2p.P2p.Run.KeptEvents.{AllBefore, Kept-handle}

Lasts-trans : {a b c : Answers} → Lasts a b → Lasts b c → Lasts a c
Lasts-trans x y = record {
  gossip = λ e. y.gossip (x.gossip e);
  req_resp = λ e. y.req_resp (x.req_resp e);
  banned = λ e. y.banned (x.banned e);
}

module _ {S : Type 0} (q : PeerId) (t : SystemTime) (f : Float S) (deps : Deps)
    (name : Option String) where
  Lasts-result :
      (a : Answers) (r : P2PResult) (x y : Node S)
      → Lasts a (answers_of q t x)
      → Lasts a (answers_of q t y)
      → Lasts a (answers_of q t (elim r as (λ _. Node S) [ ok ↦ x | err _ ↦ y | panicked ↦ y ]))
  Lasts-result a ok x y hx hy = hx
  Lasts-result a (err e) x y hx hy = hy
  Lasts-result a panicked x y hx hy = hy

  -- Whatever the loop handles before the time `t`, a peer that the stored penalties mute or ban at
  -- `t` is muted or banned at `t` afterwards, as long as no command removes a penalty from that
  -- peer.
  pub Lasts-listen :
      (n : Node S) (events : List (Event S))
      → AllBefore q t events
      → Lasts
          (answers n.peer_penalty_storage q t)
          (answers (listen f deps name n events).peer_penalty_storage q t)
  unfolding listen Kept
  Lasts-listen n [] h = Lasts-refl (answers_of q t n)
  Lasts-listen n (event ∷ events) h =
      let step = handle f deps name n event in
      let first = Kept-handle q t f deps name n event h.0 in
      Lasts-result (answers_of q t n) step.result (listen f deps name step.state events) step.state
        (Lasts-trans first (Lasts-listen step.state events h.1)) first

  muted_at_first :
      (n : Node S) (d : Duration) (start : PenaltyClock)
      → start.first ≤ t
      → start.second ≤ t
      → t < start.start + d
      → let muted = (apply_penalty (Reply S) n q (mute_both d) start).0 in
        (is_gossip_muted muted.peer_penalty_storage q t ≡ true)
        × (is_req_resp_muted muted.peer_penalty_storage q t ≡ true)
  muted_at_first n d start h₁ h₂ before =
      let e = (answers-apply_penalty (Reply S) n q q (mute_both d) start t h₁ h₂).0 in
      (
        ap (λ (a : Answers). a.gossip_muted) e ∙ ground arith,
        ap (λ (a : Answers). a.req_resp_muted) e ∙ ground arith,
      )

  unheard :
      (m : Node S) (gossip_at : GossipClock) (at : ReqRespClock) (id : MessageId) (bytes : Bytes)
      (receivers : Bool) (outcome : SendOutcome) (answer : Answer)
      → is_gossip_muted m.peer_penalty_storage q gossip_at.muted ≡ true
      → is_req_resp_muted m.peer_penalty_storage q at.muted ≡ true
      → (handle_gossip_msg {R = Reply S} f deps m q id bytes gossip_at receivers ≡ return_ok m [])
        × (handle_request {R = Reply S} f deps m q bytes at outcome answer ≡ return_ok m [])
        × (handle_response {R = Reply S} f deps m q bytes at outcome ≡ return_ok m [])
  unfolding handle_gossip_msg handle_request handle_response
  unheard m gossip_at at id bytes receivers outcome answer g r = (rw g refl, rw r refl, rw r refl)

  -- A peer that is muted on both protocols is not heard before the end of the term: whatever the
  -- loop handles in between, while no command removes a penalty from the peer, its gossip, requests
  -- and responses at a time before the end do nothing.
  pub muted_is_silent :
      (n : Node S) (d : Duration) (start : PenaltyClock) (events : List (Event S))
      (gossip_at : GossipClock) (at : ReqRespClock) (id : MessageId) (bytes : Bytes)
      (receivers : Bool) (outcome : SendOutcome) (answer : Answer)
      → start.first ≤ t
      → start.second ≤ t
      → t < start.start + d
      → AllBefore q t events
      → gossip_at.muted ≡ t
      → at.muted ≡ t
      → let muted = (apply_penalty (Reply S) n q (mute_both d) start).0 in
        let after = listen f deps name muted events in
        (handle_gossip_msg {R = Reply S} f deps after q id bytes gossip_at receivers
          ≡ return_ok after [])
        × (handle_request {R = Reply S} f deps after q bytes at outcome answer ≡ return_ok after [])
        × (handle_response {R = Reply S} f deps after q bytes at outcome ≡ return_ok after [])
  muted_is_silent n d start events gossip_at at id bytes receivers outcome answer h₁ h₂ before all
        e₁ e₂ =
      let muted = (apply_penalty (Reply S) n q (mute_both d) start).0 in
      let (g, r) = muted_at_first n d start h₁ h₂ before in
      let lasts = Lasts-listen muted events all in
      unheard (listen f deps name muted events) gossip_at at id bytes receivers outcome answer
        (rw e₁ (lasts.gossip g)) (rw e₂ (lasts.req_resp r))
