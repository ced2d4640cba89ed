-- ===== src/P2p/Run/KeptMessages.antt =====
-- Gossip, requests and responses keep every mute and every ban.
use strata_p2p.Common.{
  ◌≤◌, ◌≡◌, ℕ, ◌∙◌, refl, ap, Bool, true, false, none, some, [], arith, if◌then◌else◌, unwrap_or,
}
use strata_p2p.Ids.{PeerId, MessageId, Bytes}
use strata_p2p.Time.{SystemTime}
use strata_p2p.Float.{Float}
use strata_p2p.Score
use strata_p2p.Validator.{gossipsub, is_gossip_muted, is_req_resp_muted}
use strata_p2p.P2p.{Step, Deps, return_ok}
use strata_p2p.P2p.Node.{Node, get_all_scores, decay_gossip_score}
use strata_p2p.P2p.Node.Decay.{decay_gossip_score-Keeps}
use strata_p2p.P2p.Penalty.{PenaltyClock, apply_penalty}
use strata_p2p.P2p.Gossip.{
  GossipClock, handle_gossip_msg, score_gossip, deliver_gossip, open_gossip, check_gossip_envelope,
  reject_message,
}
use strata_p2p.P2p.Command.{Reply}
use strata_p2p.P2p.Run.Kept.{
  answers_of, Kept, Kept-if, Kept-option, Kept-sum, Kept-same, Kept-verdict,
}
use strata_p2p.Message.{RequestMessage, ResponseMessage}
use strata_p2p.Message.Signed.{ApplicationSigner}
use strata_p2p.Ids.{PublicKey}
use strata_p2p.Validator.{Message, request, response}
use strata_p2p.Envelope.{is_stale}
use strata_p2p.P2p.ReqResp.{
  SendOutcome, sent, channel_closed, send_timed_out, Answer, answered, dropped, answer_timed_out,
  is_wrong_envelope, open_request, open_response, answer_request, deliver_request, deliver_response,
}
use strata_p2p.P2p.Request.{ReqRespClock, charge_req_resp, score_request, handle_request}
use strata_p2p.P2p.Request.Charge.{charge-Keeps}
use strata_p2p.P2p.Response.{score_response, handle_response}

module _ {S : Type 0} (q : PeerId) (t : SystemTime) (f : Float S) (n : Node S)
    (source : PeerId) where
  abbrev charged : Node S → Bytes → Node S
  charged m message =
      let old = unwrap_or (Score.get_gossipsub_app_score m.score_manager source) f.zero in
      record m {
        score_manager =
            Score.update_gossipsub_app_score m.score_manager source
              (m.validator.validate_msg (gossipsub message) old);
      }

  Kept-score_gossip :
      (m : Node S) (id : MessageId) (message : Bytes) (at : PenaltyClock) (receivers : Bool)
      → at.first ≤ t
      → at.second ≤ t
      → m.peer_penalty_storage ≡ n.peer_penalty_storage
      → Kept q t (answers_of q t n) (score_gossip f m source id message at receivers)
  unfolding score_gossip deliver_gossip
  Kept-score_gossip m id message at receivers h₁ h₂ same =
      let m' = charged m message in
      let scores = get_all_scores f m' source in
      Kept-verdict q t n m' (m'.validator.get_penalty (gossipsub message) scores) source at
        (deliver_gossip m' id source message receivers) h₁ h₂ same (delivered receivers)
    where
      delivered :
          (r : Bool)
          → Kept q t (answers_of q t n) (deliver_gossip (charged m message) id source message r)
      delivered true = Kept-same q t n _ same
      delivered false = Kept-same q t n _ same

  pub Kept-handle_gossip_msg :
      (deps : Deps) (id : MessageId) (bytes : Bytes) (at : GossipClock) (receivers : Bool)
      → at.penalty.first ≤ t
      → at.penalty.second ≤ t
      → Kept q t (answers_of q t n) (handle_gossip_msg f deps n source id bytes at receivers)
  unfolding handle_gossip_msg
  Kept-handle_gossip_msg deps id bytes at receivers h₁ h₂ =
      let m = decay_gossip_score f n source at.decay in
      let same = (decay_gossip_score-Keeps f n source source at.decay).peer_penalty_storage in
      Kept-if q t (answers_of q t n) (is_gossip_muted n.peer_penalty_storage source at.muted) _ _
        (Kept-same q t n (return_ok n []) refl)
        (Kept-sum q t (answers_of q t n) (open_gossip deps bytes) (λ r. reject_message m id source)
          (λ signed.
            elim (check_gossip_envelope m.config.limits at.envelope signed.message)
              as (λ _. Step (Node S) (Reply S)) [
                | some _ ↦ reject_message m id source
                | none ↦ score_gossip f m source id signed.message.message at.penalty receivers
              ])
          (λ r. Kept-same q t n (reject_message m id source) same)
          (λ signed.
            Kept-option q t (answers_of q t n)
              (check_gossip_envelope m.config.limits at.envelope signed.message)
              (score_gossip f m source id signed.message.message at.penalty receivers)
              (λ r. reject_message m id source)
              (Kept-score_gossip m id signed.message.message at.penalty receivers h₁ h₂ same)
              (λ r. Kept-same q t n (reject_message m id source) same)))

module _ {P : Type 0} (R : Type 0) (deps : Deps) (signer : ApplicationSigner) (key : PublicKey)
    (p : P) where
  state-answer_request :
      (now : SystemTime) (answer : Answer)
      → (answer_request {R = R} deps signer key p now answer).state ≡ p
  unfolding answer_request
  state-answer_request now (answered bytes) = ground arith
  state-answer_request now dropped = refl
  state-answer_request now answer_timed_out = refl

  state-deliver_request :
      (message : Bytes) (now : SystemTime) (outcome : SendOutcome) (answer : Answer)
      → (deliver_request {R = R} deps signer key p message now outcome answer).state ≡ p
  unfolding deliver_request
  state-deliver_request message now sent answer = state-answer_request now answer
  state-deliver_request message now channel_closed answer = refl
  state-deliver_request message now send_timed_out answer = state-answer_request now dropped

state-deliver_response :
    {P : Type 0} (R : Type 0) (p : P) (message : Bytes) (outcome : SendOutcome)
    → (deliver_response {R = R} p message outcome).state ≡ p
unfolding deliver_response
state-deliver_response R p message sent = refl
state-deliver_response R p message channel_closed = refl
state-deliver_response R p message send_timed_out = refl

module _ {S : Type 0} (q : PeerId) (t : SystemTime) (f : Float S) (n : Node S) (peer : PeerId)
    (at : ReqRespClock) (h₁ : at.penalty.first ≤ t) (h₂ : at.penalty.second ≤ t) where
  -- The part that requests and responses share: the charge, the age test and the delivery.
  Kept-charged :
      (msg : Message) (date : ℕ) (deliver : Node S → Step (Node S) (Reply S))
      → ((m : Node S) → (deliver m).state ≡ m)
      → let m = (charge_req_resp f n peer msg at.decay).0 in
        Kept q t
          (answers_of q t n)
          (elim ((charge_req_resp f n peer msg at.decay).1) as (λ _. Step (Node S) (Reply S)) [
            | some penalty ↦
                let (m', effects) = apply_penalty (Reply S) m peer penalty at.penalty in
                return_ok m' effects
            | none ↦ if is_stale m.config.limits at.age date then return_ok m [] else deliver m
          ])
  Kept-charged msg date deliver keeps =
      let m = (charge_req_resp f n peer msg at.decay).0 in
      let same = (charge-Keeps f n peer msg at.decay).peer_penalty_storage in
      Kept-verdict q t n m ((charge_req_resp f n peer msg at.decay).1) peer at.penalty
        (if is_stale m.config.limits at.age date then return_ok m [] else deliver m) h₁ h₂ same
        (Kept-if q t (answers_of q t n) (is_stale m.config.limits at.age date) (return_ok m [])
          (deliver m) (Kept-same q t n (return_ok m []) same)
          (Kept-same q t n (deliver m)
            (ap (λ (k : Node S). k.peer_penalty_storage) (keeps m) ∙ same)))

  module _ (deps : Deps) (bytes : Bytes) (outcome : SendOutcome) where
    idle : Kept q t (answers_of q t n) (return_ok n [])
    idle = Kept-same q t n (return_ok n []) refl

    Kept-score_request :
        (answer : Answer) (m : RequestMessage)
        → Kept q t (answers_of q t n) (score_request f deps n peer m at outcome answer)
    unfolding score_request
    Kept-score_request answer m =
        Kept-charged (request m.message) m.date
          (λ k.
            deliver_request deps k.signer k.config.transport_public_key k m.message at.answer
              outcome answer)
          (λ k.
            state-deliver_request (Reply S) deps k.signer k.config.transport_public_key k m.message
              at.answer outcome answer)

    pub Kept-handle_request :
        (answer : Answer)
        → Kept q t (answers_of q t n) (handle_request f deps n peer bytes at outcome answer)
    unfolding handle_request
    Kept-handle_request answer =
        Kept-if q t (answers_of q t n) (is_req_resp_muted n.peer_penalty_storage peer at.muted) _ _
          idle
          (Kept-option q t (answers_of q t n) (open_request deps n.swarm.local_peer_id bytes)
            (return_ok n [])
            (λ signed.
              let m = signed.message in
              if is_wrong_envelope n.config.limits at.envelope m.date m.protocol m.version
              then return_ok n []
              else score_request f deps n peer m at outcome answer)
            idle
            (λ signed.
              Kept-if q t (answers_of q t n) _ (return_ok n [])
                (score_request f deps n peer signed.message at outcome answer) idle
                (Kept-score_request answer signed.message)))

    Kept-score_response :
        (m : ResponseMessage) → Kept q t (answers_of q t n) (score_response f n peer m at outcome)
    unfolding score_response
    Kept-score_response m =
        Kept-charged (response m.message) m.date (λ k. deliver_response k m.message outcome)
          (λ k. state-deliver_response (Reply S) k m.message outcome)

    pub Kept-handle_response :
        Kept q t (answers_of q t n) (handle_response f deps n peer bytes at outcome)
    unfolding handle_response
    Kept-handle_response =
        Kept-if q t (answers_of q t n) (is_req_resp_muted n.peer_penalty_storage peer at.muted) _ _
          idle
          (Kept-option q t (answers_of q t n) (open_response deps bytes) (return_ok n [])
            (λ signed.
              let m = signed.message in
              if is_wrong_envelope n.config.limits at.envelope m.date m.protocol m.version
              then return_ok n []
              else score_response f n peer m at outcome)
            idle
            (λ signed.
              Kept-if q t (answers_of q t n) _ (return_ok n [])
                (score_response f n peer signed.message at outcome) idle
                (Kept-score_response signed.message)))
