-- ===== src/P2p/Gossip/Delivery.antt =====
-- Which gossip messages reach the application, and what each outcome leaves behind.
use strata_p2p.Common.{
  ap, sym, ◌∙◌, ◌≡◌, ◌↔◌, ◌⊎◌, refl, Bool, true, false, Option, none, some, inl, inr, [], ◌∷◌, List,
  arith, if◌then◌else◌, unwrap_or, Bool-cases, Option-cases,
}
use strata_p2p.Ids.{PeerId, MessageId, Bytes}
use strata_p2p.Map
use strata_p2p.Time.{SystemTime}
use strata_p2p.Float.{Float}
use strata_p2p.Score.{PeerScore}
use strata_p2p.Validator.{gossipsub, is_gossip_muted, PenaltyType}
use strata_p2p.P2p.Penalty.{PenaltyClock}
use strata_p2p.Message.{GossipMessage, gossip, v2, protocol_eq}
use strata_p2p.Message.Protocol.{protocol_eq→eq, is_v2→eq}
use strata_p2p.Message.Signed
use strata_p2p.Message.Signed.{SignedMessage}
use strata_p2p.Envelope.{Limits, is_future, is_stale}
use strata_p2p.P2p.{Effect, Step, Deps, gossip_received_message}
use strata_p2p.P2p.Node.{Node, decay_gossip_score}
use strata_p2p.P2p.Node.Decay.{
  gossip_score, req_resp_score, decayed, gossip_score-decay_gossip_score,
  req_resp_score-decay_gossip_score, decay_gossip_score-Keeps,
}
use strata_p2p.P2p.Gossip.{
  GossipClock, Rejection, check_gossip_envelope, open_gossip, score_gossip, handle_gossip_msg,
}

-- An envelope that decodes, is signed by the key that it names, lies in the time window, and is a
-- gossip envelope of the second version.
pub record IsAuthentic (deps : Deps) (limits : Limits) (bytes : Bytes) (now : SystemTime)
    (signed : SignedMessage GossipMessage) : Type 0 where
  pub decoded : deps.gossip_wire.from_slice bytes ≡ some signed
  pub verified : Signed.verify deps.gossip_to_vec deps.verify (λ m. m.public_key) signed ≡ some true
  pub past : is_future limits now signed.message.date ≡ false
  pub fresh : is_stale limits now signed.message.date ≡ false
  pub protocol : signed.message.protocol ≡ gossip
  pub version : signed.message.version ≡ v2

module _ (deps : Deps) (limits : Limits) (bytes : Bytes) (now : SystemTime) where
  module _ (signed : SignedMessage GossipMessage) where
    pub IsAuthentic-of_checks :
        open_gossip deps bytes ≡ inr signed
        → check_gossip_envelope limits now signed.message ≡ none
        → IsAuthentic deps limits bytes now signed
    unfolding open_gossip check_gossip_envelope
    IsAuthentic-of_checks o c = record {
      decoded = ground arith;
      verified = ground arith;
      past = ground arith;
      fresh = ground arith;
      protocol = protocol_eq→eq _ _ (ground arith);
      version = is_v2→eq _ (ground arith);
    }

    pub open_gossip-IsAuthentic :
        IsAuthentic deps limits bytes now signed → open_gossip deps bytes ≡ inr signed
    unfolding open_gossip
    open_gossip-IsAuthentic h = ground (arith, h.decoded, h.verified)

    pub check-IsAuthentic :
        IsAuthentic deps limits bytes now signed
        → check_gossip_envelope limits now signed.message ≡ none
    unfolding check_gossip_envelope protocol_eq
    check-IsAuthentic h = ground (arith, h.past, h.fresh, h.protocol, h.version)

-- The messages that effects hand to the application.
abbrev pub received : {R : Type 0} → List (Effect R) → List Bytes
received [] = []
received (gossip_received_message m ∷ es) = m ∷ received es
received (_ ∷ es) = received es

module _ {S : Type 0} (f : Float S) where
  -- The scores that decide on a penalty, where the sender's gossip score has become `score`.
  abbrev pub judged : Node S → PeerId → S → PeerScore S
  judged n source score = record {
    app_score = record {
      gossipsub_app_score = score;
      req_resp_app_score = unwrap_or (req_resp_score n source) f.zero;
    };
    gossipsub_internal_score = unwrap_or (n.swarm.peer_score source) f.zero;
  }

  -- The sender's score after the decay since its last message and the cost of this one.
  abbrev pub charged : Node S → PeerId → GossipClock → Bytes → S
  charged n source at m =
      n.validator.validate_msg (gossipsub m)
        (unwrap_or (decayed f n source at.decay (gossip_score n source)) f.zero)

  abbrev pub verdict : Node S → PeerId → GossipClock → Bytes → Option PenaltyType
  verdict n source at m =
      n.validator.get_penalty (gossipsub m) (judged n source (charged n source at m))

  module _ (R : Type 0) (n : Node S) (source : PeerId) (id : MessageId) (receivers : Bool) where
    abbrev pub cost : Bytes → S
    cost m = n.validator.validate_msg (gossipsub m) (unwrap_or (gossip_score n source) f.zero)

    received-score_gossip :
        (m : Bytes) (at : PenaltyClock)
        → received (score_gossip {R = R} f n source id m at receivers).effects
          ≡ (elim (n.validator.get_penalty (gossipsub m) (judged n source (cost m))) [
            | some _ ↦ []
            | none ↦ if receivers then m ∷ [] else []
          ])
    unfolding score_gossip
    received-score_gossip m at =
        ground (arith, Map.get-insert_self n.score_manager.gossipsub_app_score source (cost m))

    gossip_score-score_gossip :
        (m : Bytes) (at : PenaltyClock)
        → gossip_score (score_gossip {R = R} f n source id m at receivers).state source
          ≡ some (cost m)
    unfolding score_gossip
    gossip_score-score_gossip m at =
        ground (arith, Map.get-insert_self n.score_manager.gossipsub_app_score source (cost m))

  module _ (n : Node S) (source : PeerId) (at : GossipClock) (m : Bytes) where
    gossip_score-decayed :
        gossip_score (decay_gossip_score f n source at.decay) source
        ≡ decayed f n source at.decay (gossip_score n source)
    gossip_score-decayed =
        ground (arith, gossip_score-decay_gossip_score f n source source at.decay)

    verdict_decayed :
        (let n' = decay_gossip_score f n source at.decay in
          n'.validator.get_penalty (gossipsub m) (
            judged n' source (
              n'.validator.validate_msg (gossipsub m) (unwrap_or (gossip_score n' source) f.zero))))
        ≡ verdict n source at m
    verdict_decayed =
        let k = decay_gossip_score-Keeps f n source source at.decay in
        rw (
          k.validator,
          k.swarm,
          gossip_score-decayed,
          req_resp_score-decay_gossip_score f n source source at.decay,
        )

  delivered_parts :
      (v : Option PenaltyType) (receivers : Bool) (x m : Bytes)
      → (elim v [ some _ ↦ [] | none ↦ if receivers then x ∷ [] else [] ]) ≡ m ∷ []
      → (v ≡ none) × (receivers ≡ true) × (x ≡ m)
  delivered_parts v receivers x m h = ground arith

  module _ (R : Type 0) (deps : Deps) (n : Node S) (source : PeerId) (id : MessageId) where
    module _ (bytes : Bytes) (at : GossipClock) (receivers : Bool) where
      abbrev pub handled : Step (Node S) R
      handled = handle_gossip_msg f deps n source id bytes at receivers

      pub handled_authentic :
          (signed : SignedMessage GossipMessage)
          → is_gossip_muted n.peer_penalty_storage source at.muted ≡ false
          → IsAuthentic deps n.config.limits bytes at.envelope signed
          → handled
            ≡ score_gossip f
                (decay_gossip_score f n source at.decay)
                source
                id
                signed.message.message
                at.penalty
                receivers
      unfolding handle_gossip_msg
      handled_authentic signed heard h = simp (
        heard,
        open_gossip-IsAuthentic deps n.config.limits bytes at.envelope signed h,
        (decay_gossip_score-Keeps f n source source at.decay).config,
        check-IsAuthentic deps n.config.limits bytes at.envelope signed h,
      )

      received-authentic :
          (signed : SignedMessage GossipMessage)
          → is_gossip_muted n.peer_penalty_storage source at.muted ≡ false
          → IsAuthentic deps n.config.limits bytes at.envelope signed
          → received handled.effects ≡ (elim (verdict n source at signed.message.message) [
            | some _ ↦ []
            | none ↦ if receivers then signed.message.message ∷ [] else []
          ])
      received-authentic signed heard h = rw (handled_authentic signed heard h) (
          received-score_gossip R (decay_gossip_score f n source at.decay) source id receivers
            signed.message.message at.penalty
          ∙ ap
              (λ (v : Option PenaltyType). elim v [
                | some _ ↦ []
                | none ↦ if receivers then signed.message.message ∷ [] else []
              ])
              (verdict_decayed n source at signed.message.message))

      -- What an application receives comes from a sender that is not muted, in an authentic
      -- envelope.
      received→authentic :
          (m : Bytes)
          → received handled.effects ≡ m ∷ []
          → (is_gossip_muted n.peer_penalty_storage source at.muted ≡ false)
            × ((signed : SignedMessage GossipMessage) × IsAuthentic deps n.config.limits bytes
                  at.envelope signed)
      unfolding handle_gossip_msg
      received→authentic m got =
          elim (Bool-cases (is_gossip_muted n.peer_penalty_storage source at.muted)) [
            | inl muted ↦ absurd (ground arith)
            | inr heard ↦ (heard, from_open (open_gossip deps bytes) refl)
          ]
        where
          config : (decay_gossip_score f n source at.decay).config ≡ n.config
          config = (decay_gossip_score-Keeps f n source source at.decay).config

          from_open :
              (o : Rejection ⊎ SignedMessage GossipMessage)
              → open_gossip deps bytes ≡ o
              → (signed : SignedMessage GossipMessage) × IsAuthentic deps n.config.limits bytes
                  at.envelope signed
          from_open (inl r) e = absurd (ground arith)
          from_open (inr signed) e = (
            signed,
            IsAuthentic-of_checks deps n.config.limits bytes at.envelope signed e
                (elim (Option-cases
                  (check_gossip_envelope n.config.limits at.envelope signed.message)) [
                    | inl passed ↦ passed
                    | inr (r, failed) ↦ absurd (ground (arith, config))
                  ]),
          )

      abbrev pub Wanted : Bytes → Type 0
      Wanted m =
          (is_gossip_muted n.peer_penalty_storage source at.muted ≡ false)
          × ((signed : SignedMessage GossipMessage) × IsAuthentic deps n.config.limits bytes
                at.envelope signed
              × (signed.message.message ≡ m))
          × (verdict n source at m ≡ none)
          × (receivers ≡ true)

      Wanted-of_received : (m : Bytes) → received handled.effects ≡ m ∷ [] → Wanted m
      Wanted-of_received m got =
          let (heard, (signed, h)) = received→authentic m got in
          let sent = sym (received-authentic signed heard h) ∙ got in
          let (free, listening, content) =
            delivered_parts (verdict n source at signed.message.message) receivers _ m sent in
          (heard, (signed, h, content), rw (← content) free, listening)

      -- The application receives a message exactly when the sender is not muted, the bytes are an
      -- authentic envelope of that message, the sender's score after the decay and the cost of the
      -- message brings no penalty, and somebody listens.
      pub delivered_iff : (m : Bytes) → (received handled.effects ≡ m ∷ []) ↔ Wanted m
      delivered_iff m = (
        Wanted-of_received m,
        λ w.
            let (signed, h, e) = w.1 in
            ground (arith, w.0, w.2, w.3, e, received-authentic signed w.0 h),
      )
