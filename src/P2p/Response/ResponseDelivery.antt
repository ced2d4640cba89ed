-- ===== src/P2p/Response/ResponseDelivery.antt =====
-- Which responses reach the application.
use strata_p2p.Common.{
  ap, refl, sym, ◌∙◌, ◌≡◌, ◌≢◌, ◌↔◌, Bool, true, false, Option, none, some, inl, inr, [], ◌∷◌, List,
  arith, if◌then◌else◌, Bool-cases, Option-cases,
}
use strata_p2p.Ids.{PeerId, Bytes}
use strata_p2p.Time.{SystemTime}
use strata_p2p.Float.{Float}
use strata_p2p.Validator.{response, is_req_resp_muted, PenaltyType}
use strata_p2p.Message.{ResponseMessage, request_response, v2, protocol_eq}
use strata_p2p.Message.Protocol.{protocol_eq→eq, is_v2→eq}
use strata_p2p.Message.Signed
use strata_p2p.Message.Signed.{SignedMessage}
use strata_p2p.Envelope.{Limits, is_future, is_stale}
use strata_p2p.P2p.{Effect, Step, Deps, received_response}
use strata_p2p.P2p.Node.{Node}
use strata_p2p.P2p.Penalty.{apply_penalty}
use strata_p2p.P2p.ReqResp.{SendOutcome, sent, is_wrong_envelope, open_response, deliver_response}
use strata_p2p.P2p.Request.{ReqRespClock}
use strata_p2p.P2p.Request.Charge.{verdict, charge-Keeps, verdict-charge}
use strata_p2p.P2p.Response.{score_response, handle_response}

-- An envelope that decodes, is signed by the key that it names, is not from the future, and is a
-- request-response envelope of the second version.
pub record IsAuthentic (deps : Deps) (limits : Limits) (bytes : Bytes) (now : SystemTime)
    (signed : SignedMessage ResponseMessage) : Type 0 where
  pub not_empty : bytes ≢ []
  pub decoded : deps.response_wire.from_slice bytes ≡ some signed
  pub verified :
      Signed.verify deps.response_to_vec deps.verify (λ m. m.app_public_key) signed ≡ some true
  pub past : is_future limits now signed.message.date ≡ false
  pub protocol : signed.message.protocol ≡ request_response
  pub version : signed.message.version ≡ v2

module _ (deps : Deps) (limits : Limits) (now : SystemTime)
    (signed : SignedMessage ResponseMessage) where
  abbrev wrong : Bool
  wrong = let m = signed.message in is_wrong_envelope limits now m.date m.protocol m.version

  pub IsAuthentic-of_checks :
      (bytes : Bytes)
      → open_response deps bytes ≡ some signed
      → wrong ≡ false
      → IsAuthentic deps limits bytes now signed
  unfolding open_response is_wrong_envelope
  IsAuthentic-of_checks [] o c = cc
  IsAuthentic-of_checks (b ∷ bytes) o c = record {
    not_empty = λ e. cc;
    decoded = ground arith;
    verified = ground arith;
    past = ground arith;
    protocol = protocol_eq→eq _ _ (ground arith);
    version = is_v2→eq _ (ground arith);
  }

  pub open_response-IsAuthentic :
      (bytes : Bytes)
      → IsAuthentic deps limits bytes now signed
      → open_response deps bytes ≡ some signed
  unfolding open_response
  open_response-IsAuthentic [] h = absurd (h.not_empty refl)
  open_response-IsAuthentic (b ∷ bytes) h = ground (arith, h.decoded, h.verified)

  pub right-IsAuthentic : (bytes : Bytes) → IsAuthentic deps limits bytes now signed → wrong ≡ false
  unfolding is_wrong_envelope protocol_eq
  right-IsAuthentic bytes h = ground (arith, h.past, h.protocol, h.version)

-- The responses that effects hand to the application.
abbrev pub responses : {R : Type 0} → List (Effect R) → List Bytes
responses [] = []
responses (received_response m ∷ es) = m ∷ responses es
responses (_ ∷ es) = responses es

module _ {S : Type 0} (f : Float S) (R : Type 0) (deps : Deps) (n : Node S) (peer : PeerId) where
  module _ (bytes : Bytes) (at : ReqRespClock) where
    abbrev handled : SendOutcome → Step (Node S) R
    handled outcome = handle_response f deps n peer bytes at outcome

    -- The conditions under which a response is handed on.
    abbrev pub Wanted : Bytes → Type 0
    Wanted m =
        (is_req_resp_muted n.peer_penalty_storage peer at.muted ≡ false)
        × ((signed : SignedMessage ResponseMessage) × IsAuthentic deps n.config.limits bytes
              at.envelope signed
            × (signed.message.message ≡ m)
            × (is_stale n.config.limits at.age signed.message.date ≡ false))
        × (verdict f n peer (response m) at.decay ≡ none)

    responses-score :
        (m : ResponseMessage)
        → responses (score_response {R = R} f n peer m at sent).effects
          ≡ (elim (verdict f n peer (response m.message) at.decay) [
            | some _ ↦ []
            | none ↦ if is_stale n.config.limits at.age m.date then [] else m.message ∷ []
          ])
    unfolding score_response deliver_response apply_penalty
    responses-score m = ground (
      arith,
      (charge-Keeps f n peer (response m.message) at.decay).config,
      verdict-charge f n peer (response m.message) at.decay,
    )

    handled_authentic :
        (signed : SignedMessage ResponseMessage)
        → is_req_resp_muted n.peer_penalty_storage peer at.muted ≡ false
        → IsAuthentic deps n.config.limits bytes at.envelope signed
        → (outcome : SendOutcome)
        → handled outcome ≡ score_response f n peer signed.message at outcome
    unfolding handle_response
    handled_authentic signed heard h outcome = simp (
      heard,
      open_response-IsAuthentic deps n.config.limits at.envelope signed bytes h,
      right-IsAuthentic deps n.config.limits at.envelope signed bytes h,
    )

    IsAuthentic-of_response :
        (m : Bytes)
        → responses (handled sent).effects ≡ m ∷ []
        → (is_req_resp_muted n.peer_penalty_storage peer at.muted ≡ false)
          × ((signed : SignedMessage ResponseMessage) × IsAuthentic deps n.config.limits bytes
                at.envelope signed)
    unfolding handle_response
    IsAuthentic-of_response m got =
        elim (Bool-cases (is_req_resp_muted n.peer_penalty_storage peer at.muted)) [
          | inl muted ↦ absurd (ground arith)
          | inr heard ↦ elim (Option-cases (open_response deps bytes)) [
            | inl closed ↦ absurd (ground arith)
            | inr (signed, e) ↦ (
              heard,
              (
                signed,
                IsAuthentic-of_checks deps n.config.limits at.envelope signed bytes e
                    (ground arith),
              ),
            )
          ]
        ]

    response_parts :
        (v : Option PenaltyType) (stale : Bool) (x m : Bytes)
        → (elim v [ some _ ↦ [] | none ↦ if stale then [] else x ∷ [] ]) ≡ m ∷ []
        → (v ≡ none) × (stale ≡ false) × (x ≡ m)
    response_parts v stale x m h = ground arith

    Wanted-of_response : (m : Bytes) → responses (handled sent).effects ≡ m ∷ [] → Wanted m
    Wanted-of_response m got =
        let (heard, (signed, h)) = IsAuthentic-of_response m got in
        let chain =
          sym (responses-score signed.message)
          ∙ sym (
              ap (λ (s : Step (Node S) R). responses s.effects)
                (handled_authentic signed heard h sent))
          ∙ got in
        let (free, fresh, content) =
          response_parts (verdict f n peer (response signed.message.message) at.decay) _ _ m
            chain in
        (heard, (signed, h, content, fresh), rw (← content) free)

    -- The application receives a response, where its channel takes it, exactly when the sender is
    -- not muted, the bytes are an authentic response, neither too old nor from the future, and the
    -- sender's score after the decay and the cost of the response brings no penalty.
    pub response_delivered_iff :
        (m : Bytes) → (responses (handled sent).effects ≡ m ∷ []) ↔ Wanted m
    response_delivered_iff m = (
      Wanted-of_response m,
      λ w.
          let (signed, h, e, fresh) = w.1 in
          rw (handled_authentic signed w.0 h sent)
            (ground (arith, responses-score signed.message, fresh, e, w.2)),
    )
