-- ===== src/P2p/Request/RequestDelivery.antt =====
-- Which requests reach the application, what is sent back, and what a request leaves behind.
use strata_p2p.Common.{
  ap, sym, ◌∙◌, ◌≡◌, ◌≢◌, ◌↔◌, Bool, true, false, Option, none, some, inl, inr, [], ◌∷◌, List,
  arith, if◌then◌else◌, Bool-cases, Option-cases,
}
use strata_p2p.Ids.{PeerId, Bytes}
use strata_p2p.Time.{SystemTime}
use strata_p2p.Float.{Float}
use strata_p2p.Validator.{request, is_req_resp_muted, PenaltyType}
use strata_p2p.Message.{RequestMessage, request_response, v2, protocol_eq}
use strata_p2p.Message.Protocol.{protocol_eq→eq, is_v2→eq}
use strata_p2p.Message.Signed
use strata_p2p.Message.Signed.{SignedMessage}
use strata_p2p.Envelope.{Limits, is_future, is_stale}
use strata_p2p.P2p.{Effect, Step, Deps, received_request, send_response, ok}
use strata_p2p.P2p.Node.{Node}
use strata_p2p.P2p.Penalty.{apply_penalty}
use strata_p2p.P2p.ReqResp.{
  SendOutcome, sent, channel_closed, Answer, answered, is_wrong_envelope, open_request,
  deliver_request,
}
use strata_p2p.P2p.Request.{ReqRespClock, score_request, handle_request}
use strata_p2p.P2p.Request.Charge.{verdict, charge-Keeps, verdict-charge}

-- An envelope that decodes, is signed by the key that it names, is meant for this node, is not
-- from the future, and is a request-response envelope of the second version.
pub record IsAuthentic (deps : Deps) (limits : Limits) (local_peer_id : PeerId) (bytes : Bytes)
    (now : SystemTime) (signed : SignedMessage RequestMessage) : Type 0 where
  pub decoded : deps.request_wire.from_slice bytes ≡ some signed
  pub verified :
      Signed.verify deps.request_to_vec deps.verify (λ m. m.public_key) signed ≡ some true
  pub destination : signed.message.destination_peer_id ≡ local_peer_id
  pub past : is_future limits now signed.message.date ≡ false
  pub protocol : signed.message.protocol ≡ request_response
  pub version : signed.message.version ≡ v2

module _ (deps : Deps) (limits : Limits) (me : PeerId) (bytes : Bytes) (now : SystemTime) where
  module _ (signed : SignedMessage RequestMessage) where
    abbrev wrong : Bool
    wrong = let m = signed.message in is_wrong_envelope limits now m.date m.protocol m.version

    pub IsAuthentic-of_checks :
        open_request deps me bytes ≡ some signed
        → wrong ≡ false
        → IsAuthentic deps limits me bytes now signed
    unfolding open_request is_wrong_envelope
    IsAuthentic-of_checks o c = record {
      decoded = ground arith;
      verified = ground arith;
      destination = ground arith;
      past = ground arith;
      protocol = protocol_eq→eq _ _ (ground arith);
      version = is_v2→eq _ (ground arith);
    }

    pub open_request-IsAuthentic :
        IsAuthentic deps limits me bytes now signed → open_request deps me bytes ≡ some signed
    unfolding open_request
    open_request-IsAuthentic h = ground (arith, h.decoded, h.verified, h.destination)

    pub right-IsAuthentic : IsAuthentic deps limits me bytes now signed → wrong ≡ false
    unfolding is_wrong_envelope protocol_eq
    right-IsAuthentic h = ground (arith, h.past, h.protocol, h.version)

-- The requests that effects hand to the application, and the responses that they send.
module _ {R : Type 0} where
  abbrev pub requested : List (Effect R) → List Bytes
  requested [] = []
  requested (received_request m ∷ es) = m ∷ requested es
  requested (_ ∷ es) = requested es

  abbrev pub responded : List (Effect R) → List Bytes
  responded [] = []
  responded (send_response b ∷ es) = b ∷ responded es
  responded (_ ∷ es) = responded es

module _ {S : Type 0} (f : Float S) (R : Type 0) (deps : Deps) (n : Node S) (peer : PeerId) where
  module _ (bytes : Bytes) (at : ReqRespClock) (answer : Answer) where
    abbrev handled : SendOutcome → Step (Node S) R
    handled outcome = handle_request f deps n peer bytes at outcome answer

    -- The conditions under which a request is handed on.
    abbrev pub Wanted : Bytes → Type 0
    Wanted m =
        (is_req_resp_muted n.peer_penalty_storage peer at.muted ≡ false)
        × ((signed : SignedMessage RequestMessage) × IsAuthentic deps n.config.limits
              n.swarm.local_peer_id bytes at.envelope signed
            × (signed.message.message ≡ m)
            × (is_stale n.config.limits at.age signed.message.date ≡ false))
        × (verdict f n peer (request m) at.decay ≡ none)

    requested-score :
        (m : RequestMessage)
        → requested (score_request {R = R} f deps n peer m at sent answer).effects
          ≡ (elim (verdict f n peer (request m.message) at.decay) [
            | some _ ↦ []
            | none ↦ if is_stale n.config.limits at.age m.date then [] else m.message ∷ []
          ])
    unfolding score_request deliver_request apply_penalty
    requested-score m = ground (
      arith,
      (charge-Keeps f n peer (request m.message) at.decay).config,
      verdict-charge f n peer (request m.message) at.decay,
    )

    handled_authentic :
        (signed : SignedMessage RequestMessage)
        → is_req_resp_muted n.peer_penalty_storage peer at.muted ≡ false
        → IsAuthentic deps n.config.limits n.swarm.local_peer_id bytes at.envelope signed
        → (outcome : SendOutcome)
        → handled outcome ≡ score_request f deps n peer signed.message at outcome answer
    unfolding handle_request
    handled_authentic signed heard h outcome = simp (
      heard,
      open_request-IsAuthentic deps n.config.limits n.swarm.local_peer_id bytes at.envelope signed
          h,
      right-IsAuthentic deps n.config.limits n.swarm.local_peer_id bytes at.envelope signed h,
    )

    IsAuthentic-of_requested :
        (m : Bytes)
        → requested (handled sent).effects ≡ m ∷ []
        → (is_req_resp_muted n.peer_penalty_storage peer at.muted ≡ false)
          × ((signed : SignedMessage RequestMessage) × IsAuthentic deps n.config.limits
                n.swarm.local_peer_id bytes at.envelope signed)
    unfolding handle_request
    IsAuthentic-of_requested m got =
        elim (Bool-cases (is_req_resp_muted n.peer_penalty_storage peer at.muted)) [
          | inl muted ↦ absurd (ground arith)
          | inr heard ↦ elim (Option-cases (open_request deps n.swarm.local_peer_id bytes)) [
            | inl closed ↦ absurd (ground arith)
            | inr (signed, e) ↦ (
              heard,
              (
                signed,
                IsAuthentic-of_checks deps n.config.limits n.swarm.local_peer_id bytes at.envelope
                    signed e (ground arith),
              ),
            )
          ]
        ]

    requested_parts :
        (v : Option PenaltyType) (stale : Bool) (x m : Bytes)
        → (elim v [ some _ ↦ [] | none ↦ if stale then [] else x ∷ [] ]) ≡ m ∷ []
        → (v ≡ none) × (stale ≡ false) × (x ≡ m)
    requested_parts v stale x m h = ground arith

    Wanted-of_requested : (m : Bytes) → requested (handled sent).effects ≡ m ∷ [] → Wanted m
    Wanted-of_requested m got =
        let (heard, (signed, h)) = IsAuthentic-of_requested m got in
        let chain =
          sym (requested-score signed.message)
          ∙ sym (
              ap (λ (s : Step (Node S) R). requested s.effects)
                (handled_authentic signed heard h sent))
          ∙ got in
        let (free, fresh, content) =
          requested_parts (verdict f n peer (request signed.message.message) at.decay) _ _ m
            chain in
        (heard, (signed, h, content, fresh), rw (← content) free)

    -- The application receives a request, where its channel takes it, exactly when the sender is
    -- not muted, the bytes are an authentic request for this node, neither too old nor from the
    -- future, and the sender's score after the decay and the cost of the request brings no penalty.
    pub request_delivered_iff : (m : Bytes) → (requested (handled sent).effects ≡ m ∷ []) ↔ Wanted m
    request_delivered_iff m = (
      Wanted-of_requested m,
      λ w.
          let (signed, h, e, fresh) = w.1 in
          rw (handled_authentic signed w.0 h sent)
            (ground (arith, requested-score signed.message, fresh, e, w.2)),
    )

    -- A response is sent only if the application has received the request through the channel and
    -- has answered it.
    responded_only_if :
        (outcome : SendOutcome)
        → responded (handled outcome).effects ≢ []
        → (requested (handled outcome).effects ≢ [])
          × (outcome ≡ sent)
          × ((b : Bytes) × (answer ≡ answered b))
    unfolding handle_request score_request deliver_request apply_penalty
    responded_only_if outcome some_response = (ground arith, ground arith, ground arith)

    -- Handling a request fails exactly when the channel is closed and the application would have
    -- received the request through an open one.
    pub request_error_iff :
        (outcome : SendOutcome)
        → ((handled outcome).result ≢ ok)
          ↔ ((outcome ≡ channel_closed) × (requested (handled sent).effects ≢ []))
    unfolding handle_request score_request deliver_request apply_penalty
    request_error_iff outcome = (ground arith, ground arith)
