-- ===== src/Byos/Messages/Allowed.antt =====
-- Which messages reach the application with the feature `byos`.
use strata_p2p.Common.{
  ◌≡◌, ◌↔◌, true, false, some, ◌⊎◌, inl, inr, [], ◌∷◌, arith, refl, Option-cases,
}
use strata_p2p.Ids.{PeerId, PublicKey, MessageId, Bytes}
use strata_p2p.Time.{SystemTime}
use strata_p2p.Message.{GossipMessage, RequestMessage, ResponseMessage}
use strata_p2p.Message.Signed.{SignedMessage}
use strata_p2p.Envelope.{is_stale}
use strata_p2p.P2p.{Deps}
use strata_p2p.P2p.Gossip.{Rejection, open_gossip, deliver_gossip}
use strata_p2p.P2p.Gossip.Delivery
use strata_p2p.P2p.ReqResp.{
  sent, Answer, open_request, open_response, deliver_request, deliver_response,
}
use strata_p2p.P2p.Request.RequestDelivery
use strata_p2p.P2p.Response.ResponseDelivery
use strata_p2p.Setup.Behaviour.{get_app_public_key_by_transport_id}
use strata_p2p.Byos.{Node, is_allowed}
use strata_p2p.Byos.Messages.{
  ReqRespClock, is_barred, handle_gossip_msg, handle_request, handle_response,
}

module _ {S Q : Type 0} (deps : Deps) (n : Node S Q) (peer : PeerId) where
  -- The key is on the allowlist, and the handshake has mapped it to the peer.
  pub record IsAdmitted (key : PublicKey) : Type 0 where
    pub allowed : is_allowed n key ≡ true
    pub mapped : get_app_public_key_by_transport_id n.setup peer ≡ some key

  barred_iff : (key : PublicKey) → (is_barred n peer key ≡ false) ↔ IsAdmitted key
  unfolding is_barred
  barred_iff key = (
    λ open_gate. record { allowed = ground arith; mapped = ground arith },
    λ a. ground (arith, a.allowed, a.mapped),
  )

  module _ (bytes : Bytes) (at : ReqRespClock) where
    -- The application receives a request, where its channel takes it, exactly when the bytes are an
    -- authentic request for this node, neither too old nor from the future, and it is signed by an
    -- allowed key which is the one that the handshake has mapped to the sender.
    pub handle_request-IsAdmitted :
        (answer : Answer) (m : Bytes)
        → (RequestDelivery.requested (handle_request deps n peer bytes at sent answer).effects
            ≡ m ∷ [])
          ↔ ((signed : SignedMessage RequestMessage) × RequestDelivery.IsAuthentic deps
                n.config.limits n.swarm.local_peer_id bytes at.envelope signed
              × IsAdmitted signed.message.public_key
              × (is_stale n.config.limits at.age signed.message.date ≡ false)
              × (signed.message.message ≡ m))
    unfolding handle_request deliver_request
    handle_request-IsAdmitted answer m =
        let me = n.swarm.local_peer_id in
        (
          λ got. elim (Option-cases (open_request deps me bytes)) [
            | inl closed ↦ absurd (ground arith)
            | inr (signed, e) ↦ (
              signed,
              RequestDelivery.IsAuthentic-of_checks deps n.config.limits me bytes at.envelope signed
                  e (ground arith),
              (barred_iff signed.message.public_key).0 (ground arith),
              ground arith,
              ground arith,
            )
          ],
          λ w.
              let (signed, h, admitted, fresh, content) = w in
              ground (
                arith,
                RequestDelivery.open_request-IsAuthentic deps n.config.limits me bytes at.envelope
                    signed h,
                RequestDelivery.right-IsAuthentic deps n.config.limits me bytes at.envelope signed
                    h,
                (barred_iff signed.message.public_key).1 admitted,
                fresh,
                content,
              ),
        )

    -- The application receives a response, where its channel takes it, exactly when the bytes are an
    -- authentic response, neither too old nor from the future, and it is signed by an allowed key
    -- which is the one that the handshake has mapped to the sender.
    pub handle_response-IsAdmitted :
        (m : Bytes)
        → (ResponseDelivery.responses (handle_response deps n peer bytes at sent).effects ≡ m ∷ [])
          ↔ ((signed : SignedMessage ResponseMessage) × ResponseDelivery.IsAuthentic deps
                n.config.limits bytes at.envelope signed
              × IsAdmitted signed.message.app_public_key
              × (is_stale n.config.limits at.age signed.message.date ≡ false)
              × (signed.message.message ≡ m))
    unfolding handle_response deliver_response
    handle_response-IsAdmitted m = (
      λ got. elim (Option-cases (open_response deps bytes)) [
        | inl closed ↦ absurd (ground arith)
        | inr (signed, e) ↦ (
          signed,
          ResponseDelivery.IsAuthentic-of_checks deps n.config.limits at.envelope signed bytes e
              (ground arith),
          (barred_iff signed.message.app_public_key).0 (ground arith),
          ground arith,
          ground arith,
        )
      ],
      λ w.
          let (signed, h, admitted, fresh, content) = w in
          ground (
            arith,
            ResponseDelivery.open_response-IsAuthentic deps n.config.limits at.envelope signed bytes
                h,
            ResponseDelivery.right-IsAuthentic deps n.config.limits at.envelope signed bytes h,
            (barred_iff signed.message.app_public_key).1 admitted,
            fresh,
            content,
          ),
    )

  -- The application receives a gossip message, where somebody listens, exactly when the bytes are an
  -- authentic envelope of that message and are signed by an allowed key.
  pub handle_gossip_msg-is_allowed :
      (id : MessageId) (bytes : Bytes) (now : SystemTime) (m : Bytes)
      → (Delivery.received (handle_gossip_msg deps n peer id bytes now true).effects ≡ m ∷ []) ↔ (
          (signed : SignedMessage GossipMessage) × Delivery.IsAuthentic deps n.config.limits bytes
            now signed
          × (is_allowed n signed.message.public_key ≡ true)
          × (signed.message.message ≡ m))
  unfolding handle_gossip_msg deliver_gossip
  handle_gossip_msg-is_allowed id bytes now m = (
    opened (open_gossip deps bytes) refl,
    λ w.
        let (signed, h, allowed, content) = w in
        ground (
          arith,
          Delivery.open_gossip-IsAuthentic deps n.config.limits bytes now signed h,
          Delivery.check-IsAuthentic deps n.config.limits bytes now signed h,
          allowed,
          content,
        ),
  )
    where
      opened :
          (o : Rejection ⊎ SignedMessage GossipMessage)
          → open_gossip deps bytes ≡ o
          → Delivery.received (handle_gossip_msg deps n peer id bytes now true).effects ≡ m ∷ []
          → (signed : SignedMessage GossipMessage) × Delivery.IsAuthentic deps n.config.limits bytes
              now signed
            × (is_allowed n signed.message.public_key ≡ true)
            × (signed.message.message ≡ m)
      opened (inl r) e got = absurd (ground arith)
      opened (inr signed) e got = (
        signed,
        Delivery.IsAuthentic-of_checks deps n.config.limits bytes now signed e (ground arith),
        ground arith,
        ground arith,
      )
