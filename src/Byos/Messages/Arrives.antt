-- ===== src/Byos/Messages/Arrives.antt =====
-- A request on its way from one node to the application of another.
use strata_p2p.Common.{
  ◌≤◌, ◌≡◌, refl, ap, subst, ◌∙◌, Bool, true, false, some, [], ◌∷◌, if◌then◌else◌, arith, length,
  Option-cases, inl, inr,
}
use strata_p2p.Ids.{PeerId, PublicKey, Bytes}
use strata_p2p.Time.{SystemTime}
use strata_p2p.Message.{RequestMessage, new_request, get_timestamp}
use strata_p2p.Message.Signed
use strata_p2p.Message.Signed.{SignedMessage, ApplicationSigner}
use strata_p2p.Envelope.{is_future, is_stale}
use strata_p2p.P2p.{return_ok, Deps, is_connected, send_request}
use strata_p2p.P2p.RawCodec.{Maxima, io_ok, all_written, read_request, write_request}
use strata_p2p.P2p.RawCodec.Sizes.{read-write_iff}
use strata_p2p.P2p.ReqResp.{sent, Answer, send_request_to}
use strata_p2p.P2p.Request.RequestDelivery
use strata_p2p.Setup.Behaviour.{get_transport_id_by_application_key}
use strata_p2p.Byos.{Node, Reply}
use strata_p2p.Byos.Messages.{ReqRespClock, handle_request, handle_request_response_command}
use strata_p2p.Byos.Messages.Reliable.{IsReliable, signed_and_written}
use strata_p2p.Byos.Messages.Allowed.{IsAdmitted, handle_request-IsAdmitted}

module _ (deps : Deps) (signer : ApplicationSigner) (key : PublicKey)
    (reliable : IsReliable deps deps.request_wire signer key) where
  -- What `send_request_to` sends is a signed request that decodes.
  sent_signed :
      (R : Type 0) {P : Type 0} (p : P) (connected : Bool) (now : SystemTime) (m bytes : Bytes)
      (peer to : PeerId)
      → (send_request_to {R = R} deps signer key p connected now m peer).effects
        ≡ send_request to bytes ∷ []
      → (signed : SignedMessage RequestMessage) × (signed.message ≡ new_request now key m to)
        × (Signed.verify deps.request_to_vec deps.verify (λ r. r.public_key) signed ≡ some true)
        × (deps.request_wire.from_slice bytes ≡ some signed)
  unfolding send_request_to
  sent_signed R p connected now m bytes peer to e =
      let (signed, written, done, content, valid, decoded) =
        signed_and_written deps deps.request_wire signer key deps.request_to_vec (λ r. r.public_key)
          (new_request now key m peer) (return_ok p []) (return_ok p [])
          (λ b. if connected then return_ok p (send_request peer b ∷ []) else return_ok p [])
          (λ s. s.effects) (send_request to bytes ∷ []) reliable (unfold new_request in refl) e
          (λ x. cc) (λ x. cc) in
      let there : peer ≡ to = ground (arith, done) in
      (
        signed,
        content ∙ ap (new_request now key m) there,
        valid,
        subst (λ b. deps.request_wire.from_slice b ≡ some signed) (ground (arith, done)) decoded,
      )

-- A request that one node sends, and that is no longer than the other's maximum, is read there as it
-- was written, and the other node's application receives its content, where its channel takes it, the
-- sender's key is admitted there, the date lies in the time window, the signer fits the key, and the
-- serializer reads back what it writes.
pub request_arrives :
    {S Q : Type 0} (deps : Deps) (n other : Node S Q) (maxima : Maxima) (target : PublicKey)
    (from : PeerId) (sent_at : SystemTime) (at : ReqRespClock) (m bytes : Bytes) (answer : Answer)
    → IsReliable deps deps.request_wire n.signer n.config.app_public_key
    → (handle_request_response_command deps n sent_at m target).effects
      ≡ send_request other.swarm.local_peer_id bytes ∷ []
    → length bytes ≤ maxima.request_size_maximum
    → IsAdmitted deps other from n.config.app_public_key
    → is_future other.config.limits at.envelope (get_timestamp sent_at) ≡ false
    → is_stale other.config.limits at.age (get_timestamp sent_at) ≡ false
    → (arrived : Bytes) × (read_request maxima (write_request bytes all_written).1 ≡ io_ok arrived)
      × (RequestDelivery.requested (handle_request deps other from arrived at sent answer).effects
          ≡ m ∷ [])
unfolding handle_request_response_command new_request
request_arrives deps n other maxima target from sent_at at m bytes answer reliable sends fits
      admitted past fresh =
    elim (Option-cases (get_transport_id_by_application_key n.setup target)) [
      | inl none_e ↦ absurd (ground (arith, none_e))
      | inr (peer, mapped) ↦
          let (signed, content, valid, decoded) =
            sent_signed deps n.signer n.config.app_public_key reliable Reply n
              (is_connected n.swarm peer) sent_at m bytes peer other.swarm.local_peer_id
              (ground (arith, mapped, sends)) in
          (
            bytes,
            (read-write_iff maxima bytes).0.1 fits,
            (handle_request-IsAdmitted deps other from bytes at answer m).1 (
              signed,
              record {
                decoded = decoded;
                verified = valid;
                destination = rw (content, new_request) refl;
                past = rw (content, new_request) past;
                protocol = rw (content, new_request) refl;
                version = rw (content, new_request) refl;
              },
              rw (content, new_request) admitted,
              rw (content, new_request) fresh,
              rw (content, new_request) refl,
            ),
          )
    ]
