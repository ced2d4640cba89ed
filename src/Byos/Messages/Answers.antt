-- ===== src/Byos/Messages/Answers.antt =====
-- An answer on its way back to the application that asked.
use strata_p2p.Common.{
  ◌≤◌, ◌≡◌, ◌≢◌, refl, subst, true, false, some, [], ◌∷◌, arith, length, Option-cases, inl, inr,
}
use strata_p2p.Ids.{PeerId, PublicKey, Bytes}
use strata_p2p.Time.{SystemTime}
use strata_p2p.Message.{ResponseMessage, new_response, get_timestamp}
use strata_p2p.Message.Signed
use strata_p2p.Message.Signed.{SignedMessage, ApplicationSigner}
use strata_p2p.Envelope.{is_future, is_stale}
use strata_p2p.P2p.{return_ok, Deps, received_request, send_response}
use strata_p2p.P2p.RawCodec.{Maxima, io_ok, all_written, read_response, write_response}
use strata_p2p.P2p.RawCodec.Sizes.{read-write_iff}
use strata_p2p.P2p.ReqResp.{sent, answered, open_request, answer_request, deliver_request}
use strata_p2p.P2p.Response.ResponseDelivery
use strata_p2p.Byos.{Node, Reply}
use strata_p2p.Byos.Messages.{ReqRespClock, handle_request, handle_response}
use strata_p2p.Byos.Messages.Reliable.{IsReliable, signed_and_written}
use strata_p2p.Byos.Messages.Allowed.{IsAdmitted, handle_response-IsAdmitted}

-- What an answer sends is a signed response that decodes.
answer_signed :
    (R : Type 0) {P : Type 0} (p : P) (deps : Deps) (signer : ApplicationSigner) (key : PublicKey)
    (now : SystemTime) (r bytes : Bytes)
    → IsReliable deps deps.response_wire signer key
    → (answer_request {R = R} deps signer key p now (answered r)).effects ≡ send_response bytes ∷ []
    → (signed : SignedMessage ResponseMessage) × (signed.message ≡ new_response now key r)
      × (Signed.verify deps.response_to_vec deps.verify (λ m. m.app_public_key) signed ≡ some true)
      × (deps.response_wire.from_slice bytes ≡ some signed)
unfolding answer_request
answer_signed R p deps signer key now r bytes reliable e =
    let (signed, written, done, content, valid, decoded) =
      signed_and_written deps deps.response_wire signer key deps.response_to_vec
        (λ m. m.app_public_key) (new_response now key r) (return_ok p []) (return_ok p [])
        (λ b. return_ok p (send_response b ∷ [])) (λ s. s.effects) (send_response bytes ∷ [])
        reliable (unfold new_response in refl) e (λ x. cc) (λ x. cc) in
    (
      signed,
      content,
      valid,
      subst (λ b. deps.response_wire.from_slice b ≡ some signed) (ground (arith, done)) decoded,
    )

-- Whatever is sent back when a request is handled is the answer of the application.
answer_of_request :
    {S Q : Type 0} (deps : Deps) (n : Node S Q) (peer : PeerId) (question q r bytes : Bytes)
    (at : ReqRespClock)
    → (handle_request deps n peer question at sent (answered r)).effects
      ≡ received_request q ∷ send_response bytes ∷ []
    → (answer_request {R = Reply} deps n.signer n.config.app_public_key n at.answer
        (answered r)).effects
      ≡ send_response bytes ∷ []
unfolding handle_request deliver_request
answer_of_request deps n peer question q r bytes at e =
    elim (Option-cases (open_request deps n.swarm.local_peer_id question)) [
      | inl none_e ↦ absurd (ground (arith, none_e))
      | inr (signed, opened) ↦ ground (arith, opened)
    ]

-- The answer that a node sends back to a request, and that is no longer than the other's maximum, is
-- read there as it was written, and the other node's application receives what this node's application
-- answered, where its channel takes it, the answering node's key is admitted there, the date lies in
-- the time window, the bytes are not empty, the signer fits the key, and the serializer reads back
-- what it writes.
pub answer_arrives :
    {S Q : Type 0} (deps : Deps) (n other : Node S Q) (maxima : Maxima) (peer from : PeerId)
    (question q r bytes : Bytes) (handled_at at : ReqRespClock)
    → IsReliable deps deps.response_wire n.signer n.config.app_public_key
    → (handle_request deps n peer question handled_at sent (answered r)).effects
      ≡ received_request q ∷ send_response bytes ∷ []
    → bytes ≢ []
    → length bytes ≤ maxima.response_size_maximum
    → IsAdmitted deps other from n.config.app_public_key
    → is_future other.config.limits at.envelope (get_timestamp handled_at.answer) ≡ false
    → is_stale other.config.limits at.age (get_timestamp handled_at.answer) ≡ false
    → (arrived : Bytes) × (read_response maxima (write_response bytes all_written).1
        ≡ io_ok arrived)
      × (ResponseDelivery.responses (handle_response deps other from arrived at sent).effects
          ≡ r ∷ [])
unfolding new_response
answer_arrives deps n other maxima peer from question q r bytes handled_at at reliable answers
      filled fits admitted past fresh =
    let (signed, content, valid, decoded) =
      answer_signed Reply n deps n.signer n.config.app_public_key handled_at.answer r bytes reliable
        (answer_of_request deps n peer question q r bytes handled_at answers) in
    (
      bytes,
      (read-write_iff maxima bytes).1.1 fits,
      (handle_response-IsAdmitted deps other from bytes at r).1 (
        signed,
        record {
          not_empty = filled;
          decoded = decoded;
          verified = valid;
          past = rw (content, new_response) past;
          protocol = rw (content, new_response) refl;
          version = rw (content, new_response) refl;
        },
        rw (content, new_response) admitted,
        rw (content, new_response) fresh,
        rw (content, new_response) refl,
      ),
    )
