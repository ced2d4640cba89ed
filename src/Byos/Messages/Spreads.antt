-- ===== src/Byos/Messages/Spreads.antt =====
-- A gossip message on its way from one node to the application of another.
use strata_p2p.Common.{◌≡◌, refl, subst, false, true, some, [], ◌∷◌, arith}
use strata_p2p.Ids.{PeerId, PublicKey, MessageId, Bytes}
use strata_p2p.Time.{SystemTime}
use strata_p2p.Message.{GossipMessage, new_gossip, get_timestamp}
use strata_p2p.Message.Signed
use strata_p2p.Message.Signed.{SignedMessage, ApplicationSigner}
use strata_p2p.Envelope.{is_future, is_stale}
use strata_p2p.P2p.{return_ok, Deps, publish}
use strata_p2p.P2p.Gossip.Delivery
use strata_p2p.P2p.Publish.{handle_gossip_command}
use strata_p2p.Byos.{Node, Reply, is_allowed}
use strata_p2p.Byos.Messages.{handle_gossip_msg}
use strata_p2p.Byos.Messages.Reliable.{IsReliable, signed_and_written}
use strata_p2p.Byos.Messages.Allowed.{handle_gossip_msg-is_allowed}

-- What a gossip command publishes is a signed message that decodes.
publish_signed :
    (R : Type 0) {P : Type 0} (p : P) (deps : Deps) (signer : ApplicationSigner) (key : PublicKey)
    (now : SystemTime) (m bytes : Bytes)
    → IsReliable deps deps.gossip_wire signer key
    → (handle_gossip_command {R = R} deps signer key p now m).effects ≡ publish bytes ∷ []
    → (signed : SignedMessage GossipMessage) × (signed.message ≡ new_gossip now key m)
      × (Signed.verify deps.gossip_to_vec deps.verify (λ m. m.public_key) signed ≡ some true)
      × (deps.gossip_wire.from_slice bytes ≡ some signed)
unfolding handle_gossip_command
publish_signed R p deps signer key now m bytes reliable e =
    let (signed, written, done, content, valid, decoded) =
      signed_and_written deps deps.gossip_wire signer key deps.gossip_to_vec (λ g. g.public_key)
        (new_gossip now key m) (return_ok p []) (return_ok p []) (λ b. return_ok p (publish b ∷ []))
        (λ s. s.effects) (publish bytes ∷ []) reliable (unfold new_gossip in refl) e (λ x. cc)
        (λ x. cc) in
    (
      signed,
      content,
      valid,
      subst (λ b. deps.gossip_wire.from_slice b ≡ some signed) (ground (arith, done)) decoded,
    )

-- What one node publishes, the application of another receives, whoever forwards it, where somebody
-- listens there, the publisher's key is on the other node's allowlist, the date lies in the time
-- window, the signer fits the key, and the serializer reads back what it writes.
pub gossip_arrives :
    {S Q : Type 0} (deps : Deps) (n other : Node S Q) (forwarder : PeerId) (id : MessageId)
    (sent_at now : SystemTime) (m bytes : Bytes)
    → IsReliable deps deps.gossip_wire n.signer n.config.app_public_key
    → (handle_gossip_command {R = Reply} deps n.signer n.config.app_public_key n sent_at m).effects
      ≡ publish bytes ∷ []
    → is_allowed other n.config.app_public_key ≡ true
    → is_future other.config.limits now (get_timestamp sent_at) ≡ false
    → is_stale other.config.limits now (get_timestamp sent_at) ≡ false
    → Delivery.received (handle_gossip_msg deps other forwarder id bytes now true).effects ≡ m ∷ []
unfolding new_gossip
gossip_arrives deps n other forwarder id sent_at now m bytes reliable publishes allowed past fresh =
    let (signed, content, valid, decoded) =
      publish_signed Reply n deps n.signer n.config.app_public_key sent_at m bytes reliable
        publishes in
    (handle_gossip_msg-is_allowed deps other forwarder id bytes now m).1 (
      signed,
      record {
        decoded = decoded;
        verified = valid;
        past = rw (content, new_gossip) past;
        fresh = rw (content, new_gossip) fresh;
        protocol = rw (content, new_gossip) refl;
        version = rw (content, new_gossip) refl;
      },
      rw (content, new_gossip) allowed,
      rw (content, new_gossip) refl,
    )
