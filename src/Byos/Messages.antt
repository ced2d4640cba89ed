-- ===== src/Byos/Messages.antt =====
-- Gossip, requests and responses of crates/p2p/src/swarm/mod.rs with the feature `byos`: no mutes and
-- no scores, but an allowlist, and the keys that the setup handshake has mapped to the peers.
pub mod Allowed
pub mod Reliable
pub mod Arrives
pub mod Answers
pub mod Spreads
use strata_p2p.Common.{
  Bool, not, Option, none, some, ◌||◌, ◌⊎◌, inl, inr, [], ◌∷◌, ◌==◌, if◌then◌else◌,
}
use strata_p2p.Ids.{PeerId, PublicKey, MessageId, Bytes}
use strata_p2p.Time.{SystemTime}
use strata_p2p.Envelope.{is_stale}
use strata_p2p.P2p.{Step, Deps, is_connected, return_ok}
use strata_p2p.P2p.Gossip.{open_gossip, check_gossip_envelope, reject_message, deliver_gossip}
use strata_p2p.P2p.ReqResp.{
  SendOutcome, Answer, is_wrong_envelope, open_request, open_response, deliver_request,
  deliver_response, send_request_to,
}
use strata_p2p.Setup.Behaviour.{
  get_app_public_key_by_transport_id, get_transport_id_by_application_key,
}
use strata_p2p.Byos.{Node, Reply, is_allowed}

-- The clock reads of the request and response handlers, in the order of the code.
pub record ReqRespClock : Type 0 where
  pub envelope : SystemTime
  pub age : SystemTime
  pub answer : SystemTime

module _ {S Q : Type 0} where
  unfoldable pub handle_gossip_msg :
      Deps
      → Node S Q
      → PeerId
      → MessageId
      → Bytes
      → SystemTime
      → (receivers : Bool) → Step (Node S Q) Reply
  handle_gossip_msg deps n source message_id bytes now receivers = elim (open_gossip deps bytes) [
    | inl _ ↦ reject_message n message_id source
    | inr signed ↦
        if not (is_allowed n signed.message.public_key)
        then reject_message n message_id source
        else elim (check_gossip_envelope n.config.limits now signed.message) [
          | some _ ↦ reject_message n message_id source
          | none ↦ deliver_gossip n message_id source signed.message.message receivers
        ]
  ]

  -- The allowlist, and the key that the handshake has mapped to the peer.
  unfoldable pub is_barred : Node S Q → PeerId → PublicKey → Bool
  unfolding get_app_public_key_by_transport_id
  is_barred n peer_id key =
      not (is_allowed n key) || (elim (get_app_public_key_by_transport_id n.setup peer_id) [
        | some expected_key ↦ not (expected_key == key)
        | none ↦ Bool.true
      ])

  unfoldable pub handle_request :
      Deps → Node S Q → PeerId → Bytes → ReqRespClock → SendOutcome → Answer → Step (Node S Q) Reply
  handle_request deps n peer_id bytes at outcome answer =
      elim (open_request deps n.swarm.local_peer_id bytes) [
        | none ↦ return_ok n []
        | some signed ↦
            let m = signed.message in
            if is_barred n peer_id m.public_key
            then return_ok n []
            else if is_wrong_envelope n.config.limits at.envelope m.date m.protocol m.version
            then return_ok n []
            else if is_stale n.config.limits at.age m.date
            then return_ok n []
            else deliver_request deps n.signer n.config.app_public_key n m.message at.answer outcome
                answer
      ]

  unfoldable pub handle_response :
      Deps → Node S Q → PeerId → Bytes → ReqRespClock → SendOutcome → Step (Node S Q) Reply
  handle_response deps n peer_id bytes at outcome = elim (open_response deps bytes) [
    | none ↦ return_ok n []
    | some signed ↦
        let m = signed.message in
        if is_barred n peer_id m.app_public_key
        then return_ok n []
        else if is_wrong_envelope n.config.limits at.envelope m.date m.protocol m.version
        then return_ok n []
        else if is_stale n.config.limits at.age m.date
        then return_ok n []
        else deliver_response n m.message outcome
  ]

  unfoldable pub handle_request_response_command :
      Deps → Node S Q → SystemTime → Bytes → PublicKey → Step (Node S Q) Reply
  unfolding get_transport_id_by_application_key
  handle_request_response_command deps n now message target_app_public_key =
      elim (get_transport_id_by_application_key n.setup target_app_public_key) [
        | none ↦ return_ok n []
        | some peer_id ↦
            send_request_to deps n.signer n.config.app_public_key n (is_connected n.swarm peer_id)
              now message peer_id
      ]
