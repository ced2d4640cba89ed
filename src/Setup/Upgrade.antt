-- ===== src/Setup/Upgrade.antt =====
-- crates/p2p/src/swarm/setup/upgrade.rs: what the two sides write to and read from the substream.
use strata_p2p.Common.{Option, none, some, [], ◌∷◌}
use strata_p2p.Ids.{PeerId, PublicKey, Bytes}
use strata_p2p.Time.{SystemTime}
use strata_p2p.Message.{SetupMessage, new_setup}
use strata_p2p.Message.Signed
use strata_p2p.Message.Signed.{Wire, SignedMessage, ApplicationSigner}
use strata_p2p.Setup.Codec.{encode, need_more, frame_too_large, undecodable, decoded, decode}

pub data SetupUpgradeError : Type 0 where
  signed_message_creation codec unexpected_stream_close : SetupUpgradeError

pub data Upgraded (A : Type 0) : Type 0 where
  upgraded : A → Upgraded A
  failed : SetupUpgradeError → Upgraded A

pub record OutboundSetupUpgrade : Type 0 where
  pub app_public_key : PublicKey
  pub local_transport_id : PeerId
  pub remote_transport_id : PeerId
  pub signer : ApplicationSigner

-- The serializer at the setup messages.
pub record SetupDeps : Type 0 where
  pub setup_to_vec : SetupMessage → Option Bytes
  pub setup_wire : Wire (SignedMessage SetupMessage)

-- The stream has ended: bytes that are left over make the framing fail, none end the stream.
abbrev pub closed : Bytes → Upgraded (SignedMessage SetupMessage)
closed [] = failed unexpected_stream_close
closed (_ ∷ _) = failed codec

-- `upgrade_inbound` once the stream holds `received` and is closed, as the sender closes it.
unfoldable pub upgrade_inbound :
    SetupDeps → (received : Bytes) → Upgraded (SignedMessage SetupMessage)
upgrade_inbound deps received = elim ((decode deps.setup_wire.from_slice received).0) [
  | decoded signed_message ↦ upgraded signed_message
  | need_more ↦ closed received
  | frame_too_large ↦ failed codec
  | undecodable ↦ failed codec
]

-- `upgrade_outbound`: the bytes that it writes before it closes the stream.
unfoldable pub upgrade_outbound : SetupDeps → OutboundSetupUpgrade → SystemTime → Upgraded Bytes
unfolding Signed.new new_setup encode
upgrade_outbound deps self now =
    let setup_message =
      new_setup now self.app_public_key self.local_transport_id self.remote_transport_id in
    elim (Signed.new deps.setup_to_vec self.signer setup_message) [
      | none ↦ failed signed_message_creation
      | some signed ↦ elim (encode deps.setup_wire.to_vec signed []) [
        | none ↦ failed codec
        | some written ↦ upgraded written
      ]
    ]
