-- ===== src/Message/Signed.antt =====
-- crates/p2p/src/swarm/message/signed.rs and signer.rs: signed envelopes and the transport signer.
use strata_p2p.Common.{◌==◌, ◌≡◌, Bool, true, Option, none, some, if◌then◌else◌, length, arith}
use strata_p2p.Ids.{PublicKey, Bytes}

-- flexbuffers at one message type, errors as `none`
pub record Wire (M : Type 0) : Type 0 where
  pub to_vec : M → Option Bytes
  pub from_slice : Bytes → Option M

-- `PublicKey::verify`
abbrev pub Verifier : Type 0
Verifier = PublicKey → Bytes → Bytes → Bool

-- `trait ApplicationSigner`: an error of the signer as `none`
abbrev pub ApplicationSigner : Type 0
ApplicationSigner = Bytes → Option Bytes

pub record SignedMessage (M : Type 0) : Type 0 where
  pub message : M
  pub signature : Bytes

-- `TransportKeypairSigner::sign`, over the `sign` of libp2p's keypair
unfoldable pub transport_sign : ApplicationSigner → ApplicationSigner
transport_sign keypair_sign message = elim (keypair_sign message) [
  | none ↦ none
  | some signature ↦ if length signature == 64 then some signature else none
]

-- `to_vec` is `flexbuffers::to_vec` at the message's type.
module _ {M : Type 0} (to_vec : M → Option Bytes) where
  -- `SignedMessage::new`
  unfoldable pub new : ApplicationSigner → M → Option (SignedMessage M)
  new sign message = elim (to_vec message) [
    | none ↦ none
    | some bytes ↦ elim (sign bytes) [
      | none ↦ none
      | some signature ↦ some (record { message = message; signature = signature })
    ]
  ]

  -- `SignedMessage::verify`, given the message's `HasPublicKey`
  unfoldable pub verify : Verifier → (M → PublicKey) → SignedMessage M → Option Bool
  verify check public_key signed = elim (to_vec signed.message) [
    | none ↦ none
    | some serialized ↦ some (check (public_key signed.message) serialized signed.signature)
  ]

  -- What a transport signer that fits the public key has signed is verified, its signature has the
  -- 64 bytes that the envelope has room for, and the message is the one that was signed.
  pub verify-new :
      (check : Verifier) (public_key : M → PublicKey) (keypair_sign : ApplicationSigner)
      (message : M) (signed : SignedMessage M)
      → ((bytes signature : Bytes)
          → keypair_sign bytes ≡ some signature
          → check (public_key message) bytes signature ≡ true)
      → new (transport_sign keypair_sign) message ≡ some signed
      → (verify check public_key signed ≡ some true)
        × (length signed.signature ≡ 64)
        × (signed.message ≡ message)
  unfolding new verify transport_sign
  verify-new check public_key keypair_sign message signed fits created = grind (arith, fits)
