-- ===== src/Byos/Messages/Reliable.antt =====
-- Envelopes on their way from a signer that the receiver verifies, over a wire that reads back what it
-- writes.
use strata_p2p.Common.{◌≡◌, ◌≢◌, true, Option, none, some, arith, Option-cases, inl, inr}
use strata_p2p.Ids.{PublicKey, Bytes}
use strata_p2p.Message.Signed
use strata_p2p.Message.Signed.{SignedMessage, ApplicationSigner, Wire}
use strata_p2p.P2p.{Deps}

-- What the signer signs is verified by the key, and what the serializer writes it reads back.
pub record IsReliable {M : Type 0} (deps : Deps) (wire : Wire (SignedMessage M))
    (signer : ApplicationSigner) (key : PublicKey) : Type 0 where
  pub signs :
      (bytes signature : Bytes)
      → signer bytes ≡ some signature
      → deps.verify key bytes signature ≡ true
  pub reads_back :
      (signed : SignedMessage M) (bytes : Bytes)
      → wire.to_vec signed ≡ some bytes
      → wire.from_slice bytes ≡ some signed

-- A message that the signer signed carries its content, and a valid signature of the key it names.
verified :
    {M : Type 0} (deps : Deps) (wire : Wire (SignedMessage M)) (signer : ApplicationSigner)
    (key : PublicKey) (to_vec : M → Option Bytes) (key_of : M → PublicKey) (m : M)
    (signed : SignedMessage M)
    → IsReliable deps wire signer key
    → key_of m ≡ key
    → Signed.new to_vec signer m ≡ some signed
    → (signed.message ≡ m) × (Signed.verify to_vec deps.verify key_of signed ≡ some true)
unfolding Signed.new Signed.verify
verified deps wire signer key to_vec key_of m signed reliable same created =
    elim (Option-cases (to_vec m)) [
      | inl none_e ↦ absurd (ground (arith, none_e))
      | inr (bytes, bytes_e) ↦ elim (Option-cases (signer bytes)) [
        | inl none_e ↦ absurd (ground (arith, bytes_e, none_e))
        | inr (signature, e) ↦ ground (arith, bytes_e, e, reliable.signs bytes signature e, same)
      ]
    ]

-- Where an outcome is neither the one of a message that is not signed nor of one that is not written,
-- the message was signed and written, and what was written decodes to the signed message.
pub signed_and_written :
    {M X Y : Type 0} (deps : Deps) (wire : Wire (SignedMessage M)) (signer : ApplicationSigner)
    (key : PublicKey) (to_vec : M → Option Bytes) (key_of : M → PublicKey) (m : M)
    (unsigned unwritten : X) (done : Bytes → X) (view : X → Y) (out : Y)
    → IsReliable deps wire signer key
    → key_of m ≡ key
    → view (elim (Signed.new to_vec signer m) [
      | none ↦ unsigned
      | some signed ↦ elim (wire.to_vec signed) [ none ↦ unwritten | some bytes ↦ done bytes ]
    ])
      ≡ out
    → view unsigned ≢ out
    → view unwritten ≢ out
    → (signed : SignedMessage M) × (bytes : Bytes) × (view (done bytes) ≡ out)
      × (signed.message ≡ m)
      × (Signed.verify to_vec deps.verify key_of signed ≡ some true)
      × (wire.from_slice bytes ≡ some signed)
signed_and_written deps wire signer key to_vec key_of m unsigned unwritten done view out reliable
      same e not_unsigned not_unwritten =
    elim (Option-cases (Signed.new to_vec signer m)) [
      | inl none_e ↦ absurd (ground (arith, none_e))
      | inr (signed, created) ↦ elim (Option-cases (wire.to_vec signed)) [
        | inl none_e ↦ absurd (ground (arith, created, none_e))
        | inr (bytes, written) ↦
            let (content, valid) =
              verified deps wire signer key to_vec key_of m signed reliable same created in
            (
              signed,
              bytes,
              ground (arith, created, written),
              content,
              valid,
              reliable.reads_back signed bytes written,
            )
      ]
    ]
