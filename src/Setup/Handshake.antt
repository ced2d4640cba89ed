-- ===== src/Setup/Handshake.antt =====
-- The handshake from end to end: crates/p2p/src/swarm/setup/upgrade.rs on one peer against
-- crates/p2p/src/swarm/setup/upgrade.rs and handler.rs on the other.
use strata_p2p.Common.{
  ◌≡◌, ◌≤◌, refl, sym, ap, subst, ◌≢◌, ◌∙◌, ◌++◌, true, false, none, some, [], arith, length, inl,
  inr, Option-cases,
}
use mathlib.Core.List.{append-nil}
use strata_p2p.Ids.{Bytes}
use strata_p2p.Time.{SystemTime}
use strata_p2p.Message.{SetupMessage, new_setup, get_timestamp}
use strata_p2p.Message.Signed
use strata_p2p.Message.Signed.{SignedMessage, Verifier, ApplicationSigner}
use strata_p2p.Envelope.{setup_is_stale, setup_is_future}
use strata_p2p.Setup.{app_key_received}
use strata_p2p.Setup.Codec.{max_frame_size, decoded, decode, encode}
use strata_p2p.Setup.Codec.Frames.{decode-encode}
use strata_p2p.Setup.Upgrade.{
  SetupDeps, OutboundSetupUpgrade, upgraded, upgrade_inbound, upgrade_outbound,
}
use strata_p2p.Setup.Handler.{SetupHandler, check_setup}
use strata_p2p.Setup.Handler.Accepted.{check-IsAcceptable}

-- The signature scheme and the serializer do what they promise on this side's messages: what the
-- signer signs is verified by the key, and what is written is read back and fits a frame.
pub record IsHonest (deps : SetupDeps) (verify : Verifier) (up : OutboundSetupUpgrade)
    : Type 0 where
  pub signs :
      (bytes signature : Bytes)
      → up.signer bytes ≡ some signature
      → verify up.app_public_key bytes signature ≡ true
  pub reads_back :
      (signed : SignedMessage SetupMessage) (bytes : Bytes)
      → deps.setup_wire.to_vec signed ≡ some bytes
      → deps.setup_wire.from_slice bytes ≡ some signed
  pub fits :
      (signed : SignedMessage SetupMessage) (bytes : Bytes)
      → deps.setup_wire.to_vec signed ≡ some bytes
      → length bytes ≤ max_frame_size

module _ (deps : SetupDeps) (verify : Verifier) (up : OutboundSetupUpgrade)
    (honest : IsHonest deps verify up) where
  -- What the dialing side writes, the listening side reads back as its signed message.
  created :
      (sent_at : SystemTime) (written : Bytes)
      → upgrade_outbound deps up sent_at ≡ upgraded written
      → (signed : SignedMessage SetupMessage) × (signed.message
          ≡ new_setup sent_at up.app_public_key up.local_transport_id up.remote_transport_id)
        × (Signed.verify deps.setup_to_vec verify (λ m. m.app_public_key) signed ≡ some true)
        × (encode deps.setup_wire.to_vec signed [] ≡ some written)
  unfolding upgrade_outbound Signed.new Signed.verify
  created sent_at written e =
      let m = new_setup sent_at up.app_public_key up.local_transport_id up.remote_transport_id in
      elim (Option-cases (deps.setup_to_vec m)) [
        | inl none_e ↦ absurd (ground (arith, none_e))
        | inr (bytes, bytes_e) ↦ elim (Option-cases (up.signer bytes)) [
          | inl none_e ↦ absurd (ground (arith, bytes_e, none_e))
          | inr (signature, signature_e) ↦ (
            record { message = m; signature = signature },
            refl,
            rw (Signed.verify, bytes_e) (ap some (honest.signs bytes signature signature_e)),
            ground (arith, bytes_e, signature_e),
          )
        ]
      ]

  some-injective : {A : Type 0} {x y : A} → some x ≡ some y → x ≡ y
  some-injective e = cc e

  not_encoded :
      (signed : SignedMessage SetupMessage) (written : Bytes)
      → deps.setup_wire.to_vec signed ≡ none
      → encode deps.setup_wire.to_vec signed [] ≢ some written
  unfolding encode
  not_encoded signed written none_e e = ground (arith, none_e)

  read_framed :
      (signed : SignedMessage SetupMessage) (framed : Bytes)
      → decode deps.setup_wire.from_slice (framed ++ []) ≡ (decoded signed, [])
      → upgrade_inbound deps framed ≡ upgraded signed
  unfolding upgrade_inbound
  read_framed signed framed back =
      let at_framed : decode deps.setup_wire.from_slice framed ≡ (decoded signed, []) =
        subst (λ bytes. decode deps.setup_wire.from_slice bytes ≡ (decoded signed, []))
          (append-nil framed) back in
      rw (upgrade_inbound, at_framed) refl

  read_back :
      (signed : SignedMessage SetupMessage) (written : Bytes)
      → encode deps.setup_wire.to_vec signed [] ≡ some written
      → upgrade_inbound deps written ≡ upgraded signed
  read_back signed written e = elim (Option-cases (deps.setup_wire.to_vec signed)) [
    | inl none_e ↦ absurd (not_encoded signed written none_e e)
    | inr (bytes, bytes_e) ↦
        let (framed, framed_e, back) =
          decode-encode deps.setup_wire.to_vec deps.setup_wire.from_slice signed bytes [] bytes_e
            (honest.reads_back signed bytes bytes_e) (honest.fits signed bytes bytes_e) in
        let same : framed ≡ written = some-injective (sym framed_e ∙ e) in
        subst (λ bytes. upgrade_inbound deps bytes ≡ upgraded signed) same
          (read_framed signed framed back)
  ]

  -- When a peer completes its side of the handshake, the other side reads its signed message and
  -- reports its key, where both sides name the same two transport ids, the signer fits the key, the
  -- serializer reads back what it writes within a frame, and the date lies in the receiver's time
  -- window.
  pub handshake :
      (h : SetupHandler) (sent_at now : SystemTime) (written : Bytes)
      → upgrade_outbound deps up sent_at ≡ upgraded written
      → up.remote_transport_id ≡ h.local_transport_id
      → up.local_transport_id ≡ h.remote_transport_id
      → setup_is_stale h.envelope_max_age now (get_timestamp sent_at) ≡ false
      → setup_is_future h.max_clock_skew now (get_timestamp sent_at) ≡ false
      → (signed : SignedMessage SetupMessage) × (upgrade_inbound deps written ≡ upgraded signed)
        × (check_setup deps verify h now signed ≡ app_key_received up.app_public_key)
  unfolding new_setup
  handshake h sent_at now written sent to_us from_them fresh past =
      let (signed, m, v, w) = created sent_at written sent in
      (
        signed,
        read_back signed written w,
        rw
            (
              check-IsAcceptable deps verify h now signed up.app_public_key (record {
                verified = v;
                to_us = rw m to_us;
                from_them = rw m from_them;
                fresh = rw m fresh;
                past = rw m past;
              }),
              m,
            )
            refl,
      )
