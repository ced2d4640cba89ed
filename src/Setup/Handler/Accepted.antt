-- ===== src/Setup/Handler/Accepted.antt =====
-- Which setup messages give a peer's key.
use strata_p2p.Common.{◌≡◌, ◌↔◌, true, false, some, arith}
use strata_p2p.Ids.{PublicKey}
use strata_p2p.Time.{SystemTime}
use strata_p2p.Message.{SetupMessage}
use strata_p2p.Message.Signed
use strata_p2p.Message.Signed.{SignedMessage, Verifier}
use strata_p2p.Envelope.{setup_is_stale, setup_is_future}
use strata_p2p.Setup.{app_key_received}
use strata_p2p.Setup.Upgrade.{SetupDeps}
use strata_p2p.Setup.Handler.{SetupHandler, check_setup}

-- A message that is signed by the key it names, is meant for this connection's two ends, and lies in
-- the time window.
pub record IsAcceptable (deps : SetupDeps) (verify : Verifier) (h : SetupHandler) (now : SystemTime)
    (signed : SignedMessage SetupMessage) : Type 0 where
  pub verified : Signed.verify deps.setup_to_vec verify (λ m. m.app_public_key) signed ≡ some true
  pub to_us : signed.message.remote_transport_id ≡ h.local_transport_id
  pub from_them : signed.message.local_transport_id ≡ h.remote_transport_id
  pub fresh : setup_is_stale h.envelope_max_age now signed.message.date ≡ false
  pub past : setup_is_future h.max_clock_skew now signed.message.date ≡ false

module _ (deps : SetupDeps) (verify : Verifier) (h : SetupHandler) (now : SystemTime)
    (signed : SignedMessage SetupMessage) (key : PublicKey) where
  IsAcceptable-of_checks :
      check_setup deps verify h now signed ≡ app_key_received key
      → (signed.message.app_public_key ≡ key) × IsAcceptable deps verify h now signed
  unfolding check_setup Signed.verify
  IsAcceptable-of_checks e = (
    ground arith,
    record {
      verified = ground arith;
      to_us = ground arith;
      from_them = ground arith;
      fresh = ground arith;
      past = ground arith;
    },
  )

  pub check-IsAcceptable :
      IsAcceptable deps verify h now signed
      → check_setup deps verify h now signed ≡ app_key_received signed.message.app_public_key
  unfolding check_setup Signed.verify
  check-IsAcceptable ok = ground (arith, ok.verified, ok.to_us, ok.from_them, ok.fresh, ok.past)

  -- The handler reports a key exactly when the message names that key and is signed by it, its
  -- sender and destination are the connection's two ends, and its date lies in the time window.
  pub accepted_iff :
      (check_setup deps verify h now signed ≡ app_key_received key)
      ↔ ((signed.message.app_public_key ≡ key) × IsAcceptable deps verify h now signed)
  accepted_iff = (IsAcceptable-of_checks, λ ok. cc (check-IsAcceptable (ok.1)))
