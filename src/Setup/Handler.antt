-- ===== src/Setup/Handler.antt =====
-- crates/p2p/src/swarm/setup/handler.rs: the handler of one connection.
pub mod Accepted
use strata_p2p.Common.{
  Bool, true, false, not, ◌||◌, Option, none, some, List, [], ◌∷◌, ◌==◌, if◌then◌else◌, unwrap_or,
}
use strata_p2p.Ids.{PeerId, PublicKey, Bytes}
use strata_p2p.Time.{SystemTime, Duration}
use strata_p2p.Message.{SetupMessage}
use strata_p2p.Message.Signed
use strata_p2p.Message.Signed.{SignedMessage, Verifier, ApplicationSigner}
use strata_p2p.Envelope.{setup_is_stale, setup_is_future}
use strata_p2p.Setup.{
  SetupError, signature_verification_failed, transport_id_mismatch, stale_message, future_message,
  outbound_error, inbound_error, SetupHandlerEvent, app_key_received, negotiation_failed,
  error_during_setup_handshake,
}
use strata_p2p.Setup.Upgrade.{OutboundSetupUpgrade, SetupDeps}

pub record SetupHandler : Type 0 where
  pub outbound_substream : Option OutboundSetupUpgrade
  pub pending_events : List SetupHandlerEvent
  pub local_transport_id : PeerId
  pub remote_transport_id : PeerId
  pub envelope_max_age : Duration
  pub max_clock_skew : Duration
  pub keep_alive : Bool

unfoldable pub new :
    PublicKey → PeerId → PeerId → ApplicationSigner → Duration → Duration → SetupHandler
new app_public_key local_transport_id remote_transport_id signer envelope_max_age max_clock_skew =
    record {
      outbound_substream = some (record {
        app_public_key = app_public_key;
        local_transport_id = local_transport_id;
        remote_transport_id = remote_transport_id;
        signer = signer;
      });
      pending_events = [];
      local_transport_id = local_transport_id;
      remote_transport_id = remote_transport_id;
      envelope_max_age = envelope_max_age;
      max_clock_skew = max_clock_skew;
      keep_alive = true;
    }

pub data ConnectionEvent : Type 0 where
  fully_negotiated_inbound : SignedMessage SetupMessage → ConnectionEvent
  dial_upgrade_error : (is_negotiation_failed : Bool) → ConnectionEvent
  listen_upgrade_error : ConnectionEvent
  other : ConnectionEvent

pub data Polled : Type 0 where
  notify_behaviour : SetupHandlerEvent → Polled
  outbound_substream_request : OutboundSetupUpgrade → Polled
  pending : Polled

unfoldable pub poll : SetupHandler → Polled × SetupHandler
poll h = elim h.pending_events [
  | event ∷ rest ↦ (notify_behaviour event, record h { pending_events = rest })
  | [] ↦ elim h.outbound_substream [
    | some substream ↦
        (outbound_substream_request substream, record h { outbound_substream = none })
    | none ↦ (pending, h)
  ]
]

-- The event for a message that has arrived: the first test that fails, or the key.
pub check_setup :
    SetupDeps
    → Verifier
    → SetupHandler
    → SystemTime
    → SignedMessage SetupMessage
    → SetupHandlerEvent
unfolding Signed.verify
check_setup deps verify h now signed =
    let m = signed.message in
    if not (unwrap_or (Signed.verify deps.setup_to_vec verify (λ x. x.app_public_key) signed) false)
    then error_during_setup_handshake signature_verification_failed
    else if not (m.remote_transport_id == h.local_transport_id)
        || not (m.local_transport_id == h.remote_transport_id)
    then error_during_setup_handshake transport_id_mismatch
    else if setup_is_stale h.envelope_max_age now m.date
    then error_during_setup_handshake stale_message
    else if setup_is_future h.max_clock_skew now m.date
    then error_during_setup_handshake future_message
    else app_key_received m.app_public_key

unfoldable pub on_connection_event :
    SetupDeps → Verifier → SetupHandler → SystemTime → ConnectionEvent → SetupHandler
on_connection_event deps verify h now (fully_negotiated_inbound signed) = record h {
  keep_alive = false;
  pending_events = check_setup deps verify h now signed ∷ h.pending_events;
}
on_connection_event deps verify h now (dial_upgrade_error is_negotiation_failed) =
    let event =
      if is_negotiation_failed
      then negotiation_failed
      else error_during_setup_handshake outbound_error in
    record h { keep_alive = false; pending_events = event ∷ h.pending_events }
on_connection_event deps verify h now listen_upgrade_error = record h {
  pending_events = error_during_setup_handshake inbound_error ∷ h.pending_events;
}
on_connection_event deps verify h now other = h
