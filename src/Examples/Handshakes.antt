-- ===== src/Examples/Handshakes.antt =====
-- The theorems on the setup handshake: the peer 107 with the key 7 dials the peer 105.
use strata_p2p.Common.{
  ◌≡◌, refl, sym, ap, is_some_and, Option, none, some, [], ◌∷◌, ◌++◌, arith, length, leb,
  if◌then◌else◌,
}
use strata_p2p.Ids.{Bytes}
use strata_p2p.Map
use strata_p2p.Time.{SystemTime, from_secs}
use strata_p2p.Message.{SetupMessage, get_timestamp}
use strata_p2p.Message.Signed
use strata_p2p.Message.Signed.{SignedMessage}
use strata_p2p.Envelope.{setup_is_stale, setup_is_future}
use strata_p2p.Setup.{app_key_received}
use strata_p2p.Setup.Codec.{to_be_bytes, encode, decode, decoded}
use strata_p2p.Setup.Codec.Frames.{decode-encode}
use strata_p2p.Setup.Upgrade.{
  SetupDeps, OutboundSetupUpgrade, upgraded, upgrade_inbound, upgrade_outbound,
}
use strata_p2p.Setup.Handler
use strata_p2p.Setup.Handler.{SetupHandler, check_setup}
use strata_p2p.Setup.Handler.Accepted.{accepted_iff}
use strata_p2p.Setup.Handshake.{IsHonest, handshake}
use strata_p2p.Setup.Behaviour
use strata_p2p.Setup.Behaviour.{
  SetupBehaviour, get_app_public_key_by_transport_id, get_transport_id_by_application_key,
  on_connection_closed, on_connection_handler_event,
}
use strata_p2p.Setup.Behaviour.Mapping.{IsBimap, IsFresh, shared_key_lost}
use strata_p2p.Examples.{toy_verify, signer_of}

abbrev setup_of : Bytes → Option (SignedMessage SetupMessage)
setup_of (key ∷ local ∷ remote ∷ date ∷ signature) = some (record {
  message = record {
    app_public_key = key;
    local_transport_id = local;
    remote_transport_id = remote;
    date = date;
  };
  signature = signature;
})
setup_of _ = none

-- Signatures of more than 64 bytes cannot be written.
abbrev bytes_of : SignedMessage SetupMessage → Option Bytes
bytes_of e =
    if leb (length e.signature) 64
    then some (
        e.message.app_public_key ∷ e.message.local_transport_id ∷ e.message.remote_transport_id
        ∷ e.message.date ∷ e.signature)
    else none

abbrev deps : SetupDeps
deps = record {
  setup_to_vec = λ m. some (m.app_public_key ∷ m.date ∷ []);
  setup_wire = record { to_vec = bytes_of; from_slice = setup_of };
}

abbrev dialer : OutboundSetupUpgrade
dialer = record {
  app_public_key = 7;
  local_transport_id = 107;
  remote_transport_id = 105;
  signer = signer_of 7;
}

abbrev handler : SetupHandler
handler = Handler.new 5 105 107 (signer_of 5) (from_secs 60) (from_secs 5)

abbrev noon : SystemTime
noon = from_secs 1000

abbrev sent : SignedMessage SetupMessage
sent = record {
  message = record {
    app_public_key = 7;
    local_transport_id = 107;
    remote_transport_id = 105;
    date = 1000;
  };
  signature = 7 ∷ [];
}

abbrev written : Bytes
written = to_be_bytes 5 ++ (7 ∷ 107 ∷ 105 ∷ 1000 ∷ 7 ∷ [])

dialer-IsHonest : IsHonest deps toy_verify dialer
dialer-IsHonest = record {
  signs =
      λ bytes signature signed. sym (ap (λ o. is_some_and o (λ s. toy_verify 7 bytes s)) signed);
  reads_back = λ signed bytes written. ground arith;
  fits = λ signed bytes written. ground arith;
}

handshake_example :
    (signed : SignedMessage SetupMessage) × (upgrade_inbound deps written ≡ upgraded signed)
    × (check_setup deps toy_verify handler noon signed ≡ app_key_received 7)
unfolding Handler.new upgrade_outbound get_timestamp setup_is_stale setup_is_future
handshake_example =
    handshake deps toy_verify dialer dialer-IsHonest handler noon noon written refl refl refl refl
      refl

accepted_iff_example : check_setup deps toy_verify handler noon sent ≡ app_key_received 7
unfolding Handler.new Signed.verify setup_is_stale setup_is_future
accepted_iff_example =
    (accepted_iff deps toy_verify handler noon sent 7).1
      (refl, record { verified = refl; to_us = refl; from_them = refl; fresh = refl; past = refl })

abbrev behaviour : SetupBehaviour
behaviour = Behaviour.new 5 105 (signer_of 5) (from_secs 60) (from_secs 5)

behaviour-IsBimap : IsBimap behaviour
unfolding IsBimap Behaviour.new get_app_public_key_by_transport_id
    get_transport_id_by_application_key Map.get
behaviour-IsBimap t k = (λ e. cc e, λ e. cc e)

behaviour-IsFresh : IsFresh behaviour 107 7
unfolding Behaviour.new get_app_public_key_by_transport_id get_transport_id_by_application_key
    Map.get
behaviour-IsFresh = record { only_key = λ j e. cc e; only_peer = λ s e. cc e }

abbrev acquainted : SetupBehaviour
acquainted = on_connection_handler_event behaviour 107 1 (app_key_received 7)

shared_key_lost_example :
    get_transport_id_by_application_key
      (on_connection_closed
        (on_connection_handler_event acquainted 108 2 (app_key_received 7))
        107
        0)
      7
    ≡ none
shared_key_lost_example = (shared_key_lost behaviour 107 108 1 2 7 (λ e. omega (arith, e))).1

decode-encode_example :
    (framed : Bytes) × (encode bytes_of sent [] ≡ some framed)
    × (decode setup_of (framed ++ (0 ∷ [])) ≡ (decoded sent, 0 ∷ []))
decode-encode_example =
    decode-encode bytes_of setup_of sent (7 ∷ 107 ∷ 105 ∷ 1000 ∷ 7 ∷ []) (0 ∷ []) refl refl
      (omega arith)
