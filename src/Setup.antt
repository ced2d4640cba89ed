-- ===== src/Setup.antt =====
-- crates/p2p/src/swarm/setup: the handshake of the feature `byos`, in which peers exchange their
-- application public keys. The events and errors of events.rs and crates/p2p/src/swarm/errors.rs.
-- A `Vec` of events, pushed and popped at its end, is a list with the newest event first.
pub mod Codec
pub mod Upgrade
pub mod Handler
pub mod Behaviour
pub mod Handshake
use strata_p2p.Ids.{PeerId, PublicKey, ConnectionId}

-- Boxed causes are left out.
pub data SetupError : Type 0 where
  signature_verification_failed app_public_key_invalid outbound_error : SetupError
  inbound_error transport_id_mismatch stale_message future_message : SetupError

pub data SetupHandlerEvent : Type 0 where
  app_key_received : PublicKey → SetupHandlerEvent
  negotiation_failed : SetupHandlerEvent
  error_during_setup_handshake : SetupError → SetupHandlerEvent

-- A handler event with the peer and the connection that it came from.
pub record SetupBehaviourEvent : Type 0 where
  pub transport_id : PeerId
  pub conn_id : ConnectionId
  pub event : SetupHandlerEvent
