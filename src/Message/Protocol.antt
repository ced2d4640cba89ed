-- ===== src/Message/Protocol.antt =====
-- The protocol numbers of crates/p2p/src/swarm/message/mod.rs, and the tests on protocol and version.
use strata_p2p.Common.{ℕ, ◌≡◌, ◌↔◌, true, some, arith}
use strata_p2p.Message.{
  ProtocolId, setup, gossip, request_response, to_u8, try_from, protocol_eq, Version, v2, is_v2,
}

-- Number and protocol determine one another: `try_from` accepts exactly the numbers of protocols.
try_from_iff : (value : ℕ) (p : ProtocolId) → (try_from value ≡ some p) ↔ (value ≡ to_u8 p)
unfolding try_from to_u8
try_from_iff value setup = ground arith
try_from_iff value gossip = ground arith
try_from_iff value request_response = ground arith

pub protocol_eq→eq : (a b : ProtocolId) → protocol_eq a b ≡ true → a ≡ b
unfolding protocol_eq
protocol_eq→eq a b h = ground arith

pub is_v2→eq : (v : Version) → is_v2 v ≡ true → v ≡ v2
is_v2→eq v h = ground arith
