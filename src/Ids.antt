-- ===== src/Ids.antt =====
-- The identifiers that the code takes from libp2p (`PeerId`, `PublicKey`, `ConnectionId`, `QueryId`,
-- `MessageId`, `Multiaddr`) and only stores, copies and compares: each is a number. What libp2p
-- computes from them (`to_peer_id`, `verify`, `protocol_stack`, ...) is a parameter where it is used.
use strata_p2p.Common.{ℕ, List}

abbrev pub PeerId : Type 0
PeerId = ℕ

abbrev pub PublicKey : Type 0
PublicKey = ℕ

abbrev pub ConnectionId : Type 0
ConnectionId = ℕ

abbrev pub QueryId : Type 0
QueryId = ℕ

abbrev pub MessageId : Type 0
MessageId = ℕ

abbrev pub Multiaddr : Type 0
Multiaddr = ℕ

-- `Vec<u8>`
abbrev pub Bytes : Type 0
Bytes = List ℕ
