-- ===== src/Lib.antt =====
-- A model of strata-p2p, a library that wraps libp2p for peer-to-peer messaging with signed envelopes,
-- and the theorems that make it correct.
--
-- A node (`P2P` in crates/p2p/src/swarm/mod.rs) owns a libp2p swarm. Its loop takes one event of the
-- swarm, or one command of the application, and runs one handler, which may change the node's state,
-- call the swarm and send on channels. Each handler is a function here: it takes the state, the event,
-- and what the environment decides (each read of the clock, the outcome of each channel operation with
-- its timeout, the identifiers that libp2p chooses), and returns a `P2p.Step`: the new state, the
-- calls and sends in their order, and the result, whose error ends the loop.
--
-- The code has two kinds of nodes, chosen by the feature `byos` when it is compiled. Without it, nodes
-- know each other by transport id, and keep scores and penalties. With it, peers exchange application
-- keys in a setup handshake, and an allowlist of keys decides who may speak.
--
-- The parts:
-- - Score, Validator: crates/p2p/src/score_manager.rs and validator.rs, the scores of peers, and the
--   mutes and bans with their terms. Validator.Penalties has their laws.
-- - Message, Message.Signed, Message.Serde: crates/p2p/src/swarm/message and crates/p2p/src/signer.rs, the contents of
--   envelopes and their signatures.
-- - Envelope: the tests on the dates of envelopes in swarm/mod.rs and swarm/setup/handler.rs.
-- - P2p: the node without `byos`. P2p.Node is its state, P2p.Penalty are `apply_penalty` and
--   `remove_penalty`, P2p.Gossip is `handle_gossip_msg`, P2p.Request and P2p.Response are
--   `handle_message_event`, P2p.Records and P2p.Kademlia are `handle_kademlia_event`, P2p.Connection
--   is `handle_connection_event`, P2p.Command is `handle_command`, P2p.Publish is
--   `handle_gossip_command`, P2p.Run is the loop `listen`, P2p.Dial has the order of addresses and the
--   retry loop, P2p.Establish is `establish_connections`, P2p.RawCodec is
--   crates/p2p/src/swarm/codec_raw.rs. P2p.ReqResp and P2p.Records hold what is the same for both kinds
--   of nodes.
-- - Setup: crates/p2p/src/swarm/setup, the handshake: frames, both upgrades, the handler of a
--   connection, the behaviour that maps peers to keys, and Setup.Handshake, which composes them.
-- - Byos: the node with `byos`. Byos.DialManager is crates/p2p/src/swarm/dial_manager.rs, Byos.Dialing
--   are `dial_and_map`, `ConnectToPeer` and `handle_connection_event`, Byos.Messages are gossip,
--   requests and responses, Byos.Kademlia is `handle_kademlia_event`, Byos.Control are the other
--   commands and `handle_setup_event`, Byos.Run is the loop `listen` together with the calls that the
--   swarm makes on the setup behaviour. Byos.Run.Keys has the abstract view of that behaviour.
--   Byos.Messages.Arrives, Answers and Spreads follow a message from one node to another, and
--   Byos.Kademlia.Lookup, Reported and Published follow a whole query for a peer's addresses.
-- - Handle: the queries and sinks of crates/p2p/src/swarm/handle.rs. Handle.Turns follows a query through
--   the loop back to its caller.
-- - Start: the construction. Start is `P2PConfig`, Start.Behaviours is crates/p2p/src/swarm/behavior.rs,
--   Start.Swarms are `with_inmemory_transport` and `with_default_transport`, Start.Nodes is
--   `P2P::from_config`.
-- - Common, Map, Time, Ids, Float: shared helpers, hash maps as association lists, the clock
--   arithmetic of Rust's standard library, identifiers as numbers, `f64` as a parameter.
-- - Examples: concrete nodes and messages.
--
-- libp2p, flexbuffers and cynosure are parameters: what handlers read of the swarm is `P2p.Swarm`, the
-- serializers, the signature scheme and the conversions of identifiers are `P2p.Deps` and
-- `Setup.Upgrade.SetupDeps`, the queue of addresses is `Byos.DialManager.Queue`, what the construction
-- asks of libp2p and tokio are `Start.Behaviours.Libp2p` and `Start.Nodes.Channels`. A theorem that
-- relies on their behaviour says so in a hypothesis.
--
-- Bounds: sums of clock seconds wrap around at 2 ^ 64 as in a release build. Frames carry at most 1 MiB.
-- Clocks before 1970 are left out, and the sum of a time and a penalty's duration does not overflow.
-- The retry loop runs on fuel, and one unit for each retry that is left is enough.
--
-- Not modelled: what tokio's channels, libp2p's behaviours and the serializer do inside, the receiving
-- ends of the handles, the limits on memory, logging, and what happens on the network between two
-- events.
pub mod Common
pub mod Map
pub mod Time
pub mod Ids
pub mod Float
pub mod Score
pub mod Validator
pub mod Message
pub mod Envelope
pub mod P2p
pub mod Setup
pub mod Handle
pub mod Start
pub mod Byos
pub mod Examples
