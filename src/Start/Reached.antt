-- ===== src/Start/Reached.antt =====
-- Which peers the commands reach, after any events.
use strata_p2p.Common.{ℕ, ◌≡◌, ◌↔◌, ◌∙◌, ap, Option, true, none, some, List, [], ◌∷◌, Bool}
use mathlib.Core.Path.{fun_ext}
use strata_p2p.Ids.{PeerId, PublicKey, ConnectionId, QueryId, Multiaddr}
use strata_p2p.Message.Signed.{ApplicationSigner}
use strata_p2p.P2p.{Swarm, Deps, is_connected, disconnect_peer_id, reply, ok}
use strata_p2p.Setup.Behaviour.{SetupBehaviour, get_app_public_key_by_transport_id}
use strata_p2p.Setup.Behaviour.Mapping.{IsBimap}
use strata_p2p.Byos
use strata_p2p.Byos.{connected}
use strata_p2p.Byos.DialManager.{Queue}
use strata_p2p.Byos.Control.{handle_command, disconnect_from_peer, query_is_connected}
use strata_p2p.Byos.Control.Targets.{reach-mapped}
use strata_p2p.Byos.Run.{Event, listen}
use strata_p2p.Byos.Run.Keys.{announced, keys-announced}
use strata_p2p.Byos.Run.Owners.{AllAnnounceOwn}
use strata_p2p.Handle.{TimeoutMs}
use strata_p2p.Start.{P2PConfig}
use strata_p2p.Start.Behaviours.{Libp2p, Behaviour, built}
use strata_p2p.Start.Swarms.{setup_behaviour_of}
use strata_p2p.Start.Nodes.{Channels, Buffers, started, byos_from_config}
use strata_p2p.Start.Begun.{no_keys, begun-listen-IsOwned}

module _ {A B L : Type 0} (libp2p : Libp2p A B) (cfg : P2PConfig A B L) (channels : Channels)
    (listens_on : Multiaddr → Bool) {S : Type 0} (swarm : Swarm S) (size : Option ℕ)
    (ms : TimeoutMs) {Q : Type 0} (allowlist : List PublicKey) (signer : ApplicationSigner)
    (b : Behaviour A B L SetupBehaviour) (n : Byos.Node S Q) (buffers : Buffers)
    (made : setup_behaviour_of libp2p cfg signer ≡ built b)
    (begun : (byos_from_config channels listens_on cfg swarm b.own allowlist size signer ms).0
      ≡ started n buffers) where
  -- Where each peer announces only its own key, and no two peers own the same one: after any events from
  -- a node that has just been constructed, where no handler has failed, take a connected peer and the
  -- last key that it has announced since its last connection closed. The query for that key says that
  -- its peer is connected, and the command to disconnect the key's peer disconnects that peer exactly
  -- if its id is the one that libp2p derives from the key.
  pub disconnects_iff :
      (owned : PeerId → PublicKey)
      → ((s t : PeerId) → owned s ≡ owned t → s ≡ t)
      → (q : Queue Q) (deps : Deps) (events : List (Event S)) (t : PeerId) (k : PublicKey)
        (conn : ConnectionId) (id : QueryId)
      → AllAnnounceOwn owned events
      → (listen q deps cfg.protocol_name n events).result ≡ ok
      → let after = (listen q deps cfg.protocol_name n events).state in
        announced (λ p. none) events t ≡ some k
        → is_connected after.swarm t ≡ true
        → ((handle_command q deps after (query_is_connected k) conn id).effects
            ≡ reply (connected true) ∷ [])
          × (((handle_command q deps after (disconnect_from_peer k) conn id).effects
                ≡ disconnect_peer_id t ∷ [])
              ↔ (deps.to_peer_id k ≡ t))
  unfolding IsBimap
  disconnects_iff owned distinct q deps events t k conn id all fine last there =
      let after = (listen q deps cfg.protocol_name n events).state in
      let own =
        begun-listen-IsOwned libp2p cfg channels listens_on swarm size ms allowlist signer b n
          buffers made begun owned distinct q deps events all in
      let at_start =
        ap (λ known. announced known events t)
          (fun_ext (
            no_keys libp2p cfg channels listens_on swarm size ms allowlist signer b n buffers made
              begun)) in
      let mapped : get_app_public_key_by_transport_id after.setup t ≡ some k =
        keys-announced q deps cfg.protocol_name n events fine t ∙ (at_start ∙ last) in
      reach-mapped q deps after conn id t k ((own.bimap t k).0 mapped) there
