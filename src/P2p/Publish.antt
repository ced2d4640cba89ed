-- ===== src/P2p/Publish.antt =====
-- `handle_gossip_command` of crates/p2p/src/swarm/mod.rs; only the public key differs with `byos`.
use strata_p2p.Common.{none, some, [], ◌∷◌}
use strata_p2p.Ids.{PublicKey, Bytes}
use strata_p2p.Time.{SystemTime}
use strata_p2p.Message.{new_gossip}
use strata_p2p.Message.Signed
use strata_p2p.Message.Signed.{ApplicationSigner}
use strata_p2p.P2p.{Step, Deps, publish, return_ok}

-- An error of `publish` is only logged.
unfoldable pub handle_gossip_command :
    {P R : Type 0} → Deps → ApplicationSigner → PublicKey → P → SystemTime → Bytes → Step P R
unfolding Signed.new new_gossip
handle_gossip_command deps signer public_key p now message =
    elim (Signed.new deps.gossip_to_vec signer (new_gossip now public_key message)) [
      | none ↦ return_ok p []
      | some signed ↦ elim (deps.gossip_wire.to_vec signed) [
        | none ↦ return_ok p []
        | some bytes ↦ return_ok p (publish bytes ∷ [])
      ]
    ]
