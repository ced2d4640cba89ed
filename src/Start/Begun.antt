-- ===== src/Start/Begun.antt =====
-- Nodes that have just been constructed.
use strata_p2p.Common.{
  ℕ, ◌+◌, ◌≤◌, ◌⊎◌, inl, inr, ◌≡◌, ◌↔◌, refl, ap, sym, true, false, Option, none, some, List, [],
  ◌∷◌, arith, Bool, unwrap_or, contains,
}
use Prim.Native.String.{String}
use strata_p2p.Ids.{PeerId, PublicKey, Multiaddr, Bytes}
use strata_p2p.Map
use strata_p2p.Time.{SystemTime, Duration, from_secs}
use strata_p2p.Float.{Float}
use strata_p2p.Validator.{Validator}
use strata_p2p.Message.{RequestMessage}
use strata_p2p.Message.Signed.{ApplicationSigner, SignedMessage}
use strata_p2p.Envelope.{Limits, is_stale}
use strata_p2p.P2p.{Swarm, Deps, republish_after, ok}
use strata_p2p.P2p.Kademlia.{
  handle_kademlia_event, put_record_ok, put_record_failed, default_kad_record_ttl,
  default_kad_timer_put_record_error,
}
use strata_p2p.P2p.Node
use strata_p2p.P2p.Command.{Reply}
use strata_p2p.P2p.ReqResp.{sent, Answer}
use strata_p2p.P2p.Request.RequestDelivery
use strata_p2p.Setup.Behaviour as Setups
use strata_p2p.Setup.Behaviour.{
  SetupBehaviour, get_app_public_key_by_transport_id, get_transport_id_by_application_key,
}
use strata_p2p.Setup.Behaviour.Mapping.{IsBimap}
use strata_p2p.Byos
use strata_p2p.Byos.DialManager.{Queue}
use strata_p2p.Byos.Messages.{ReqRespClock, handle_request}
use strata_p2p.Byos.Run.{Event, listen}
use strata_p2p.Byos.Run.Keys.{announced}
use strata_p2p.Byos.Run.Heard.{heard_iff}
use strata_p2p.Byos.Run.Owners.{AllAnnounceOwn, IsOwned, listen-IsOwned}
use strata_p2p.Handle.{TimeoutMs}
use strata_p2p.Start.{P2PConfig}
use strata_p2p.Start.Behaviours.{
  assemble, KademliaSettings, GossipsubSettings, Libp2p, Behaviour, Built, built, not_built,
  panicked, new_behaviour, new_setup_behaviour,
}
use strata_p2p.Start.Swarms.{behaviour_of, setup_behaviour_of}
use strata_p2p.Start.Nodes.{Channels, Buffers, started, start, from_config, byos_from_config}

-- The limits on dates that the configuration names.
abbrev pub limits_of : {A B L : Type 0} → P2PConfig A B L → Limits
limits_of cfg = record {
  envelope_max_age = cfg.envelope_max_age;
  max_clock_skew = cfg.max_clock_skew;
}

start-node :
    {A B L N : Type 0} (channels : Channels) (listens_on : Multiaddr → Bool) (cfg : P2PConfig A B L)
    (size : Option ℕ) (node n : N) (buffers : Buffers)
    → start channels listens_on cfg size node ≡ started n buffers
    → node ≡ n
unfolding start
start-node channels listens_on cfg size node n buffers e = ground arith

module _ {A B L : Type 0} (libp2p : Libp2p A B) where
  assemble-parts :
      {X : Type 0} (own : X) (protocol_name : String) (keypair : PublicKey)
      (kademlia : KademliaSettings) (conn_limits : L) (g : Built (GossipsubSettings A B))
      (b : Behaviour A B L X)
      → assemble libp2p own protocol_name keypair kademlia conn_limits g ≡ built b
      → (own ≡ b.own) × (kademlia ≡ b.kademlia)
  assemble-parts own protocol_name keypair kademlia conn_limits (built g) b e = ground arith
  assemble-parts own protocol_name keypair kademlia conn_limits not_built b e =
      absurd (ground arith)
  assemble-parts own protocol_name keypair kademlia conn_limits panicked b e = absurd (ground arith)

module _ {A B L : Type 0} (libp2p : Libp2p A B) (cfg : P2PConfig A B L) where
  record_ttl-built :
      (b : Behaviour A B L (Option (List PeerId)))
      → behaviour_of libp2p cfg ≡ built b
      → b.kademlia.record_ttl
        ≡ some (unwrap_or cfg.kad_record_ttl default_kad_record_ttl + from_secs 300)
  unfolding behaviour_of new_behaviour
  record_ttl-built b e =
      let same = (assemble-parts libp2p _ _ _ _ _ _ b e).1 in
      sym (ap (λ (k : KademliaSettings). k.record_ttl) same)

  setup-built :
      (signer : ApplicationSigner) (b : Behaviour A B L SetupBehaviour)
      → setup_behaviour_of libp2p cfg signer ≡ built b
      → (b.own.transport_ids ≡ []) × (b.own.app_public_keys ≡ [])
  unfolding setup_behaviour_of new_setup_behaviour Setups.new
  setup-built signer b e =
      let same = (assemble-parts libp2p _ _ _ _ _ _ b e).0 in
      (
        sym (ap (λ (s : SetupBehaviour). s.transport_ids) same),
        sym (ap (λ (s : SetupBehaviour). s.app_public_keys) same),
      )

  module _ (channels : Channels) (listens_on : Multiaddr → Bool) {S : Type 0} (swarm : Swarm S)
      (size : Option ℕ) (ms : TimeoutMs) where
    default_wait-le :
        (timer : Option Duration) (life : Duration)
        → from_secs 300 ≤ life
        → (unwrap_or timer default_kad_timer_put_record_error ≤ life)
          ⊎ (timer ≡ some (unwrap_or timer default_kad_timer_put_record_error))
    default_wait-le none life h = inl h
    default_wait-le (some t) life h = inr refl

    -- libp2p keeps the records of a node's store for five minutes longer than the node waits before it
    -- publishes its record again after it has published it. After a publication that failed the node
    -- waits another time, which is no longer than libp2p keeps the records, unless it is one that the
    -- configuration names.
    pub ttl_outlives_republish :
        (f : Float S) (keypair_sign : ApplicationSigner) (validator : Option (Validator S))
        (b : Behaviour A B L (Option (List PeerId))) (n : Node.Node S) (buffers : Buffers)
        (deps : Deps) (existing : Option Bytes) (now : SystemTime)
        → behaviour_of libp2p cfg ≡ built b
        → (from_config f channels listens_on cfg swarm size keypair_sign validator ms).0
          ≡ started n buffers
        → (published failed : Duration) × ((handle_kademlia_event {R = Reply S} deps n existing
              put_record_ok now).effects
            ≡ republish_after published ∷ [])
          × ((handle_kademlia_event {R = Reply S} deps n existing put_record_failed now).effects
              ≡ republish_after failed ∷ [])
          × (b.kademlia.record_ttl ≡ some (published + from_secs 300))
          × ((failed ≤ published + from_secs 300) ⊎ (cfg.kad_timer_putrecorderror ≡ some failed))
    unfolding from_config handle_kademlia_event
    ttl_outlives_republish f keypair_sign validator b n buffers deps existing now made begun =
        let same = start-node channels listens_on cfg size _ n buffers begun in
        let ttl : n.config.kad_record_ttl ≡ cfg.kad_record_ttl =
          sym (ap (λ (m : Node.Node S). m.config.kad_record_ttl) same) in
        let timer : n.config.kad_timer_putrecorderror ≡ cfg.kad_timer_putrecorderror =
          sym (ap (λ (m : Node.Node S). m.config.kad_timer_putrecorderror) same) in
        (
          unwrap_or cfg.kad_record_ttl default_kad_record_ttl,
          unwrap_or cfg.kad_timer_putrecorderror default_kad_timer_put_record_error,
          rw ttl refl,
          rw timer refl,
          record_ttl-built b made,
          default_wait-le cfg.kad_timer_putrecorderror _ (omega arith),
        )

    module _ {Q : Type 0} (allowlist : List PublicKey) (signer : ApplicationSigner)
        (b : Behaviour A B L SetupBehaviour) (n : Byos.Node S Q) (buffers : Buffers)
        (made : setup_behaviour_of libp2p cfg signer ≡ built b)
        (begun : (byos_from_config channels listens_on cfg swarm b.own allowlist size signer ms).0
          ≡ started n buffers) where
      setup-begun : b.own ≡ n.setup
      unfolding byos_from_config
      setup-begun =
          ap (λ (m : Byos.Node S Q). m.setup)
            (start-node channels listens_on cfg size _ n buffers begun)

      limits-begun : limits_of cfg ≡ n.config.limits
      unfolding byos_from_config
      limits-begun =
          ap (λ (m : Byos.Node S Q). m.config.limits)
            (start-node channels listens_on cfg size _ n buffers begun)

      allowlist-begun : allowlist ≡ n.app_allowlist
      unfolding byos_from_config
      allowlist-begun =
          ap (λ (m : Byos.Node S Q). m.app_allowlist)
            (start-node channels listens_on cfg size _ n buffers begun)

      pub no_keys : (t : PeerId) → get_app_public_key_by_transport_id n.setup t ≡ none
      unfolding get_app_public_key_by_transport_id Map.get
      no_keys t = rw (← setup-begun, (setup-built signer b made).0)

      no_peers : (k : PublicKey) → get_transport_id_by_application_key n.setup k ≡ none
      unfolding get_transport_id_by_application_key Map.get
      no_peers k = rw (← setup-begun, (setup-built signer b made).1)

      pub begun-IsOwned : (owned : PeerId → PublicKey) → IsOwned owned n.setup
      unfolding IsBimap
      begun-IsOwned owned = record {
        bimap = λ t k. ground (arith, no_keys t, no_peers k);
        own = λ t k e. absurd (ground (arith, no_keys t));
      }

      -- From a node that has just been constructed, where no handler has failed: after any events, the
      -- application receives a request, where its channel takes it, exactly when the bytes are an
      -- authentic request for this node, by the configured limits on dates neither too old nor from
      -- the future, and it is signed by a key of the configured allowlist, which is the last one that
      -- the sender has announced since its last connection closed.
      pub heard_from_start :
          (q : Queue Q) (deps : Deps) (events : List (Event S)) (peer : PeerId) (bytes : Bytes)
          (at : ReqRespClock) (answer : Answer) (m : Bytes)
          → (listen q deps cfg.protocol_name n events).result ≡ ok
          → let after = (listen q deps cfg.protocol_name n events).state in
            (RequestDelivery.requested (handle_request deps after peer bytes at sent answer).effects
              ≡ m ∷ [])
            ↔ ((signed : SignedMessage RequestMessage) × RequestDelivery.IsAuthentic deps
                  (limits_of cfg)
                  after.swarm.local_peer_id
                  bytes
                  at.envelope
                  signed
                × (contains allowlist signed.message.public_key ≡ true)
                × (announced (λ t. none) events peer ≡ some signed.message.public_key)
                × (is_stale (limits_of cfg) at.age signed.message.date ≡ false)
                × (signed.message.message ≡ m))
      heard_from_start q deps events peer bytes at answer m fine =
          rw (limits-begun, allowlist-begun)
            (heard_iff q deps cfg.protocol_name n events peer bytes at answer m no_keys fine)

      -- Where each peer announces only its own key, and no two peers own the same one: after any
      -- events from a node that has just been constructed, the two maps of the setup behaviour are
      -- inverse to one another, and map peers to their own keys.
      pub begun-listen-IsOwned :
          (owned : PeerId → PublicKey)
          → ((s t : PeerId) → owned s ≡ owned t → s ≡ t)
          → (q : Queue Q) (deps : Deps) (events : List (Event S)) → AllAnnounceOwn owned events
          → IsOwned owned (listen q deps cfg.protocol_name n events).state.setup
      begun-listen-IsOwned owned distinct q deps events all =
          listen-IsOwned owned distinct q deps cfg.protocol_name n events all (begun-IsOwned owned)
