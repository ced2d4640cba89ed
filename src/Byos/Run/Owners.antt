-- ===== src/Byos/Run/Owners.antt =====
-- The two maps of the setup behaviour against one another, over all events.
use Prim.Native.String.{String}
use strata_p2p.Common.{
  ℕ, zero, suc, ◌≡◌, refl, sym, ◌∙◌, Option, some, List, [], ◌∷◌, arith, subst, Option-cases, inl,
  inr,
}
use strata_p2p.Ids.{PeerId, PublicKey, ConnectionId}
use strata_p2p.P2p.{Step, Deps, P2PResult, ok, err, panicked}
use strata_p2p.Setup.{app_key_received, negotiation_failed, error_during_setup_handshake}
use strata_p2p.Setup.Behaviour
use strata_p2p.Setup.Behaviour.{
  SetupBehaviour, get_app_public_key_by_transport_id, get_transport_id_by_application_key,
}
use strata_p2p.Setup.Behaviour.Mapping.{
  IsBimap, closed_unmapped, closed_keys, still_connected, received_keys, received-IsBimap,
  closed-IsBimap,
}
use strata_p2p.Byos.{Node, Reply}
use strata_p2p.Byos.DialManager.{Queue}
use strata_p2p.Byos.Run.{Event, handle, proceed, listen}
use strata_p2p.Byos.Run.Setups.{setup_after, handle-setup}

mapped_back :
    (b : SetupBehaviour)
    → IsBimap b
    → (s : PeerId) (k : PublicKey) → get_transport_id_by_application_key b k ≡ some s
    → get_app_public_key_by_transport_id b s ≡ some k
unfolding IsBimap
mapped_back b inv s k m = (inv s k).1 m

module _ (owned : PeerId → PublicKey) where
  -- The event announces no key, or the one that is the peer's own.
  abbrev pub AnnouncesOwn : {S : Type 0} → Event S → Type 0
  AnnouncesOwn (Event.setup_handler peer conn_id (app_key_received key)) = key ≡ owned peer
  AnnouncesOwn event = Unit {0}

  abbrev pub AllAnnounceOwn : {S : Type 0} → List (Event S) → Type 0
  AllAnnounceOwn [] = Unit {0}
  AllAnnounceOwn (event ∷ events) = AnnouncesOwn event × AllAnnounceOwn events

  -- The maps are inverse to one another, and map peers to their own keys.
  pub record IsOwned (b : SetupBehaviour) : Type 0 where
    pub bimap : IsBimap b
    pub own :
        (t : PeerId) (k : PublicKey) → get_app_public_key_by_transport_id b t ≡ some k → k ≡ owned t

  module _ (distinct : (s t : PeerId) → owned s ≡ owned t → s ≡ t) where
    received-IsOwned :
        (b : SetupBehaviour) (t : PeerId) (conn : ConnectionId) (k : PublicKey)
        → k ≡ owned t
        → IsOwned b
        → IsOwned (Behaviour.on_connection_handler_event b t conn (app_key_received k))
    received-IsOwned b t conn k e h = record {
      bimap = received-IsBimap b t conn k h.bimap (record {
        only_key = λ j m. h.own t j m ∙ sym e;
        only_peer = λ s m. distinct s t (sym (h.own s k (mapped_back b h.bimap s k m)) ∙ e);
      });
      own = λ s j m. ground (arith, received_keys b t conn k s, e, h.own s j);
    }

    closed-IsOwned :
        (b : SetupBehaviour) (t : PeerId) (left : ℕ)
        → IsOwned b
        → IsOwned (Behaviour.on_connection_closed b t left)
    closed-IsOwned b t (suc left) h = rw (still_connected b t left) h
    closed-IsOwned b t zero h = record {
      bimap = (closed-IsBimap b t h.bimap).0;
      own = λ s j m. elim (Option-cases (get_app_public_key_by_transport_id b t)) [
        | inl e ↦
            h.own s j (
              subst (λ c. get_app_public_key_by_transport_id c s ≡ some j) (closed_unmapped b t e)
                m)
        | inr (k, e) ↦ ground (arith, closed_keys b t k s e, h.own s j)
      ];
    }

    same-IsOwned :
        (b c : SetupBehaviour)
        → b.transport_ids ≡ c.transport_ids
        → b.app_public_keys ≡ c.app_public_keys
        → IsOwned b
        → IsOwned c
    unfolding IsBimap get_app_public_key_by_transport_id get_transport_id_by_application_key
    same-IsOwned b c e d h = record {
      bimap = λ s k. rw (← e, ← d) (h.bimap s k);
      own = λ s k. rw (← e) (h.own s k);
    }

    setup_after-IsOwned :
        {S : Type 0} (b : SetupBehaviour) (event : Event S)
        → AnnouncesOwn event
        → IsOwned b
        → IsOwned (setup_after b event)
    unfolding setup_after
    setup_after-IsOwned b (Event.setup_handler peer conn (app_key_received key)) e h =
        received-IsOwned b peer conn key e h
    setup_after-IsOwned b (Event.setup_handler peer conn negotiation_failed) e h =
        same-IsOwned b _ (unfold Behaviour.on_connection_handler_event in refl)
          (unfold Behaviour.on_connection_handler_event in refl) h
    setup_after-IsOwned b (Event.setup_handler peer conn (error_during_setup_handshake x)) e h =
        same-IsOwned b _ (unfold Behaviour.on_connection_handler_event in refl)
          (unfold Behaviour.on_connection_handler_event in refl) h
    setup_after-IsOwned b Event.setup_poll e h =
        same-IsOwned b _ (unfold Behaviour.poll in ground arith)
          (unfold Behaviour.poll in ground arith) h
    setup_after-IsOwned b (Event.disconnected peer left) e h = closed-IsOwned b peer left h
    setup_after-IsOwned b (Event.gossip_message source id bytes now receivers) e h = h
    setup_after-IsOwned b event e h = h

    module _ {S Q : Type 0} (q : Queue Q) (deps : Deps) (name : Option String) where
      proceed-IsOwned :
          (r : P2PResult) (first rest : Step (Node S Q) Reply)
          → IsOwned first.state.setup
          → IsOwned rest.state.setup
          → IsOwned (proceed q deps name r first rest).state.setup
      unfolding proceed
      proceed-IsOwned ok first rest h k = k
      proceed-IsOwned (err x) first rest h k = h
      proceed-IsOwned panicked first rest h k = h

      -- Where each peer announces only its own key, and no two peers own the same one: if the two
      -- maps are inverse to one another and map peers to their own keys, they do so after any
      -- events.
      pub listen-IsOwned :
          (n : Node S Q) (events : List (Event S))
          → AllAnnounceOwn events
          → IsOwned n.setup
          → IsOwned (listen q deps name n events).state.setup
      unfolding listen
      listen-IsOwned n [] all h = h
      listen-IsOwned n (event ∷ events) all h =
          let step = handle q deps name n event in
          let now : IsOwned step.state.setup =
            subst IsOwned (sym (handle-setup q deps name n event))
              (setup_after-IsOwned n.setup event all.0 h) in
          proceed-IsOwned step.result step (listen q deps name step.state events) now
            (listen-IsOwned step.state events all.1 now)
