-- ===== src/Byos/Control/Targets.antt =====
-- Which peers the commands and the setup events of the feature `byos` reach.
use strata_p2p.Common.{
  ◌≡◌, ◌≢◌, ◌↔◌, Bool, true, Option, some, List, [], ◌∷◌, arith, contains, inl, inr, Option-cases,
  Bool-cases, ◌==◌, refl,
}
use strata_p2p.Ids.{PeerId, PublicKey, ConnectionId, QueryId}
use strata_p2p.P2p.{Deps, is_connected, disconnect_peer_id, reply, return_ok}
use strata_p2p.Setup.{
  SetupHandlerEvent, app_key_received, negotiation_failed, error_during_setup_handshake,
}
use strata_p2p.Setup.Behaviour.{get_transport_id_by_application_key}
use strata_p2p.Setup.Behaviour.Mapping.{IsBimap}
use strata_p2p.Byos.{Node, connected, connected_peers, is_allowed}
use strata_p2p.Byos.DialManager.{Queue}
use strata_p2p.Byos.Control.{
  filter_map, is_connected_key, handle_command, disconnect_from_peer, query_is_connected,
  query_connected_peers, handle_setup_event,
}

module _ (f : PeerId → Option PublicKey) (k : PublicKey) where
  found_of_filtered :
      (xs : List PeerId)
      → contains (filter_map f xs) k ≡ true
      → (t : PeerId) × (contains xs t ≡ true) × (f t ≡ some k)
  found_of_filtered [] got = absurd (ground arith)
  found_of_filtered (x ∷ xs) got = elim (Option-cases (f x)) [
    | inl e ↦
        let (t, inside, named) = found_of_filtered xs (ground arith) in (t, ground arith, named)
    | inr (j, e) ↦ elim (Bool-cases (j == k)) [
      | inl same ↦ (x, ground arith, ground arith)
      | inr other ↦
          let (t, inside, named) = found_of_filtered xs (ground arith) in (t, ground arith, named)
    ]
  ]

  filtered_of_found :
      (xs : List PeerId) (t : PeerId)
      → contains xs t ≡ true
      → f t ≡ some k
      → contains (filter_map f xs) k ≡ true
  filtered_of_found [] t inside e = absurd (ground arith)
  filtered_of_found (x ∷ xs) t inside e = ground (arith, filtered_of_found xs t)

module _ {S Q : Type 0} (q : Queue Q) (deps : Deps) (n : Node S Q) (conn : ConnectionId)
    (id : QueryId) where
  -- While the two maps of the setup behaviour are inverse to one another, a key is in the list of
  -- connected peers exactly when the query for that key says that it is connected.
  pub queries_agree :
      (k : PublicKey)
      → IsBimap n.setup
      → (keys : List PublicKey) × (is_there : Bool) × ((handle_command q deps n
            query_connected_peers conn id).effects
          ≡ reply (connected_peers keys) ∷ [])
        × ((handle_command q deps n (query_is_connected k) conn id).effects
            ≡ reply (connected is_there) ∷ [])
        × ((contains keys k ≡ true) ↔ (is_there ≡ true))
  unfolding handle_command is_connected_key IsBimap
  queries_agree k inv = (
    _,
    _,
    refl,
    refl,
    (
      λ listed.
          let (t, there, named) = found_of_filtered _ k n.swarm.connected_peers listed in
          rw (is_connected_key, (inv t k).0 named) there,
      λ is_there. elim (Option-cases (get_transport_id_by_application_key n.setup k)) [
        | inl e ↦ absurd (ground arith)
        | inr (t, e) ↦
            filtered_of_found _ k n.swarm.connected_peers t (ground arith) ((inv t k).1 e)
      ],
    ),
  )

  -- The query for a key that is mapped to a connected peer, and the command to disconnect its peer.
  pub reach-mapped :
      (t : PeerId) (k : PublicKey)
      → get_transport_id_by_application_key n.setup k ≡ some t
      → is_connected n.swarm t ≡ true
      → ((handle_command q deps n (query_is_connected k) conn id).effects
          ≡ reply (connected true) ∷ [])
        × (((handle_command q deps n (disconnect_from_peer k) conn id).effects
              ≡ disconnect_peer_id t ∷ [])
            ↔ (deps.to_peer_id k ≡ t))
  unfolding handle_command is_connected_key
  reach-mapped t k mapped there = (ground arith, (λ e. ground arith, λ e. ground arith))

-- A setup event of an allowed key does nothing, and every other setup event, and nothing else,
-- disconnects its peer.
setup_event_iff :
    {S Q : Type 0} (n : Node S Q) (t : PeerId) (conn : ConnectionId) (e : SetupHandlerEvent)
    → let step = handle_setup_event n (record { transport_id = t; conn_id = conn; event = e }) in
      ((step ≡ return_ok n [])
        ↔ ((k : PublicKey) × (e ≡ app_key_received k) × (is_allowed n k ≡ true)))
      × ((step ≢ return_ok n []) ↔ (step ≡ return_ok n (disconnect_peer_id t ∷ [])))
unfolding handle_setup_event
setup_event_iff n t conn (app_key_received k) = elim (Bool-cases (is_allowed n k)) [
  | inl allowed ↦
      rw allowed (
        (λ same. (k, refl, allowed), λ w. refl),
        (λ h. absurd (h refl), λ e. absurd (ground arith)),
      )
  | inr barred ↦ rw barred (
    (λ same. absurd (ground arith), λ w. absurd (ground arith)),
    (λ h. refl, λ e same. ground arith),
  )
]
setup_event_iff n t conn negotiation_failed = (
  (λ same. absurd (ground arith), λ w. absurd (ground arith)),
  (λ h. refl, λ e same. ground arith),
)
setup_event_iff n t conn (error_during_setup_handshake error) = (
  (λ same. absurd (ground arith), λ w. absurd (ground arith)),
  (λ h. refl, λ e same. ground arith),
)
