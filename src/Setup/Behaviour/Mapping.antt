-- ===== src/Setup/Behaviour/Mapping.antt =====
-- The two maps of the behaviour against one another.
use strata_p2p.Common.{
  ℕ, suc, ◌≡◌, ◌≢◌, ◌↔◌, inl, inr, none, some, arith, Option-cases, ◌==◌, if◌then◌else◌,
}
use strata_p2p.Ids.{PeerId, PublicKey, ConnectionId}
use strata_p2p.Map
use strata_p2p.Setup.{app_key_received}
use strata_p2p.Setup.Behaviour.{
  SetupBehaviour, get_app_public_key_by_transport_id, get_transport_id_by_application_key,
  on_connection_closed, on_connection_handler_event,
}

-- Each map is the other one, read backwards.
unfoldable pub IsBimap : SetupBehaviour → Type 0
IsBimap b =
    (t : PeerId) (k : PublicKey)
    → (get_app_public_key_by_transport_id b t ≡ some k)
      ↔ (get_transport_id_by_application_key b k ≡ some t)

-- Neither the peer nor the key is mapped to another one.
pub record IsFresh (b : SetupBehaviour) (t : PeerId) (k : PublicKey) : Type 0 where
  pub only_key : (j : PublicKey) → get_app_public_key_by_transport_id b t ≡ some j → j ≡ k
  pub only_peer : (s : PeerId) → get_transport_id_by_application_key b k ≡ some s → s ≡ t

module _ (b : SetupBehaviour) (t : PeerId) where
  module _ (conn : ConnectionId) (k : PublicKey) where
    pub received_keys :
        (s : PeerId)
        → get_app_public_key_by_transport_id
            (on_connection_handler_event b t conn (app_key_received k))
            s
          ≡ (if t == s then some k else get_app_public_key_by_transport_id b s)
    unfolding get_app_public_key_by_transport_id on_connection_handler_event
    received_keys s = Map.get-insert b.transport_ids t s k

    received_ids :
        (j : PublicKey)
        → get_transport_id_by_application_key
            (on_connection_handler_event b t conn (app_key_received k))
            j
          ≡ (if k == j then some t else get_transport_id_by_application_key b j)
    unfolding get_transport_id_by_application_key on_connection_handler_event
    received_ids j = Map.get-insert b.app_public_keys k j t

    -- Where the two maps are inverse to one another, and a peer announces a key, neither of which is
    -- mapped to another one, the maps are inverse to one another afterwards.
    pub received-IsBimap :
        IsBimap b
        → IsFresh b t k
        → IsBimap (on_connection_handler_event b t conn (app_key_received k))
    unfolding IsBimap
    received-IsBimap inv fresh s j =
        rw (received_keys s, received_ids j)
          (ground (arith, inv s j, inv t j, inv s k, fresh.only_key j, fresh.only_peer s))

  pub closed_keys :
      (k : PublicKey) (s : PeerId)
      → get_app_public_key_by_transport_id b t ≡ some k
      → get_app_public_key_by_transport_id (on_connection_closed b t 0) s
        ≡ (if t == s then none else get_app_public_key_by_transport_id b s)
  unfolding get_app_public_key_by_transport_id on_connection_closed
  closed_keys k s e = rw e (Map.get-remove b.transport_ids t s)

  closed_ids :
      (k j : PublicKey)
      → get_app_public_key_by_transport_id b t ≡ some k
      → get_transport_id_by_application_key (on_connection_closed b t 0) j
        ≡ (if k == j then none else get_transport_id_by_application_key b j)
  unfolding get_app_public_key_by_transport_id get_transport_id_by_application_key
      on_connection_closed
  closed_ids k j e = rw e (Map.get-remove b.app_public_keys k j)

  pub still_connected : (left : ℕ) → on_connection_closed b t (suc left) ≡ b
  unfolding on_connection_closed
  still_connected left = ground arith

  pub closed_unmapped :
      get_app_public_key_by_transport_id b t ≡ none → on_connection_closed b t 0 ≡ b
  unfolding get_app_public_key_by_transport_id on_connection_closed
  closed_unmapped e = rw e

  -- Where the two maps are inverse to one another, and the last connection to a peer closes, they
  -- are so afterwards, and neither of them names the peer.
  pub closed-IsBimap :
      IsBimap b
      → IsBimap (on_connection_closed b t 0)
        × (get_app_public_key_by_transport_id (on_connection_closed b t 0) t ≡ none)
        × ((k : PublicKey)
            → get_transport_id_by_application_key (on_connection_closed b t 0) k ≢ some t)
  unfolding IsBimap
  closed-IsBimap inv = elim (Option-cases (get_app_public_key_by_transport_id b t)) [
    | inl e ↦ rw (closed_unmapped e) (inv, e, λ k h. ground (arith, inv t k))
    | inr (k, e) ↦ (
      λ s j. rw (closed_keys k s e, closed_ids k j e) (ground (arith, inv s j, inv t j, inv s k)),
      rw (closed_keys k t e) (ground arith),
      λ j h. ground (arith, closed_ids k j e, inv t j),
    )
  ]

-- Where two peers have announced the same key in turn, closing the last connection to the first one
-- loses the way from the key to the second one, which is still mapped to that key.
pub shared_key_lost :
    (b : SetupBehaviour) (first second : PeerId) (c d : ConnectionId) (key : PublicKey)
    → first ≢ second
    → let announced =
        on_connection_handler_event
          (on_connection_handler_event b first c (app_key_received key))
          second
          d
          (app_key_received key) in
      (get_transport_id_by_application_key announced key ≡ some second)
      × (get_transport_id_by_application_key (on_connection_closed announced first 0) key ≡ none)
      × (get_app_public_key_by_transport_id (on_connection_closed announced first 0) second
          ≡ some key)
shared_key_lost b first second c d key distinct =
    let once = on_connection_handler_event b first c (app_key_received key) in
    let twice = on_connection_handler_event once second d (app_key_received key) in
    let named : get_app_public_key_by_transport_id twice first ≡ some key =
      rw (received_keys once second d key first, received_keys b first c key first)
        (ground arith) in
    (
      rw (received_ids once second d key key) (ground arith),
      rw (closed_ids twice first key key named) (ground arith),
      rw (closed_keys twice first key second named, received_keys once second d key second)
          (ground arith),
    )
