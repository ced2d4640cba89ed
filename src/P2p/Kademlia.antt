-- ===== src/P2p/Kademlia.antt =====
-- `ask_kademlia_get_record`, `ask_kademlia_put_record` and `handle_kademlia_event` of
-- crates/p2p/src/swarm/mod.rs without the feature `byos`: the DHT key is the transport id.
use strata_p2p.Common.{
  ◌*◌, Bool, false, Option, none, some, [], ◌∷◌, ◌==◌, if◌then◌else◌, unwrap_or, is_some_and,
}
use strata_p2p.Ids.{PeerId, PublicKey, QueryId, Bytes}
use strata_p2p.Map
use strata_p2p.Time.{SystemTime, Duration, from_secs}
use strata_p2p.P2p.{Step, Deps, get_record, store_put, republish_now, republish_after, return_ok}
use strata_p2p.P2p.Node.{Node}
use strata_p2p.P2p.Records.{
  record_to_store, file_record, finish_looking_for_dht_record, publish_record,
}

abbrev pub default_kad_record_ttl : Duration
default_kad_record_ttl = from_secs (60 * 60)

abbrev pub default_kad_timer_put_record_error : Duration
default_kad_timer_put_record_error = from_secs (5 * 60)

pub data KademliaEvent : Type 0 where
  inbound_put_record : Option (Bytes × Bytes) → KademliaEvent
  found_record : QueryId → Bytes → Bytes → KademliaEvent
  -- `FinishedWithNoAdditionalRecord`, `Timeout` and `NotFound`
  get_record_finished : QueryId → KademliaEvent
  put_record_ok : KademliaEvent
  -- `Timeout` and `QuorumFailed`
  put_record_failed : KademliaEvent
  routing_updated : KademliaEvent

unfoldable pub key_matches : Deps → PublicKey → Bytes → Bool
key_matches deps public_key key =
    is_some_and (deps.peer_id_from_bytes key) (λ peer_id. deps.to_peer_id public_key == peer_id)

module _ {S : Type 0} {R : Type 0} (deps : Deps) where
  -- `query_id` is the one that libp2p gives the query.
  unfoldable pub ask_kademlia_get_record : Node S → PeerId → QueryId → Step (Node S) R
  ask_kademlia_get_record n transport_id query_id =
      return_ok
        (record n {
          kademlia_map_received_records = Map.insert n.kademlia_map_received_records query_id [];
        })
        (get_record (deps.peer_id_to_bytes transport_id) ∷ [])

  unfoldable pub ask_kademlia_put_record : Node S → SystemTime → Step (Node S) R
  ask_kademlia_put_record n now =
      let public_key = n.config.transport_public_key in
      publish_record deps n.signer n now public_key
        (deps.peer_id_to_bytes (deps.to_peer_id public_key)) n.swarm.external_addresses

  -- `existing` is what the record store holds under the key of an inbound record.
  unfoldable pub handle_kademlia_event :
      Node S → (existing : Option Bytes) → KademliaEvent → SystemTime → Step (Node S) R
  handle_kademlia_event n existing (inbound_put_record opt_record) now =
      elim (record_to_store deps n.config.limits (key_matches deps) now existing opt_record) [
        | none ↦ return_ok n []
        | some (key, value) ↦ return_ok n (store_put key value ∷ [])
      ]
  handle_kademlia_event n existing (found_record id key value) now =
      return_ok
        (record n {
          kademlia_map_received_records =
              file_record deps n.config.limits (key_matches deps) now
                n.kademlia_map_received_records id key value;
        })
        []
  handle_kademlia_event n existing (get_record_finished id) now =
      let (records, effects) = finish_looking_for_dht_record n.kademlia_map_received_records id in
      return_ok (record n { kademlia_map_received_records = records }) effects
  handle_kademlia_event n existing put_record_ok now =
      return_ok n (republish_after (unwrap_or n.config.kad_record_ttl default_kad_record_ttl) ∷ [])
  handle_kademlia_event n existing put_record_failed now = return_ok n (
      republish_after
        (unwrap_or n.config.kad_timer_putrecorderror default_kad_timer_put_record_error)
      ∷ [])
  handle_kademlia_event n existing routing_updated now =
      if n.kademlia_is_routing_updated_first_time
      then return_ok (record n { kademlia_is_routing_updated_first_time = false })
          (republish_now ∷ [])
      else return_ok n []
