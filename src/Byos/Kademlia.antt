-- ===== src/Byos/Kademlia.antt =====
-- `ask_kademlia_get_record`, `ask_kademlia_put_record` and `handle_kademlia_event` of
-- crates/p2p/src/swarm/mod.rs with the feature `byos`: the DHT key is the application key.
pub mod Lookup
pub mod Reported
pub mod Published
use strata_p2p.Common.{
  Bool, false, Option, none, some, [], ◌∷◌, ◌==◌, if◌then◌else◌, unwrap_or, is_some_and,
}
use strata_p2p.Ids.{PublicKey, QueryId, Bytes}
use strata_p2p.Map
use strata_p2p.Time.{SystemTime}
use strata_p2p.P2p.{Step, Deps, get_record, store_put, republish_now, republish_after, return_ok}
use strata_p2p.P2p.Records.{
  record_to_store, file_record, finish_looking_for_dht_record, publish_record,
}
use strata_p2p.P2p.Kademlia.{
  KademliaEvent, inbound_put_record, found_record, get_record_finished, put_record_ok,
  put_record_failed, routing_updated, default_kad_record_ttl, default_kad_timer_put_record_error,
}
use strata_p2p.Byos.{Node, Reply}

unfoldable pub key_matches : Deps → PublicKey → Bytes → Bool
key_matches deps public_key key =
    is_some_and (deps.try_decode_protobuf key) (λ deser_key. public_key == deser_key)

module _ {S Q : Type 0} (deps : Deps) where
  unfoldable pub ask_kademlia_get_record : Node S Q → PublicKey → QueryId → Step (Node S Q) Reply
  ask_kademlia_get_record n app_public_key query_id =
      return_ok
        (record n {
          kademlia_map_received_records = Map.insert n.kademlia_map_received_records query_id [];
        })
        (get_record (deps.encode_protobuf app_public_key) ∷ [])

  unfoldable pub ask_kademlia_put_record : Node S Q → SystemTime → Step (Node S Q) Reply
  ask_kademlia_put_record n now =
      let public_key = n.config.app_public_key in
      publish_record deps n.signer n now public_key (deps.encode_protobuf public_key)
        n.swarm.external_addresses

  -- `existing` is what the record store holds under the key of an inbound record.
  unfoldable pub handle_kademlia_event :
      Node S Q → (existing : Option Bytes) → KademliaEvent → SystemTime → Step (Node S Q) Reply
  handle_kademlia_event n existing (inbound_put_record opt_record) now =
      elim (record_to_store deps n.config.limits (key_matches deps) now existing opt_record) [
        | none ↦ return_ok n []
        | some (key, value) ↦ return_ok n (store_put key value ∷ [])
      ]
  handle_kademlia_event n existing (found_record id key value) now =
      return_ok
        (record n {
          kademlia_map_received_records =
              file_record deps n.config.limits (key_matches deps) now
                n.kademlia_map_received_records id key value;
        })
        []
  handle_kademlia_event n existing (get_record_finished id) now =
      let (records, effects) = finish_looking_for_dht_record n.kademlia_map_received_records id in
      return_ok (record n { kademlia_map_received_records = records }) effects
  handle_kademlia_event n existing put_record_ok now =
      return_ok n (republish_after (unwrap_or n.config.kad_record_ttl default_kad_record_ttl) ∷ [])
  handle_kademlia_event n existing put_record_failed now = return_ok n (
      republish_after
        (unwrap_or n.config.kad_timer_putrecorderror default_kad_timer_put_record_error)
      ∷ [])
  handle_kademlia_event n existing routing_updated now =
      if n.kademlia_is_routing_updated_first_time
      then return_ok (record n { kademlia_is_routing_updated_first_time = false })
          (republish_now ∷ [])
      else return_ok n []
